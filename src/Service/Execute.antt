-- ===== src/Service/Execute.antt =====
-- `_execute`, cut where it waits, with `_terminal` and `_schedule_retained_browser_release`, as they change
-- one run (src/z_apply_core/integrations/service.py). What they do to the workspace is in Service/Core.
use z_apply_core.Prelude.{
  ℕ, String, Bool, true, false, not, ◌&&◌, Option, none, some, is_blank, str_eq, is_some,
  if◌then◌else◌,
}
use Prim.Native.String.{◌++◌ as ◌|++|◌}
use z_apply_core.Payload.Json.{text, Entries, no_entries, entry, put_entry}
use z_apply_core.Service.View.{
  RunStatus, RunPhase, RunOutcome, BrowserTabState, CoreRunView, outcome_value,
}
use z_apply_core.Service.Run.{
  Run, Task, CoreRunResult, GraphSink, new_sink, Python, emit, emit_core, core_source,
}
use z_apply_core.Service.Requests.{is_terminal}

-- The first part of `_execute`, before its `try`.
unfoldable pub begin_run : Python → ℕ → Run → Run
unfolding emit
begin_run py now run = emit_core py now "run.started" no_entries (record run {
  view = record run.view {
    status = RunStatus.starting;
    phase = RunPhase.setup;
    started_at = some now;
  };
  task = Task.announcing;
})

-- The browser of the run is open.
unfoldable pub page_opened : Python → ℕ → Run → Run
unfolding emit
page_opened py now run =
    emit_core py now "browser.page_opened" no_entries
      (record run { view = record run.view { browser_tab_state = BrowserTabState.opened } })

-- `_capture_title_metadata`, with the role and the company that the title names.
unfoldable pub capture_title_metadata : Option (String × String) → Run → Run
capture_title_metadata none run = run
capture_title_metadata (some (role, company)) run =
    if is_some run.view.company
    then run
    else if is_some run.view.role
    then run
    else record run { view = record run.view { company = some company; role = some role } }

-- `_metadata_reporter`
unfoldable pub report_metadata : String → String → Run → Run
report_metadata company role run = record run {
  view = record run.view { company = some company; role = some role };
}

abbrev provider_or : String → Option String → Option String
provider_or gateway none = some gateway
provider_or gateway (some name) = some name

-- From the broker to the call of `run_job`; `gateway` is the name of the gateway that the request asks for.
unfoldable pub enter_running : Python → ℕ → Run → Run
unfolding emit
enter_running py now run =
    emit_core py now "run.phase_changed" (entry "phase" (text "authentication") no_entries)
      (record run {
        view = record run.view { status = RunStatus.running; phase = RunPhase.authentication };
        has_broker = true;
      })

unfoldable pub begin_job : Python → ℕ → String → Run → Run
unfolding enter_running
begin_job py now gateway run =
    let started = enter_running py now run in
    record started {
      provider = provider_or gateway started.provider;
      sink = new_sink;
      task = Task.working;
    }

-- The state that `run_job` returns.
pub record JobState : Type 0 where
  pub run_status : Option String
  pub orchestrator_summary : Option String
  pub auth_summary : Option String

abbrev given : Option String → String → String
given none other = other
given (some s) other = if is_blank s then other else s

abbrev pub status_of : JobState → String
status_of s = elim s.run_status [ none ↦ "failed" | some t ↦ t ]

unfoldable pub summary_of : JobState → String
summary_of s = given s.orchestrator_summary (given s.auth_summary (status_of s))

unfoldable pub claimed_outcome : String → RunOutcome
claimed_outcome status =
    if str_eq status "completed"
    then RunOutcome.submitted_verified
    else if str_eq status "incomplete"
    then RunOutcome.blocked
    else if str_eq status "blocked"
    then RunOutcome.blocked
    else RunOutcome.failed

abbrev pub is_submitted : RunOutcome → Bool
is_submitted RunOutcome.submitted_verified = true
is_submitted _ = false

-- The outcome gate, and the summary.
unfoldable pub job_outcome : GraphSink → JobState → RunOutcome × String
unfolding claimed_outcome summary_of
job_outcome sink s =
    let outcome = claimed_outcome (status_of s) in
    if is_submitted outcome && not sink.submission_completed
    then (
      RunOutcome.blocked,
      "unverified submission: agent reported completion but no guarded submit click completed. "
          |++| summary_of s,
    )
    else (outcome, summary_of s)

abbrev pub finished : ℕ → RunOutcome → String → BrowserTabState → CoreRunView → CoreRunView
finished now outcome summary tab view = record view {
  status = RunStatus.terminal;
  phase = RunPhase.terminal;
  outcome = some outcome;
  summary = some summary;
  finished_at = some now;
  browser_tab_state = tab;
}

-- The event of `_emit_run_ledger`, if the ledger has a call.
unfoldable pub emit_run_ledger : Python → ℕ → Option Entries → Run → Run
unfolding emit
emit_run_ledger py now none run = run
emit_run_ledger py now (some ledger) run = emit_core py now "run.ledger" ledger run

abbrev pub terminal_payload : RunOutcome → String → Entries
terminal_payload outcome summary =
    entry "outcome" (text (outcome_value outcome)) (entry "summary" (text summary) no_entries)

-- `_execute` once `run_job` has returned, up to the result of the run.
unfoldable pub finish_job : Python → ℕ → JobState → Option Entries → Run → Run
unfolding emit job_outcome emit_run_ledger
finish_job py now s ledger run =
    let (outcome, summary) = job_outcome run.sink s in
    let tab = if is_submitted outcome then BrowserTabState.closed else BrowserTabState.opened in
    let over = record run {
      view = finished now outcome summary tab run.view;
      task = Task.finishing;
    } in
    emit_core py now "run.terminal" (terminal_payload outcome summary)
      (emit_run_ledger py now ledger over)

abbrev result_of : RunOutcome → String → ℕ → ℕ → CoreRunResult
result_of outcome summary finished_at event_count = record {
  outcome = outcome;
  summary = summary;
  finished_at = finished_at;
  event_count = event_count;
}

-- A future is set once.
abbrev first_result : CoreRunResult → Option CoreRunResult → Option CoreRunResult
first_result result none = some result
first_result result (some earlier) = some earlier

-- The end of `_execute` without an exception: the result, and the end of the task.
unfoldable pub report_result : ℕ → RunOutcome → String → ℕ → Run → Run
report_result now outcome summary event_count run = record run {
  done = first_result (result_of outcome summary now event_count) run.done;
  task = Task.ended;
}

abbrev pub is_opened : BrowserTabState → Bool
is_opened BrowserTabState.opened = true
is_opened _ = false

abbrev pub is_cancelled : RunOutcome → Bool
is_cancelled RunOutcome.cancelled = true
is_cancelled _ = false

unfoldable pub close_tab : Python → ℕ → String → Run → Run
unfolding emit
close_tab py now reason run =
    emit_core py now "browser.closed" (entry "reason" (text reason) no_entries)
      (record run { view = record run.view { browser_tab_state = BrowserTabState.closed } })

-- `_schedule_retained_browser_release`
unfoldable pub schedule_retained_browser_release : Python → ℕ → RunOutcome → Run → Run
unfolding close_tab
schedule_retained_browser_release py now outcome run =
    if not (is_opened run.view.browser_tab_state)
    then run
    else if is_cancelled outcome
    then close_tab py now "cancelled" run
    else if is_submitted outcome
    then run
    else record run { has_retention = true }

-- `auto_release`, after its sleep.
unfoldable pub auto_release : Python → ℕ → Run → Run
unfolding close_tab
auto_release py now run =
    if is_terminal run.view.status && is_opened run.view.browser_tab_state
    then close_tab py now "retention_ttl" run
    else run

abbrev pub failure_level : RunOutcome → String
failure_level RunOutcome.failed = "error"
failure_level _ = "info"

abbrev pub with_entries : Entries → Entries → Entries
with_entries no_entries into = into
with_entries (entry k v es) into = with_entries es (put_entry k v into)

-- `_terminal`
unfoldable pub terminal : Python → ℕ → RunOutcome → String → Entries → Option Entries → Run → Run
unfolding emit emit_run_ledger schedule_retained_browser_release put_entry
terminal py now outcome summary payload ledger run =
    let over = record run {
      view = finished now outcome summary run.view.browser_tab_state run.view;
    } in
    let told =
      emit py now "run.terminal" (with_entries payload (terminal_payload outcome summary))
        core_source (failure_level outcome) (emit_run_ledger py now ledger over) in
    let released = schedule_retained_browser_release py now outcome told in
    record released {
      done = first_result (result_of outcome summary now released.sequence) released.done;
    }
