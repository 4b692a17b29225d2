-- ===== src/Service/Methods.antt =====
-- The methods of a run's handle, as they change one run (src/z_apply_core/integrations/service.py). What they
-- do to the workspace is in Service/Core.
use z_apply_core.Prelude.{
  ℕ, String, Bool, true, false, not, ◌⊎◌, inl, inr, Option, none, some, List, [], ◌∷◌, ◌++◌,
  is_blank, is_some, leb, length, mem_str, strip, take_text, if◌then◌else◌,
}
use Prim.Native.String.{count}
use z_apply_core.Payload.Json.{text, Entries, no_entries, entry}
use z_apply_core.Service.View.{
  RunStatus, RunPhase, RunOutcome, BrowserControlMode, BrowserTabState, nullable,
}
use z_apply_core.Service.Run.{Run, Task, ContextMessage, Python, new_sink, emit, emit_core}
use z_apply_core.Service.Requests.{
  Error, invalid_run_transition, value_error, queue_full, is_terminal,
}
use z_apply_core.Service.Execute.{terminal, close_tab}

-- `StartRunRequest`
pub record StartRunRequest : Type 0 where
  pub job_url : String
  pub task : Option String
  pub provider : Option String
  pub model : Option String

-- `DEFAULT_TASK`
abbrev default_task : String
default_task =
    "Complete the job application carefully, ask only for unavailable candidate facts, verify the review, and require human approval before final submission."

abbrev given_task : Option String → String
given_task none = default_task
given_task (some t) = if is_blank t then default_task else t

-- `_Run.__init__`; the gateway, and the names of the model and the provider, are made elsewhere.
unfoldable pub new_run :
    ℕ → String → Option String → Option String → Option String → StartRunRequest → Run
new_run now run_id gateway model provider request = record {
  view = record {
    run_id = run_id;
    job_url = request.job_url;
    task = some (given_task request.task);
    company = none;
    role = none;
    status = RunStatus.queued;
    phase = RunPhase.queued;
    outcome = none;
    summary = none;
    current_agent = none;
    current_model = model;
    current_provider = provider;
    browser_tab_state = BrowserTabState.pending;
    control_mode = BrowserControlMode.agent_control;
    pending_human_request_id = none;
    latest_event_sequence = 0;
    created_at = now;
    started_at = none;
    finished_at = none;
    current_reasoning = "on";
    current_reasoning_effort = some "high";
  };
  sequence = 0;
  events = [];
  live_events = [];
  provider = gateway;
  task = Task.no_task;
  has_retention = false;
  done = none;
  human_requests = [];
  artifacts = [];
  context_inbox = [];
  has_broker = false;
  sink = new_sink;
}

-- The end of `start_run`.
unfoldable pub queue_run : Python → ℕ → Run → Run
unfolding emit
queue_run py now run =
    emit_core py now "run.queued" (entry "job_url" (text run.view.job_url) no_entries) run

-- The end of `focus_run`.
unfoldable pub page_focused : Python → ℕ → Run → Run
unfolding emit
page_focused py now run = emit_core py now "browser.page_focused" no_entries run

-- The end of `take_browser_control`.
unfoldable pub control_taken : Python → ℕ → Run → Run
unfolding emit
control_taken py now run = emit_core py now "browser.control_taken" no_entries (record run {
  view = record run.view {
    status = RunStatus.human_control;
    control_mode = BrowserControlMode.human_control;
  };
})

abbrev pub returned_status : Option String → RunStatus
returned_status none = RunStatus.running
returned_status (some id) = RunStatus.waiting_human

-- The end of `return_browser_control`.
unfoldable pub snapshot_refreshed : Python → ℕ → String → Run → Run
unfolding emit
snapshot_refreshed py now evidence run =
    let back = record run {
      view = record run.view {
        status = returned_status run.view.pending_human_request_id;
        control_mode = BrowserControlMode.agent_control;
      };
    } in
    emit_core py now "browser.snapshot_refreshed"
      (entry "excerpt" (text (take_text 500 evidence)) no_entries) back

unfoldable pub control_returned : Python → ℕ → String → Run → Run
unfolding emit snapshot_refreshed
control_returned py now evidence run =
    emit_core py now "browser.control_returned" no_entries (snapshot_refreshed py now evidence run)

-- `close_run_browser`
unfoldable pub close_page : Python → ℕ → Run → Error ⊎ Run
unfolding emit
close_page py now run =
    if is_terminal run.view.status
    then inr (
        emit_core py now "browser.page_closed" no_entries (record run {
          view = record run.view { browser_tab_state = BrowserTabState.closed };
          has_retention = false;
        }))
    else inl invalid_run_transition

abbrev pub max_pending : ℕ
max_pending = 32

-- `send_context`, with `ContextInbox.put`.
unfoldable pub send_context : Python → ℕ → String → String → Run → Error ⊎ Run
unfolding emit strip
send_context py now content source run =
    let normalized = strip content in
    if is_terminal run.view.status
    then inl invalid_run_transition
    else if is_blank normalized
    then inl value_error
    else if not (leb (count normalized) 8000)
    then inl value_error
    else if leb max_pending (length run.context_inbox)
    then inl queue_full
    else inr (
        emit py now "context.received"
          (entry "source" (text source) (entry "content" (text normalized) no_entries))
          (("component", "human") ∷ ("agent", source) ∷ []) "info"
          (record run {
            context_inbox =
                run.context_inbox ++ (record { content = normalized; source = source } ∷ []);
          }))

-- `ContextInbox.drain`, which the run's agent calls.
unfoldable pub drain : Run → List ContextMessage × Run
drain run = (run.context_inbox, record run { context_inbox = [] })

abbrev non_blank : String → Option String
non_blank s = if is_blank s then none else some s

-- `switch_run_model` where the gateway switches: `gateway` is its name afterwards, `resolved` the model
-- asked for or the default one of the provider.
unfoldable pub switch_model : Python → ℕ → String → String → String → Run → Error ⊎ Run
unfolding emit
switch_model py now gateway provider resolved run =
    if is_terminal run.view.status
    then inl invalid_run_transition
    else inr (
        emit_core py now "model.switched"
          (entry "provider" (text provider) (entry "model" (text resolved) no_entries))
          (record run {
            provider = some gateway;
            view = record run.view {
              current_model = non_blank resolved;
              current_provider = some provider;
            };
          }))

abbrev pub reasoning_modes : List String
reasoning_modes = "auto" ∷ "off" ∷ "on" ∷ []

abbrev reasoning_efforts : List String
reasoning_efforts = "low" ∷ "medium" ∷ "high" ∷ "max" ∷ []

abbrev pub is_effort : Option String → Bool
is_effort none = true
is_effort (some e) = mem_str e reasoning_efforts

-- `set_run_reasoning`
unfoldable pub set_reasoning : Python → ℕ → String → Option String → Run → Error ⊎ Run
unfolding emit
set_reasoning py now reasoning effort run =
    if is_terminal run.view.status
    then inl invalid_run_transition
    else if not (mem_str reasoning reasoning_modes)
    then inl value_error
    else if not (is_effort effort)
    then inl value_error
    else if not (is_some run.provider)
    then inl value_error
    else inr (
        emit_core py now "reasoning.updated"
          (entry "reasoning" (text reasoning)
            (entry "reasoning_effort" (nullable text effort) no_entries))
          (record run {
            view = record run.view {
              current_reasoning = reasoning;
              current_reasoning_effort = effort;
            };
          }))

abbrev pub is_closed : BrowserTabState → Bool
is_closed BrowserTabState.closed = true
is_closed _ = false

-- `shutdown_browser_workspace`, for one run.
unfoldable pub shut_down : Python → ℕ → Run → Run
unfolding close_tab
shut_down py now run =
    if is_closed run.view.browser_tab_state then run else close_tab py now "shutdown" run

abbrev pub has_task : Task → Bool
has_task Task.no_task = false
has_task _ = true

-- `_cancel`; that a task is cancelled is a step of its own.
unfoldable pub cancel : Python → ℕ → Option Entries → Run → Error ⊎ Run
unfolding emit terminal
cancel py now ledger run =
    if is_terminal run.view.status
    then inl invalid_run_transition
    else (let asked = emit_core py now "run.cancel_requested" no_entries run in
        if has_task run.task
        then inr asked
        else inr (
            terminal py now RunOutcome.cancelled "Run cancelled before execution." no_entries ledger
              asked))
