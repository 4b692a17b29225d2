-- ===== src/Service/Steps.antt =====
-- What may happen to one run (src/z_apply_core/integrations/service.py): its task, its job, the people, and the
-- clients. A step of the relation is an operation of the code with its emissions: each takes its number and
-- makes its event in the step; whether and when the event gets to the observers, `Delivered` says.
-- Where an emission raises or is cancelled, its operation goes no further: that is the step `accept_waits`
-- for the sink, `escapes`, `fails` and `cancelled` for the task; an operation of a client is
-- taken whole.
use z_apply_core.Prelude.{ℕ, String, ◌≡◌, Bool, true, false, Option, inr}
use z_apply_core.Payload.Json.{Entries, no_entries}
use z_apply_core.Broker.Request.{BrokerRequest}
use z_apply_core.Service.View.{RunStatus, RunOutcome, BrowserControlMode, BrowserTabState}
use z_apply_core.Service.Run.{Run, Task, Python, CoreArtifact, artifact_created}
use z_apply_core.Service.Requests.{human_requested, human_resolved}
use z_apply_core.Service.Sink.{accept, accept_cut, after_phase, reports_phase}
use z_apply_core.Service.Execute.{
  begin_run, page_opened, capture_title_metadata, report_metadata, begin_job, JobState, finish_job,
  report_result, auto_release, terminal,
}
use z_apply_core.Service.Title.{role_company_from_title}
use z_apply_core.Service.Methods.{
  queue_run, page_focused, control_taken, control_returned, close_page, send_context, drain,
  switch_model, set_reasoning, shut_down, cancel,
}

-- A task that the scheduler may start again, since its run is queued.
abbrev pub is_idle : Task → Bool
is_idle Task.no_task = true
is_idle Task.ended = true
is_idle _ = false

-- Inside the `try` of `_execute`.
abbrev pub is_guarded : Task → Bool
is_guarded Task.opening = true
is_guarded Task.working = true
is_guarded Task.finishing = true
is_guarded _ = false

-- Before that.
abbrev pub is_unguarded : Task → Bool
is_unguarded Task.created = true
is_unguarded Task.announcing = true
is_unguarded _ = false

abbrev pub set_task : Task → Run → Run
set_task t r = record r { task = t }

-- `fails` is the handler of an exception and `cancelled` that of a cancellation; `escapes` is either of them
-- where there is no handler yet.
pub data RunStep (py : Python) (r : Run) : Run → Type 0 where
  queues : (now : ℕ) → RunStep py r (queue_run py now r)
  schedules :
      r.view.status ≡ RunStatus.queued
      → is_idle r.task ≡ true
      → RunStep py r (set_task Task.created r)
  begins : (now : ℕ) → r.task ≡ Task.created → RunStep py r (begin_run py now r)
  announced : r.task ≡ Task.announcing → RunStep py r (set_task Task.opening r)
  escapes : is_unguarded r.task ≡ true → RunStep py r (set_task Task.ended r)
  opens : (now : ℕ) → r.task ≡ Task.opening → RunStep py r (page_opened py now r)
  titles :
      (title : String)
      → r.task ≡ Task.opening
      → RunStep py r (capture_title_metadata (role_company_from_title title) r)
  starts :
      (now : ℕ) (gateway : String)
      → r.task ≡ Task.opening
      → RunStep py r (begin_job py now gateway r)
  reports :
      (company role : String)
      → r.task ≡ Task.working
      → RunStep py r (report_metadata company role r)
  -- The report of a click comes in a task of its own, which may run when the job has returned; so a report
  -- may come at any time here, even before the job, when the source has no sink yet.
  accepts :
      (now : ℕ) (name event : String) (state : Entries)
      → RunStep py r (accept py now name event state r)
  -- An `accept` that waits, or is cut off, in its emission of the phase.
  accept_waits :
      (now : ℕ) (name event : String) (state : Entries)
      → reports_phase py name event state r ≡ true
      → RunStep py r (accept_cut py now name event state r)
  -- An `accept` that has waited there goes on. Here that may come at any time.
  accept_resumes :
      (now : ℕ) (kind agent : String) (payload : Entries)
      → RunStep py r (after_phase py now kind agent payload r)
  drains : r.task ≡ Task.working → RunStep py r (drain r).1
  keeps_artifact : (a : CoreArtifact) → r.has_broker ≡ true → RunStep py r (artifact_created py a r)
  asks :
      (now : ℕ) (image : Option String) (request : BrokerRequest)
      → r.has_broker ≡ true
      → RunStep py r (human_requested py now image request r)
  answers :
      (now : ℕ) (request : BrokerRequest)
      → r.has_broker ≡ true
      → RunStep py r (human_resolved py now request r)
  finishes :
      (now : ℕ) (s : JobState) (ledger : Option Entries)
      → r.task ≡ Task.working
      → RunStep py r (finish_job py now s ledger r)
  ends :
      (now count : ℕ) (outcome : RunOutcome) (summary : String)
      → r.task ≡ Task.finishing
      → RunStep py r (report_result now outcome summary count r)
  fails :
      (now : ℕ) (error : Entries) (ledger : Option Entries)
      → is_guarded r.task ≡ true
      → RunStep py r (
          set_task Task.ended
            (terminal py now RunOutcome.failed "Core execution failed." error ledger r))
  cancelled :
      (now : ℕ) (ledger : Option Entries)
      → is_guarded r.task ≡ true
      → RunStep py r (
          set_task Task.ended
            (terminal py now RunOutcome.cancelled "Run cancelled." no_entries ledger r))
  releases : (now : ℕ) → r.has_retention ≡ true → RunStep py r (auto_release py now r)
  focuses : (now : ℕ) → RunStep py r (page_focused py now r)
  takes :
      (now : ℕ)
      → r.view.browser_tab_state ≡ BrowserTabState.opened
      → RunStep py r (control_taken py now r)
  returns :
      (now : ℕ) (evidence : String)
      → r.view.control_mode ≡ BrowserControlMode.human_control
      → RunStep py r (control_returned py now evidence r)
  closes : (now : ℕ) (s : Run) → close_page py now r ≡ inr s → RunStep py r s
  tells :
      (now : ℕ) (content source : String) (s : Run)
      → send_context py now content source r ≡ inr s
      → RunStep py r s
  switches :
      (now : ℕ) (gateway provider model : String) (s : Run)
      → switch_model py now gateway provider model r ≡ inr s
      → RunStep py r s
  reasons :
      (now : ℕ) (reasoning : String) (effort : Option String) (s : Run)
      → set_reasoning py now reasoning effort r ≡ inr s
      → RunStep py r s
  shuts : (now : ℕ) → RunStep py r (shut_down py now r)
  cancels :
      (now : ℕ) (ledger : Option Entries) (s : Run)
      → cancel py now ledger r ≡ inr s
      → RunStep py r s
