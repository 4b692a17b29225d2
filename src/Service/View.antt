-- ===== src/Service/View.antt =====
-- `CoreRunView` and its enums (src/z_apply_core/integrations/models.py), and `_view_snapshot`
-- (src/z_apply_core/integrations/service.py); OPEN is `opened`. A time is a number; `iso` is `datetime.isoformat`.
use z_apply_core.Prelude.{ℕ, String, Option, none, some, take_text}
use z_apply_core.Payload.Json.{Json, null, number, text, Entries, no_entries, entry}

pub data RunStatus : Type 0 where
  queued starting running waiting_human human_control terminal : RunStatus

pub data RunPhase : Type 0 where
  queued setup authentication application approval terminal : RunPhase

pub data RunOutcome : Type 0 where
  submitted_verified blocked rejected cancelled failed : RunOutcome

pub data BrowserControlMode : Type 0 where
  agent_control human_control : BrowserControlMode

pub data BrowserTabState : Type 0 where
  pending opened closed lost : BrowserTabState

-- The `value` of each member.
abbrev pub status_value : RunStatus → String
status_value RunStatus.queued = "queued"
status_value RunStatus.starting = "starting"
status_value RunStatus.running = "running"
status_value RunStatus.waiting_human = "waiting_human"
status_value RunStatus.human_control = "human_control"
status_value RunStatus.terminal = "terminal"

abbrev pub phase_value : RunPhase → String
phase_value RunPhase.queued = "queued"
phase_value RunPhase.setup = "setup"
phase_value RunPhase.authentication = "authentication"
phase_value RunPhase.application = "application"
phase_value RunPhase.approval = "approval"
phase_value RunPhase.terminal = "terminal"

abbrev pub outcome_value : RunOutcome → String
outcome_value RunOutcome.submitted_verified = "submitted_verified"
outcome_value RunOutcome.blocked = "blocked"
outcome_value RunOutcome.rejected = "rejected"
outcome_value RunOutcome.cancelled = "cancelled"
outcome_value RunOutcome.failed = "failed"

abbrev pub mode_value : BrowserControlMode → String
mode_value BrowserControlMode.agent_control = "agent_control"
mode_value BrowserControlMode.human_control = "human_control"

abbrev pub tab_value : BrowserTabState → String
tab_value BrowserTabState.pending = "pending"
tab_value BrowserTabState.opened = "open"
tab_value BrowserTabState.closed = "closed"
tab_value BrowserTabState.lost = "lost"

pub record CoreRunView : Type 0 where
  pub run_id : String
  pub job_url : String
  pub task : Option String
  pub company : Option String
  pub role : Option String
  pub status : RunStatus
  pub phase : RunPhase
  pub outcome : Option RunOutcome
  pub summary : Option String
  pub current_agent : Option String
  pub current_model : Option String
  pub current_provider : Option String
  pub browser_tab_state : BrowserTabState
  pub control_mode : BrowserControlMode
  pub pending_human_request_id : Option String
  pub latest_event_sequence : ℕ
  pub created_at : ℕ
  pub started_at : Option ℕ
  pub finished_at : Option ℕ
  pub current_reasoning : String
  pub current_reasoning_effort : Option String

-- A value, or None.
abbrev pub nullable : {A : Type 0} → (A → Json) → Option A → Json
nullable f none = null
nullable f (some a) = f a

abbrev pub snapshot_summary_limit : ℕ
snapshot_summary_limit = 280

-- `_view_snapshot`
unfoldable pub view_snapshot : (ℕ → String) → CoreRunView → Entries
view_snapshot iso view = entry "run_id" (text view.run_id) (
    entry "job_url" (text view.job_url) (
      entry "task" (nullable text view.task) (
        entry "company" (nullable text view.company) (
          entry "role" (nullable text view.role) (
            entry "status" (text (status_value view.status)) (
              entry "phase" (text (phase_value view.phase)) (
                entry "outcome" (nullable (λ o. text (outcome_value o)) view.outcome) (
                  entry "summary"
                    (nullable (λ s. text (take_text snapshot_summary_limit s)) view.summary)
                    (entry "current_agent" (nullable text view.current_agent) (
                      entry "current_model" (nullable text view.current_model) (
                        entry "current_provider" (nullable text view.current_provider) (
                          entry "browser_tab_state" (text (tab_value view.browser_tab_state)) (
                            entry "control_mode" (text (mode_value view.control_mode)) (
                              entry "pending_human_request_id"
                                (nullable text view.pending_human_request_id)
                                (entry "latest_event_sequence" (number view.latest_event_sequence) (
                                  entry "created_at" (text (iso view.created_at)) (
                                    entry "started_at"
                                      (nullable (λ t. text (iso t)) view.started_at)
                                      (entry "finished_at"
                                        (nullable (λ t. text (iso t)) view.finished_at)
                                        (entry "current_reasoning" (text view.current_reasoning) (
                                          entry "current_reasoning_effort"
                                            (nullable text view.current_reasoning_effort)
                                            no_entries))))))))))))))))))))
