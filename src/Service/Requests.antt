-- ===== src/Service/Requests.antt =====
-- The requests of a run to people (src/z_apply_core/integrations/service.py): what the broker reports, and
-- what the methods of a run's handle accept.
use z_apply_core.Prelude.{
  ℕ, String, Bool, true, false, not, ◌&&◌, Option, none, some, List, [], ◌∷◌, is_blank, leb,
  mem_str, str_eq, if◌then◌else◌,
}
use z_apply_core.Dict.{Dict, get, put}
use z_apply_core.Broker.Request.{BrokerRequest, Status, pending, resolved, cancelled}
use z_apply_core.Payload.Json.{
  boolean, text, list, Items, no_items, item, Entries, no_entries, entry,
}
use z_apply_core.Service.View.{RunStatus, RunPhase, BrowserControlMode, CoreRunView, nullable}
use z_apply_core.Service.Run.{CoreHumanRequest, Run, Python, emit, emit_core}

-- `_public_human_request`
unfoldable pub public_human_request : BrokerRequest → Option String → CoreHumanRequest
public_human_request request image_artifact_id = record {
  request_id = request.request_id;
  run_id = request.run_id;
  kind = request.kind;
  question = request.question;
  context = request.context;
  options = request.options;
  risk = request.risk;
  allow_free_text = request.allow_free_text;
  image_artifact_id = image_artifact_id;
  created_at = request.created_at;
  status = request.status;
  answer = request.answer;
  approved = request.approved;
  responder = request.responder;
  resolved_at = request.resolved_at;
}

abbrev pub status_text : Status → String
status_text pending = "pending"
status_text resolved = "resolved"
status_text cancelled = "cancelled"

abbrev pub is_pending : Status → Bool
is_pending pending = true
is_pending _ = false

abbrev pub is_terminal : RunStatus → Bool
is_terminal RunStatus.terminal = true
is_terminal _ = false

abbrev pub is_approval : CoreHumanRequest → Bool
is_approval r = str_eq r.kind "submission_approval"

-- Of two requests, the one `min` takes: the earlier one, or the first.
abbrev pub earlier : CoreHumanRequest → Option CoreHumanRequest → CoreHumanRequest
earlier r none = r
earlier r (some s) = if leb r.created_at s.created_at then r else s

unfoldable pub oldest : Dict CoreHumanRequest → Option CoreHumanRequest
oldest [] = none
oldest ((k, r) ∷ rest) =
    let later = oldest rest in if is_pending r.status then some (earlier r later) else later

abbrev pub id_of : Option CoreHumanRequest → Option String
id_of none = none
id_of (some r) = some r.request_id

-- `_oldest_pending_human_request_id`
unfoldable pub oldest_pending : Run → Option String
unfolding oldest
oldest_pending run = id_of (oldest run.human_requests)

abbrev pub text_items : List String → Items
text_items [] = no_items
text_items (s ∷ ss) = item (text s) (text_items ss)

unfoldable pub requested_payload : Python → CoreHumanRequest → Entries
requested_payload py r = entry "request_id" (text r.request_id) (
    entry "kind" (text r.kind) (
      entry "question" (text r.question) (
        entry "context" (text r.context) (
          entry "options" (list (text_items r.options)) (
            entry "risk" (text r.risk) (
              entry "allow_free_text" (boolean r.allow_free_text) (
                entry "image_artifact_id" (nullable text r.image_artifact_id)
                  (entry "created_at" (text (py.iso r.created_at)) no_entries))))))))

unfoldable pub emit_requested : Python → ℕ → CoreHumanRequest → Run → Run
unfolding emit requested_payload
emit_requested py now r run =
    emit_core py now (if is_approval r then "submission.approval_requested" else "human.requested")
      (requested_payload py r) run

abbrev pub set_waiting : CoreHumanRequest → Option String → CoreRunView → CoreRunView
set_waiting r oldest_id view = record view {
  status = RunStatus.waiting_human;
  phase = if is_approval r then RunPhase.approval else view.phase;
  pending_human_request_id = oldest_id;
}

-- `_human_requested`, once the artifact of its image is there.
unfoldable pub human_requested : Python → ℕ → Option String → BrokerRequest → Run → Run
unfolding emit_requested oldest_pending public_human_request
human_requested py now image_artifact_id request run =
    let r = public_human_request request image_artifact_id in
    let noted = record run { human_requests = put r.request_id r run.human_requests } in
    let waiting = record noted { view = set_waiting r (oldest_pending noted) noted.view } in
    if is_terminal run.view.status
    then emit_requested py now r noted
    else emit_requested py now r waiting

-- Whether `_human_resolved` stores an answer in the applicant's memory.
unfoldable pub is_remembered : BrokerRequest → Bool
is_remembered r =
    str_eq r.kind "question"
    && (elim r.status [ resolved ↦ true | _ ↦ false ])
    && (elim r.answer [ none ↦ false | some a ↦ not (is_blank a) ])
    && not (is_blank r.field_label)
    && mem_str r.reason ("missing_candidate_fact" ∷ "ambiguous_field" ∷ [])

abbrev pub resolved_status : BrowserControlMode → Option String → RunStatus
resolved_status BrowserControlMode.human_control pending_id = RunStatus.human_control
resolved_status BrowserControlMode.agent_control (some id) = RunStatus.waiting_human
resolved_status BrowserControlMode.agent_control none = RunStatus.running

abbrev pub is_true : Option Bool → Bool
is_true (some true) = true
is_true _ = false

unfoldable pub resolved_kind : CoreHumanRequest → String
resolved_kind r = elim r.status [
  | cancelled ↦ "human.cancelled"
  | _ ↦
      if is_approval r
      then (if is_true r.approved then "submission.approved" else "submission.rejected")
      else "human.resolved"
]

unfoldable pub resolved_payload : Python → CoreHumanRequest → Entries
resolved_payload py r = entry "request_id" (text r.request_id) (
    entry "kind" (text r.kind) (
      entry "status" (text (status_text r.status)) (
        entry "answer" (nullable text r.answer) (
          entry "approved" (nullable boolean r.approved) (
            entry "responder" (nullable text r.responder)
              (entry "resolved_at" (nullable (λ t. text (py.iso t)) r.resolved_at) no_entries))))))

abbrev pub image_of : Option CoreHumanRequest → Option String
image_of none = none
image_of (some r) = r.image_artifact_id

-- `_human_resolved`, but for the memory.
unfoldable pub human_resolved : Python → ℕ → BrokerRequest → Run → Run
unfolding emit oldest_pending public_human_request resolved_kind resolved_payload
human_resolved py now request run =
    let existing = get request.request_id run.human_requests in
    let r = public_human_request request (image_of existing) in
    let noted = record run { human_requests = put r.request_id r run.human_requests } in
    let pending_id = oldest_pending noted in
    let resumed = record noted {
      view = record noted.view {
        status = resolved_status run.view.control_mode pending_id;
        pending_human_request_id = pending_id;
      };
    } in
    emit_core py now (resolved_kind r) (resolved_payload py r)
      (if is_terminal run.view.status then noted else resumed)

-- The errors of the service.
pub data Error : Type 0 where
  run_not_found human_request_type_mismatch human_request_already_resolved : Error
  invalid_run_transition submission_approval_violation browser_unavailable : Error
  browser_control_conflict browser_tool_execution_error core_shutting_down value_error queue_full
        runtime_error :
      Error

abbrev has_phase : RunPhase → Bool
has_phase RunPhase.approval = true
has_phase _ = false

-- What `_resolve_human` and `_resolve_submission` raise before they call the broker, if anything.
unfoldable pub check_answer : Run → String → Option Error
check_answer run id = elim (get id run.human_requests) [
  | none ↦ some run_not_found
  | some r ↦
      if is_approval r
      then some human_request_type_mismatch
      else if not (is_pending r.status)
      then some human_request_already_resolved
      else if not run.has_broker
      then some invalid_run_transition
      else none
]

unfoldable pub check_decision : Run → String → Option Error
check_decision run id = elim (get id run.human_requests) [
  | none ↦ some run_not_found
  | some r ↦
      if not (is_approval r)
      then some human_request_type_mismatch
      else if not (is_pending r.status)
      then some human_request_already_resolved
      else if not (has_phase run.view.phase)
      then some submission_approval_violation
      else if not run.has_broker
      then some invalid_run_transition
      else none
]
