-- ===== src/Service/Run.antt =====
-- `_Run`, `_emit`, `_emit_live` and the methods of a run that change its own state only
-- (src/z_apply_core/integrations/service.py).
use z_apply_core.Prelude.{ℕ, ◌+◌, String, Bool, false, Option, none, List, [], ◌∷◌, ◌++◌}
use z_apply_core.Dict.{Dict}
use z_apply_core.Payload.Json.{Json, number, text, dict, Entries, no_entries, entry, put_entry}
use z_apply_core.Payload.Sanitize.{safe_payload}
use z_apply_core.Service.View.{RunOutcome, CoreRunView, view_snapshot}
use z_apply_core.Broker.Request.{Status}

pub record CoreEvent : Type 0 where
  pub run_id : String
  pub sequence : ℕ
  pub occurred_at : ℕ
  pub kind : String
  pub source : Dict String
  pub level : String
  pub payload : Entries

pub record CoreHumanRequest : Type 0 where
  pub request_id : String
  pub run_id : String
  pub kind : String
  pub question : String
  pub context : String
  pub options : List String
  pub risk : String
  pub allow_free_text : Bool
  pub image_artifact_id : Option String
  pub created_at : ℕ
  pub status : Status
  pub answer : Option String
  pub approved : Option Bool
  pub responder : Option String
  pub resolved_at : Option ℕ

pub record CoreArtifact : Type 0 where
  pub artifact_id : String
  pub run_id : String
  pub kind : String
  pub filename : String
  pub mime_type : String
  pub relative_path : String
  pub size_bytes : ℕ
  pub sha256 : String
  pub created_at : ℕ

pub record CoreRunResult : Type 0 where
  pub outcome : RunOutcome
  pub summary : String
  pub finished_at : ℕ
  pub event_count : ℕ

pub record ContextMessage : Type 0 where
  pub content : String
  pub source : String

-- How far the task of a run is: `created` before its first step, `announcing` while it emits the start,
-- `opening` from there until its job begins, `working` until its job ends, `finishing` while it reports a
-- result.
pub data Task : Type 0 where
  no_task created announcing opening working finishing ended : Task

-- `_GraphSink`
pub record GraphSink : Type 0 where
  pub last_graph_payload : Option Entries
  pub model_by_agent : Dict String
  pub last_usage : Option Entries
  pub submission_completed : Bool

abbrev pub new_sink : GraphSink
new_sink = record {
  last_graph_payload = none;
  model_by_agent = [];
  last_usage = none;
  submission_completed = false;
}

-- `events` and `live_events` are the events that `_emit` and `_emit_live` have made, the newest first: each
-- has its number, and is on its way to the sinks and to the broadcaster, where it may not arrive. `provider`
-- is the name of the model gateway. `has_broker` tells whether there is a broker, `has_retention`
-- whether a release of the browser is scheduled.
pub record Run : Type 0 where
  pub view : CoreRunView
  pub sequence : ℕ
  pub events : List CoreEvent
  pub live_events : List CoreEvent
  pub provider : Option String
  pub task : Task
  pub has_retention : Bool
  pub done : Option CoreRunResult
  pub human_requests : Dict CoreHumanRequest
  pub artifacts : List CoreArtifact
  pub context_inbox : List ContextMessage
  pub has_broker : Bool
  pub sink : GraphSink

-- What comes from elsewhere: `str.lower`, `datetime.isoformat`, `==` of two dicts, `int` of a number.
pub record Python : Type 0 where
  pub lower : String → String
  pub iso : ℕ → String
  pub same : Entries → Entries → Bool
  pub int : Json → ℕ

abbrev pub core_source : Dict String
core_source = ("component", "core") ∷ []

unfoldable pub make_event :
    CoreRunView → ℕ → ℕ → String → Dict String → String → Entries → CoreEvent
make_event view sequence now kind source level payload = record {
  run_id = view.run_id;
  sequence = sequence;
  occurred_at = now;
  kind = kind;
  source = source;
  level = level;
  payload = payload;
}

-- `_emit`, up to the calls of the sinks and of the broadcaster: if one of those raises, the number is taken
-- and the event is lost.
unfoldable pub emit : Python → ℕ → String → Entries → Dict String → String → Run → Run
unfolding make_event view_snapshot put_entry safe_payload
emit py now kind payload source level run =
    let sequence = run.sequence + 1 in
    let view = record run.view { latest_event_sequence = sequence } in
    let all = put_entry "view" (dict (view_snapshot py.iso view)) payload in
    record run {
      sequence = sequence;
      view = view;
      events =
          make_event view sequence now kind source level (safe_payload py.lower all) ∷ run.events;
    }

-- `_emit_live`
unfoldable pub emit_live : Python → ℕ → String → Entries → Dict String → Run → Run
unfolding make_event safe_payload
emit_live py now kind payload source run =
    let sequence = run.sequence + 1 in
    let view = record run.view { latest_event_sequence = sequence } in
    record run {
      sequence = sequence;
      view = view;
      live_events =
          make_event view sequence now kind source "info" (safe_payload py.lower payload)
          ∷ run.live_events;
    }

abbrev pub emit_core : Python → ℕ → String → Entries → Run → Run
emit_core py now kind payload run = emit py now kind payload core_source "info" run

-- `_artifact_created` of a file inside the artifact root, which was read.
unfoldable pub artifact_created : Python → CoreArtifact → Run → Run
unfolding emit
artifact_created py a run =
    emit_core py a.created_at "artifact.created"
      (entry "artifact_id" (text a.artifact_id) (
        entry "kind" (text a.kind) (
          entry "filename" (text a.filename) (
            entry "mime_type" (text a.mime_type) (
              entry "relative_path" (text a.relative_path) (
                entry "size_bytes" (number a.size_bytes) (
                  entry "sha256" (text a.sha256)
                    (entry "created_at" (text (py.iso a.created_at)) no_entries))))))))
      (record run { artifacts = run.artifacts ++ (a ∷ []) })
