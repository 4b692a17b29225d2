-- ===== src/Service/Sink.antt =====
-- `_GraphSink.accept` (src/z_apply_core/integrations/service.py).
use z_apply_core.Prelude.{
  ℕ, min, String, Bool, true, false, not, ◌&&◌, ◌||◌, Option, none, some, List, [], ◌∷◌, is_blank,
  str_eq, mem_str, if◌then◌else◌,
}
use package.text.Mathlib.Text.{starts_with}
use z_apply_core.Dict.{Dict, get, put}
use z_apply_core.Payload.Json.{
  Json, boolean, number, text, dict, Entries, no_entries, entry, lookup, put_entry,
}
use z_apply_core.Payload.Sanitize.{framework_payload}
use z_apply_core.Service.View.{RunPhase, nullable}
use z_apply_core.Service.Run.{Run, GraphSink, Python, emit, emit_live, emit_core}
use z_apply_core.Service.Typed.{is_true, is_given, public_agent_name, typed_framework_event}

-- `a or b` of two values that may be missing.
abbrev either_of : Option Json → Option Json → Option Json
either_of a b = if is_given a then a else b

abbrev graph_source : String → Dict String
graph_source agent = ("component", "graph") ∷ ("agent", agent) ∷ []

-- The value, or None.
abbrev or_null : Option Json → Json
or_null v = nullable (λ j. j) v

abbrev default_to : Json → Option Json → Json
default_to d none = d
default_to d (some v) = v

abbrev in_authentication : RunPhase → Bool
in_authentication RunPhase.authentication = true
in_authentication _ = false

abbrev pub enters_application : String → Run → Bool
enters_application agent run = str_eq agent "orchestrator" && in_authentication run.view.phase

unfoldable pub enter_application : Python → ℕ → String → Run → Run
unfolding emit
enter_application py now agent run =
    if enters_application agent run
    then emit_core py now "run.phase_changed" (entry "phase" (text "application") no_entries)
        (record run { view = record run.view { phase = RunPhase.application } })
    else run

abbrev pub agent_kinds : List String
agent_kinds = "agent.started" ∷ "tool.started" ∷ "authentication.evidence" ∷ []

unfoldable pub set_current_agent : String → String → Run → Run
set_current_agent kind agent run =
    if mem_str kind agent_kinds
    then record run { view = record run.view { current_agent = some agent } }
    else run

abbrev with_model : String → String → String → Run → Run
with_model kind agent model run = record run {
  view = record run.view { current_model = some model; current_provider = run.provider };
  sink =
      if str_eq kind "model.selected"
      then record run.sink { model_by_agent = put agent model run.sink.model_by_agent }
      else run.sink;
}

unfoldable pub take_model : String → String → Option Json → Run → Run
unfolding put
take_model kind agent (some (text model)) run = with_model kind agent model run
take_model kind agent _ run = run

unfoldable pub note_model : String → String → Entries → Run → Run
unfolding lookup take_model
note_model kind agent payload run =
    take_model kind agent (either_of (lookup "model_id" payload) (lookup "auth_model_id" payload))
      run

-- The model that an agent has selected is named in the events of its tools.
unfoldable pub tool_payload : String → String → GraphSink → Entries → Entries
unfolding get put_entry
tool_payload kind agent sink payload =
    if starts_with kind "tool."
    then elim (get agent sink.model_by_agent) [
      | some model ↦ put_entry "model_id" (text model) payload
      | none ↦ payload
    ]
    else payload

-- `int(value or 0)`
abbrev int_or_zero : Python → Option Json → ℕ
int_or_zero py none = 0
int_or_zero py (some v) = if is_true v then py.int v else 0

abbrev usage_count : Python → String → Option Json → ℕ
usage_count py key (some (dict usage)) = int_or_zero py (lookup key usage)
usage_count py key _ = 0

unfoldable pub usage_payload : Python → Entries → Entries
unfolding lookup
usage_payload py payload =
    let usage = lookup "usage" payload in
    let input_tokens = usage_count py "prompt_tokens" usage in
    let cache_read = usage_count py "cache_read_tokens" usage in
    entry "model" (or_null (lookup "model" payload)) (
      entry "provider" (or_null (lookup "provider" payload)) (
        entry "agent" (or_null (lookup "agent" payload)) (
          entry "input_tokens" (number input_tokens) (
            entry "cache_read_tokens" (number (min cache_read input_tokens)) (
              entry "output_tokens"
                (number (int_or_zero py (lookup "output_tokens_estimate" payload)))
                (entry "duration_ms" (or_null (lookup "duration_ms" payload)) (
                  entry "ttft_ms" (or_null (lookup "ttft_ms" payload)) (
                    entry "tok_per_second" (or_null (lookup "tok_per_second" payload))
                      no_entries))))))))

-- What the sink keeps of a payload that `usage_payload` made.
unfoldable pub last_usage_of : Entries → Entries
unfolding lookup
last_usage_of payload = entry "input_tokens" (or_null (lookup "input_tokens" payload)) (
    entry "output_tokens" (or_null (lookup "output_tokens" payload))
      (entry "tok_per_second" (or_null (lookup "tok_per_second" payload)) no_entries))

abbrev last_usage_or_empty : Option Entries → Entries
last_usage_or_empty none = no_entries
last_usage_or_empty (some es) = es

abbrev selected_model : Option String → Option Json
selected_model none = none
selected_model (some model) = some (text model)

unfoldable pub turn_payload : String → GraphSink → Entries → Entries
unfolding lookup put_entry get
turn_payload agent sink payload =
    let usage = last_usage_or_empty sink.last_usage in
    let model =
      either_of (selected_model (get agent sink.model_by_agent)) (lookup "model_id" payload) in
    put_entry "usage"
      (dict (
        entry "input_tokens" (default_to (number 0) (lookup "input_tokens" usage)) (
          entry "output_tokens" (default_to (number 0) (lookup "output_tokens" usage)) (
            entry "tok_per_second" (default_to (number 0) (lookup "tok_per_second" usage))
              no_entries))))
      (put_entry "model" (or_null model) payload)

-- The end of `accept`, for an event that is kept.
unfoldable pub persist : Python → ℕ → String → String → Entries → Run → Run
unfolding emit usage_payload last_usage_of turn_payload
persist py now kind agent payload run =
    if str_eq kind "model.usage"
    then (let counted = usage_payload py payload in
        emit py now kind counted (graph_source agent) "info"
          (record run { sink = record run.sink { last_usage = some (last_usage_of counted) } }))
    else if str_eq kind "agent.turn.completed"
    then emit py now kind (turn_payload agent run.sink payload) (graph_source agent) "info" run
    else emit py now kind payload (graph_source agent) "info" run

-- `_LIVE_ONLY_EVENTS`
abbrev pub live_only_events : List String
live_only_events = "agent.message.delta" ∷ "model.tool_call.delta" ∷ "stream.metrics" ∷ []

-- The end of `accept` for such an event, from the place after the emission of the phase on.
abbrev pub after_phase : Python → ℕ → String → String → Entries → Run → Run
after_phase py now kind agent payload run =
    let noted = note_model kind agent payload (set_current_agent kind agent run) in
    persist py now kind agent (tool_payload kind agent noted.sink payload) noted

unfoldable pub forward : Python → ℕ → String → String → Entries → Run → Run
unfolding emit_live enter_application set_current_agent note_model tool_payload persist
forward py now kind agent payload run =
    if mem_str kind live_only_events
    then emit_live py now kind payload (graph_source agent) run
    else after_phase py now kind agent payload (enter_application py now agent run)

-- Whether a state event is not passed on.
abbrev pub is_dropped : Python → String → Entries → Option Entries → Bool
is_dropped py event no_entries last = true
is_dropped py event payload none = not (mem_str event ("values" ∷ "updates" ∷ "error" ∷ []))
is_dropped py event payload (some last) =
    not (mem_str event ("values" ∷ "updates" ∷ "error" ∷ [])) || py.same payload last

unfoldable pub accept_kind : Python → ℕ → String → String → Entries → String → Run → Run
unfolding forward put_entry
accept_kind py now event agent payload kind run =
    if str_eq kind "submission.completed"
    then forward py now kind agent payload
        (record run { sink = record run.sink { submission_completed = true } })
    else if str_eq kind "submission.failed"
    then forward py now kind agent (put_entry "submission_failed" (boolean true) payload) run
    else if not (str_eq kind "graph.event")
    then forward py now kind agent payload run
    else if is_dropped py event payload run.sink.last_graph_payload
    then run
    else forward py now kind agent payload
        (record run { sink = record run.sink { last_graph_payload = some payload } })

-- `accept`; a missing name is the empty text.
unfoldable pub accept : Python → ℕ → String → String → Entries → Run → Run
unfolding accept_kind typed_framework_event public_agent_name framework_payload
accept py now name event state run =
    let agent = public_agent_name (if is_blank name then event else name) in
    let payload = framework_payload py.lower event state in
    accept_kind py now event agent payload (typed_framework_event event payload) run

abbrev pub submission_kind : String
submission_kind = "submission.completed"

-- Whether a report says that a submission was made.
abbrev pub completes : Python → String → Entries → Bool
completes py event state =
    str_eq (typed_framework_event event (framework_payload py.lower event state)) submission_kind

-- What `accept` keeps of a report before it emits anything.
unfoldable pub note_kind : String → Entries → Run → Run
note_kind kind payload run =
    if str_eq kind submission_kind
    then record run { sink = record run.sink { submission_completed = true } }
    else if str_eq kind "graph.event"
    then record run { sink = record run.sink { last_graph_payload = some payload } }
    else run

-- Whether `accept` emits the change of the phase.
abbrev pub reports_phase : Python → String → String → Entries → Run → Bool
reports_phase py name event state run =
    let agent = public_agent_name (if is_blank name then event else name) in
    let payload = framework_payload py.lower event state in
    let kind = typed_framework_event event payload in
    enters_application agent run
    && not (mem_str kind live_only_events)
    && not (str_eq kind "graph.event" && is_dropped py event payload run.sink.last_graph_payload)

-- An `accept` that has got to its emission of the phase: it waits for the sinks there, or it is cut off,
-- since a sink raises or it is cancelled. Its own event is not made yet.
unfoldable pub accept_cut : Python → ℕ → String → String → Entries → Run → Run
unfolding note_kind enter_application typed_framework_event public_agent_name framework_payload
accept_cut py now name event state run =
    let agent = public_agent_name (if is_blank name then event else name) in
    let payload = framework_payload py.lower event state in
    enter_application py now agent (note_kind (typed_framework_event event payload) payload run)
