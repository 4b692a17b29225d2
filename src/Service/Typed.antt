-- ===== src/Service/Typed.antt =====
-- `_typed_framework_event` and `_public_agent_name` (src/z_apply_core/integrations/service.py).
use z_apply_core.Prelude.{
  String, Bool, true, false, not, ltb, Option, none, some, [], ◌∷◌, str_eq, mem_str, if◌then◌else◌,
  ◌==◌,
}
use Prim.Native.Char.{code}
use z_apply_core.Dict.{Dict, get}
use z_apply_core.Payload.Json.{
  Json, null, opaque, boolean, number, decimal, text, list, dict, instance, no_items, no_entries,
  Entries, lookup,
}

-- `if value`
abbrev pub is_true : Json → Bool
is_true null = false
is_true opaque = true
is_true (boolean b) = b
is_true (number n) = ltb 0 n
is_true (decimal s) = not (mem_str s ("0.0" ∷ "-0.0" ∷ []))
is_true (text String.[]) = false
is_true (text (String.◌∷◌ c s)) = true
is_true (list no_items) = false
is_true (list _) = true
is_true (dict no_entries) = false
is_true (dict _) = true
is_true (instance fs) = true

abbrev pub is_given : Option Json → Bool
is_given none = false
is_given (some v) = is_true v

-- `s.split(":", 1)[0]`
unfoldable pub public_agent_name : String → String
public_agent_name String.[] = String.[]
public_agent_name (String.◌∷◌ c s) =
    let rest = public_agent_name s in if code c == 58 then String.[] else String.◌∷◌ c rest

abbrev lifecycle_kinds : Dict String
lifecycle_kinds =
    ("started", "agent.started")
    ∷ ("running", "agent.started")
    ∷ ("completed", "agent.completed")
    ∷ ("failed", "agent.failed")
    ∷ []

abbrev framework_kinds : Dict String
framework_kinds =
    ("agent_tool_start", "tool.started")
    ∷ ("agent_tool_delta", "tool.progress")
    ∷ ("agent_message_delta", "agent.message.delta")
    ∷ ("agent_model_tool_call", "model.tool_call.delta")
    ∷ ("model_call_progress", "stream.metrics")
    ∷ ("model_selected", "model.selected")
    ∷ ("model_call_start", "model.call_started")
    ∷ ("model_call_metrics", "model.call.metrics")
    ∷ ("model_call_content", "model.call_completed")
    ∷ ("model_failed", "model.failed")
    ∷ ("model_rotated", "model.rotated")
    ∷ ("model_rate_limited", "model.rate_limited")
    ∷ ("model_phase", "model.phase")
    ∷ ("capability_probe", "capability.probe")
    ∷ ("memory_stored", "memory.stored")
    ∷ ("summarization_model_call_started", "summarization.call.started")
    ∷ ("summarization_model_call_completed", "summarization.call.completed")
    ∷ ("submission_failed", "submission.failed")
    ∷ ("submission_completed", "submission.completed")
    ∷ ("token_usage", "model.usage")
    ∷ ("agent_turn", "agent.turn.completed")
    ∷ ("recovery_started", "recovery.started")
    ∷ ("recovery_completed", "recovery.completed")
    ∷ ("recovery_exhausted", "recovery.exhausted")
    ∷ ("authentication_evidence", "authentication.evidence")
    ∷ ("auth", "authentication.evidence")
    ∷ []

abbrev kind_or : String → Option String → String
kind_or other none = other
kind_or other (some k) = k

abbrev lifecycle_kind : Option Json → String
lifecycle_kind (some (text s)) = kind_or "agent.changed" (get s lifecycle_kinds)
lifecycle_kind _ = "agent.changed"

-- `_typed_framework_event`; the two entries of its table that look at the payload stand before it.
unfoldable pub typed_framework_event : String → Entries → String
unfolding get lookup
typed_framework_event event payload =
    if str_eq event "agent_lifecycle"
    then lifecycle_kind (lookup "status" payload)
    else if str_eq event "agent_tool_end"
    then (if is_given (lookup "error" payload) then "tool.failed" else "tool.completed")
    else if str_eq event "submission_readiness"
    then (if is_given (lookup "ready" payload)
        then "submission.review_ready"
        else "submission.review_not_ready")
    else kind_or "graph.event" (get event framework_kinds)
