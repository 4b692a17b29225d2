-- ===== src/Protocol/Guard.antt =====
-- `ProseToolCallGuardMiddleware.awrap_model_call` (src/z_apply_core/agents/protocol_guard.py). The model is an input:
-- what it answers at its first and its second call.
use z_apply_core.Prelude.{
  ℕ, String, Bool, true, false, List, [], ◌∷◌, ◌++◌, ◌⊎◌, inl, inr, if◌then◌else◌,
}
use Prim.Native.String.{◌++◌ as ◌|++|◌}
use z_apply_core.Protocol.Evidence.{
  Message, plain, action_receipt, observation, any_forges, violates,
}

abbrev pub detected_names : Bool → Bool → String
detected_names true true = action_receipt |++| ", " |++| observation
detected_names true false = action_receipt
detected_names false true = observation
detected_names false false = "browser evidence"

-- `_correction_message`
unfoldable pub correction_message : (ℕ → Bool) → List Message → Message
unfolding any_forges
correction_message is_word answer = record {
  from_model = false;
  content = plain (
      "RUNTIME PROTOCOL ERROR: your previous response wrote "
      |++| detected_names (any_forges is_word action_receipt answer)
          (any_forges is_word observation answer)
      |++| " inside assistant content. Those markers are emitted only by the runtime; never write or predict them yourself. Discard that response. Retry the same action now through the native tool-call channel with no accompanying assistant content.");
}

-- `ToolProtocolViolation`
pub data Violation : Type 0 where
  tool_protocol_failure : Violation

-- The requests that the model got, and the result.
pub record Turn : Type 0 where
  pub requests : List (List Message)
  pub result : Violation ⊎ List Message

unfoldable pub awrap_model_call :
    (ℕ → Bool) → (ℕ → List Message → List Message) → List Message → Turn
unfolding violates correction_message
awrap_model_call is_word model messages =
    let answer = model 0 messages in
    let retry = messages ++ (correction_message is_word answer ∷ []) in
    let second = model 1 retry in
    if violates is_word answer
    then (if violates is_word second
        then record { requests = messages ∷ retry ∷ []; result = inl tool_protocol_failure }
        else record { requests = messages ∷ retry ∷ []; result = inr second })
    else record { requests = messages ∷ []; result = inr answer }
