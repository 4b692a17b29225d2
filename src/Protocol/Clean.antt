-- ===== src/Protocol/Clean.antt =====
-- What passes the guard of the evidence (src/z_apply_core/agents/protocol_guard.py).
use z_apply_core.Prelude.{
  ℕ, ◌≡◌, refl, Bool, true, false, List, [], ◌∷◌, ◌++◌, inl, inr, Bool-cases,
}
use z_apply_core.Protocol.Evidence.{Message, violates}
use z_apply_core.Protocol.Guard.{tool_protocol_failure, correction_message, Turn, awrap_model_call}

-- The three ways a turn can go.
pub data Goes (is_word : ℕ → Bool) (model : ℕ → List Message → List Message)
    (messages : List Message) (t : Turn) : Type 0 where
  at_once :
      violates is_word (model 0 messages) ≡ false
      → t.requests ≡ messages ∷ []
      → t.result ≡ inr (model 0 messages)
      → Goes is_word model messages t
  corrected :
      (retry : List Message)
      → violates is_word (model 0 messages) ≡ true
      → retry ≡ messages ++ (correction_message is_word (model 0 messages) ∷ [])
      → violates is_word (model 1 retry) ≡ false
      → t.requests ≡ messages ∷ retry ∷ []
      → t.result ≡ inr (model 1 retry)
      → Goes is_word model messages t
  refused :
      (retry : List Message)
      → violates is_word (model 0 messages) ≡ true
      → retry ≡ messages ++ (correction_message is_word (model 0 messages) ∷ [])
      → violates is_word (model 1 retry) ≡ true
      → t.requests ≡ messages ∷ retry ∷ []
      → t.result ≡ inl tool_protocol_failure
      → Goes is_word model messages t

-- Whatever the model answers, its first answer is returned if it has no marker of the runtime; else it is asked
-- once more, with the correction behind the messages, and the second answer is returned if it has none, and
-- otherwise the call raises.
pub awrap_model_call_goes :
    (is_word : ℕ → Bool) (model : ℕ → List Message → List Message) (messages : List Message)
    → Goes is_word model messages (awrap_model_call is_word model messages)
unfolding awrap_model_call
awrap_model_call_goes is_word model messages =
    let retry = messages ++ (correction_message is_word (model 0 messages) ∷ []) in
    elim (Bool-cases (violates is_word (model 0 messages))) [
      | inr clean ↦ at_once clean (rw clean refl) (rw clean refl)
      | inl forged ↦ elim (Bool-cases (violates is_word (model 1 retry))) [
        | inr clean ↦
            corrected retry forged refl clean (rw forged (rw clean refl))
              (rw forged (rw clean refl))
        | inl forged' ↦
            refused retry forged refl forged' (rw forged (rw forged' refl))
              (rw forged (rw forged' refl))
      ]
    ]
