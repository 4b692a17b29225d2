-- ===== src/Broker/Claims.antt =====
-- What a claim tells about the broker that it was taken from.
use z_apply_core.Prelude.{
  ℕ, ◌≡◌, ◌⊎◌, inl, inr, refl, String, Bool, Option, none, some, arith, Bool-cases, is_blank, not,
  ◌&&◌, mem_str,
}
use z_apply_core.Dict
use z_apply_core.Dict.{Dict}
use z_apply_core.Broker.Request.{BrokerRequest, resolved, cancelled, no_options}
use z_apply_core.Broker.Methods.{
  Broker, Claim, BrokerError, result, withdrawn, claim_answer, resolve_found, check_answer,
  claim_cancel, cancel_found, is_running, cancel_found, is_running,
}

-- The broker without the request.
abbrev pub without : String → Broker → Broker
without id b = record b { pending = Dict.remove id b.pending }

-- The claim `c` is on the pending request `r`, with this answer.
pub record Answers (now : ℕ) (id answer responder : String) (approved : Option Bool) (b b' : Broker)
    (c : Claim) : Type 0 where
  pub asked : BrokerRequest
  pub found : Dict.get id b.pending ≡ some asked
  pub report : c.request ≡ record asked {
    status = resolved;
    answer = some answer;
    approved = approved;
    responder = some responder;
    resolved_at = some now;
  }
  pub outcome : c.outcome ≡ result answer
  pub left : b' ≡ without id b

module _ (now : ℕ) (own : Bool) (id answer responder : String) (approved : Option Bool)
    (b : Broker) where
  resolve_found_inv :
      (o : Option BrokerRequest) (c : Claim) (b' : Broker)
      → Dict.get id b.pending ≡ o
      → resolve_found now own id answer responder approved b o ≡ (inr c, b')
      → Answers now id answer responder approved b b' c
  unfolding check_answer
  resolve_found_inv none c b' g e = cc
  resolve_found_inv (some r) c b' g e =
      elim (Bool-cases (not (no_options r.options) && not (mem_str answer r.options))) [
        | inl bad ↦ cc (rw (bad, check_answer) at e)
        | inr good ↦
            let f = rw (good, check_answer) at e in
            record {
              asked = r;
              found = g;
              report = ground (arith, f);
              outcome = ground (arith, f);
              left = ground (arith, f);
            }
      ]

  pub claim_answer_inv :
      (c : Claim) (b' : Broker)
      → claim_answer now own id answer responder approved b ≡ (inr c, b')
      → Answers now id answer responder approved b b' c
  unfolding claim_answer
  claim_answer_inv c b' e = elim (Bool-cases (is_blank answer)) [
    | inl blank ↦ cc (rw (blank, claim_answer) at e)
    | inr full ↦ resolve_found_inv (Dict.get id b.pending) c b' refl (rw (full, claim_answer) at e)
  ]

  pub claim_refused_inv :
      (x : BrokerError) (b' : Broker)
      → claim_answer now own id answer responder approved b ≡ (inl x, b')
      → (b' ≡ b) ⊎ (b' ≡ without id b)
  unfolding claim_answer
  claim_refused_inv x b' e = elim (Bool-cases (is_blank answer)) [
    | inl blank ↦ inl (ground (arith, rw (blank, claim_answer) at e))
    | inr full ↦ found (Dict.get id b.pending) (rw (full, claim_answer) at e)
  ]
    where
      found :
          (o : Option BrokerRequest)
          → resolve_found now own id answer responder approved b o ≡ (inl x, b')
          → (b' ≡ b) ⊎ (b' ≡ without id b)
      found none e = inl (ground arith)
      found (some r) e = inr (ground arith)

module _ (now : ℕ) (id : String) (b : Broker) where
  pub claim_cancel_inv :
      (o : Option Claim) (b' : Broker)
      → claim_cancel now id b ≡ (o, b')
      → (o ≡ none) × (b' ≡ b)
        ⊎ (c : Claim) × (r : BrokerRequest) × (o ≡ some c)
          × (Dict.get id b.pending ≡ some r)
          × (c.request ≡ record r { status = cancelled; resolved_at = some now })
          × (c.outcome ≡ withdrawn)
          × (b' ≡ without id b)
  unfolding claim_cancel
  claim_cancel_inv o b' e = found (Dict.get id b.pending) refl e
    where
      found :
          (p : Option BrokerRequest)
          → Dict.get id b.pending ≡ p
          → cancel_found now id b p ≡ (o, b')
          → (o ≡ none) × (b' ≡ b)
            ⊎ (c : Claim) × (r : BrokerRequest) × (o ≡ some c)
              × (Dict.get id b.pending ≡ some r)
              × (c.request ≡ record r { status = cancelled; resolved_at = some now })
              × (c.outcome ≡ withdrawn)
              × (b' ≡ without id b)
      found none g e = inl (ground arith)
      found (some r) g e = inr (
        record {
          request = record r { status = cancelled; resolved_at = some now };
          outcome = withdrawn;
          tell_telegram = b.telegram;
          stop_transport = is_running (Dict.get r.request_id b.transports);
        },
        r,
        ground arith,
        g,
        refl,
        refl,
        ground arith,
      )
