-- ===== src/Broker/Outcomes.antt =====
-- What the requester gets: the answer that was accepted, or nothing at all after a bad one.
use z_apply_core.Prelude.{
  ℕ, ◌≡◌, ◌≢◌, ◌⊎◌, inl, inr, refl, ap, String, Bool, true, false, Option, none, some, List, [],
  ◌∷◌, arith, str_eq, eq_iff, eq_refl, Bool-cases, is_blank, not, ◌&&◌, mem_str, strip,
}
use z_apply_core.Dict
use z_apply_core.Dict.{Dict, get-put, get-remove, has-some}
use z_apply_core.Broker.Request.{BrokerRequest, make_request, resolved, no_options}
use z_apply_core.Broker.Methods.{
  Broker, Claim, Notice, resolution, not_an_option, Future, waiting, result, withdrawn,
  claim_answer, check_answer, deliver, settle, register, start_transport, withdraw, is_running,
  resolve_submission, decision,
}
use z_apply_core.Broker.World.{
  World, ask, connect, accept, refuse, cancel, finish, Step, act, leave,
}
use z_apply_core.Broker.Channel.{confirm_question, confirm_result}
use z_apply_core.Broker.Claims.{without, claim_answer_inv, claim_refused_inv, claim_cancel_inv}

settle-result :
    (f : Future) (o : Option Future) (a : String) → o ≡ some (result a) → settle f o ≡ result a
unfolding settle
settle-result f o a e = rw e refl

-- `withdrawn` or a result, once there.
put-settled :
    (f : Future) (id j a : String) (fs : Dict Future)
    → Dict.get j fs ≡ some (result a)
    → Dict.get j (Dict.put id (settle f (Dict.get id fs)) fs) ≡ some (result a)
put-settled f id j a fs e = rw get-put (elim (Bool-cases (str_eq id j)) [
  | inl same ↦
      let g : Dict.get id fs ≡ some (result a) = rw ((eq_iff id j).0 same) e in
      rw same (ap some (settle-result f (Dict.get id fs) a g))
  | inr other ↦ rw other e
])

-- An answer that a requester has got stays what it is, through every step of everybody.
pub answer_stays :
    (w v : World) (id a : String)
    → Step w v
    → Dict.get id w.broker.futures ≡ some (result a)
    → Dict.get id v.broker.futures ≡ some (result a)
unfolding register start_transport deliver withdraw
answer_stays w v id a (act (ask r fresh)) e =
    rw get-put (elim (Bool-cases (str_eq r.request_id id)) [
      | inl same ↦
          let there = has-some id w.broker.futures (result a) e in
          cc (fresh, there, (eq_iff r.request_id id).0 same)
      | inr other ↦ rw other e
    ])
answer_stays w v id a (act (connect j)) e = ground arith
answer_stays w v id a (act (accept now own j answer responder approved c b k)) e =
    rw (claim_answer_inv now own j answer responder approved w.broker c b k).left e
answer_stays w v id a (act (refuse now own j answer responder approved x b k)) e =
    elim (claim_refused_inv now own j answer responder approved w.broker x b k) [
      | inl same ↦ rw same e
      | inr less ↦ rw less e
    ]
answer_stays w v id a (act (cancel now j o b k)) e = elim (claim_cancel_inv now j w.broker o b k) [
  | inl nothing ↦ rw (nothing.1) e
  | inr (c, r, got, found, report, _, left) ↦ rw left e
]
answer_stays w v id a (act (finish c before after k)) e =
    put-settled c.outcome c.request.request_id id a w.broker.futures e
answer_stays w v id a (leave j) e = put-settled withdrawn j id a w.broker.futures e

allowed :
    (answer : String) (options : List String)
    → (options ≡ []) ⊎ (mem_str answer options ≡ true)
    → (not (no_options options) && not (mem_str answer options)) ≡ false
allowed answer options (inl e) = rw e refl
allowed answer [] (inr e) = refl
allowed answer (o ∷ os) (inr e) = rw e refl

not_allowed :
    (answer : String) (options : List String)
    → options ≢ []
    → mem_str answer options ≡ false
    → (not (no_options options) && not (mem_str answer options)) ≡ true
not_allowed answer [] some_options e = absurd (some_options refl)
not_allowed answer (o ∷ os) some_options e = rw e refl

-- An accepted answer: if the request is pending, its future waits, and the answer is not empty and, where
-- there are options, one of them, then the claim goes through, the request is no longer pending, and the
-- delivery gives the requester this answer and, as the last thing, tells the hooks that the request was
-- resolved, with this answer, by this responder.
pub answer_arrives :
    (now : ℕ) (own : Bool) (id answer responder : String) (approved : Option Bool) (b : Broker)
    (r : BrokerRequest)
    → Dict.get id b.pending ≡ some r
    → r.request_id ≡ id
    → Dict.get id b.futures ≡ some waiting
    → is_blank answer ≡ false
    → (r.options ≡ []) ⊎ (mem_str answer r.options ≡ true)
    → (c : Claim) × (claim_answer now own id answer responder approved b ≡ (inr c, without id b))
      × (Dict.get id (without id b).pending ≡ none)
      × (Dict.get id (deliver c (without id b)).futures ≡ some (result answer))
      × (c.request ≡ record r {
        status = resolved;
        answer = some answer;
        approved = approved;
        responder = some responder;
        resolved_at = some now;
      })
      × (before : List Notice) × ((deliver c (without id b)).notices
          ≡ resolution c.request ∷ before)
unfolding claim_answer check_answer deliver settle
answer_arrives now own id answer responder approved b r found filed open_ full valid =
    let claim : Claim = record {
      request = record r {
        status = resolved;
        answer = some answer;
        approved = approved;
        responder = some responder;
        resolved_at = some now;
      };
      outcome = result answer;
      tell_telegram = not (str_eq responder "telegram") && b.telegram;
      stop_transport = is_running (Dict.get r.request_id b.transports) && not own;
    } in
    (
      claim,
      rw (full, found, claim_answer) (rw (allowed answer r.options valid, check_answer) refl),
      simp (get-remove, eq_refl),
      rw filed (simp (get-put, eq_refl) (rw open_ refl)),
      refl,
      _,
      refl,
    )

-- A refused option: the request is gone from the pending ones, and neither is its future settled nor
-- anything reported.
pub bad_option_drops :
    (now : ℕ) (own : Bool) (id answer responder : String) (approved : Option Bool) (b : Broker)
    (r : BrokerRequest)
    → Dict.get id b.pending ≡ some r
    → is_blank answer ≡ false
    → r.options ≢ []
    → mem_str answer r.options ≡ false
    → claim_answer now own id answer responder approved b ≡ (inl not_an_option, without id b)
unfolding claim_answer check_answer
bad_option_drops now own id answer responder approved b r found full some_options bad =
    rw (full, found, claim_answer)
      (rw (not_allowed answer r.options some_options bad, check_answer) refl)

module _ (sanitize : String → String) (run id question context responder : String) (created now : ℕ)
    (b : Broker) where
  abbrev approval : BrokerRequest
  approval = make_request sanitize run id created (confirm_question question context)

  -- `resolve_submission` on a request that `confirm` has made: both decisions are valid options, and
  -- `confirm` returns the decision.
  pub confirm-resolve_submission :
      (approved : Bool)
      → Dict.get id b.pending ≡ some approval
      → Dict.get id b.futures ≡ some waiting
      → (c : Claim) × (resolve_submission now id approved responder b ≡ (inr c, without id b))
        × (Dict.get id (deliver c (without id b)).futures ≡ some (result (decision approved)))
        × (confirm_result (decision approved) ≡ approved)
        × (c.request.approved ≡ some approved)
  unfolding resolve_submission confirm_result decision make_request confirm_question mem_str strip
  confirm-resolve_submission true found open_ =
      let a =
        answer_arrives now false id "Approve" responder (some true) b approval found refl open_ refl
          (inr refl) in
      (a.0, a.1, a.3, refl, ap (λ (x : BrokerRequest). x.approved) a.4)
  confirm-resolve_submission false found open_ =
      let a =
        answer_arrives now false id "Reject" responder (some false) b approval found refl open_ refl
          (inr refl) in
      (a.0, a.1, a.3, refl, ap (λ (x : BrokerRequest). x.approved) a.4)
