-- ===== src/Broker/Stranded.antt =====
-- What becomes of a request whose answer was refused: nobody can answer or cancel it any more.
use z_apply_core.Prelude.{
  ℕ, ◌≡◌, ◌≢◌, inl, inr, refl, ap, sym, ◌∙◌, String, Bool, false, Option, none, some, List, [], ◌∷◌,
  ◌++◌, arith, str_eq, eq_iff, eq_refl, Bool-cases, is_blank, mem_str,
}
use z_apply_core.Dict
use z_apply_core.Dict.{Dict, get-put, get-remove, has-some}
use z_apply_core.Star.{Star, Star_keeps}
use z_apply_core.Broker.Request.{BrokerRequest}
use z_apply_core.Broker.Methods.{Claim, waiting, claim_answer, deliver, register, start_transport}
use z_apply_core.Broker.World.{World, Act, ask, connect, accept, refuse, cancel, finish}
use z_apply_core.Broker.Counts.{
  bit, IsFiled, IsFiled-put, IsFiled-remove, IsFiled-get, count_claims, count_claims-append,
  count_pending-remove,
}
use z_apply_core.Broker.Claims.{without, claim_answer_inv, claim_refused_inv, claim_cancel_inv}
use z_apply_core.Broker.Once.{IsOnce, bit-le-one}
use z_apply_core.Broker.Outcomes.{bad_option_drops}

module _ (id : String) where
  -- The requester waits, and nothing will come.
  record IsStranded (w : World) : Type 0 where
    filed : IsFiled w.broker.pending
    gone : Dict.get id w.broker.pending ≡ none
    unclaimed : count_claims id w.claims ≡ 0
    waits : Dict.get id w.broker.futures ≡ some waiting

  gone-remove :
      (j : String) (d : Dict BrokerRequest)
      → Dict.get id d ≡ none
      → Dict.get id (Dict.remove j d) ≡ none
  gone-remove j d e =
      rw get-remove
        (elim (Bool-cases (str_eq j id)) [ inl same ↦ rw same refl | inr other ↦ rw other e ])

  -- A claim on another request.
  other_claim :
      (w : World) (j : String) (r : BrokerRequest) (c : Claim)
      → IsStranded w
      → Dict.get j w.broker.pending ≡ some r
      → c.request.request_id ≡ r.request_id
      → IsStranded (record { broker = without j w.broker; claims = c ∷ w.claims })
  unfolding count_claims
  other_claim w j r c s found e = record {
    filed = IsFiled-remove j w.broker.pending s.filed;
    gone = gone-remove j w.broker.pending s.gone;
    unclaimed = elim (Bool-cases (str_eq c.request.request_id id)) [
      | inl same ↦
          let i : j ≡ id =
            sym (IsFiled-get j r w.broker.pending s.filed found)
            ∙ sym e
            ∙ (eq_iff c.request.request_id id).0 same in
          let g : Dict.get id w.broker.pending ≡ some r = rw (← i) found in cc (g, s.gone)
      | inr other ↦ rw other (omega (arith, s.unclaimed))
    ];
    waits = s.waits;
  }

  not_asked_again :
      (w : World) (r : BrokerRequest)
      → IsStranded w
      → Dict.has r.request_id w.broker.futures ≡ false
      → str_eq r.request_id id ≡ false
  not_asked_again w r s fresh = elim (Bool-cases (str_eq r.request_id id)) [
    | inl same ↦
        let there = has-some id w.broker.futures waiting s.waits in
        cc (fresh, there, (eq_iff r.request_id id).0 same)
    | inr other ↦ other
  ]

  unclaimed_head :
      (c : Claim) (before after : List Claim)
      → count_claims id (before ++ (c ∷ after)) ≡ 0
      → (str_eq c.request.request_id id ≡ false) × (count_claims id (before ++ after) ≡ 0)
  unfolding count_claims
  unclaimed_head c before after e =
      let n = count_claims-append id before (c ∷ after) in
      let m = count_claims-append id before after in
      elim (Bool-cases (str_eq c.request.request_id id)) [
        | inl same ↦ absurd (omega (arith, e, n, ap bit same))
        | inr other ↦ (other, omega (arith, e, n, m))
      ]

  Act-IsStranded : (w v : World) → Act w v → IsStranded w → IsStranded v
  unfolding register start_transport deliver
  Act-IsStranded w v (ask r fresh) s =
      let other = not_asked_again w r s fresh in
      record {
        filed = IsFiled-put r w.broker.pending s.filed;
        gone = rw (get-put) (rw (other) s.gone);
        unclaimed = s.unclaimed;
        waits = rw (get-put) (rw (other) s.waits);
      }
  Act-IsStranded w v (connect j) s = elim (Bool-cases w.broker.telegram) [
    | inl on ↦
        rw (on, start_transport)
          (record { filed = s.filed; gone = s.gone; unclaimed = s.unclaimed; waits = s.waits })
    | inr off ↦
        rw (off, start_transport)
          (record { filed = s.filed; gone = s.gone; unclaimed = s.unclaimed; waits = s.waits })
  ]
  Act-IsStranded w v (accept now own j answer responder approved c b k) s =
      let i = claim_answer_inv now own j answer responder approved w.broker c b k in
      rw (i.left)
        (other_claim w j i.asked c s i.found (ap (λ (x : BrokerRequest). x.request_id) i.report))
  Act-IsStranded w v (refuse now own j answer responder approved x b k) s =
      elim (claim_refused_inv now own j answer responder approved w.broker x b k) [
        | inl same ↦ rw same s
        | inr less ↦ rw less (record {
          filed = IsFiled-remove j w.broker.pending s.filed;
          gone = gone-remove j w.broker.pending s.gone;
          unclaimed = s.unclaimed;
          waits = s.waits;
        })
      ]
  Act-IsStranded w v (cancel now j o b k) s = elim (claim_cancel_inv now j w.broker o b k) [
    | inl nothing ↦ rw (nothing.0, nothing.1) s
    | inr (c, r, got, found, report, _, left) ↦
        rw (got, left)
          (other_claim w j r c s found (ap (λ (x : BrokerRequest). x.request_id) report))
  ]
  Act-IsStranded w v (finish c before after k) s =
      let rest = unclaimed_head c before after (ap (count_claims id) (sym k) ∙ s.unclaimed) in
      record {
        filed = s.filed;
        gone = s.gone;
        unclaimed = rest.1;
        waits = rw (get-put) (rw (rest.0) s.waits);
      }

-- A requester whose request got an answer that is none of its options waits on, whatever the broker and
-- all who answer or cancel requests do afterwards, unless it is cancelled itself.
pub bad_option_strands :
    (now : ℕ) (own : Bool) (id answer responder : String) (approved : Option Bool)
    (r : BrokerRequest) (w v : World)
    → IsOnce w
    → Dict.get id w.broker.pending ≡ some r
    → Dict.get id w.broker.futures ≡ some waiting
    → is_blank answer ≡ false
    → r.options ≢ []
    → mem_str answer r.options ≡ false
    → Star Act
        (record {
          broker = (claim_answer now own id answer responder approved w.broker).1;
          claims = w.claims;
        })
        v
    → Dict.get id v.broker.futures ≡ some waiting
bad_option_strands now own id answer responder approved r w v once found waits full some_options bad
      run =
    let drop =
      bad_option_drops now own id answer responder approved w.broker r found full some_options
        bad in
    let n = count_pending-remove id id r w.broker.pending found in
    let k = once.once id in
    let start : IsStranded id (record {
      broker = (claim_answer now own id answer responder approved w.broker).1;
      claims = w.claims;
    }) =
      rw drop (record {
        filed = IsFiled-remove id w.broker.pending once.filed;
        gone = simp (get-remove, eq_refl);
        unclaimed =
            omega (arith, n, k, ap bit (eq_refl id), bit-le-one (Dict.has id w.broker.futures));
        waits = waits;
      }) in
    (Star_keeps (IsStranded id) (Act-IsStranded id) run start).waits
