-- ===== src/Broker/Once.antt =====
-- A request is reported at most once, whoever answers or cancels it and in whatever order.
use z_apply_core.Prelude.{
  ◌+◌, ◌≤◌, ◌≡◌, inl, inr, refl, ap, ◌∙◌, String, Bool, true, false, ◌||◌, some, List, [], ◌∷◌,
  ◌++◌, arith, str_eq, eq_iff, Bool-cases,
}
use z_apply_core.Dict
use z_apply_core.Dict.{Dict}
use z_apply_core.Star.{Star, Star_keeps}
use z_apply_core.Broker.Request.{BrokerRequest}
use z_apply_core.Broker.Methods.{
  Claim, Notice, transport_cancelled, telegram_cancelled, register, start_transport, deliver,
  withdraw, note_if,
}
use z_apply_core.Broker.World.{
  World, Act, ask, connect, accept, refuse, cancel, finish, Step, act, leave,
}
use z_apply_core.Broker.Counts.{
  bit, IsFiled, count_pending, count_claims, count_resolutions, count_claims-append,
  count_pending-put, count_pending-remove-le, count_pending-remove, has-put, IsFiled-put,
  IsFiled-remove, IsFiled-get,
}
use z_apply_core.Broker.Claims.{without, claim_answer_inv, claim_refused_inv, claim_cancel_inv}

-- A request that was made is pending, taken or reported, and in no two of these.
pub record IsOnce (w : World) : Type 0 where
  pub filed : IsFiled w.broker.pending
  pub once :
      (id : String)
      → count_pending id w.broker.pending
          + count_claims id w.claims
          + count_resolutions id w.broker.notices
        ≤ bit (Dict.has id w.broker.futures)

-- The broker after the lock has taken the request from it that `c` claims.
taken-IsOnce :
    (w : World) (id : String) (r : BrokerRequest) (c : Claim)
    → Dict.get id w.broker.pending ≡ some r
    → c.request.request_id ≡ r.request_id
    → IsOnce w
    → IsOnce (record { broker = without id w.broker; claims = c ∷ w.claims })
unfolding count_claims
taken-IsOnce w id r c g e k = record {
  filed = IsFiled-remove id w.broker.pending k.filed;
  once = λ j.
      let i = e ∙ IsFiled-get id r w.broker.pending k.filed g in
      let n = ap (λ (x : String). bit (str_eq x j)) i in
      omega (arith, k.once j, n, count_pending-remove j id r w.broker.pending g);
}

lost-IsOnce :
    (w : World) (id : String)
    → IsOnce w
    → IsOnce (record { broker = without id w.broker; claims = w.claims })
lost-IsOnce w id k = record {
  filed = IsFiled-remove id w.broker.pending k.filed;
  once = λ j. omega (arith, k.once j, count_pending-remove-le j id w.broker.pending);
}

note_if-count :
    (j : String) (b : Bool) (n : Notice) (ns : List Notice)
    → count_resolutions j (n ∷ []) ≡ 0
    → count_resolutions j (note_if b n ns) ≡ count_resolutions j ns
unfolding count_resolutions note_if
note_if-count j true n ns e = omega arith
note_if-count j false n ns e = refl

bit-le : (a b : Bool) → bit b ≤ bit (a || b)
bit-le a b = ground arith

register-IsOnce :
    (w : World) (r : BrokerRequest)
    → Dict.has r.request_id w.broker.futures ≡ false
    → IsOnce w
    → IsOnce (record { broker = register r w.broker; claims = w.claims })
unfolding register count_resolutions
register-IsOnce w r fresh k = record {
  filed = IsFiled-put r w.broker.pending k.filed;
  once = λ j.
      let n = count_pending-put j r.request_id r w.broker.pending in
      rw has-put (elim (Bool-cases (str_eq r.request_id j)) [
        | inl same ↦
            let gone : Dict.has j w.broker.futures ≡ false =
              rw (← (eq_iff r.request_id j).0 same) fresh in
            rw same (omega (arith, k.once j, n, ap bit gone, ap bit same))
        | inr other ↦ rw other (omega (arith, k.once j, n, ap bit other))
      ]);
}

start_transport-IsOnce :
    (w : World) (id : String)
    → IsOnce w
    → IsOnce (record { broker = start_transport id w.broker; claims = w.claims })
unfolding start_transport
start_transport-IsOnce w id k = elim (Bool-cases w.broker.telegram) [
  | inl on ↦ rw (on) (record { filed = k.filed; once = k.once })
  | inr off ↦ rw (off) (record { filed = k.filed; once = k.once })
]

deliver-IsOnce :
    (w : World) (c : Claim) (before after : List Claim)
    → w.claims ≡ before ++ (c ∷ after)
    → IsOnce w
    → IsOnce (record { broker = deliver c w.broker; claims = before ++ after })
unfolding deliver count_resolutions count_claims
deliver-IsOnce w c before after e k = record {
  filed = k.filed;
  once = λ j. rw has-put (
      omega (
        arith,
        k.once j,
        ap (count_claims j) e,
        count_claims-append j before (c ∷ after),
        count_claims-append j before after,
        note_if-count j c.stop_transport (transport_cancelled c.request.request_id)
            (note_if c.tell_telegram (telegram_cancelled c.request.request_id) w.broker.notices)
            refl,
        note_if-count j c.tell_telegram (telegram_cancelled c.request.request_id) w.broker.notices
            refl,
        bit-le (str_eq c.request.request_id j) (Dict.has j w.broker.futures),
      ));
}

withdraw-IsOnce :
    (w : World) (id : String)
    → IsOnce w
    → IsOnce (record { broker = withdraw id w.broker; claims = w.claims })
unfolding withdraw
withdraw-IsOnce w id k = record {
  filed = k.filed;
  once =
      λ j. rw has-put (omega (arith, k.once j, bit-le (str_eq id j) (Dict.has j w.broker.futures)));
}

pub bit-le-one : (b : Bool) → bit b ≤ 1
bit-le-one b = ground arith

Act-IsOnce : (w v : World) → Act w v → IsOnce w → IsOnce v
Act-IsOnce w v (ask r fresh) k = register-IsOnce w r fresh k
Act-IsOnce w v (connect id) k = start_transport-IsOnce w id k
Act-IsOnce w v (accept now own id answer responder approved c b e) k =
    let i = claim_answer_inv now own id answer responder approved w.broker c b e in
    rw (i.left)
      (taken-IsOnce w id i.asked c i.found (ap (λ (x : BrokerRequest). x.request_id) i.report) k)
Act-IsOnce w v (refuse now own id answer responder approved x b e) k =
    elim (claim_refused_inv now own id answer responder approved w.broker x b e) [
      | inl same ↦ rw same k
      | inr less ↦ rw less (lost-IsOnce w id k)
    ]
Act-IsOnce w v (cancel now id o b e) k = elim (claim_cancel_inv now id w.broker o b e) [
  | inl nothing ↦ rw (nothing.0, nothing.1) k
  | inr (c, r, got, found, report, _, left) ↦
      rw (got, left)
        (taken-IsOnce w id r c found (ap (λ (x : BrokerRequest). x.request_id) report) k)
]
Act-IsOnce w v (finish c before after e) k = deliver-IsOnce w c before after e k

pub Step-IsOnce : (w v : World) → Step w v → IsOnce w → IsOnce v
Step-IsOnce w v (act a) k = Act-IsOnce w v a k
Step-IsOnce w v (leave id) k = withdraw-IsOnce w id k

-- A broker to which no request has been made.
abbrev pub idle : String → Bool → World
idle run telegram = record {
  broker = record {
    run_id = run;
    telegram = telegram;
    pending = [];
    futures = [];
    transports = [];
    notices = [];
  };
  claims = [];
}

pub idle-IsOnce : (run : String) (telegram : Bool) → IsOnce (idle run telegram)
unfolding count_pending count_claims count_resolutions Dict.has
idle-IsOnce run telegram = record { filed = tt; once = λ j. omega arith }

-- From a broker to which no request has been made, through any requests, answers, cancellations and
-- deliveries in any order: a request is reported to the resolution hook at most once, and one that has
-- been reported is neither pending nor taken.
pub reported_once :
    (run : String) (telegram : Bool) (w : World) (id : String)
    → Star Step (idle run telegram) w
    → count_pending id w.broker.pending
        + count_claims id w.claims
        + count_resolutions id w.broker.notices
      ≤ 1
reported_once run telegram w id s =
    let k = Star_keeps IsOnce Step-IsOnce s (idle-IsOnce run telegram) in
    omega (arith, k.once id, bit-le-one (Dict.has id w.broker.futures))
