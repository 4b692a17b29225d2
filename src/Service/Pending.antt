-- ===== src/Service/Pending.antt =====
-- Which request a run's view points to (src/z_apply_core/integrations/service.py).
use z_apply_core.Prelude.{
  ℕ, ◌≤◌, String, ◌≡◌, refl, ap, sym, subst, true, false, Option, none, some, [], ◌∷◌, All, leb,
  leb→le, not-leb→lt, Bool-cases, arith, inl, inr, if◌then◌else◌,
}
use z_apply_core.Dict.{Dict}
use z_apply_core.Broker.Request.{BrokerRequest}
use z_apply_core.Service.View.{RunStatus}
use z_apply_core.Service.Run.{CoreHumanRequest, Run, Python, emit}
use z_apply_core.Service.Requests.{
  is_pending, is_terminal, id_of, oldest, oldest_pending, earlier, resolved_status, emit_requested,
  human_requested, human_resolved,
}

-- The request that was made first among those that are pending, if there is one.
abbrev pub IsOldest : Dict CoreHumanRequest → Option CoreHumanRequest → Type 0
IsOldest d none = All (λ e. is_pending e.1.status ≡ false) d
IsOldest d (some r) =
    (is_pending r.status ≡ true)
    × All (λ e. is_pending e.1.status ≡ true → r.created_at ≤ e.1.created_at) d

later_bound :
    (n m : ℕ) (d : Dict CoreHumanRequest)
    → n ≤ m
    → All (λ e. is_pending e.1.status ≡ true → m ≤ e.1.created_at) d
    → All (λ e. is_pending e.1.status ≡ true → n ≤ e.1.created_at) d
later_bound n m [] h k = tt
later_bound n m ((i, r) ∷ d) h k = (λ p. omega (arith, h, k.0 p), later_bound n m d h k.1)

none_pending :
    (n : ℕ) (d : Dict CoreHumanRequest)
    → All (λ e. is_pending e.1.status ≡ false) d
    → All (λ e. is_pending e.1.status ≡ true → n ≤ e.1.created_at) d
none_pending n [] k = tt
none_pending n ((i, r) ∷ d) k = (λ p. absurd (ground (arith, p, k.0)), none_pending n d k.1)

-- A pending request before others.
first_pending :
    (i : String) (r : CoreHumanRequest) (d : Dict CoreHumanRequest) (o : Option CoreHumanRequest)
    → is_pending r.status ≡ true
    → IsOldest d o
    → IsOldest ((i, r) ∷ d) (some (earlier r o))
first_pending i r d none p k = (p, ((λ q. omega arith), none_pending r.created_at d k))
first_pending i r d (some s) p k = elim (Bool-cases (leb r.created_at s.created_at)) [
  | inl sooner ↦
      let before = leb→le r.created_at s.created_at sooner in
      subst (λ c. IsOldest ((i, r) ∷ d) (some c)) (sym (ap (λ b. if b then r else s) sooner))
        (p, ((λ q. omega arith), later_bound r.created_at s.created_at d before k.1))
  | inr later ↦
      let after = not-leb→lt r.created_at s.created_at later in
      subst (λ c. IsOldest ((i, r) ∷ d) (some c)) (sym (ap (λ b. if b then r else s) later))
        (k.0, ((λ q. omega (arith, after)), k.1))
]

not_pending :
    (i : String) (r : CoreHumanRequest) (d : Dict CoreHumanRequest) (o : Option CoreHumanRequest)
    → is_pending r.status ≡ false
    → IsOldest d o
    → IsOldest ((i, r) ∷ d) o
not_pending i r d none p k = (p, k)
not_pending i r d (some s) p k = (k.0, ((λ q. absurd (ground (arith, p, q))), k.1))

oldest-IsOldest : (d : Dict CoreHumanRequest) → IsOldest d (oldest d)
unfolding oldest
oldest-IsOldest [] = tt
oldest-IsOldest ((i, r) ∷ d) = elim (Bool-cases (is_pending r.status)) [
  | inl p ↦ rw p (first_pending i r d (oldest d) p (oldest-IsOldest d))
  | inr p ↦ rw p (not_pending i r d (oldest d) p (oldest-IsOldest d))
]

-- The pointer of the view names the oldest pending request.
abbrev pub PointsToOldest : Run → Type 0
PointsToOldest r =
    (o : Option CoreHumanRequest) × IsOldest r.human_requests o
    × (r.view.pending_human_request_id ≡ id_of o)

points : (s : Run) → s.view.pending_human_request_id ≡ oldest_pending s → PointsToOldest s
unfolding oldest_pending
points s h = (oldest s.human_requests, oldest-IsOldest s.human_requests, h)

module _ (py : Python) (now : ℕ) (q : BrokerRequest) (r : Run)
    (live : is_terminal r.view.status ≡ false) where
  requested_points :
      (image : Option String)
      → (human_requested py now image q r).view.pending_human_request_id
        ≡ oldest_pending (human_requested py now image q r)
  unfolding human_requested emit_requested emit oldest_pending
  requested_points image = rw live refl

  requested_waits :
      (image : Option String)
      → (human_requested py now image q r).view.status ≡ RunStatus.waiting_human
  unfolding human_requested emit_requested emit
  requested_waits image = rw live refl

  resolved_points :
      (human_resolved py now q r).view.pending_human_request_id
      ≡ oldest_pending (human_resolved py now q r)
  unfolding human_resolved emit oldest_pending
  resolved_points = rw live refl

  resolved_goes_on :
      (human_resolved py now q r).view.status
      ≡ resolved_status r.view.control_mode
          (human_resolved py now q r).view.pending_human_request_id
  unfolding human_resolved emit
  resolved_goes_on = rw live refl

-- When the broker reports a new request or the end of one to a run that is not terminal, its view points to the
-- oldest of its pending requests, and to none if none is pending; after the end of one, the run is under human
-- control if it was, waits if one is pending, and runs otherwise.
pub reports_point_to_oldest :
    (py : Python) (now : ℕ) (image : Option String) (q : BrokerRequest) (r : Run)
    → is_terminal r.view.status ≡ false
    → PointsToOldest (human_requested py now image q r)
      × PointsToOldest (human_resolved py now q r)
      × ((human_requested py now image q r).view.status ≡ RunStatus.waiting_human)
      × ((human_resolved py now q r).view.status
          ≡ resolved_status r.view.control_mode
              (human_resolved py now q r).view.pending_human_request_id)
reports_point_to_oldest py now image q r live = (
  points (human_requested py now image q r) (requested_points py now q r live image),
  points (human_resolved py now q r) (resolved_points py now q r live),
  requested_waits py now q r live image,
  resolved_goes_on py now q r live,
)
