-- ===== src/Goal/Attempts.antt =====
-- How often `run_persistent_goal` (src/z_apply_core/agents/goal_runner.py) runs the agent.
use z_apply_core.Prelude.{
  ℕ, zero, suc, ◌+◌, ◌≤◌, ◌<◌, ◌≡◌, refl, sym, ap, ◌∙◌, from_some, String, Option, none, some, List,
  [], ◌∷◌, leb, arith, Bool-cases, inl, inr, leb→le, not-leb→lt,
}
use z_apply_core.Goal.Runner.{
  Failure, Surroundings, Trace, Course, raised, on_success, on_failure, recover, recovery_message,
  goal_loop, run_persistent_goal, terminates, recovery_started,
}

-- The recoveries among what was emitted.
unfoldable pub count_started : List Trace → ℕ
count_started [] = 0
count_started (recovery_started n e ∷ ts) = 1 + count_started ts
count_started (_ ∷ ts) = count_started ts

-- A course from some recoveries on: its runs are one more than its recoveries and within the limit,
-- and it raises only at the limit.
pub record IsCourse (limit recovered : ℕ) (c : Course) : Type 0 where
  pub counted : c.runs ≡ count_started c.traces + 1
  pub bounded : recovered + c.runs ≤ limit + 1
  pub late : (e : Failure) → c.ending ≡ raised e → recovered + c.runs ≡ limit + 1

abbrev Ends : ℕ → ℕ → Option Course → Type 0
Ends limit recovered o = (c : Course) × (o ≡ some c) × IsCourse limit recovered c

success-Ends : (limit n : ℕ) → n ≤ limit → Ends limit n (some (on_success n))
unfolding on_success count_started
success-Ends limit zero h =
    (_, refl, record { counted = omega arith; bounded = omega arith; late = λ e r. ground arith })
success-Ends limit (suc n) h = (
  _,
  refl,
  record { counted = omega arith; bounded = omega (arith, h); late = λ e r. ground arith },
)

recover-Ends :
    (limit recovered : ℕ) (e : Failure) (rest : Option Course)
    → Ends limit (recovered + 1) rest
    → Ends limit recovered (recover (recovered + 1) e rest)
unfolding count_started
recover-Ends limit recovered e none (c, h, k) = ground arith
recover-Ends limit recovered e (some d) (c, h, k) = (
  _,
  refl,
  record {
    counted = omega (
      arith,
      k.counted,
      ap (λ x. x.runs) (from_some d c h),
      ap (λ x. count_started x.traces) (from_some d c h),
    );
    bounded = omega (arith, k.bounded, ap (λ x. x.runs) (from_some d c h));
    late = λ x r. omega (
      arith,
      k.late x (ap (λ y. y.ending) (sym (from_some d c h)) ∙ r),
      ap (λ y. y.runs) (from_some d c h),
    );
  },
)

failure-Ends :
    (s : Surroundings) (limit recovered : ℕ) (e : Failure) (rest : Option Course)
    → recovered ≤ limit
    → (recovered < limit → Ends limit (recovered + 1) rest)
    → Ends limit recovered (on_failure s limit recovered e rest)
unfolding on_failure count_started
failure-Ends s limit recovered e rest within later = elim (Bool-cases (s.is_terminal recovered)) [
  | inl ended ↦ rw ended (
    _,
    refl,
    record { counted = refl; bounded = omega (arith, within); late = λ x r. ground arith },
  )
  | inr active ↦ elim (Bool-cases (terminates s.on_recovery e (recovered + 1))) [
    | inl stops ↦
        rw (active, stops)
          (
            _,
            refl,
            record { counted = refl; bounded = omega (arith, within); late = λ x r. ground arith },
          )
    | inr go ↦ elim (Bool-cases (leb limit recovered)) [
      | inl full ↦
          rw (active, go, full)
            (
              _,
              refl,
              record {
                counted = refl;
                bounded = omega (arith, within);
                late = λ x r. omega (arith, within, leb→le limit recovered full);
              },
            )
      | inr room ↦
          rw (active, go, room)
            (recover-Ends limit recovered e rest (later (not-leb→lt limit recovered room)))
    ]
  ]
]

loop-Ends :
    (s : Surroundings) (fuel limit recovered : ℕ) (message : String)
    → recovered ≤ limit
    → limit < recovered + fuel
    → Ends limit recovered (goal_loop s fuel limit recovered message)
unfolding goal_loop
loop-Ends s zero limit recovered message within enough = ground arith
loop-Ends s (suc fuel) limit recovered message within enough =
    elim (s.run_agent recovered message)
      as (λ r. Ends limit recovered (elim r [
        | none ↦ some (on_success recovered)
        | some e ↦ on_failure s limit recovered e (
            goal_loop s fuel limit (recovered + 1)
              (recovery_message s.show (recovered + 1) limit e))
      ])) [
        | none ↦ success-Ends limit recovered within
        | some e ↦ failure-Ends s limit recovered e _ within (λ room.
            loop-Ends s fuel limit (recovered + 1) _ (omega (arith, room)) (omega (arith, enough)))
      ]

-- The loop ends, whatever the agent and the callbacks do: the agent is run once more than the
-- recoveries that were emitted, at most max_recoveries + 1 times, and the exception of a run is
-- raised only after the last of these.
pub run_persistent_goal_ends :
    (s : Surroundings) (max_recoveries : ℕ) (message : String)
    → (c : Course) × (run_persistent_goal s max_recoveries message ≡ some c)
      × (c.runs ≡ count_started c.traces + 1)
      × (c.runs ≤ max_recoveries + 1)
      × ((e : Failure) → c.ending ≡ raised e → c.runs ≡ max_recoveries + 1)
unfolding run_persistent_goal
run_persistent_goal_ends s max_recoveries message =
    let (c, h, k) =
      loop-Ends s (max_recoveries + 1) max_recoveries 0 message (omega arith) (omega arith) in
    (c, h, k.counted, omega (arith, k.bounded), λ e r. omega (arith, k.late e r))
