-- ===== src/Browsers/Admission.antt =====
-- `BrowserPool.acquire` as its caller sees it, where no other run is between admission and launch.
use z_apply_core.Prelude.{
  ℕ, zero, suc, ◌+◌, ◌≤◌, ◌<◌, ◌≡◌, inl, inr, refl, ap, String, true, false, Option, none, some,
  arith, ◌==◌, length, Bool-cases, from_some, Option-cases, eq_refl,
}
use z_apply_core.Dict
use z_apply_core.Dict.{Dict}
use z_apply_core.Dict.{length-put-le, get-put, get-remove}
use z_apply_core.Slots.Profile.{Host}
use z_apply_core.Slots.Slot.{Slot}
use z_apply_core.Browsers.Pool.{
  BrowserLease, BrowserPool, Admission, admitted, duplicate, no_slot, rejected, try_admit, Waiting,
  admission_loop, note_active, count_wait, count_rejection, active_count,
}
use z_apply_core.Browsers.Launch.{
  Launcher, LaunchEnd, launched, exhausted, escaped, launch, after_launch, Acquired, leased_to,
  acquire, after_admission,
}
use z_apply_core.Browsers.Capacity.{try_admit_inv}

later : (w : Waiting) (k j : ℕ) → k ≤ j → w.expired j ≡ true → w.expired k ≡ false → suc k ≤ j
later w k j lo e f = elim (Bool-cases (k == j)) [
  | inl same ↦ let i : k ≡ j = ground arith in cc (ap w.expired i, e, f)
  | inr other ↦ ground arith
]

-- With a deadline that passes at round `j`, fuel for the rounds up to `j` is enough.
pub admission_loop_total :
    (w : Waiting) (fuel k j : ℕ) (run : String) (p : BrowserPool)
    → k ≤ j
    → j < k + fuel
    → w.expired j ≡ true
    → (r : Admission × BrowserPool) × (admission_loop w fuel k run p ≡ some r)
unfolding admission_loop
admission_loop_total w zero k j run p lo hi e = absurd (omega arith)
admission_loop_total w (suc fuel) k j run p lo hi e =
    elim (Option-cases (try_admit run (note_active p)).0) [
      | inr (a, got) ↦ ((a, (try_admit run (note_active p)).1), rw (got, admission_loop) refl)
      | inl full ↦ elim (Bool-cases (w.expired k)) [
        | inl late ↦ (
          (rejected, count_rejection (try_admit run (note_active p)).1),
          rw (full, late, admission_loop) refl,
        )
        | inr early ↦
            rw (full, early, admission_loop)
              (admission_loop_total w fuel (suc k) j run
                (record (w.meanwhile k (count_wait (try_admit run (note_active p)).1)) {
                  release_event = false;
                })
                (later w k j lo e early) (omega arith) e)
      ]
    ]

as_pair :
    (t : Option Admission × BrowserPool) (a : Admission) (s : Slot) (q : BrowserPool)
    → t.0 ≡ some a
    → ◌≡◌ {A = Option (Admission × BrowserPool)} (some (a, t.1)) (some (admitted s, q))
    → t ≡ (some (admitted s), q)
as_pair (o, r) a s q e f = cc

-- A run that the loop admits has no lease, and there are fewer leases than `max_active`.
admission_loop-admitted :
    (w : Waiting) (fuel k : ℕ) (run : String) (p q : BrowserPool) (s : Slot)
    → admission_loop w fuel k run p ≡ some (admitted s, q)
    → length q.leases < q.max_active
unfolding admission_loop note_active
admission_loop-admitted w zero k run p q s e = cc
admission_loop-admitted w (suc fuel) k run p q s e =
    elim (Option-cases (try_admit run (note_active p)).0) [
      | inr (a, got) ↦
          let i = as_pair _ a s q got (rw (got, admission_loop) at e) in
          let j = try_admit_inv run s (note_active p) q i in rw (j.3) (j.1)
      | inl full ↦ elim (Bool-cases (w.expired k)) [
        | inl late ↦ cc (rw (full, late, admission_loop) at e)
        | inr early ↦
            admission_loop-admitted w fuel (suc k) run
              (record (w.meanwhile k (count_wait (try_admit run (note_active p)).1)) {
                release_event = false;
              })
              q s (rw (full, early, admission_loop) at e)
      ]
    ]

after_launch-leased :
    (h : Host) (run : String) (s : Slot) (p q : BrowserPool) (x : LaunchEnd) (lease : BrowserLease)
    → after_launch h run s p x ≡ (leased_to lease, q)
    → (q.max_active ≡ p.max_active)
      × (lease ≡ record { run_id = run; slot = s.index })
      × (q.leases ≡ Dict.put run lease p.leases)
unfolding after_launch
after_launch-leased h run s p q launched lease e = ground arith
after_launch-leased h run s p q exhausted lease e = cc
after_launch-leased h run s p q (escaped y) lease e = cc

launch-leased :
    (h : Host) (l : Launcher) (run : String) (s : Slot) (p q : BrowserPool) (lease : BrowserLease)
    → ◌≡◌ {A = Option (Acquired × BrowserPool)}
        (some (launch h l run s p))
        (some (leased_to lease, q))
    → (q.max_active ≡ p.max_active)
      × (lease ≡ record { run_id = run; slot = s.index })
      × (q.leases ≡ Dict.put run lease p.leases)
unfolding launch
launch-leased h l run s p q lease e = after_launch-leased h run s _ q _ lease (from_some _ _ e)

get-put_self :
    (run : String) (l : BrowserLease) (d : Dict BrowserLease)
    → Dict.get run (Dict.put run l d) ≡ some l
get-put_self run l d = simp (get-put, eq_refl)

-- Where no other run is between its admission and its lease, `acquire` keeps the bound of
-- `max_active`: after it has returned a lease, that lease is the run's and there are at most
-- `max_active` leases.
pub acquire-le-max_active :
    (h : Host) (l : Launcher) (w : Waiting) (fuel : ℕ) (run : String) (p q : BrowserPool)
    (lease : BrowserLease)
    → acquire h l w fuel run p ≡ some (leased_to lease, q)
    → (active_count q ≤ q.max_active) × (Dict.get run q.leases ≡ some lease) × (lease.run_id ≡ run)
unfolding acquire active_count
acquire-le-max_active h l w fuel run p q lease e = go (admission_loop w fuel 0 run p) refl e
  where
    go :
        (o : Option (Admission × BrowserPool))
        → admission_loop w fuel 0 run p ≡ o
        → after_admission h l run o ≡ some (leased_to lease, q)
        → (length q.leases ≤ q.max_active)
          × (Dict.get run q.leases ≡ some lease)
          × (lease.run_id ≡ run)
    go none i f = cc
    go (some (admitted s, r)) i f =
        let a = admission_loop-admitted w fuel 0 run p r s i in
        let b = launch-leased h l run s r q lease f in
        rw (b.2) (
          omega (arith, a, b.0, length-put-le run lease r.leases),
          get-put_self run lease r.leases,
          ap (λ (x : BrowserLease). x.run_id) b.1,
        )
    go (some (duplicate, r)) i f = cc
    go (some (no_slot, r)) i f = cc
    go (some (rejected, r)) i f = cc
