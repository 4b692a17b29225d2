-- ===== src/Browsers/Capacity/Left.antt =====
-- The browsers that are left behind without a lease, beside the slots and the failures that the pool
-- counts (src/z_apply_core/browser_pool.py).
use z_apply_core.Prelude.{
  refl, ℕ, zero, suc, ◌+◌, ◌≤◌, ◌≡◌, String, Bool, true, false, Option, none, some, List, [], ◌∷◌,
  arith, Bool-cases, str_eq, inl, inr, sym, ap,
}
use z_apply_core.Dict
use z_apply_core.Dict.{Dict}
use z_apply_core.Slots.Profile.{Host}
use z_apply_core.Slots.Slot.{Slot}
use z_apply_core.Slots.Counting.{bit, count_free}
use z_apply_core.Browsers.Pool.{
  BrowserLease, BrowserPool, note_active, release, release_lease, release_slot, close_bounded,
  count_reason,
}
use z_apply_core.Browsers.Launch.{
  leased_to, Launcher, LaunchEnd, launched, exhausted, escaped, launch, launch_loop,
  launch_attempts, after_launch,
}
use z_apply_core.Browsers.World.{
  World, Step, admit, finish, leave, Reach, here, next, failures, failed_attempts, last_failure,
  leave_strays, leave_orphan, leave_replaced,
}
use z_apply_core.Browsers.Capacity.Counts.{
  try_admit_inv, admit-count, count_leases, count_launching, count_launching-append,
  after_launch-Grows, release-Grows, launch_state, write_tree-count,
}

module _ (at : ℕ → Bool) where
  -- The browsers left behind on the selected slots.
  unfoldable pub count_left : List ℕ → ℕ
  count_left [] = 0
  count_left (i ∷ left) = bit (at i) + count_left left

  bit-le : (b : Bool) → bit b ≤ 1
  bit-le true = omega arith
  bit-le false = omega arith

  count_left-strays :
      (n i : ℕ) (left : List ℕ) → count_left (leave_strays n i left) ≤ count_left left + n
  unfolding count_left leave_strays
  count_left-strays zero i left = omega arith
  count_left-strays (suc n) i left = omega (arith, count_left-strays n i left, bit-le (at i))

  after_launch-failures :
      (h : Host) (run : String) (s : Slot) (p : BrowserPool) (e : LaunchEnd)
      → failures (after_launch h run s p e).1 ≡ failures p + last_failure e
  unfolding after_launch release_slot failures count_reason
  after_launch-failures h run s p launched = omega arith
  after_launch-failures h run s p exhausted = omega arith
  after_launch-failures h run s p (escaped e) = omega arith

  launch-failures :
      (h : Host) (l : Launcher) (run : String) (s : Slot) (p : BrowserPool)
      → failures (launch h l run s p).1
        ≡ failures p + failed_attempts (launch_loop l launch_attempts 0 0 s.profile)
  unfolding launch failures failed_attempts
  launch-failures h l run s p =
      let done = launch_loop l launch_attempts 0 0 s.profile in
      omega (arith, after_launch-failures h run s _ done.ending)

  release_lease-left :
      (h : Host) (closed : Bool) (reason : String) (p : BrowserPool) (o : Option BrowserLease)
      (left : List ℕ)
      → count_left (leave_orphan closed o left) + failures p
        ≤ count_left left + failures (release_lease h closed reason p o)
  unfolding release_lease release_slot close_bounded failures count_reason leave_orphan count_left
  release_lease-left h true reason p none left = omega arith
  release_lease-left h false reason p none left = omega arith
  release_lease-left h true reason p (some l) left = omega arith
  release_lease-left h false reason p (some l) left = omega (arith, bit-le (at l.slot))

  release-left :
      (h : Host) (closed : Bool) (reason run : String) (p : BrowserPool) (left : List ℕ)
      → count_left (leave_orphan closed (Dict.get run p.leases) left) + failures p
        ≤ count_left left + failures (release h closed reason run p)
  unfolding release failures
  release-left h closed reason run p left =
      release_lease-left h closed reason (record p { leases = Dict.remove run p.leases })
        (Dict.get run p.leases) left

  count_lease : Option BrowserLease → ℕ
  count_lease none = 0
  count_lease (some l) = bit (at l.slot)

  count_leases-replace :
      (run : String) (l : BrowserLease) (d : Dict BrowserLease) (o : Option BrowserLease)
      → Dict.get run d ≡ o
      → count_leases at (Dict.put run l d) + count_lease o ≤ count_leases at d + bit (at l.slot)
  unfolding count_leases count_lease Dict.put Dict.get
  count_leases-replace run l [] none e = omega arith
  count_leases-replace run l [] (some m) e = cc
  count_leases-replace run l ((j, m) ∷ d) o e = elim (Bool-cases (str_eq j run)) [
    | inl same ↦ let k : some m ≡ o = rw (same, Dict.get) at e in rw (same, sym k) (omega arith)
    | inr other ↦
        rw other (omega (arith, count_leases-replace run l d o (rw (other, Dict.get) at e)))
  ]

  count_left-replaced :
      (l : BrowserLease) (o : Option BrowserLease) (left : List ℕ)
      → count_left (leave_replaced (leased_to l) o left) ≡ count_lease o + count_left left
  unfolding count_left count_lease leave_replaced
  count_left-replaced l none left = omega arith
  count_left-replaced l (some m) left = refl

  -- Browsers and free slots together.
  abbrev pub all_of : BrowserPool → List ℕ → ℕ
  all_of p left = count_leases at p.leases + count_free at p.slots.slots + count_left left

  after_launch-all :
      (h : Host) (run : String) (s : Slot) (p : BrowserPool) (e : LaunchEnd) (left : List ℕ)
      → all_of
          (after_launch h run s p e).1
          (leave_replaced (after_launch h run s p e).0 (Dict.get run p.leases) left)
        ≤ all_of p left + bit (at s.index)
  unfolding after_launch leave_replaced
  after_launch-all h run s p launched left =
      let l : BrowserLease = record { run_id = run; slot = s.index } in
      omega (
        arith,
        count_leases-replace run l p.leases (Dict.get run p.leases) refl,
        count_left-replaced l (Dict.get run p.leases) left,
      )
  after_launch-all h run s p exhausted left =
      let g = after_launch-Grows h at run s p exhausted in omega (arith, g.bound)
  after_launch-all h run s p (escaped x) left =
      let g = after_launch-Grows h at run s p (escaped x) in omega (arith, g.bound)

  launch-all :
      (h : Host) (l : Launcher) (run : String) (s : Slot) (p : BrowserPool) (left : List ℕ)
      → all_of
          (launch h l run s p).1
          (leave_replaced (launch h l run s p).0 (Dict.get run p.leases) left)
        ≤ all_of p left + bit (at s.index)
  unfolding launch launch_state
  launch-all h l run s p left =
      let done = launch_loop l launch_attempts 0 0 s.profile in
      let c = write_tree-count at s.index done.tree p.slots.slots in
      omega (arith, after_launch-all h run s (launch_state h at l s p) done.ending left, c)

  abbrev pub total : World → ℕ
  total w = all_of w.pool w.left_behind + count_launching at w.launching

  -- A browser more, on a slot that was not free, is a failure that the pool counts.
  Step-total :
      {h : Host} {w v : World} → Step h w v → total v + failures w.pool ≤ total w + failures v.pool
  unfolding note_active failures count_launching
  Step-total {h} {w} (admit run s p e) =
      let i = try_admit_inv run s (note_active w.pool) p e in
      let c = admit-count at run s (note_active w.pool) p e in
      let f : failures p ≡ failures w.pool = rw (i.3) refl in omega (arith, c, f)
  Step-total {h} {w} (finish l run s before after n e k) =
      let left =
        leave_replaced (launch h l run s w.pool).0 (Dict.get run w.pool.leases) w.left_behind in
      omega (
        arith,
        k,
        launch-failures h l run s w.pool,
        launch-all h l run s w.pool w.left_behind,
        count_left-strays n s.index left,
        ap (count_launching at) e,
        count_launching-append at before ((run, s) ∷ after),
        count_launching-append at before after,
      )
  Step-total {h} {w} (leave closed reason run) =
      let g = release-Grows h at closed reason run w.pool in
      omega (arith, g.bound, release-left h closed reason run w.pool w.left_behind)

  pub Reach-total :
      {h : Host} {w v : World} → Reach h w v → total v + failures w.pool ≤ total w + failures v.pool
  Reach-total here = omega arith
  Reach-total (next reach st) = omega (arith, Reach-total reach, Step-total st)
