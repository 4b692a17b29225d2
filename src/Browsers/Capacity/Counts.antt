-- ===== src/Browsers/Capacity/Counts.antt =====
-- What each method of `BrowserPool` does to the leases and to the free slots, counted at the slots that
-- a test on the index selects.
use z_apply_core.Prelude.{
  ℕ, ◌+◌, ◌≤◌, ◌<◌, ◌≡◌, inl, inr, refl, ◌∙◌, sym, String, Bool, true, false, Option, none, some,
  List, [], ◌∷◌, ◌++◌, arith, ◌==◌, ltb, ltb→lt, length, Bool-cases, str_eq, from_some,
}
use z_apply_core.Dict
use z_apply_core.Dict.{Dict}
use z_apply_core.Slots.Profile.{Profile, Host}
use z_apply_core.Slots.Slot.{Slot}
use z_apply_core.Slots.Pool as SlotsPool
use z_apply_core.Slots.Pool.{SlotPool}
use z_apply_core.Slots.Counting.{bit, free, count_free, count_slots, acquire-count, release-count}
use z_apply_core.Browsers.Pool.{
  BrowserLease, BrowserPool, admitted, try_admit, take_slot, release, release_lease, release_slot,
  close_bounded, active_count,
}
use z_apply_core.Browsers.Launch.{
  Launcher, LaunchEnd, launched, exhausted, escaped, launch, launch_loop, launch_attempts,
  after_launch, write_tree,
}

take_slot_inv :
    (p q : BrowserPool) (r : Option Slot × SlotPool) (s : Slot)
    → take_slot p r ≡ (some (admitted s), q)
    → (r.0 ≡ some s) × (q ≡ record p { slots = r.1 })
take_slot_inv p q (none, sp) s e = cc
take_slot_inv p q (some t, sp) s e = ground arith

-- A round of `acquire` admits a run only if it has no lease and there are fewer leases than
-- `max_active`, and then only the slots change, by `ProfileSlotPool.acquire`.
pub try_admit_inv :
    (run : String) (s : Slot) (p q : BrowserPool)
    → try_admit run p ≡ (some (admitted s), q)
    → (Dict.has run p.leases ≡ false)
      × (length p.leases < p.max_active)
      × ((SlotsPool.acquire run p.slots).0 ≡ some s)
      × (q ≡ record p { slots = (SlotsPool.acquire run p.slots).1 })
unfolding try_admit
try_admit_inv run s p q e = elim (Bool-cases (Dict.has run p.leases)) [
  | inl there ↦ cc (rw (there, try_admit) at e)
  | inr new ↦ elim (Bool-cases (ltb (active_count p) p.max_active)) [
    | inl room ↦
        let i =
          take_slot_inv p q (SlotsPool.acquire run p.slots) s (rw (new, room, try_admit) at e) in
        (new, ltb→lt _ _ room, i.0, i.1)
    | inr full ↦ cc (rw (new, full, try_admit) at e)
  ]
]

module _ (at : ℕ → Bool) where
  -- The selected slots that leases hold, and that runs on their way to one hold.
  unfoldable pub count_leases : Dict BrowserLease → ℕ
  count_leases [] = 0
  count_leases ((_, l) ∷ d) = bit (at l.slot) + count_leases d

  unfoldable pub count_launching : List (String × Slot) → ℕ
  count_launching [] = 0
  count_launching ((_, s) ∷ l) = bit (at s.index) + count_launching l

  pub count_launching-append :
      (l m : List (String × Slot))
      → count_launching (l ++ m) ≡ count_launching l + count_launching m
  unfolding count_launching
  count_launching-append [] m = omega arith
  count_launching-append (x ∷ l) m = omega (arith, count_launching-append l m)

  count_leases-put :
      (run : String) (l : BrowserLease) (d : Dict BrowserLease)
      → count_leases (Dict.put run l d) ≤ count_leases d + bit (at l.slot)
  unfolding count_leases Dict.put
  count_leases-put run l [] = omega arith
  count_leases-put run l ((j, m) ∷ d) = elim (Bool-cases (str_eq j run)) [
    | inl same ↦ rw same (omega arith)
    | inr other ↦ rw other (omega (arith, count_leases-put run l d))
  ]

  count_leases-remove-le :
      (run : String) (d : Dict BrowserLease) → count_leases (Dict.remove run d) ≤ count_leases d
  unfolding count_leases Dict.remove
  count_leases-remove-le run [] = omega arith
  count_leases-remove-le run ((j, m) ∷ d) = elim (Bool-cases (str_eq j run)) [
    | inl same ↦ rw same (omega (arith, count_leases-remove-le run d))
    | inr other ↦ rw other (omega (arith, count_leases-remove-le run d))
  ]

  count_leases-remove :
      (run : String) (l : BrowserLease) (d : Dict BrowserLease)
      → Dict.get run d ≡ some l
      → count_leases (Dict.remove run d) + bit (at l.slot) ≤ count_leases d
  unfolding count_leases Dict.remove Dict.get
  count_leases-remove run l [] e = cc
  count_leases-remove run l ((j, m) ∷ d) e = elim (Bool-cases (str_eq j run)) [
    | inl same ↦
        let k = from_some _ _ (rw (same, Dict.get) at e) in
        rw (same, k) (omega (arith, count_leases-remove-le run d))
    | inr other ↦ rw other (omega (arith, count_leases-remove run l d (rw (other, Dict.get) at e)))
  ]

  pub write_tree-count :
      (i : ℕ) (d : Profile) (ss : List Slot)
      → (count_free at (write_tree i d ss) ≡ count_free at ss)
        × (count_slots at (write_tree i d ss) ≡ count_slots at ss)
  unfolding write_tree count_free count_slots free
  write_tree-count i d [] = omega arith
  write_tree-count i d (s ∷ ss) = elim (Bool-cases (s.index == i)) [
    | inl here ↦ rw here (refl, refl)
    | inr there ↦ rw there (omega (arith, write_tree-count i d ss))
  ]

  -- An operation keeps the slots, and adds at most `n` to the leases and free slots together.
  pub record Grows (p q : BrowserPool) (n : ℕ) : Type 0 where
    pub slots : count_slots at q.slots.slots ≡ count_slots at p.slots.slots
    pub bound :
        count_leases q.leases + count_free at q.slots.slots
        ≤ count_leases p.leases + count_free at p.slots.slots + n

module _ (h : Host) (at : ℕ → Bool) where
  pub after_launch-Grows :
      (run : String) (s : Slot) (p : BrowserPool) (e : LaunchEnd)
      → Grows at p (after_launch h run s p e).1 (bit (at s.index))
  unfolding after_launch release_slot
  after_launch-Grows run s p launched = record {
    slots = refl;
    bound =
        omega (arith, count_leases-put at run (record { run_id = run; slot = s.index }) p.leases);
  }
  after_launch-Grows run s p exhausted =
      let c = release-count at h s.index p.slots in record { slots = c.1; bound = omega (arith, c) }
  after_launch-Grows run s p (escaped e) = record { slots = refl; bound = omega arith }

  unfoldable pub launch_state : Launcher → Slot → BrowserPool → BrowserPool
  launch_state l s p =
      let done = launch_loop l launch_attempts 0 0 s.profile in
      record p {
        slots = record p.slots { slots = write_tree s.index done.tree p.slots.slots };
        stats = record p.stats { launch_retries = p.stats.launch_retries + done.retries };
      }

  pub launch-Grows :
      (l : Launcher) (run : String) (s : Slot) (p : BrowserPool)
      → Grows at p (launch h l run s p).1 (bit (at s.index))
  unfolding launch launch_state
  launch-Grows l run s p =
      let done = launch_loop l launch_attempts 0 0 s.profile in
      let c = write_tree-count at s.index done.tree p.slots.slots in
      let g = after_launch-Grows run s (launch_state l s p) done.ending in
      record { slots = g.slots ∙ c.1; bound = omega (arith, g.bound, c) }

  release_lease-Grows :
      (closed : Bool) (reason run : String) (p : BrowserPool) (o : Option BrowserLease)
      → Dict.get run p.leases ≡ o
      → Grows at p
          (release_lease h closed reason (record p { leases = Dict.remove run p.leases }) o)
          0
  unfolding release_lease release_slot close_bounded
  release_lease-Grows closed reason run p none e = record {
    slots = refl;
    bound = omega (arith, count_leases-remove-le at run p.leases);
  }
  release_lease-Grows true reason run p (some l) e =
      let c = release-count at h l.slot p.slots in
      record { slots = c.1; bound = omega (arith, c, count_leases-remove at run l p.leases e) }
  release_lease-Grows false reason run p (some l) e =
      let c = release-count at h l.slot p.slots in
      record { slots = c.1; bound = omega (arith, c, count_leases-remove at run l p.leases e) }

  pub release-Grows :
      (closed : Bool) (reason run : String) (p : BrowserPool)
      → Grows at p (release h closed reason run p) 0
  unfolding release
  release-Grows closed reason run p =
      release_lease-Grows closed reason run p (Dict.get run p.leases) refl

pub admit-count :
    (at : ℕ → Bool) (run : String) (s : Slot) (p q : BrowserPool)
    → try_admit run p ≡ (some (admitted s), q)
    → (count_slots at q.slots.slots ≡ count_slots at p.slots.slots)
      × (count_leases at q.leases ≡ count_leases at p.leases)
      × (count_free at p.slots.slots ≡ count_free at q.slots.slots + bit (at s.index))
admit-count at run s p q e =
    let i = try_admit_inv run s p q e in
    let c = acquire-count at run p.slots s i.2 in rw (i.3) (sym c.1, refl, c.0)
