-- ===== src/Slots/Counting.antt =====
-- How many of the slots that a test on the index selects are free: what a lease takes and a release
-- gives back.
use z_apply_core.Prelude.{
  ℕ, ◌+◌, ◌≤◌, ◌≡◌, inl, inr, refl, ap, ==→eq, String, Bool, true, false, Option, some, List, [],
  ◌∷◌, ◌++◌, arith, Option-cases, ◌==◌, if◌then◌else◌, Bool-cases,
}
use z_apply_core.Slots.Profile.{Profile, Host}
use z_apply_core.Slots.Slot.{Slot, pristine, is_pristine, mark_leased, clear_lease, reset}
use z_apply_core.Slots.Pool.{SlotPool, provision_slots, acquire, release_slot, release_at, release}
use z_apply_core.Slots.Leasing.{LeasesFirst, acquire_first}

-- 1 for true.
abbrev pub bit : Bool → ℕ
bit true = 1
bit false = 0

module _ (at : ℕ → Bool) where
  unfoldable pub free : Slot → ℕ
  free s = if is_pristine s.state then bit (at s.index) else 0

  -- The selected slots that are free, and all of them.
  unfoldable pub count_free : List Slot → ℕ
  count_free [] = 0
  count_free (s ∷ ss) = free s + count_free ss

  unfoldable pub count_slots : List Slot → ℕ
  count_slots [] = 0
  count_slots (s ∷ ss) = bit (at s.index) + count_slots ss

  pub free-le : (s : Slot) → free s ≤ bit (at s.index)
  unfolding free
  free-le s = ground arith

  pub count_free-le : (ss : List Slot) → count_free ss ≤ count_slots ss
  unfolding count_free count_slots
  count_free-le [] = omega arith
  count_free-le (s ∷ ss) = omega (arith, free-le s, count_free-le ss)

  count_free-append : (ss ts : List Slot) → count_free (ss ++ ts) ≡ count_free ss + count_free ts
  unfolding count_free
  count_free-append [] ts = omega arith
  count_free-append (s ∷ ss) ts = omega (arith, count_free-append ss ts)

  count_slots-append :
      (ss ts : List Slot) → count_slots (ss ++ ts) ≡ count_slots ss + count_slots ts
  unfolding count_slots
  count_slots-append [] ts = omega arith
  count_slots-append (s ∷ ss) ts = omega (arith, count_slots-append ss ts)

  mark_leased-count :
      (run : String) (s : Slot)
      → s.state ≡ pristine
      → (free s ≡ bit (at s.index)) × (free (mark_leased run s) ≡ 0)
  unfolding free mark_leased is_pristine
  mark_leased-count run s e = rw e (refl, refl)

  LeasesFirst-count :
      (run : String) (ss ss' : List Slot) (t : Slot)
      → LeasesFirst run ss t ss'
      → (count_free ss ≡ count_free ss' + bit (at t.index)) × (count_slots ss ≡ count_slots ss')
  unfolding count_free count_slots mark_leased
  LeasesFirst-count run ss ss' t f =
      rw (f.split, f.result, f.marked)
        (
          omega (
            arith,
            mark_leased-count run f.chosen f.free,
            count_free-append f.before (f.chosen ∷ f.after),
            count_free-append f.before (mark_leased run f.chosen ∷ f.after),
          ),
          simp count_slots-append,
        )

  -- A lease takes a free slot; a refusal changes nothing.
  pub acquire-count :
      (run : String) (p : SlotPool) (t : Slot)
      → (acquire run p).0 ≡ some t
      → (count_free p.slots ≡ count_free (acquire run p).1.slots + bit (at t.index))
        × (count_slots p.slots ≡ count_slots (acquire run p).1.slots)
  acquire-count run p t e = elim (acquire_first run p) [
    | inl (none_free, _, _) ↦ cc (none_free, e)
    | inr (u, got, _, f) ↦
        let same : u ≡ t = cc (got, e) in
        rw (← same) (LeasesFirst-count run p.slots (acquire run p).1.slots u f)
  ]

  index-reset :
      (h : Host) (master : Option Profile) (s : Slot) → (reset h master s).1.index ≡ s.index
  unfolding reset
  index-reset h master s = refl

  pub provision_slots-count :
      (h : Host) (master : Option Profile) (ss : List Slot)
      → count_slots (provision_slots h master ss).1 ≡ count_slots ss
  unfolding provision_slots count_slots
  provision_slots-count h master [] = refl
  provision_slots-count h master (s ∷ ss) =
      let n = ap (λ (x : ℕ). bit (at x)) (index-reset h master s) in
      elim (Option-cases (reset h master s).0) [
        | inl done ↦
            rw (done, provision_slots, count_slots)
              (omega (arith, n, provision_slots-count h master ss))
        | inr (x, raised) ↦ rw (raised, provision_slots, count_slots) (omega (arith, n))
      ]

  index-release_slot :
      (h : Host) (master : Option Profile) (s : Slot) → (release_slot h master s).1.index ≡ s.index
  unfolding release_slot reset clear_lease
  index-release_slot h master s = ground arith

  release_at-count :
      (h : Host) (master : Option Profile) (i : ℕ) (ss : List Slot)
      → (count_free (release_at h master i ss).1 ≤ count_free ss + bit (at i))
        × (count_slots (release_at h master i ss).1 ≡ count_slots ss)
  unfolding release_at count_free count_slots
  release_at-count h master i [] = omega arith
  release_at-count h master i (s ∷ ss) = elim (Bool-cases (s.index == i)) [
    | inl here ↦
        let r = (release_slot h master s).1 in
        let k = index-release_slot h master s in
        let n = ap (λ (x : ℕ). bit (at x)) k in
        let m = ap (λ (x : ℕ). bit (at x)) (==→eq s.index i here) in
        rw (here) (omega (arith, free-le r, n, m), omega (arith, n))
    | inr there ↦ rw (there) (omega (arith, release_at-count h master i ss))
  ]

  pub release-count :
      (h : Host) (i : ℕ) (p : SlotPool)
      → (count_free (release h i p).1.slots ≤ count_free p.slots + bit (at i))
        × (count_slots (release h i p).1.slots ≡ count_slots p.slots)
  unfolding release
  release-count h i p = release_at-count h p.master i p.slots
