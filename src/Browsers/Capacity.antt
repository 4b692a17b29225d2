-- ===== src/Browsers/Capacity.antt =====
-- How many browsers there can be at once, and on which slots. Everything is counted at the slots that
-- a test on the index selects: all of them for the capacity, one of them for its exclusive use.
mod Counts
unfoldable pub use Counts.*
mod Left
unfoldable pub use Left.*
use z_apply_core.Prelude.{
  ℕ, zero, suc, ◌+◌, ◌≤◌, ◌≡◌, refl, ◌∙◌, ap, sym, String, Bool, true, false, List, [], ◌∷◌, ◌++◌,
  arith, ◌==◌, length, Option, none,
}
use z_apply_core.Dict.{Dict}
use z_apply_core.Slots.Profile.{Profile, Host}
use z_apply_core.Slots.Slot.{Slot}
use z_apply_core.Slots.Pool.{SlotPool, Disk, slots_from, provision_slots, provision}
use z_apply_core.Slots.Counting.{provision_slots-count, bit, count_free, count_slots, count_free-le}
use z_apply_core.Browsers.Pool.{BrowserLease, BrowserPool, note_active, active_count}
use z_apply_core.Browsers.World.{
  World, Step, admit, finish, leave, Reach, here, next, in_use, failures,
}

module _ (h : Host) (at : ℕ → Bool) where
  -- Each selected slot is free, or held by at most one browser that is up or on its way.
  abbrev HasRoom : World → Type 0
  HasRoom w =
      count_leases at w.pool.leases
        + count_launching at w.launching
        + count_free at w.pool.slots.slots
      ≤ count_slots at w.pool.slots.slots

  Step-HasRoom :
      {w v : World}
      → Step h w v
      → HasRoom w
      → HasRoom v × (count_slots at v.pool.slots.slots ≡ count_slots at w.pool.slots.slots)
  unfolding note_active count_launching
  Step-HasRoom {w} (admit run s p e) r =
      let c = admit-count at run s (note_active w.pool) p e in (omega (arith, r, c), c.0)
  Step-HasRoom {w} (finish l run s before after n e k) r =
      let g = launch-Grows h at l run s w.pool in
      (
        omega (
          arith,
          r,
          g.bound,
          g.slots,
          ap (count_launching at) e,
          count_launching-append at before ((run, s) ∷ after),
          count_launching-append at before after,
        ),
        g.slots,
      )
  Step-HasRoom {w} (leave closed reason run) r =
      let g = release-Grows h at closed reason run w.pool in
      (omega (arith, r, g.bound, g.slots), g.slots)

  pub Reach-HasRoom :
      {w v : World}
      → Reach h w v
      → HasRoom w
      → HasRoom v × (count_slots at v.pool.slots.slots ≡ count_slots at w.pool.slots.slots)
  Reach-HasRoom here r = (r, refl)
  Reach-HasRoom (next reach st) r =
      let before = Reach-HasRoom reach r in
      let after = Step-HasRoom st before.0 in (after.0, after.1 ∙ before.1)

  -- Nothing is in use at the start: then this is what is in use later.
  pub Reach-bound :
      (w v : World)
      → w.pool.leases ≡ []
      → w.launching ≡ []
      → Reach h w v
      → count_leases at v.pool.leases + count_launching at v.launching
        ≤ count_slots at w.pool.slots.slots
  unfolding count_leases count_launching
  Reach-bound w v e k reach =
      let r =
        Reach-HasRoom reach (rw (e, k) (omega (arith, count_free-le at w.pool.slots.slots))) in
      omega (arith, r)

-- Nothing is up at the start: then what is up later beyond the slots is what the pool counts as failed.
start-total :
    (h : Host) (at : ℕ → Bool) (w v : World)
    → w.pool.leases ≡ []
    → w.launching ≡ []
    → w.left_behind ≡ []
    → Reach h w v
    → count_leases at v.pool.leases
        + count_launching at v.launching
        + count_left at v.left_behind
        + failures w.pool
      ≤ count_slots at w.pool.slots.slots + failures v.pool
unfolding count_leases count_launching count_left
start-total h at w v e k n reach = omega (
  arith,
  Reach-total at reach,
  ap (count_leases at) e,
  ap (count_launching at) k,
  ap (count_left at) n,
  count_free-le at w.pool.slots.slots,
)

every : ℕ → Bool
every i = true

count_leases-every : (d : Dict BrowserLease) → count_leases every d ≡ length d
unfolding count_leases every
count_leases-every [] = refl
count_leases-every (e ∷ d) = omega (arith, count_leases-every d)

count_launching-every : (l : List (String × Slot)) → count_launching every l ≡ length l
unfolding count_launching every
count_launching-every [] = refl
count_launching-every (e ∷ l) = omega (arith, count_launching-every l)

count_left-every : (l : List ℕ) → count_left every l ≡ length l
unfolding count_left every
count_left-every [] = refl
count_left-every (i ∷ l) = omega (arith, count_left-every l)

count_slots-every : (l : List Slot) → count_slots every l ≡ length l
unfolding count_slots every
count_slots-every [] = refl
count_slots-every (e ∷ l) = omega (arith, count_slots-every l)

-- Whatever runs come, launch and leave in whatever order, with any failures of launches and closes: if at
-- the start no run had a browser and none was left behind, the browsers that are up or on their way are
-- never more than the slots that there were and the failures that the pool has counted since. A browser
-- that its lease has lost is among them.
pub in_use-le-slots :
    (h : Host) (w v : World)
    → w.pool.leases ≡ []
    → w.launching ≡ []
    → w.left_behind ≡ []
    → Reach h w v
    → in_use v + failures w.pool ≤ length w.pool.slots.slots + failures v.pool
unfolding in_use
in_use-le-slots h w v e k n reach = omega (
  arith,
  start-total h every w v e k n reach,
  count_left-every v.left_behind,
  count_leases-every v.pool.leases,
  count_launching-every v.launching,
  count_slots-every w.pool.slots.slots,
)

module _ (i : ℕ) where
  count_slots_from-below :
      (disk : Disk) (n k : ℕ) → suc i ≤ k → count_slots (λ j. j == i) (slots_from disk n k) ≡ 0
  unfolding count_slots slots_from
  count_slots_from-below disk zero k lt = refl
  count_slots_from-below disk (suc n) k lt = ground (arith, count_slots_from-below disk n (suc k))

  count_slots_from-le :
      (disk : Disk) (n k : ℕ) → count_slots (λ j. j == i) (slots_from disk n k) ≤ 1
  unfolding count_slots slots_from
  count_slots_from-le disk zero k = omega arith
  count_slots_from-le disk (suc n) k =
      ground (arith, count_slots_from-below disk n (suc k), count_slots_from-le disk n (suc k))

-- The browsers on the slot `i` that runs have or wait for, and those left behind on it.
abbrev pub held_on : ℕ → World → ℕ
held_on i w = count_leases (λ j. j == i) w.pool.leases + count_launching (λ j. j == i) w.launching

abbrev pub left_on : ℕ → World → ℕ
left_on i w = count_left (λ j. j == i) w.left_behind

-- Start from a provisioned pool with no run and no browser. Whatever runs come, launch and leave in
-- whatever order, with any failures: at most one of the browsers on the slot `i` belongs to a run, that
-- has it or waits for it; and all browsers on the slot, those included that a failed launch, a failed
-- close or a second lease of a run has left there, are at most one more than the failures that the pool has counted since.
pub one_browser_per_slot :
    (h : Host) (master : Option Profile) (disk : Disk) (n : ℕ) (w v : World) (i : ℕ)
    → w.pool.slots ≡ (provision h master disk n).1
    → w.pool.leases ≡ []
    → w.launching ≡ []
    → w.left_behind ≡ []
    → Reach h w v
    → (held_on i v ≤ 1) × (held_on i v + left_on i v + failures w.pool ≤ 1 + failures v.pool)
unfolding provision
one_browser_per_slot h master disk n w v i e k l none_left reach =
    let one : count_slots (λ j. j == i) w.pool.slots.slots ≤ 1 = omega (
      arith,
      ap (λ (p : SlotPool). count_slots (λ j. j == i) p.slots) e,
      provision_slots-count (λ j. j == i) h master (slots_from disk n 0),
      count_slots_from-le i disk n 0,
    ) in
    (
      omega (arith, one, Reach-bound h (λ j. j == i) w v k l reach),
      omega (arith, one, start-total h (λ j. j == i) w v k l none_left reach),
    )
