-- ===== src/Slots/Pool.antt =====
-- `ProfileSlotPool` of src/z_apply_core/profile_pool.py. Its lock makes each method one atomic step.
-- A slot object is named by its index.
use z_apply_core.Prelude.{
  ℕ, zero, suc, String, Option, none, some, List, [], ◌∷◌, ◌==◌, if◌then◌else◌,
}
use z_apply_core.Slots.Profile.{Profile, Host, SlotError, is_text}
use z_apply_core.Slots.Slot.{Slot, pristine, is_pristine, mark_leased, clear_lease, reset}

pub record SlotPool : Type 0 where
  pub master : Option Profile
  pub slots : List Slot

-- What a slot's directory holds before the process starts: a lease marker and a profile.
abbrev pub Disk : Type 0
Disk = ℕ → Option String × Profile

unfoldable pub slots_from : Disk → ℕ → ℕ → List Slot
slots_from disk zero i = []
slots_from disk (suc n) i =
    let (marker, tree) = disk i in
    record { index = i; state = pristine; run_id = none; lease_marker = marker; profile = tree }
    ∷ slots_from disk n (suc i)

-- The loop of `provision`. A reset that raises ends it.
unfoldable pub provision_slots : Host → Option Profile → List Slot → Option SlotError × List Slot
provision_slots h master [] = (none, [])
provision_slots h master (s ∷ ss) =
    let rest = provision_slots h master ss in
    let (e, s') = reset h master s in
    elim e [
      | some x ↦ (some x, s' ∷ ss)
      | none ↦ (rest.0, record s' { lease_marker = none } ∷ rest.1)
    ]

unfoldable pub provision : Host → Option Profile → Disk → ℕ → Option SlotError × SlotPool
unfolding provision_slots slots_from
provision h master disk slot_count =
    let (e, ss) = provision_slots h master (slots_from disk slot_count 0) in
    (e, record { master = master; slots = ss })

-- The loop of `acquire`: the slot that is leased, and the slots after it.
unfoldable pub lease_first : String → List Slot → Option (Slot × List Slot)
lease_first run [] = none
lease_first run (s ∷ ss) =
    let rest : Option (Slot × List Slot) = elim (lease_first run ss) [
      | none ↦ none
      | some (t, ts) ↦ some (t, s ∷ ts)
    ] in
    if is_pristine s.state then some (mark_leased run s, mark_leased run s ∷ ss) else rest

abbrev pub after_lease : SlotPool → Option (Slot × List Slot) → Option Slot × SlotPool
after_lease p none = (none, p)
after_lease p (some (s, ss)) = (some s, record p { slots = ss })

-- `acquire`; `none` is its ProfileSlotError.
unfoldable pub acquire : String → SlotPool → Option Slot × SlotPool
acquire run p = after_lease p (lease_first run p.slots)

-- The body of `release` for one slot.
unfoldable pub release_slot : Host → Option Profile → Slot → Option SlotError × Slot
release_slot h master s =
    let (e, s') = reset h master s in
    elim e [ some x ↦ (some x, s') | none ↦ (none, clear_lease s') ]

unfoldable pub release_at : Host → Option Profile → ℕ → List Slot → Option SlotError × List Slot
release_at h master i [] = (none, [])
release_at h master i (s ∷ ss) =
    let rest = release_at h master i ss in
    let (e, s') = release_slot h master s in
    if s.index == i then (e, s' ∷ ss) else (rest.0, s ∷ rest.1)

unfoldable pub release : Host → ℕ → SlotPool → Option SlotError × SlotPool
release h i p = let (e, ss) = release_at h p.master i p.slots in (e, record p { slots = ss })

unfoldable pub slot_in : String → List Slot → Option Slot
slot_in run [] = none
slot_in run (s ∷ ss) = if is_text run s.run_id then some s else slot_in run ss

-- `slot_for`
unfoldable pub slot_for : String → SlotPool → Option Slot
unfolding slot_in is_text
slot_for run p = slot_in run p.slots
