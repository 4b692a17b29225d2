-- ===== src/Slots/Reset.antt =====
-- What a reset leaves: a verified profile or a quarantined slot
-- (src/z_apply_core/profile_pool.py).
use z_apply_core.Prelude.{
  ◌≡◌, ◌⊎◌, String, refl, ap, true, Option, none, some, Option-cases, inl, inr,
}
use z_apply_core.Slots.Profile.{
  Profile, Host, SlotError, clean_launch_artifacts, rsync_mirror, verify_manifest,
}
use z_apply_core.Slots.Slot.{
  settled, verify_after, clean_after, Slot, SlotState, pristine, leased, quarantined, restore,
  reset,
}

-- What holds of a slot by the state that it is in. A pristine slot names no run, has no marker, and
-- its profile passes the checks; a leased one names its run inside and in its marker.
abbrev pub SoundAt : Host → Slot → SlotState → Type 0
SoundAt h s pristine =
    (s.run_id ≡ none) × (s.lease_marker ≡ none) × (verify_manifest h true s.profile ≡ none)
SoundAt h s leased = (r : String) × (s.run_id ≡ some r) × (s.lease_marker ≡ some r)
SoundAt h s _ = Unit

abbrev pub IsSound : Host → Slot → Type 0
IsSound h s = SoundAt h s s.state

module _ (h : Host) where
  verify_after_lem :
      (r : Option SlotError × Profile)
      → (verify_after h r).0 ≡ none
      → verify_manifest h true (verify_after h r).1 ≡ none
  unfolding verify_after
  verify_after_lem (none, d) e = e
  verify_after_lem (some x, d) e = cc

  clean_after_lem :
      (r : Option SlotError × Profile)
      → (clean_after h r).0 ≡ none
      → verify_manifest h true (clean_after h r).1 ≡ none
  unfolding clean_after
  clean_after_lem (none, d) e = verify_after_lem (clean_launch_artifacts d) e
  clean_after_lem (some x, d) e = cc

  pub restore_verified :
      (master : Option Profile) (d : Profile)
      → (restore h master d).0 ≡ none
      → verify_manifest h true (restore h master d).1 ≡ none
  unfolding restore
  restore_verified master d e = clean_after_lem (rsync_mirror h master d) e

  -- A reset of `s` ended with this error, if any, and this slot.
  abbrev pub ResetsTo : Slot → Option SlotError × Slot → Type 0
  ResetsTo s (e, t) =
      ((e ≡ none) × (t.state ≡ pristine) × (verify_manifest h true t.profile ≡ none)
        ⊎ (x : SlotError) × (e ≡ some x) × (t.state ≡ quarantined))
      × (t.run_id ≡ s.run_id)
      × (t.lease_marker ≡ s.lease_marker)

  -- A reset that raises leaves the slot quarantined; one that returns leaves it pristine, with a
  -- profile that passes the checks. The run and the marker stay in both cases.
  pub reset_outcome : (master : Option Profile) (s : Slot) → ResetsTo s (reset h master s)
  unfolding reset
  reset_outcome master s = elim (Option-cases (restore h master s.profile).0) [
    | inl e ↦ (inl (e, ap settled e, restore_verified master s.profile e), refl, refl)
    | inr (x, e) ↦ (inr (x, e, ap settled e), refl, refl)
  ]
