-- ===== src/Slots/Slot.antt =====
-- One slot: `ProfileSlot` of src/z_apply_core/profile_pool.py. The lease marker is a file beside the
-- profile directory, so it is a field of its own, with the run that it names.
use z_apply_core.Prelude.{ℕ, String, Bool, true, false, Option, none, some}
use z_apply_core.Slots.Profile.{
  Profile, Host, SlotError, rsync_mirror, clean_launch_artifacts, verify_manifest,
}

pub data SlotState : Type 0 where
  pristine leased resetting quarantined : SlotState

pub record Slot : Type 0 where
  pub index : ℕ
  pub state : SlotState
  pub run_id : Option String
  pub lease_marker : Option String
  pub profile : Profile

unfoldable pub is_pristine : SlotState → Bool
is_pristine pristine = true
is_pristine _ = false

-- `mark_leased`, where the write of the marker succeeds. Where it raises, the source leaves the slot leased
-- with no marker, and the caller of `acquire` gets the error.
unfoldable pub mark_leased : String → Slot → Slot
mark_leased run s = record s { state = leased; run_id = some run; lease_marker = some run }

unfoldable pub clear_lease : Slot → Slot
clear_lease s = record s { state = pristine; run_id = none; lease_marker = none }

-- The steps under `try`; the tree is what they have left when one raises.
unfoldable pub verify_after : Host → Option SlotError × Profile → Option SlotError × Profile
verify_after h (some e, d) = (some e, d)
verify_after h (none, d) = (verify_manifest h true d, d)

unfoldable pub clean_after : Host → Option SlotError × Profile → Option SlotError × Profile
unfolding verify_after
clean_after h (some e, d) = (some e, d)
clean_after h (none, d) = verify_after h (clean_launch_artifacts d)

unfoldable pub restore : Host → Option Profile → Profile → Option SlotError × Profile
unfolding clean_after
restore h master d = clean_after h (rsync_mirror h master d)

abbrev pub settled : Option SlotError → SlotState
settled none = pristine
settled (some e) = quarantined

-- `reset`: the slot, and the error that it raises again. A cancellation is left out: it is no `Exception`, so
-- the source would leave the slot resetting.
unfoldable pub reset : Host → Option Profile → Slot → Option SlotError × Slot
reset h master s =
    let (e, d) = restore h master s.profile in (e, record s { state = settled e; profile = d })

-- `quarantine`, which ends by clearing the lease.
unfoldable pub quarantine : Slot → Slot
unfolding clear_lease
quarantine s = clear_lease (record s { state = quarantined })
