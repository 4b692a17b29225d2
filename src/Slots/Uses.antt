-- ===== src/Slots/Uses.antt =====
-- The life of a pool of slots (src/z_apply_core/profile_pool.py): from its provision on, runs get slots and
-- release them.
use z_apply_core.Prelude.{ℕ, String, ◌≡◌, none, Option, List, [], ◌∷◌, All}
use z_apply_core.Slots.Profile.{Profile, Host}
use z_apply_core.Slots.Slot.{Slot}
use z_apply_core.Slots.Pool.{SlotPool, Disk, provision, acquire, release}
use z_apply_core.Slots.Reset.{IsSound}
use z_apply_core.Slots.Leasing.{
  IsReady, IsSoundPool, provision-IsReady, acquire-IsSoundPool, release-IsSoundPool,
}

pub data Use : Type 0 where
  acquires : String → Use
  releases : ℕ → Use

-- The calls one after the other; a release keeps what its reset did, whether it raised or not.
unfoldable pub follow : Host → List Use → SlotPool → SlotPool
follow h [] p = p
follow h (acquires run ∷ us) p = follow h us (acquire run p).1
follow h (releases i ∷ us) p = follow h us (release h i p).1

module _ (h : Host) where
  ready-IsSound : (ss : List Slot) → All (IsReady h) ss → All (IsSound h) ss
  ready-IsSound [] k = tt
  ready-IsSound (s ∷ ss) k = (rw k.0.0 k.0.1, ready-IsSound ss k.1)

  follow-IsSoundPool :
      (us : List Use) (p : SlotPool) → IsSoundPool h p → IsSoundPool h (follow h us p)
  unfolding follow
  follow-IsSoundPool [] p k = k
  follow-IsSoundPool (acquires run ∷ us) p k =
      follow-IsSoundPool us (acquire run p).1 (acquire-IsSoundPool h run p k)
  follow-IsSoundPool (releases i ∷ us) p k =
      follow-IsSoundPool us (release h i p).1 (release-IsSoundPool h i p k)

  -- From a provision that returns on, however runs get slots and release them, and whatever their resets do,
  -- a pristine slot names no run, has no marker and a profile that passes the checks, and a leased slot
  -- names one run in its state and its marker.
  pub provisioned_stays_sound :
      (master : Option Profile) (disk : Disk) (n : ℕ) (us : List Use)
      → (provision h master disk n).0 ≡ none
      → IsSoundPool h (follow h us (provision h master disk n).1)
  provisioned_stays_sound master disk n us returned =
      follow-IsSoundPool us (provision h master disk n).1 (
        ready-IsSound (provision h master disk n).1.slots
          (provision-IsReady h master disk n returned))
