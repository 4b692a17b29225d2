-- ===== src/Slots/Tests.antt =====
-- Runs of the slot pool on a small profile, and the theorems at them.
use z_apply_core.Prelude.{◌++◌, ◌≡◌, refl, true, none, some, [], ◌∷◌, str_eq, if◌then◌else◌}
use z_apply_core.Slots.Profile.{
  Profile, Host, Addon, file, dir, verify_manifest, rsync_mirror, clean_launch_artifacts,
}
use z_apply_core.Slots.Slot.{Slot, is_pristine, leased, reset, restore, quarantine, mark_leased}
use z_apply_core.Slots.Pool.{SlotPool, Disk, provision, acquire}
use z_apply_core.Slots.Reset.{ResetsTo, reset_outcome}
use z_apply_core.Slots.Uses.{acquires, releases, follow, provisioned_stays_sound}
use z_apply_core.Slots.Leasing.{IsSoundPool, quarantine-acquire}

abbrev pub sealed : Profile
sealed =
    ("extensions.json" ∷ [], file "simplify")
    ∷ ("extensions" ∷ "sabre@simplify.jobs.xpi" ∷ [], file "")
    ∷ ("prefs.js" ∷ [], file "")
    ∷ ("cookies.sqlite" ∷ [], file "")
    ∷ ("storage" ∷ [], dir)
    ∷ ("storage" ∷ "default" ∷ [], dir)
    ∷ ("storage" ∷ "default" ∷ "moz-extension+++1" ∷ [], dir)
    ∷ []

abbrev simplify : Addon
simplify = record { id = some "sabre@simplify.jobs"; active = true; location = some "app-profile" }

-- An `rsync` that copies, and one entry in the manifest.
abbrev pub host : Host
host = record {
  rsync = λ master d. (true, master);
  load_addons = λ text. if str_eq text "simplify" then some (simplify ∷ []) else none;
}

-- What an earlier process left: a marker, a stale lock and a cookie file.
abbrev pub dirty : Disk
dirty i = (some "old", (".parentlock" ∷ [], file "") ∷ ("cookies.sqlite" ∷ [], file "stolen") ∷ [])

abbrev pub two_slots : SlotPool
two_slots = (provision host (some sealed) dirty 2).1

abbrev stale : Slot
stale = record {
  index = 4;
  state = leased;
  run_id = some "a";
  lease_marker = some "a";
  profile = (dirty 0).1;
}

sealed_ok : verify_manifest host true sealed ≡ none
unfolding verify_manifest
sealed_ok = refl

artifacts_removed :
    clean_launch_artifacts (
      ("lock" ∷ [], file "")
      ∷ ("sessionstore-backups" ∷ "x" ∷ [], file "")
      ∷ ("sessionstore-backups" ∷ [], dir)
      ∷ ("prefs.js" ∷ [], file "")
      ∷ [])
    ≡ (none, ("prefs.js" ∷ [], file "") ∷ [])
unfolding clean_launch_artifacts
artifacts_removed = refl

returned : (provision host (some sealed) dirty 2).0 ≡ none
unfolding provision reset restore rsync_mirror clean_launch_artifacts verify_manifest
returned = refl

reset_outcome_example : ResetsTo host stale (reset host none stale)
reset_outcome_example = reset_outcome host none stale

provisioned_stays_sound_example :
    IsSoundPool host (follow host (acquires "run-1" ∷ releases 0 ∷ acquires "run-2" ∷ []) two_slots)
provisioned_stays_sound_example =
    provisioned_stays_sound host (some sealed) dirty 2
      (acquires "run-1" ∷ releases 0 ∷ acquires "run-2" ∷ []) returned

-- A slot that is leased, before one that was quarantined.
abbrev busy : Slot
busy = record stale { index = 1; state = leased; run_id = some "run-1" }

quarantine-acquire_example :
    (acquire "run-2"
        (record { master = none; slots = (busy ∷ []) ++ (quarantine stale ∷ busy ∷ []) })
      ≡ (
        some (mark_leased "run-2" (quarantine stale)),
        record {
          master = none;
          slots = (busy ∷ []) ++ (mark_leased "run-2" (quarantine stale) ∷ busy ∷ []);
        },
      ))
    × ((mark_leased "run-2" (quarantine stale)).profile ≡ stale.profile)
unfolding is_pristine
quarantine-acquire_example =
    quarantine-acquire "run-2" (busy ∷ []) stale (busy ∷ []) none (refl, tt)
