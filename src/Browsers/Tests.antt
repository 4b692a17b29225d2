-- ===== src/Browsers/Tests.antt =====
-- Runs of the browser pool on two slots, and the theorems at them.
use z_apply_core.Prelude.{
  ◌+◌, ◌≤◌, ◌≡◌, refl, false, Option, none, some, [], ◌∷◌, arith, length, ◌==◌,
}
use z_apply_core.Dict
use z_apply_core.Slots.Slot.{Slot, is_pristine, mark_leased, reset, restore}
use z_apply_core.Slots.Profile.{rsync_mirror, clean_launch_artifacts, verify_manifest}
use z_apply_core.Slots.Pool as SlotsPool
use z_apply_core.Slots.Tests.{host, sealed, dirty, two_slots}
use z_apply_core.Browsers.Pool.{
  PoolStats, BrowserLease, BrowserPool, Admission, Waiting, try_admit, note_active, active_count,
  admission_loop, count_wait,
}
use z_apply_core.Browsers.Launch.{launch_loop, Launcher, leased_to, launch, acquire}
use z_apply_core.Browsers.World.{
  World, admit, finish, leave, Reach, here, next, in_use, failures, failed_attempts, leave_orphan,
  leave_strays, leave_replaced,
}
use z_apply_core.Browsers.Capacity.{held_on, left_on, in_use-le-slots, one_browser_per_slot}
use z_apply_core.Browsers.Admission.{acquire-le-max_active, admission_loop_total}
use z_apply_core.Browsers.Race.{free_slot, one_allowed, max_active_passed}

abbrev no_stats : PoolStats
no_stats = record {
  launches = 0;
  launch_failures = 0;
  launch_retries = 0;
  capacity_rejections = 0;
  capacity_waits = 0;
  closes = 0;
  close_failures = 0;
  quarantine_count = 0;
  max_active_seen = 0;
  retire_reasons = [];
}

abbrev fresh : BrowserPool
fresh = record {
  slots = two_slots;
  max_active = 2;
  leases = [];
  release_event = false;
  stats = no_stats;
}

-- A launcher that needs a second attempt.
abbrev slow : Launcher
slow k d = (1 == k, d)

-- The deadline passes at round 1, and nothing happens meanwhile.
abbrev short : Waiting
short = record { expired = λ k. k == 1; meanwhile = λ k p. p }

abbrev start : World
start = record { pool = fresh; launching = []; left_behind = [] }

abbrev leased_one : Option Slot × SlotsPool.SlotPool
leased_one = SlotsPool.acquire "a" two_slots

abbrev admitted_one : BrowserPool
admitted_one = (try_admit "a" (note_active fresh)).1

abbrev the_slot : Slot
the_slot = mark_leased "a" (free_slot 0 sealed)

-- One run is admitted, comes up in a second attempt, after one that leaves a browser, and leaves; its
-- close fails.
abbrev after_all : World
after_all = record {
  pool =
      z_apply_core.Browsers.Pool.release host false "done" "a"
        (launch host slow "a" the_slot admitted_one).1;
  launching = [];
  left_behind = 0 ∷ 0 ∷ [];
}

visit : Reach host start after_all
unfolding try_admit note_active SlotsPool.acquire SlotsPool.lease_first is_pristine mark_leased
    SlotsPool.provision reset restore rsync_mirror clean_launch_artifacts verify_manifest Dict.has
    failed_attempts launch_loop leave_orphan Dict.get launch Dict.put leave_strays leave_replaced
visit =
    next
      (next (next here (admit "a" the_slot admitted_one refl))
        (finish slow "a" the_slot [] [] 1 refl (omega arith)))
      (leave false "done" "a")

one_browser_per_slot_example :
    (held_on 0 after_all ≤ 1)
    × (held_on 0 after_all + left_on 0 after_all + failures start.pool
        ≤ 1 + failures after_all.pool)
one_browser_per_slot_example =
    one_browser_per_slot host (some sealed) dirty 2 start after_all 0 refl refl refl refl visit

in_use-le-slots_example :
    in_use after_all + failures start.pool ≤ length start.pool.slots.slots + failures after_all.pool
in_use-le-slots_example = in_use-le-slots host start after_all refl refl refl visit

abbrev lease_a : BrowserLease
lease_a = record { run_id = "a"; slot = 0 }

abbrev up : BrowserPool
up = (launch host slow "a" the_slot admitted_one).1

acquired : acquire host slow short 3 "a" fresh ≡ some (leased_to lease_a, up)
unfolding acquire admission_loop launch try_admit note_active SlotsPool.acquire
    SlotsPool.lease_first is_pristine mark_leased SlotsPool.provision reset restore rsync_mirror
    clean_launch_artifacts verify_manifest Dict.has
acquired = refl

acquire-le-max_active_example :
    (active_count up ≤ up.max_active)
    × (Dict.get "a" up.leases ≡ some lease_a)
    × (lease_a.run_id ≡ "a")
acquire-le-max_active_example =
    acquire-le-max_active host slow short 3 "a" fresh up lease_a acquired

admission_loop_total_example :
    (r : Admission × BrowserPool) × (admission_loop short 2 0 "a" fresh ≡ some r)
admission_loop_total_example =
    admission_loop_total short 2 0 1 "a" fresh (omega arith) (omega arith) refl

max_active_passed_example :
    (v : World) × Reach host
      (one_allowed
        (record { master = none; slots = free_slot 0 sealed ∷ free_slot 1 sealed ∷ [] })
        no_stats)
      v
    × (v.pool.max_active ≡ 1)
    × (active_count v.pool ≡ 2)
max_active_passed_example = max_active_passed host 0 1 sealed sealed none no_stats "a" "b" refl
