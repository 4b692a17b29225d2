-- ===== src/Browsers/Pool.antt =====
-- `BrowserPool` of src/z_apply_core/browser_pool.py up to the launch: its data, admission and the parts of
-- `release`. A lease holds its slot by the index of the slot. Launch durations are not modelled.
use z_apply_core.Prelude.{
  ℕ, zero, suc, ◌+◌, String, Bool, true, false, Option, none, some, List, [], ◌∷◌, ltb, max, length,
  if◌then◌else◌,
}
use z_apply_core.Dict
use z_apply_core.Dict.{Dict}
use z_apply_core.Slots.Profile.{Host, SlotError}
use z_apply_core.Slots.Slot.{Slot}
use z_apply_core.Slots.Pool as SlotsPool
use z_apply_core.Slots.Pool.{SlotPool}

pub record PoolStats : Type 0 where
  pub launches : ℕ
  pub launch_failures : ℕ
  pub launch_retries : ℕ
  pub capacity_rejections : ℕ
  pub capacity_waits : ℕ
  pub closes : ℕ
  pub close_failures : ℕ
  pub quarantine_count : ℕ
  pub max_active_seen : ℕ
  pub retire_reasons : Dict ℕ

pub record BrowserLease : Type 0 where
  pub run_id : String
  pub slot : ℕ

pub record BrowserPool : Type 0 where
  pub slots : SlotPool
  pub max_active : ℕ
  pub leases : Dict BrowserLease
  pub release_event : Bool
  pub stats : PoolStats

unfoldable pub active_count : BrowserPool → ℕ
active_count p = length p.leases

abbrev or_zero : Option ℕ → ℕ
or_zero none = 0
or_zero (some n) = n

-- `reasons[reason] = reasons.get(reason, 0) + 1`
unfoldable pub count_reason : String → PoolStats → PoolStats
count_reason reason s = record s {
  retire_reasons =
      Dict.put reason (or_zero (Dict.get reason s.retire_reasons) + 1) s.retire_reasons;
}

-- How the loop of `acquire` ends: with a slot, or with one of its errors.
pub data Admission : Type 0 where
  admitted : Slot → Admission
  duplicate no_slot rejected : Admission

abbrev pub take_slot : BrowserPool → Option Slot × SlotPool → Option Admission × BrowserPool
take_slot p (none, sp) = (some no_slot, record p { slots = sp })
take_slot p (some s, sp) = (some (admitted s), record p { slots = sp })

-- The part of a round that holds the lock; `none` is a pool at its capacity.
unfoldable pub try_admit : String → BrowserPool → Option Admission × BrowserPool
unfolding active_count
try_admit run p =
    if Dict.has run p.leases
    then (some duplicate, p)
    else if ltb (active_count p) p.max_active
    then take_slot p (SlotsPool.acquire run p.slots)
    else (none, p)

unfoldable pub note_active : BrowserPool → BrowserPool
unfolding active_count
note_active p = record p {
  stats = record p.stats { max_active_seen = max p.stats.max_active_seen (active_count p) };
}

unfoldable pub count_rejection : BrowserPool → BrowserPool
count_rejection p = record p {
  stats = record p.stats { capacity_rejections = p.stats.capacity_rejections + 1 };
}

unfoldable pub count_wait : BrowserPool → BrowserPool
count_wait p = record p { stats = record p.stats { capacity_waits = p.stats.capacity_waits + 1 } }

-- What the clock and the other tasks do: whether the deadline has passed at a round, and the pool
-- after the wait of a round.
pub record Waiting : Type 0 where
  pub expired : ℕ → Bool
  pub meanwhile : ℕ → BrowserPool → BrowserPool

-- The `while True` of `acquire`, from round `k`. `none` means that the fuel ran out.
unfoldable pub admission_loop :
    Waiting → ℕ → ℕ → String → BrowserPool → Option (Admission × BrowserPool)
unfolding try_admit note_active count_rejection count_wait
admission_loop w zero k run p = none
admission_loop w (suc fuel) k run p =
    let q = note_active p in
    let r = (try_admit run q).1 in
    let woken = w.meanwhile k (count_wait r) in
    let rest = admission_loop w fuel (suc k) run (record woken { release_event = false }) in
    elim (try_admit run q).0 [
      | some a ↦ some (a, r)
      | none ↦ if w.expired k then some (rejected, count_rejection r) else rest
    ]

abbrev pub quarantined_by : Option SlotError → ℕ
quarantined_by none = 0
quarantined_by (some e) = 1

-- `_release_slot`: an error of the reset is counted, and goes no further.
unfoldable pub release_slot : Host → ℕ → BrowserPool → BrowserPool
release_slot h i p =
    let (e, sp) = SlotsPool.release h i p.slots in
    record p {
      slots = sp;
      stats = record p.stats { quarantine_count = p.stats.quarantine_count + quarantined_by e };
    }

-- `_close_bounded`, with whether the close ended well in time. Where it did not, the browser may stay up;
-- `World` has it among those left behind.
unfoldable pub close_bounded : Bool → BrowserPool → BrowserPool
close_bounded true p = record p { stats = record p.stats { closes = p.stats.closes + 1 } }
close_bounded false p = record p {
  stats = record p.stats { close_failures = p.stats.close_failures + 1 };
}

unfoldable pub release_lease :
    Host → Bool → String → BrowserPool → Option BrowserLease → BrowserPool
unfolding release_slot close_bounded count_reason
release_lease h closed reason p none = p
release_lease h closed reason p (some l) =
    let q = record p { stats = count_reason reason p.stats } in
    let r = release_slot h l.slot (close_bounded closed q) in record r { release_event = true }

-- `release`, with whether the browser's close ends well.
unfoldable pub release : Host → Bool → String → String → BrowserPool → BrowserPool
unfolding release_lease
release h closed reason run p =
    release_lease h closed reason (record p { leases = Dict.remove run p.leases })
      (Dict.get run p.leases)

-- The loop of `close` over the runs that had leases at its start.
unfoldable pub close_runs :
    Host → (String → Bool) → List (String × BrowserLease) → BrowserPool → BrowserPool
close_runs h closed [] p = p
close_runs h closed ((run, _) ∷ rest) p =
    close_runs h closed rest (release h (closed run) "pool_close" run p)

unfoldable pub close : Host → (String → Bool) → BrowserPool → BrowserPool
unfolding close_runs
close h closed p = close_runs h closed p.leases p
