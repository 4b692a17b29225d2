-- ===== src/Browsers/Orphan.antt =====
-- A close that fails: the slot is reset and leased again while the browser that it had is still up
-- (`_close_bounded` and `release` of src/z_apply_core/browser_pool.py).
use z_apply_core.Prelude.{String, true, false, Option, none, some, [], ◌∷◌}
use z_apply_core.Dict
use z_apply_core.Slots.Profile.{Profile, Host, SlotError}
use z_apply_core.Slots.Slot.{Slot, mark_leased, clear_lease}
use z_apply_core.Slots.Pool as SlotsPool
use z_apply_core.Browsers.Pool.{PoolStats, BrowserPool, try_admit, note_active, release}
use z_apply_core.Browsers.Launch.{launch}
use z_apply_core.Browsers.World.{World}
use z_apply_core.Browsers.Race.{free_slot, one_allowed, works}

module _ (h : Host) (d clean : Profile) (master : Option Profile) (stats : PoolStats)
    (run other reason : String) where
  abbrev start : World
  start = one_allowed (record { master = master; slots = free_slot 0 d ∷ [] }) stats

  abbrev first : Slot
  first = mark_leased run (free_slot 0 d)

  abbrev second : Slot
  second = mark_leased other (free_slot 0 clean)

  abbrev admitted_one : BrowserPool
  admitted_one = (try_admit run (note_active start.pool)).1

  abbrev up_one : BrowserPool
  up_one = (launch h works run first admitted_one).1

  abbrev released : BrowserPool
  released = release h false reason run up_one

  -- The pool that the release leaves, with the slots that the reset leaves.
  abbrev left_with : SlotsPool.SlotPool → BrowserPool
  left_with slots = record {
    slots = slots;
    max_active = 1;
    leases = [];
    release_event = true;
    stats = released.stats;
  }

  abbrev left_one : BrowserPool
  left_one = left_with (record { master = master; slots = free_slot 0 clean ∷ [] })

  abbrev admitted_two : BrowserPool
  admitted_two = (try_admit other (note_active left_one)).1

  abbrev up_two : BrowserPool
  up_two = (launch h works other second admitted_two).1

  after_reset : Option SlotError → Slot → Option SlotError × Slot
  after_reset e s = elim e [ some x ↦ (some x, s) | none ↦ (none, clear_lease s) ]
