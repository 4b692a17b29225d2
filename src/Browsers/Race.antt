-- ===== src/Browsers/Race.antt =====
-- The bound that admission tests counts the browsers that are up, and not those on their way.
use z_apply_core.Prelude.{ℕ, ◌≡◌, refl, String, true, false, Option, none, [], ◌∷◌, str_eq, arith}
use z_apply_core.Dict
use z_apply_core.Slots.Profile.{Profile, Host}
use z_apply_core.Slots.Slot.{Slot, pristine, is_pristine, mark_leased}
use z_apply_core.Slots.Pool as SlotsPool
use z_apply_core.Browsers.Pool.{PoolStats, BrowserPool, try_admit, note_active, active_count}
use z_apply_core.Browsers.Launch.{Launcher, launch}
use z_apply_core.Browsers.World.{
  World, admit, finish, Reach, here, next, leave_strays, leave_replaced,
}

-- A slot that is free.
abbrev pub free_slot : ℕ → Profile → Slot
free_slot i d = record {
  index = i;
  state = pristine;
  run_id = none;
  lease_marker = none;
  profile = d;
}

-- No run has a browser, one may have one, and two slots are free.
abbrev pub one_allowed : SlotsPool.SlotPool → PoolStats → World
one_allowed slots stats = record {
  pool = record {
    slots = slots;
    max_active = 1;
    leases = [];
    release_event = false;
    stats = stats;
  };
  launching = [];
  left_behind = [];
}

abbrev pub works : Launcher
works k d = (true, d)

module _ (h : Host) (i j : ℕ) (d e : Profile) (master : Option Profile) (stats : PoolStats)
    (run other : String) where
  abbrev start : World
  start = one_allowed (record { master = master; slots = free_slot i d ∷ free_slot j e ∷ [] }) stats

  abbrev first : Slot
  first = mark_leased run (free_slot i d)

  abbrev second : Slot
  second = mark_leased other (free_slot j e)

  abbrev after_one : BrowserPool
  after_one = (try_admit run (note_active start.pool)).1

  abbrev after_two : BrowserPool
  after_two = (try_admit other (note_active after_one)).1

  abbrev up_one : BrowserPool
  up_one = (launch h works run first after_two).1

  abbrev up_two : BrowserPool
  up_two = (launch h works other second up_one).1

  -- With `max_active` 1 and two free slots, two runs that ask at the same time both get a browser:
  -- the second is admitted while the first one's browser is on its way. So the browsers that are up
  -- pass `max_active`.
  pub max_active_passed :
      str_eq run other ≡ false
      → (v : World) × Reach h start v × (v.pool.max_active ≡ 1) × (active_count v.pool ≡ 2)
  unfolding try_admit note_active SlotsPool.acquire SlotsPool.lease_first launch Dict.has Dict.put
      mark_leased is_pristine leave_strays leave_replaced Dict.get
  max_active_passed differ = (
    record {
      pool = up_two;
      launching = [];
      left_behind =
          leave_replaced (launch h works other second up_one).0 (Dict.get other up_one.leases) [];
    },
    next
        (next
          (next (next here (admit run first after_one refl)) (admit other second after_two refl))
          (finish works run first ((other, second) ∷ []) [] 0 refl (omega arith)))
        (finish works other second [] [] 0 refl (omega arith)),
    refl,
    rw differ refl,
  )
