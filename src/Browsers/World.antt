-- ===== src/Browsers/World.antt =====
-- Several runs at one `BrowserPool` (src/z_apply_core/browser_pool.py). A run that has been admitted
-- launches without the lock, so other runs step in between: the step relation below. A browser whose
-- close fails, and one that a failed attempt of a launch has started, may stay up with no lease. A run
-- that is cancelled while it launches stays among those that launch, as its slot stays leased.
use z_apply_core.Prelude.{
  ℕ, zero, suc, ◌+◌, ◌≤◌, ◌≡◌, String, Bool, false, Option, some, List, ◌∷◌, ◌++◌, length,
}
use z_apply_core.Dict
use z_apply_core.Slots.Profile.{Host}
use z_apply_core.Slots.Slot.{Slot}
use z_apply_core.Browsers.Pool.{
  BrowserLease, BrowserPool, admitted, try_admit, note_active, release, active_count,
}
use z_apply_core.Browsers.Launch.{
  Acquired, leased_to, Launcher, Launching, LaunchEnd, launched, exhausted, escaped,
  launch_attempts, launch_loop, launch,
}

-- The pool, the runs that have a slot and whose browser is not up yet, and the slots of the browsers
-- that may be up though no lease names them.
pub record World : Type 0 where
  pub pool : BrowserPool
  pub launching : List (String × Slot)
  pub left_behind : List ℕ

-- Only a launch that gives up has a failure as its last attempt.
abbrev pub last_failure : LaunchEnd → ℕ
last_failure launched = 0
last_failure exhausted = 1
last_failure (escaped e) = 0

-- The attempts of a launch that failed.
unfoldable pub failed_attempts : Launching → ℕ
failed_attempts l = l.retries + last_failure l.ending

-- `n` more browsers that are left behind on a slot.
unfoldable pub leave_strays : ℕ → ℕ → List ℕ → List ℕ
leave_strays zero i left = left
leave_strays (suc n) i left = i ∷ leave_strays n i left

-- The browser of a lease whose close failed.
unfoldable pub leave_orphan : Bool → Option BrowserLease → List ℕ → List ℕ
leave_orphan false (some l) left = l.slot ∷ left
leave_orphan closed o left = left

-- The browser of a lease that a new one of the same run replaces: two calls of `acquire` for one run may both
-- be admitted, and each files its lease under the run.
unfoldable pub leave_replaced : Acquired → Option BrowserLease → List ℕ → List ℕ
leave_replaced (leased_to l) (some old) left = old.slot ∷ left
leave_replaced a o left = left

pub data Step (h : Host) (w : World) : World → Type 0 where
  -- A round of `acquire` that gets a slot.
  admit :
      (run : String) (s : Slot) (p : BrowserPool)
      → try_admit run (note_active w.pool) ≡ (some (admitted s), p)
      → Step h w
          (record { pool = p; launching = (run, s) ∷ w.launching; left_behind = w.left_behind })
  -- A launch that ends, in any way and in any order; any of its failed attempts may have left a
  -- browser, and so may the lease that it replaces.
  finish :
      (l : Launcher) (run : String) (s : Slot) (before after : List (String × Slot)) (strays : ℕ)
      → w.launching ≡ before ++ ((run, s) ∷ after)
      → strays ≤ failed_attempts (launch_loop l launch_attempts 0 0 s.profile)
      → Step h w (record {
        pool = (launch h l run s w.pool).1;
        launching = before ++ after;
        left_behind =
            leave_strays strays s.index (
              leave_replaced
                (launch h l run s w.pool).0
                (Dict.get run w.pool.leases)
                w.left_behind);
      })
  -- A run that gives its browser back. If the close fails, the slot is reset all the same.
  leave :
      (closed : Bool) (reason run : String)
      → Step h w (record {
        pool = release h closed reason run w.pool;
        launching = w.launching;
        left_behind = leave_orphan closed (Dict.get run w.pool.leases) w.left_behind;
      })

pub data Reach (h : Host) (w : World) : World → Type 0 where
  here : Reach h w w
  next : {u v : World} → Reach h w u → Step h u v → Reach h w v

-- Browsers that are up or on their way, with a lease or without.
unfoldable pub in_use : World → ℕ
unfolding active_count
in_use w = active_count w.pool + length w.launching + length w.left_behind

-- The failures that the pool has counted: closes, and attempts to launch.
unfoldable pub failures : BrowserPool → ℕ
failures p = p.stats.close_failures + p.stats.launch_retries + p.stats.launch_failures
