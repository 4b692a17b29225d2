-- ===== src/Browsers/Launch.antt =====
-- The launch in `BrowserPool.acquire` (src/z_apply_core/browser_pool.py) and the whole of `acquire`.
use z_apply_core.Prelude.{
  ℕ, zero, suc, ◌+◌, String, Bool, Option, none, some, List, [], ◌∷◌, ◌==◌, if◌then◌else◌,
}
use z_apply_core.Dict
use z_apply_core.Slots.Profile.{Profile, Host, SlotError, clean_launch_artifacts}
use z_apply_core.Slots.Slot.{Slot}
use z_apply_core.Browsers.Pool.{
  BrowserLease, BrowserPool, Admission, admitted, Waiting, admission_loop, count_reason,
  release_slot,
}

-- The launcher with its health probe and its time limits: at an attempt, on a profile, whether the
-- browser came up, and the profile that it leaves.
abbrev pub Launcher : Type 0
Launcher = ℕ → Profile → Bool × Profile

abbrev pub launch_attempts : ℕ
launch_attempts = 3

pub data LaunchEnd : Type 0 where
  launched exhausted : LaunchEnd
  escaped : SlotError → LaunchEnd

pub record Launching : Type 0 where
  pub ending : LaunchEnd
  pub retries : ℕ
  pub tree : Profile

-- What precedes an attempt: nothing before the first, else a retry is counted and the profile
-- cleaned.
unfoldable pub before_attempt : ℕ → Profile → Option SlotError × Profile
before_attempt k d = if k == 0 then (none, d) else clean_launch_artifacts d

-- The `for attempt in range(LAUNCH_ATTEMPTS)`, with the attempts left and the number of the next.
unfoldable pub launch_loop : Launcher → ℕ → ℕ → ℕ → Profile → Launching
unfolding before_attempt
launch_loop l zero k retries d = record { ending = exhausted; retries = retries; tree = d }
launch_loop l (suc n) k retries d =
    let r = (if k == 0 then retries else retries + 1) in
    let cleaned = before_attempt k d in
    let tried = l k cleaned.1 in
    let rest = launch_loop l n (suc k) r tried.1 in
    elim cleaned.0 [
      | some e ↦ record { ending = escaped e; retries = r; tree = cleaned.1 }
      | none ↦ if tried.0 then record { ending = launched; retries = r; tree = tried.1 } else rest
    ]

unfoldable pub write_tree : ℕ → Profile → List Slot → List Slot
write_tree i d [] = []
write_tree i d (s ∷ ss) =
    if s.index == i then record s { profile = d } ∷ ss else s ∷ write_tree i d ss

-- How `acquire` ends.
pub data Acquired : Type 0 where
  leased_to : BrowserLease → Acquired
  refused : Admission → Acquired
  launch_failed : Acquired
  launch_raised : SlotError → Acquired

-- The part of `acquire` after the launch loop.
unfoldable pub after_launch :
    Host → String → Slot → BrowserPool → LaunchEnd → Acquired × BrowserPool
unfolding count_reason release_slot
after_launch h run s p (escaped e) = (launch_raised e, p)
after_launch h run s p exhausted =
    let q = record p {
      stats =
          count_reason "launch_failed"
            (record p.stats { launch_failures = p.stats.launch_failures + 1 });
    } in
    (launch_failed, release_slot h s.index q)
after_launch h run s p launched =
    let lease : BrowserLease = record { run_id = run; slot = s.index } in
    (
      leased_to lease,
      record p {
        leases = Dict.put run lease p.leases;
        stats = record p.stats { launches = p.stats.launches + 1 };
      },
    )

-- The launch of an admitted run. No lock is held: the pool that it ends on is the pool that the other
-- tasks have left, so it is an argument of its own.
unfoldable pub launch : Host → Launcher → String → Slot → BrowserPool → Acquired × BrowserPool
unfolding launch_loop write_tree after_launch
launch h l run s p =
    let done = launch_loop l launch_attempts 0 0 s.profile in
    let q = record p {
      slots = record p.slots { slots = write_tree s.index done.tree p.slots.slots };
      stats = record p.stats { launch_retries = p.stats.launch_retries + done.retries };
    } in
    after_launch h run s q done.ending

abbrev pub after_admission :
    Host → Launcher → String → Option (Admission × BrowserPool) → Option (Acquired × BrowserPool)
after_admission h l run none = none
after_admission h l run (some (admitted s, p)) = some (launch h l run s p)
after_admission h l run (some (a, p)) = some (refused a, p)

-- `acquire`, where no other task acts during the launch.
unfoldable pub acquire :
    Host → Launcher → Waiting → ℕ → String → BrowserPool → Option (Acquired × BrowserPool)
acquire h l w fuel run p = after_admission h l run (admission_loop w fuel 0 run p)
