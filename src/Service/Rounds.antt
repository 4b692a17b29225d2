-- ===== src/Service/Rounds.antt =====
-- The rounds of the scheduler (src/z_apply_core/integrations/service.py).
use z_apply_core.Prelude.{
  ℕ, zero, suc, ◌+◌, ◌-◌, ◌≤◌, ◌≡◌, min, true, false, [], ◌∷◌, All, Bool-cases, inl, inr, arith,
  if◌then◌else◌,
}
use z_apply_core.Dict.{Dict}
use z_apply_core.Service.Run.{Run}
use z_apply_core.Service.Core.{
  Core, is_queued, is_executing, count_executing, make_tasks, schedule_round,
}

-- The runs that wait for a task.
unfoldable pub count_queued : Dict Run → ℕ
count_queued [] = 0
count_queued ((id, run) ∷ rest) =
    let count = count_queued rest in if is_queued run.view.status then count + 1 else count

-- No run that is queued has a task that executes.
abbrev pub IsFresh : Dict Run → Type 0
IsFresh runs = All (λ e. is_queued e.1.view.status ≡ true → is_executing e.1.task ≡ false) runs

count-make_tasks :
    (n : ℕ) (runs : Dict Run)
    → IsFresh runs
    → count_executing (make_tasks n runs) ≡ count_executing runs + min n (count_queued runs)
unfolding count_executing make_tasks count_queued
count-make_tasks zero [] k = omega arith
count-make_tasks (suc n) [] k = omega arith
count-make_tasks zero ((id, r) ∷ rest) k = omega arith
count-make_tasks (suc n) ((id, r) ∷ rest) k = elim (Bool-cases (is_queued r.view.status)) [
  | inl waits ↦ rw waits (rw (k.0 waits) (omega (arith, count-make_tasks n rest k.1)))
  | inr begun ↦ rw begun (elim (Bool-cases (is_executing r.task)) [
    | inl runs ↦ rw runs (omega (arith, count-make_tasks (suc n) rest k.1))
    | inr over ↦ rw over (count-make_tasks (suc n) rest k.1)
  ])
]

-- If no queued run has a task that executes, and no more tasks execute than may, then after a round of the
-- scheduler as many execute as there were and queued runs together, or as many as may if these are fewer.
pub schedule_round_fills :
    (max_active_runs : ℕ) (core : Core)
    → IsFresh core.runs
    → count_executing core.runs ≤ max_active_runs
    → count_executing (schedule_round max_active_runs core).runs
      ≡ min max_active_runs (count_executing core.runs + count_queued core.runs)
unfolding schedule_round
schedule_round_fills max_active_runs core fresh room =
    omega
      (arith, room, count-make_tasks (max_active_runs - count_executing core.runs) core.runs fresh)
