-- ===== src/Goal/Tests.antt =====
-- Runs towards a goal (src/z_apply_core/agents/goal_runner.py), and a theorem at one.
use z_apply_core.Prelude.{
  ◌+◌, ◌≤◌, ◌≡◌, refl, zero, suc, mem_str, true, false, none, some, List, [], ◌∷◌, length, arith,
}
use z_apply_core.Goal.Runner.{
  Failure, Surroundings, Course, completed, recovery_started, recovery_completed,
  run_persistent_goal, raised,
}
use z_apply_core.Goal.Active.{ActiveGoal, Moment, stop, tool, follow, credit}
use z_apply_core.Goal.Attempts.{count_started, run_persistent_goal_ends}
use z_apply_core.Goal.Stops.{stops_bounded}

abbrev lost : Failure
lost = record { kind = "ConnectionError"; text = "" }

-- The first run fails, and the second one ends.
abbrev once : Surroundings
once = record {
  run_agent = λ n m. elim n [ zero ↦ some lost | suc k ↦ none ];
  is_terminal = λ n. false;
  on_recovery = none;
  show = λ n. "n";
}

once_test :
    run_persistent_goal once 100 "go"
    ≡ some (record {
      runs = 2;
      traces = recovery_started 1 lost ∷ recovery_completed 1 ∷ [];
      ending = completed;
    })
unfolding run_persistent_goal
once_test = refl

run_persistent_goal_ends_example :
    (c : Course) × (run_persistent_goal once 100 "go" ≡ some c)
    × (c.runs ≡ count_started c.traces + 1)
    × (c.runs ≤ 100 + 1)
    × ((e : Failure) → c.ending ≡ raised e → c.runs ≡ 100 + 1)
run_persistent_goal_ends_example = run_persistent_goal_ends once 100 "go"

abbrev talk : List Moment
talk = stop false ∷ tool "browser_snapshot" true ∷ stop false ∷ []

abbrev five : ActiveGoal
five = record { max_recoveries = 5; recoveries = 0 }

stops_bounded_example : 0 + length (follow talk five).0 ≤ 5
unfolding follow credit mem_str
stops_bounded_example =
    stops_bounded talk five (omega arith) (refl, (refl, (refl, tt))) (refl, (refl, tt))
