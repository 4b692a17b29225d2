-- ===== src/Serializer/Tests.antt =====
-- Responses with mutations (src/z_apply_core/agents/browser_mutation_serializer.py), and the theorems at them.
use z_apply_core.Prelude.{◌≡◌, refl, String, Bool, List, true, false, none, [], ◌∷◌, ◌++◌, mem_str}
use z_apply_core.Guard.Call.{ToolCall, no_fields}
use z_apply_core.Serializer.Batch.{Serializer, starts, finishes, run, is_mutation}
use z_apply_core.Serializer.Skips.{after_response, executed_up_to_failure}
use z_apply_core.Serializer.Parallel.{all_start, all_finish, ids, parallel_calls_run}

abbrev mutation : String → ToolCall
mutation id = record { name = "browser_type"; id = id; args = no_fields }

abbrev idle : Serializer
idle = record {
  batch_mutation_ids = "1" ∷ "2" ∷ [];
  batch_failed = false;
  running = none;
  queue = [];
  executed = [];
  skipped = [];
}

abbrev failed : Serializer
failed = record idle { batch_failed = true; executed = "1" ∷ [] }

-- One after the other: the second is skipped.
in_turn_test :
    (run (starts (mutation "1") ∷ finishes true ∷ starts (mutation "2") ∷ []) idle).skipped
    ≡ ("2" ∷ [])
unfolding run mem_str
in_turn_test = refl

abbrev two_and_one : List (ToolCall × Bool)
two_and_one = (mutation "3", false) ∷ (mutation "4", true) ∷ (mutation "5", false) ∷ []

executed_up_to_failure_example :
    ((after_response two_and_one failed).executed ≡ ("1" ∷ "3" ∷ "4" ∷ []))
    × ((after_response two_and_one failed).skipped ≡ ("5" ∷ []))
unfolding is_mutation
executed_up_to_failure_example =
    executed_up_to_failure two_and_one failed (refl, (refl, (refl, tt))) refl refl

parallel_calls_run_example :
    (run (all_start (mutation "1" ∷ mutation "2" ∷ []) ++ all_finish (true ∷ [])) idle).executed
    ≡ [] ++ ids (mutation "1" ∷ mutation "2" ∷ [])
unfolding is_mutation
parallel_calls_run_example =
    parallel_calls_run (mutation "1") (mutation "2" ∷ []) (true ∷ []) idle refl refl refl
      (refl, (refl, tt)) refl
