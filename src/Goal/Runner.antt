-- ===== src/Goal/Runner.antt =====
-- `run_persistent_goal` (src/z_apply_core/agents/goal_runner.py). What a run of the agent does and what the
-- callbacks answer are inputs, by the number of recoveries so far.
use z_apply_core.Prelude.{
  ℕ, zero, suc, ◌+◌, String, Bool, true, false, Option, none, some, List, [], ◌∷◌, is_blank, leb,
  if◌then◌else◌,
}
use Prim.Native.String.{◌++◌ as ◌|++|◌}

-- An exception: the name of its type, and its text.
pub record Failure : Type 0 where
  pub kind : String
  pub text : String

-- `run_agent` is `run_active_goal`, with its exception if it raises. `on_recovery` is the callback, if
-- there is one; it answers nothing when it raises. `show` is the text of a number.
pub record Surroundings : Type 0 where
  pub run_agent : ℕ → String → Option Failure
  pub is_terminal : ℕ → Bool
  pub on_recovery : Option (Failure → ℕ → Option Bool)
  pub show : ℕ → String

pub data Trace : Type 0 where
  recovery_started recovery_exhausted recovery_stalled : ℕ → Failure → Trace
  recovery_completed : ℕ → Trace

pub data Ending : Type 0 where
  completed terminal stalled : Ending
  raised : Failure → Ending

-- The runs of the agent, what was emitted, and how the loop ended.
pub record Course : Type 0 where
  pub runs : ℕ
  pub traces : List Trace
  pub ending : Ending

abbrev answered : Option Bool → Bool
answered (some true) = true
answered _ = false

unfoldable pub terminates : Option (Failure → ℕ → Option Bool) → Failure → ℕ → Bool
terminates none e attempt = false
terminates (some f) e attempt = answered (f e attempt)

unfoldable pub recovery_message : (ℕ → String) → ℕ → ℕ → Failure → String
recovery_message show recovered max_recoveries e =
    "RUN GOAL CONTROLLER: the active application goal survived a model "
    |++| "or provider failure. Continue in this same checkpointed thread. "
    |++| "Preserve completed browser actions and newest live user context. "
    |++| "Capture fresh browser evidence, choose exactly one safe next action, "
    |++| "and emit it through the native tool-call channel. Do not repeat a "
    |++| "mutation against unchanged evidence.\n\n"
    |++| "Recovery attempt: "
    |++| show recovered
    |++| "/"
    |++| show max_recoveries
    |++| "\nPrevious failure type: "
    |++| e.kind
    |++| "\nPrevious failure: "
    |++| (if is_blank e.text then "provider call ended without details" else e.text)

-- The end of the loop without an exception.
unfoldable pub on_success : ℕ → Course
on_success zero = record { runs = 1; traces = []; ending = completed }
on_success (suc n) = record {
  runs = 1;
  traces = recovery_completed (suc n) ∷ [];
  ending = completed;
}

abbrev pub recover : ℕ → Failure → Option Course → Option Course
recover attempt e none = none
recover attempt e (some c) = some (record {
  runs = c.runs + 1;
  traces = recovery_started attempt e ∷ c.traces;
  ending = c.ending;
})

-- The handler of the exception, with what the loop does from the next round on.
unfoldable pub on_failure : Surroundings → ℕ → ℕ → Failure → Option Course → Option Course
unfolding terminates
on_failure s max_recoveries recovered e rest =
    if s.is_terminal recovered
    then some (record { runs = 1; traces = []; ending = terminal })
    else if terminates s.on_recovery e (recovered + 1)
    then some
        (record { runs = 1; traces = recovery_stalled (recovered + 1) e ∷ []; ending = stalled })
    else if leb max_recoveries recovered
    then some (record { runs = 1; traces = recovery_exhausted recovered e ∷ []; ending = raised e })
    else recover (recovered + 1) e rest

-- The loop, by fuel; `none` means that the fuel ran out.
unfoldable pub goal_loop : Surroundings → ℕ → ℕ → ℕ → String → Option Course
unfolding on_failure on_success
goal_loop s zero max_recoveries recovered message = none
goal_loop s (suc fuel) max_recoveries recovered message = elim (s.run_agent recovered message) [
  | none ↦ some (on_success recovered)
  | some e ↦ on_failure s max_recoveries recovered e (
      goal_loop s fuel max_recoveries (recovered + 1)
        (recovery_message s.show (recovered + 1) max_recoveries e))
]

-- `run_persistent_goal`, with enough fuel.
unfoldable pub run_persistent_goal : Surroundings → ℕ → String → Option Course
unfolding goal_loop
run_persistent_goal s max_recoveries message =
    goal_loop s (max_recoveries + 1) max_recoveries 0 message
