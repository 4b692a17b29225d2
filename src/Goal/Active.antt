-- ===== src/Goal/Active.antt =====
-- `ActiveGoalMiddleware` (src/z_apply_core/agents/goal_runner.py).
use z_apply_core.Prelude.{
  ℕ, ◌+◌, String, Bool, ◌&&◌, List, [], ◌∷◌, ◌++◌, mem_str, ltb, if◌then◌else◌,
}
use z_apply_core.Guard.Call.{browser_changing_tool_names}

pub record ActiveGoal : Type 0 where
  pub max_recoveries : ℕ
  pub recoveries : ℕ

-- What `_continue_or_finish` does: it ends the run, goes back to the model, or raises ActiveGoalExhausted.
pub data Decision : Type 0 where
  finish jump_to_model exhausted : Decision

-- `_PROGRESS_TOOL_NAMES`
abbrev pub progress_names : List String
progress_names = browser_changing_tool_names ++ ("task" ∷ "ask_human" ∷ [])

unfoldable pub continue_or_finish : Bool → ActiveGoal → Decision × ActiveGoal
continue_or_finish is_terminal g =
    let h = record g { recoveries = g.recoveries + 1 } in
    if is_terminal
    then (finish, g)
    else if ltb g.max_recoveries h.recoveries
    then (exhausted, h)
    else (jump_to_model, h)

-- `awrap_tool_call` after the tool, with whether it succeeded.
unfoldable pub credit : String → Bool → ActiveGoal → ActiveGoal
credit name succeeded g =
    if mem_str name progress_names && succeeded then record g { recoveries = 0 } else g

-- What happens in a run: a natural stop of the model, or a call of a tool.
pub data Moment : Type 0 where
  stop : Bool → Moment
  tool : String → Bool → Moment

-- The decisions in a run, in order.
unfoldable pub follow : List Moment → ActiveGoal → List Decision × ActiveGoal
unfolding continue_or_finish credit
follow [] g = ([], g)
follow (stop t ∷ ms) g =
    let (d, h) = continue_or_finish t g in let (ds, k) = follow ms h in (d ∷ ds, k)
follow (tool name ok ∷ ms) g = follow ms (credit name ok g)
