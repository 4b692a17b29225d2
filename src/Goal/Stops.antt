-- ===== src/Goal/Stops.antt =====
-- How often the model may stop in a row (src/z_apply_core/agents/goal_runner.py).
use z_apply_core.Prelude.{
  ◌+◌, ◌≤◌, ◌≡◌, refl, ap, String, Bool, true, false, ◌&&◌, List, [], ◌∷◌, mem_str, arith, All,
  length,
}
use z_apply_core.Goal.Active.{
  ActiveGoal, Decision, jump_to_model, progress_names, continue_or_finish, credit, Moment, stop,
  tool, follow,
}

-- A tool call that is no progress: a tool of another name, or one that failed.
abbrev pub IsIdle : Moment → Type 0
IsIdle (stop t) = t ≡ false
IsIdle (tool name ok) = (mem_str name progress_names && ok) ≡ false

abbrev pub GoesOn : Decision → Type 0
GoesOn d = d ≡ jump_to_model

true_is_not_false : ¬ (true ≡ false)
true_is_not_false h = ground arith

one_more :
    (g : ActiveGoal)
    → (continue_or_finish false g).0 ≡ jump_to_model
    → (g.recoveries + 1 ≤ g.max_recoveries)
      × ((continue_or_finish false g).1 ≡ record g { recoveries = g.recoveries + 1 })
unfolding continue_or_finish
one_more g on = ground (arith, on)

credit_idle :
    (name : String) (ok : Bool) (g : ActiveGoal)
    → (mem_str name progress_names && ok) ≡ false
    → credit name ok g ≡ g
unfolding credit
credit_idle name ok g idle = rw idle refl

-- Without a tool call that makes progress, the stops of an unfinished run that go back to the model
-- are no more than what is left of max_recoveries.
pub stops_bounded :
    (ms : List Moment) (g : ActiveGoal)
    → g.recoveries ≤ g.max_recoveries
    → All IsIdle ms
    → All GoesOn (follow ms g).0
    → g.recoveries + length (follow ms g).0 ≤ g.max_recoveries
unfolding follow
stops_bounded [] g within idle on = omega (arith, within)
stops_bounded (stop false ∷ ms) g within idle on =
    let h : ActiveGoal = record g { recoveries = g.recoveries + 1 } in
    let (room, next) = one_more g on.0 in
    let count = ap (λ x. length (follow ms x).0) next in
    let rest = stops_bounded ms h room idle.1 (rw (← next) on.1) in omega (arith, rest, count)
stops_bounded (stop true ∷ ms) g within idle on = elim (true_is_not_false idle.0) [ ]
stops_bounded (tool name ok ∷ ms) g within idle on =
    let same = credit_idle name ok g idle.0 in
    omega (
      arith,
      stops_bounded ms g within idle.1 (rw (← same) on),
      ap (λ x. length (follow ms x).0) same,
    )
