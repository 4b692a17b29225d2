-- ===== src/Workspace/Tests.antt =====
-- The gates at work (src/z_apply_core/browser_workspace.py, src/z_apply_core/browser_submission.py), and the
-- theorems at these runs.
use z_apply_core.Prelude.{◌+◌, ◌≤◌, ◌≡◌, refl, true, false, some, List, [], ◌∷◌, All, length}
use z_apply_core.Star.{Star, here, next}
use z_apply_core.Workspace.Gate.{
  Gate, open_gate, enter, can_enter, begin_take, World, quiet, Step, enters, begins, gives_up,
}
use z_apply_core.Workspace.Submission.{SubmissionGuard, Event, approves, submits, is_armed, run}
use z_apply_core.Workspace.Exclusion.{one_at_once}
use z_apply_core.Workspace.Takeover.{IsAbandoned, abandoned_takeover_blocks}
use z_apply_core.Workspace.Approvals.{bit, count_true, count_approvals, submissions-le-approvals}

abbrev pending_gate : Gate
pending_gate = record open_gate { takeover_pending = true }

-- Task 7 enters, and once more inside.
abbrev nested : World
nested = record { gate = enter 7 (enter 7 open_gate); inside = 7 ∷ 7 ∷ []; taking = false }

to_nested : Star Step quiet nested
unfolding can_enter enter
to_nested = next (next here (enters 7 refl)) (enters 7 refl)

one_at_once_example :
    (nested.gate.human_control ≡ true → nested.inside ≡ [])
    × All (λ t. nested.gate.operation_owner ≡ some t) nested.inside
one_at_once_example = one_at_once nested to_nested

abbrev abandoned : World
abandoned = record { gate = pending_gate; inside = []; taking = false }

-- The takeover begins and is cancelled.
to_abandoned : Star Step quiet abandoned
unfolding begin_take
to_abandoned = next (next here (begins pending_gate refl)) (gives_up refl)

abandoned_takeover_blocks_example :
    IsAbandoned abandoned × (length abandoned.inside ≤ length abandoned.inside)
abandoned_takeover_blocks_example =
    abandoned_takeover_blocks abandoned abandoned
      (record { pending = refl; nobody = refl; agents = refl }) here

abbrev locked : SubmissionGuard
locked = record { active = true; approved = false; consumed = false }

abbrev clicks : List Event
clicks = submits true true ∷ approves true ∷ submits true true ∷ submits true true ∷ []

clicks_test : (run clicks locked).0 ≡ (false ∷ true ∷ false ∷ [])
unfolding run
clicks_test = refl

submissions-le-approvals_example :
    count_true (run clicks locked).0 ≤ count_approvals clicks + bit (is_armed locked)
submissions-le-approvals_example = submissions-le-approvals clicks locked refl
