-- ===== src/Workspace/Submission.antt =====
-- `SubmissionGuard` (src/z_apply_core/browser_submission.py).
use z_apply_core.Prelude.{Bool, true, false, ◌&&◌, ◌||◌, not, List, [], ◌∷◌, if◌then◌else◌}

pub record SubmissionGuard : Type 0 where
  pub active : Bool
  pub approved : Bool
  pub consumed : Bool

abbrev pub new_guard : SubmissionGuard
new_guard = record { active = false; approved = false; consumed = false }

unfoldable pub activate : SubmissionGuard → SubmissionGuard
activate g = record { active = true; approved = false; consumed = false }

unfoldable pub approve : Bool → SubmissionGuard → SubmissionGuard
approve approved g =
    if approved
    then record g { approved = true; consumed = false }
    else record g { approved = false }

-- `require_armed`, with whether it returns.
unfoldable pub is_armed : SubmissionGuard → Bool
is_armed g = not (not g.approved || g.consumed)

unfoldable pub consume : SubmissionGuard → SubmissionGuard
consume g = record g { consumed = true }

-- A call that is classified as the final submit (`_guard_click_or_type` and `_call_tool_guarded` in
-- src/z_apply_core/browser_session.py), with whether the page answers the probe and whether the click
-- gives no error: whether the click was made and gave no error, and the guard.
unfoldable pub submit : Bool → Bool → SubmissionGuard → Bool × SubmissionGuard
unfolding is_armed consume
submit alive ok g =
    if not g.active
    then (ok, g)
    else if is_armed g && alive && ok
    then (true, consume g)
    else (false, g)

pub data Event : Type 0 where
  activates : Event
  approves : Bool → Event
  submits : Bool → Bool → Event

-- The submissions that went through, and the guard.
unfoldable pub run : List Event → SubmissionGuard → List Bool × SubmissionGuard
unfolding activate approve submit
run [] g = ([], g)
run (activates ∷ es) g = run es (activate g)
run (approves b ∷ es) g = run es (approve b g)
run (submits alive ok ∷ es) g =
    let (done, h) = submit alive ok g in let (rest, k) = run es h in (done ∷ rest, k)
