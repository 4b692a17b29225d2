-- ===== src/Workspace/Approvals.antt =====
-- The final submission (src/z_apply_core/browser_submission.py): one for each approval.
use z_apply_core.Prelude.{ℕ, ◌+◌, ◌≤◌, ◌≡◌, Bool, true, false, List, [], ◌∷◌, arith}
use z_apply_core.Workspace.Submission.{
  SubmissionGuard, activate, approve, is_armed, consume, submit, Event, activates, approves,
  submits, run,
}

abbrev pub bit : Bool → ℕ
bit true = 1
bit false = 0

unfoldable pub count_true : List Bool → ℕ
count_true [] = 0
count_true (b ∷ bs) = bit b + count_true bs

-- The approvals that were given.
unfoldable pub count_approvals : List Event → ℕ
count_approvals [] = 0
count_approvals (approves b ∷ es) = bit b + count_approvals es
count_approvals (activates ∷ es) = count_approvals es
count_approvals (submits alive ok ∷ es) = count_approvals es

submit_spends :
    (alive ok : Bool) (g : SubmissionGuard)
    → g.active ≡ true
    → (bit (submit alive ok g).0 + bit (is_armed (submit alive ok g).1) ≤ bit (is_armed g))
      × ((submit alive ok g).1.active ≡ true)
unfolding submit is_armed consume
submit_spends alive ok g on = ground (arith, on)

approve_arms :
    (b : Bool) (g : SubmissionGuard)
    → g.active ≡ true
    → (bit (is_armed (approve b g)) ≤ bit b + bit (is_armed g)) × ((approve b g).active ≡ true)
unfolding approve is_armed
approve_arms b g on = ground (arith, on)

activate_disarms :
    (g : SubmissionGuard)
    → (bit (is_armed (activate g)) ≤ bit (is_armed g)) × ((activate g).active ≡ true)
unfolding activate is_armed
activate_disarms g = ground arith

-- From an active guard on, the submissions that went through are no more than the approvals, and one
-- if the guard was armed.
pub submissions-le-approvals :
    (es : List Event) (g : SubmissionGuard)
    → g.active ≡ true
    → count_true (run es g).0 ≤ count_approvals es + bit (is_armed g)
unfolding run count_true count_approvals
submissions-le-approvals [] g on = omega arith
submissions-le-approvals (activates ∷ es) g on =
    let (less, still) = activate_disarms g in
    omega (arith, less, submissions-le-approvals es (activate g) still)
submissions-le-approvals (approves b ∷ es) g on =
    let (less, still) = approve_arms b g on in
    omega (arith, less, submissions-le-approvals es (approve b g) still)
submissions-le-approvals (submits alive ok ∷ es) g on =
    let (less, still) = submit_spends alive ok g on in
    omega (arith, less, submissions-le-approvals es (submit alive ok g).1 still)
