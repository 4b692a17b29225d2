-- ===== src/Service/Stuck.antt =====
-- A run whose task is over and that is not terminal (src/z_apply_core/integrations/service.py).
use z_apply_core.Prelude.{ℕ, ◌≡◌, refl, true, false, inl}
use z_apply_core.Star.{Star, Star_keeps}
use z_apply_core.Service.Run.{Run, Task, Python}
use z_apply_core.Service.Requests.{invalid_run_transition, is_terminal}
use z_apply_core.Service.Methods.{close_page}
use z_apply_core.Service.Steps.{RunStep}
use z_apply_core.Service.Over.{is_unsettled, IsOver, not_terminal, not_queued, RunStep-IsOver}

close_page_refused :
    (py : Python) (now : ℕ) (r : Run)
    → is_terminal r.view.status ≡ false
    → close_page py now r ≡ inl invalid_run_transition
unfolding close_page
close_page_refused py now r h = rw h refl

-- If the task of a run is over while the run is neither queued nor terminal, then, whatever happens from there,
-- the run is never terminal, its result stays as it is, and close_run_browser is refused.
pub stuck_for_ever :
    (py : Python) (now : ℕ) (r s : Run)
    → r.task ≡ Task.ended
    → is_unsettled r.view.status ≡ true
    → Star (RunStep py) r s
    → (is_terminal s.view.status ≡ false)
      × (s.done ≡ r.done)
      × (close_page py now s ≡ inl invalid_run_transition)
stuck_for_ever py now r s over unsettled run =
    let k : IsOver r r = record {
      over = over;
      begun = not_queued r.view.status unsettled;
      result = refl;
      no_tab = λ h. h;
      unsettled = λ h. h;
    } in
    let after = Star_keeps (IsOver r) (RunStep-IsOver py) run k in
    let stays = after.unsettled (not_terminal r.view.status unsettled) in
    (stays, after.result, close_page_refused py now s stays)
