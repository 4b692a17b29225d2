-- ===== src/Service/Lost.antt =====
-- A run that is cancelled while a person has control of it (src/z_apply_core/integrations/service.py,
-- src/z_apply_core/browser_workspace.py).
use z_apply_core.Prelude.{
  ℕ, String, ◌≡◌, refl, ap, sym, ◌∙◌, true, false, not, ◌&&◌, ◌⊎◌, inl, inr, Option, none, some,
  str_eq, eq_iff, Bool-cases, leb, ◌-◌, arith,
}
use z_apply_core.Star.{Star, Star_keeps}
use z_apply_core.Dict.{Dict, get, remove, has, get-remove, has-get}
use z_apply_core.Workspace.Gate.{Gate, can_enter, leave}
use z_apply_core.Workspace.Exclusion.{true-false}
use z_apply_core.Service.Run.{Run, Task, Python}
use z_apply_core.Service.Requests.{Error, run_not_found}
use z_apply_core.Service.Execute.{is_opened}
use z_apply_core.Service.Methods.{StartRunRequest, close_page}
use z_apply_core.Service.Steps.{focuses, closes}
use z_apply_core.Service.Over.{is_queued, IsOver, RunStep-IsOver}
use z_apply_core.Service.Gone.{IsGone, one_value, put-IsGone, new-IsGone}
use z_apply_core.Service.Leaves.{
  Fails, if-Fails, this-Fails, no_success, Leaves, raises, leaves, left, guarded,
}
use z_apply_core.Service.Core.{
  Core, on_run, is_same, is_free_for, is_absolute, is_shown, focused, closed_page, start_run,
  focus_run, take_browser_control, return_browser_control, close_run_browser,
}
use z_apply_core.Service.World.{
  Step, starts_run, goes_on, opens_run, closes_run, focuses_run, takes_control, returns_control,
  closes_browser, enters_gate, leaves_gate, shuts_core,
}

-- A person has control of a run that has no browser any more.
pub record IsLost (id : String) (z : Run) (c : Core) : Type 0 where
  pub control : c.control_run_id ≡ some id
  pub human : c.gate.human_control ≡ true
  pub no_lease : get id c.leases ≡ none
  pub gone : IsGone id z c.runs

leave-human : (g : Gate) → (leave g).human_control ≡ g.human_control
unfolding leave
leave-human g = elim (Bool-cases (leb (g.operation_count - 1) 0)) [
  | inl last ↦ rw last refl
  | inr more ↦ rw more refl
]

on_run-Leaves :
    (P : Core → Type 0) (o : Option Run) (f : Run → Error ⊎ Core)
    → ((r : Run) → o ≡ some r → Leaves P (f r))
    → Leaves P (on_run o f)
on_run-Leaves P none f h = raises
on_run-Leaves P (some r) f h = h r refl

on_run-Fails :
    (o : Option Run) (f : Run → Error ⊎ Core)
    → ((r : Run) → o ≡ some r → Fails (f r))
    → Fails (on_run o f)
on_run-Fails none f h = record { error = run_not_found; fails = refl }
on_run-Fails (some r) f h = h r refl

module _ {id : String} {z : Run} (zs : is_opened z.view.browser_tab_state ≡ false) where
  module _ (py : Python) (c : Core) (k : IsLost id z c) where
    with_runs : (runs : Dict Run) → IsGone id z runs → IsLost id z (record c { runs = runs })
    with_runs runs g = record {
      control = k.control;
      human = k.human;
      no_lease = k.no_lease;
      gone = g;
    }

    start-IsLost :
        (now : ℕ) (i : String) (gateway model provider : Option String) (request : StartRunRequest)
        → Leaves (IsLost id z) (start_run py now i gateway model provider request c)
    unfolding start_run
    start-IsLost now i gateway model provider request = guarded c.closing _ _ (
        guarded (not (is_absolute request.job_url)) _ _ (elim (Bool-cases (has i c.runs)) [
          | inl known ↦ rw known raises
          | inr fresh ↦ rw fresh (leaves (with_runs _ (new-IsGone zs i _ c.runs fresh k.gone)))
        ]))

    focus-IsLost : (now : ℕ) (i : String) → Leaves (IsLost id z) (focus_run py now i c)
    unfolding focus_run
    focus-IsLost now i = on_run-Leaves (IsLost id z) (get i c.runs) _ (λ r at.
        guarded (not (is_shown r.view.browser_tab_state)) _ _ (
          guarded (is_opened r.view.browser_tab_state && not (has i c.leases)) _ _ (
            leaves {s = focused py now i r c} (record {
              control = k.control;
              human = k.human;
              no_lease = k.no_lease;
              gone = put-IsGone zs i r _ c.runs at (RunStep-IsOver py r _ (focuses now)) k.gone;
            }))))

    -- Who has control, and which run the request is about.
    same_run :
        (i : String) (r : Run)
        → str_eq id i ≡ true
        → get i c.runs ≡ some r
        → is_opened r.view.browser_tab_state ≡ false
    same_run i r same at =
        ap (λ u. is_opened u.view.browser_tab_state)
          (one_value r k.gone.run (get id c.runs)
            (ap (λ j. get j c.runs) ((eq_iff id i).0 same) ∙ at) k.gone.here)
        ∙ k.gone.shut

    take-Fails : (now : ℕ) (i : String) → Fails (take_browser_control py now i c)
    unfolding take_browser_control
    take-Fails now i = on_run-Fails (get i c.runs) _ (λ r at. elim (Bool-cases (str_eq id i)) [
      | inl same ↦ this-Fails (is_opened r.view.browser_tab_state) _ _ (same_run i r same at)
      | inr other ↦ if-Fails (not (is_opened r.view.browser_tab_state)) _ _ (λ opened'.
          this-Fails (is_free_for c.control_run_id i) _ _
            (ap (λ o. is_free_for o i) k.control ∙ other))
    ])

    return-Fails :
        (now : ℕ) (i evidence : String) → Fails (return_browser_control py now i evidence c)
    unfolding return_browser_control
    return-Fails now i evidence = on_run-Fails (get i c.runs) _ (λ r at.
        elim (Bool-cases (str_eq id i)) [
          | inl same ↦ if-Fails (not (is_same c.control_run_id i)) _ _ (λ mine.
              this-Fails (has i c.leases) _ _ (
                has-get i c.leases
                  (ap (λ j. get j c.leases) (sym ((eq_iff id i).0 same)) ∙ k.no_lease)))
          | inr other ↦
              this-Fails (is_same c.control_run_id i) _ _ (ap (λ o. is_same o i) k.control ∙ other)
        ])

    removed : (i : String) → get id (remove i c.leases) ≡ none
    removed i = get-remove i id c.leases ∙ ground (arith, k.no_lease)

    close-IsLost : (now : ℕ) (i : String) → Leaves (IsLost id z) (close_run_browser py now i c)
    unfolding close_run_browser
    close-IsLost now i =
        on_run-Leaves (IsLost id z) (get i c.runs) _
          (λ r at. closed_by r at (close_page py now r) refl)
      where
        closed_by :
            (r : Run)
            → get i c.runs ≡ some r
            → (m : Error ⊎ Run) → close_page py now r ≡ m
            → Leaves (IsLost id z) (closed_page i c m)
        closed_by r at (inl e) h = raises
        closed_by r at (inr s) h = leaves (record {
          control = k.control;
          human = k.human;
          no_lease = removed i;
          gone = put-IsGone zs i r s c.runs at (RunStep-IsOver py r s (closes now s h)) k.gone;
        })

    cannot_enter : (task : ℕ) → can_enter task c.gate ≡ false
    unfolding can_enter
    cannot_enter task = rw k.human refl

    Step-IsLost : (d : Core) → Step py c d → IsLost id z d
    unfolding leave
    Step-IsLost d (starts_run now i gateway model provider request _ h) =
        left _ d (start-IsLost now i gateway model provider request) h
    Step-IsLost _ (goes_on i r s at step) =
        with_runs _ (put-IsGone zs i r s c.runs at (RunStep-IsOver py r s step) k.gone)
    Step-IsLost _ (opens_run now task i r port at opening' free) =
        absurd (true-false (sym free ∙ cannot_enter task))
    Step-IsLost _ (closes_run i) = record {
      control = k.control;
      human = k.human;
      no_lease = removed i;
      gone = k.gone;
    }
    Step-IsLost d (focuses_run now i _ h) = left _ d (focus-IsLost now i) h
    Step-IsLost d (takes_control now i _ h) = absurd (no_success _ d (take-Fails now i) h)
    Step-IsLost d (returns_control now i evidence _ h) =
        absurd (no_success _ d (return-Fails now i evidence) h)
    Step-IsLost d (closes_browser now i _ h) = left _ d (close-IsLost now i) h
    Step-IsLost _ (enters_gate task free) = absurd (true-false (sym free ∙ cannot_enter task))
    Step-IsLost _ leaves_gate = record {
      control = k.control;
      human = leave-human c.gate ∙ k.human;
      no_lease = k.no_lease;
      gone = k.gone;
    }
    Step-IsLost _ shuts_core = record {
      control = k.control;
      human = k.human;
      no_lease = k.no_lease;
      gone = k.gone;
    }

-- If a person has control of a run whose task is over, which has begun and has neither an open page nor a
-- lease, then, whatever happens from there, no task may enter the gate, and every request to take control or
-- to return it is refused.
pub control_lost_for_ever :
    (py : Python) (now task : ℕ) (id i evidence : String) (r : Run) (c d : Core)
    → c.control_run_id ≡ some id
    → c.gate.human_control ≡ true
    → get id c.leases ≡ none
    → get id c.runs ≡ some r
    → r.task ≡ Task.ended
    → is_queued r.view.status ≡ false
    → is_opened r.view.browser_tab_state ≡ false
    → Star (Step py) c d
    → (can_enter task d.gate ≡ false)
      × Fails (take_browser_control py now i d)
      × Fails (return_browser_control py now i evidence d)
control_lost_for_ever py now task id i evidence r c d control human no_lease here over begun shut
      run =
    let gone : IsOver r r = record {
      over = over;
      begun = begun;
      result = refl;
      no_tab = λ h. h;
      unsettled = λ h. h;
    } in
    let k : IsLost id r c = record {
      control = control;
      human = human;
      no_lease = no_lease;
      gone = record { run = r; here = here; over = gone; shut = shut };
    } in
    let after = Star_keeps (IsLost id r) (λ t u step l. Step-IsLost shut py t l u step) run k in
    (
      cannot_enter shut py d after task,
      take-Fails shut py d after now i,
      return-Fails shut py d after now i evidence,
    )
