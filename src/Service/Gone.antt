-- ===== src/Service/Gone.antt =====
-- A run that is over, in the runs of the core (src/z_apply_core/integrations/service.py).
use z_apply_core.Prelude.{
  String, ◌≡◌, refl, ap, sym, ◌∙◌, subst, true, false, inl, inr, Option, some, str_eq, eq_iff,
  Bool-cases,
}
use z_apply_core.Dict.{Dict, get, put, has, get-put, has-some}
use z_apply_core.Workspace.Exclusion.{true-false}
use z_apply_core.Service.Run.{Run}
use z_apply_core.Service.Execute.{is_opened}
use z_apply_core.Service.Over.{IsOver}

-- The run is there, its task is over, and it has no page.
pub record IsGone (id : String) (z : Run) (runs : Dict Run) : Type 0 where
  pub run : Run
  pub here : get id runs ≡ some run
  pub over : IsOver z run
  pub shut : is_opened run.view.browser_tab_state ≡ false

pub one_value : (a b : Run) (o : Option Run) → o ≡ some a → o ≡ some b → a ≡ b
one_value a b o h g = cc

module _ {id : String} {z : Run} (zs : is_opened z.view.browser_tab_state ≡ false) where
  -- A write to the runs that makes a step of one, or a new one.
  pub put-IsGone :
      (k : String) (r s : Run) (runs : Dict Run)
      → get k runs ≡ some r
      → (IsOver z r → IsOver z s)
      → IsGone id z runs
      → IsGone id z (put k s runs)
  put-IsGone k r s runs at keep g = elim (Bool-cases (str_eq k id)) [
    | inl same ↦
        let mine : IsOver z r =
          subst (IsOver z)
            (one_value g.run r (get k runs) (ap (λ j. get j runs) ((eq_iff k id).0 same) ∙ g.here)
              at)
            g.over in
        record {
          run = s;
          here = get-put k id s runs ∙ rw same refl;
          over = keep mine;
          shut = (keep mine).no_tab zs;
        }
    | inr other ↦ record {
      run = g.run;
      here = get-put k id s runs ∙ rw other g.here;
      over = g.over;
      shut = g.shut;
    }
  ]

  pub new-IsGone :
      (k : String) (s : Run) (runs : Dict Run)
      → has k runs ≡ false
      → IsGone id z runs
      → IsGone id z (put k s runs)
  new-IsGone k s runs fresh g = elim (Bool-cases (str_eq k id)) [
    | inl same ↦
        let known : has k runs ≡ true =
          has-some k runs g.run (ap (λ j. get j runs) ((eq_iff k id).0 same) ∙ g.here) in
        absurd (true-false (sym known ∙ fresh))
    | inr other ↦ record {
      run = g.run;
      here = get-put k id s runs ∙ rw other g.here;
      over = g.over;
      shut = g.shut;
    }
  ]
