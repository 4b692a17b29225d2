-- ===== src/Workspace/Gate.antt =====
-- `BrowserControlGate` (src/z_apply_core/browser_workspace.py). A method that waits on the condition is cut
-- there. A task is named by a number.
use z_apply_core.Prelude.{
  ℕ, ◌+◌, ◌-◌, ◌≡◌, Bool, true, false, ◌&&◌, ◌||◌, not, Option, none, some, List, [], ◌∷◌, ◌==◌,
  leb, if◌then◌else◌,
}

pub record Gate : Type 0 where
  pub takeover_pending : Bool
  pub human_control : Bool
  pub operation_active : Bool
  pub operation_owner : Option ℕ
  pub operation_count : ℕ

-- `__init__`
abbrev pub open_gate : Gate
open_gate = record {
  takeover_pending = false;
  human_control = false;
  operation_active = false;
  operation_owner = none;
  operation_count = 0;
}

abbrev pub is_owner : ℕ → Option ℕ → Bool
is_owner t none = false
is_owner t (some u) = u == t

-- What `mutation` waits for.
unfoldable pub can_enter : ℕ → Gate → Bool
can_enter t g =
    not g.human_control
    && not g.takeover_pending
    && (not g.operation_active || is_owner t g.operation_owner)

-- `mutation` once it may go on, and its `finally`.
unfoldable pub enter : ℕ → Gate → Gate
enter t g = record g {
  operation_active = true;
  operation_owner = some t;
  operation_count = g.operation_count + 1;
}

unfoldable pub leave : Gate → Gate
leave g =
    let count = g.operation_count - 1 in
    if leb count 0
    then record g { operation_active = false; operation_owner = none; operation_count = 0 }
    else record g { operation_count = count }

-- `take` up to its wait; `none` is its RuntimeError.
unfoldable pub begin_take : Gate → Option Gate
begin_take g =
    if g.human_control || g.takeover_pending
    then none
    else some (record g { takeover_pending = true })

-- `take` after its wait.
unfoldable pub end_take : Gate → Gate
end_take g = record g { human_control = true; takeover_pending = false }

-- `release`
unfoldable pub release : Gate → Option Gate
release g = if g.human_control then some (record g { human_control = false }) else none

-- The gate, the tasks that are inside a mutation, once for each nesting, and whether a task waits in
-- `take`.
pub record World : Type 0 where
  pub gate : Gate
  pub inside : List ℕ
  pub taking : Bool

abbrev pub quiet : World
quiet = record { gate = open_gate; inside = []; taking = false }

-- The innermost mutation of a task ends first; `gives_up` is the cancellation of a task in `take`.
pub data Step (w : World) : World → Type 0 where
  enters :
      (t : ℕ)
      → can_enter t w.gate ≡ true
      → Step w (record w { gate = enter t w.gate; inside = t ∷ w.inside })
  leaves :
      (t : ℕ) (ts : List ℕ)
      → w.inside ≡ t ∷ ts
      → Step w (record w { gate = leave w.gate; inside = ts })
  begins : (g : Gate) → begin_take w.gate ≡ some g → Step w (record w { gate = g; taking = true })
  takes :
      w.taking ≡ true
      → w.gate.operation_active ≡ false
      → Step w (record w { gate = end_take w.gate; taking = false })
  gives_up : w.taking ≡ true → Step w (record w { taking = false })
  releases : (g : Gate) → release w.gate ≡ some g → Step w (record w { gate = g })
