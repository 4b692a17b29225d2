-- ===== src/Workspace/Takeover.antt =====
-- A takeover that is cancelled while it waits (src/z_apply_core/browser_workspace.py).
use z_apply_core.Prelude.{ℕ, ◌≤◌, ◌≡◌, ap, ◌∙◌, sym, true, false, arith, length}
use z_apply_core.Star.{Star, Star_keeps}
use z_apply_core.Workspace.Gate.{
  Gate, can_enter, leave, World, Step, enters, leaves, begins, takes, gives_up, releases,
}
use z_apply_core.Workspace.Exclusion.{begin_take_inv, release_inv, true-false}

-- A takeover is marked as pending, and no task waits for it any more.
pub record IsAbandoned (w : World) : Type 0 where
  pub pending : w.gate.takeover_pending ≡ true
  pub nobody : w.taking ≡ false
  pub agents : w.gate.human_control ≡ false

record Shrinks (n : ℕ) (w : World) : Type 0 where
  abandoned : IsAbandoned w
  fewer : length w.inside ≤ n

cannot_enter : (t : ℕ) (g : Gate) → g.takeover_pending ≡ true → can_enter t g ≡ true → ⊥
unfolding can_enter
cannot_enter t g pending free = ground (arith, pending, free)

leave_keeps :
    (g : Gate)
    → ((leave g).takeover_pending ≡ g.takeover_pending)
      × ((leave g).human_control ≡ g.human_control)
unfolding leave
leave_keeps g = ground arith

Step-Shrinks : (n : ℕ) (w u : World) → Step w u → Shrinks n w → Shrinks n u
Step-Shrinks n w _ (enters t free) k = absurd (cannot_enter t w.gate k.abandoned.pending free)
Step-Shrinks n w _ (leaves t ts inside) k = record {
  abandoned = record {
    pending = (leave_keeps w.gate).0 ∙ k.abandoned.pending;
    nobody = k.abandoned.nobody;
    agents = (leave_keeps w.gate).1 ∙ k.abandoned.agents;
  };
  fewer = omega (arith, k.fewer, ap length inside);
}
Step-Shrinks n w _ (begins g began) k =
    absurd (true-false (sym k.abandoned.pending ∙ (begin_take_inv w.gate g began).2))
Step-Shrinks n w _ (takes waits off) k = absurd (true-false (sym waits ∙ k.abandoned.nobody))
Step-Shrinks n w _ (gives_up waits) k = absurd (true-false (sym waits ∙ k.abandoned.nobody))
Step-Shrinks n w _ (releases g gone) k =
    absurd (true-false (sym (release_inv w.gate g gone).1 ∙ k.abandoned.agents))

-- Once a takeover has been cancelled while it waited, whatever agents and people do, it stays marked
-- as pending: no further mutation begins, and no person gets control.
pub abandoned_takeover_blocks :
    (w u : World)
    → IsAbandoned w
    → Star Step w u
    → IsAbandoned u × (length u.inside ≤ length w.inside)
abandoned_takeover_blocks w u k run =
    let s =
      Star_keeps (Shrinks (length w.inside)) (Step-Shrinks (length w.inside)) run
        (record { abandoned = k; fewer = omega arith }) in
    (s.abandoned, s.fewer)
