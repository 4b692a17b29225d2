-- ===== src/Workspace/Exclusion.antt =====
-- Agents and a person never act at once (src/z_apply_core/browser_workspace.py).
use z_apply_core.Prelude.{
  ℕ, ◌-◌, ◌≡◌, refl, ap, ◌∙◌, true, false, ◌||◌, Option, none, some, List, [], ◌∷◌, ==→eq, leb,
  not-leb→lt, arith, sym, subst, ◌⊎◌, length, All, Bool-cases, inl, inr, from_some,
}
use z_apply_core.Star.{Star, Star_keeps}
use z_apply_core.Workspace.Gate.{
  Gate, is_owner, can_enter, enter, leave, begin_take, end_take, release, World, quiet, Step,
  enters, leaves, begins, takes, gives_up, releases,
}

-- The gate counts the mutations, which are of one task, and none is open under human control.
record IsExclusive (w : World) : Type 0 where
  counted : w.gate.operation_count ≡ length w.inside
  active : w.gate.operation_active ≡ leb 1 (length w.inside)
  owned : All (λ t. is_owner t w.gate.operation_owner ≡ true) w.inside
  alone : w.gate.human_control ≡ true → length w.inside ≡ 0

none-some : {A : Type 0} (a : A) → none ≡ some a → ⊥
none-some a h = ground arith

pub true-false : true ≡ false → ⊥
true-false h = ground arith

no-length : (ts : List ℕ) → length ts ≡ 0 → ts ≡ []
no-length [] h = refl
no-length (t ∷ ts) h = absurd (omega (arith, h))

owners : (o : Option ℕ) (ts : List ℕ) → All (λ t. is_owner t o ≡ true) ts → All (λ t. o ≡ some t) ts
owners o [] k = tt
owners none (t ∷ ts) k = absurd (true-false (sym k.0))
owners (some u) (t ∷ ts) k = (ap some (==→eq u t k.0), owners (some u) ts k.1)

abbrev OwnedBy : Option ℕ → List ℕ → Type 0
OwnedBy o ts = All (λ t. is_owner t o ≡ true) ts

free-cases :
    (t : ℕ) (g : Gate)
    → can_enter t g ≡ true
    → (g.human_control ≡ false)
      × ((g.operation_active ≡ false) ⊎ (is_owner t g.operation_owner ≡ true))
unfolding can_enter
free-cases t g free = elim (Bool-cases g.operation_active) [
  | inl on ↦ (ground (arith, free), inr (ground (arith, free, on)))
  | inr off ↦ (ground (arith, free), inl off)
]

-- A task that may enter is the owner of all that are inside.
owned-enter :
    (t : ℕ) (o : Option ℕ) (ts : List ℕ)
    → (leb 1 (length ts) ≡ false) ⊎ (is_owner t o ≡ true)
    → OwnedBy o ts
    → OwnedBy (some t) ts
owned-enter t o [] free k = tt
owned-enter t o (u ∷ us) (inl empty) k =
    absurd (omega (arith, not-leb→lt 1 (length (u ∷ us)) empty))
owned-enter t none (u ∷ us) (inr own) k = ground (arith, own)
owned-enter t (some v) (u ∷ us) (inr own) k =
    (ground (arith, ==→eq v t own, ==→eq v u k.0), owned-enter t (some v) us (inr own) k.1)

enter-IsExclusive :
    (t : ℕ) (w : World)
    → can_enter t w.gate ≡ true
    → IsExclusive w
    → IsExclusive (record w { gate = enter t w.gate; inside = t ∷ w.inside })
unfolding enter
enter-IsExclusive t w free k =
    let (mine, open') = free-cases t w.gate free in
    let empty-or-own : (leb 1 (length w.inside) ≡ false)
        ⊎ (is_owner t w.gate.operation_owner ≡ true) =
      elim open' [ inl off ↦ inl (sym k.active ∙ off) | inr own ↦ inr own ] in
    record {
      counted = omega (arith, k.counted);
      active = ground arith;
      owned = (ground arith, owned-enter t w.gate.operation_owner w.inside empty-or-own k.owned);
      alone = λ human. ground (arith, human, mine);
    }

leave-IsExclusive :
    (t : ℕ) (ts : List ℕ) (w : World)
    → w.inside ≡ t ∷ ts
    → IsExclusive w
    → IsExclusive (record w { gate = leave w.gate; inside = ts })
unfolding leave
leave-IsExclusive t [] w inside k =
    let size = ap length inside in
    record {
      counted = ground (arith, size, k.counted);
      active = ground (arith, size, k.counted);
      owned = tt;
      alone = λ human. refl;
    }
leave-IsExclusive t (u ∷ us) w inside k =
    let size = ap length inside in
    let owned : OwnedBy w.gate.operation_owner (t ∷ u ∷ us) =
      subst (OwnedBy w.gate.operation_owner) inside k.owned in
    let more : leb (w.gate.operation_count - 1) 0 ≡ false = ground (arith, size, k.counted) in
    rw more (record {
      counted = omega (arith, size, k.counted);
      active = k.active ∙ ground (arith, size);
      owned = owned.1;
      alone = λ human. absurd (omega (arith, size, k.alone human));
    })

pub begin_take_inv :
    (g h : Gate)
    → begin_take g ≡ some h
    → (h ≡ record g { takeover_pending = true })
      × (g.human_control ≡ false)
      × (g.takeover_pending ≡ false)
unfolding begin_take
begin_take_inv g h began = elim (Bool-cases (g.human_control || g.takeover_pending)) [
  | inl held ↦ absurd (none-some h (rw held at began))
  | inr free ↦ (
    sym (from_some (record g { takeover_pending = true }) h (rw free at began)),
    ground (arith, free),
    ground (arith, free),
  )
]

pub release_inv :
    (g h : Gate)
    → release g ≡ some h
    → (h ≡ record g { human_control = false }) × (g.human_control ≡ true)
unfolding release
release_inv g h gone = elim (Bool-cases g.human_control) [
  | inl held ↦ (sym (from_some (record g { human_control = false }) h (rw held at gone)), held)
  | inr free ↦ absurd (none-some h (rw free at gone))
]

Step-IsExclusive : (w u : World) → Step w u → IsExclusive w → IsExclusive u
unfolding end_take
Step-IsExclusive w _ (enters t free) k = enter-IsExclusive t w free k
Step-IsExclusive w _ (leaves t ts inside) k = leave-IsExclusive t ts w inside k
Step-IsExclusive w _ (begins g began) k =
    subst (λ h. IsExclusive (record w { gate = h; taking = true }))
      (sym (begin_take_inv w.gate g began).0)
      (record { counted = k.counted; active = k.active; owned = k.owned; alone = k.alone })
Step-IsExclusive w _ (takes waits off) k = record {
  counted = k.counted;
  active = k.active;
  owned = k.owned;
  alone = λ human. ground (arith, k.active, off);
}
Step-IsExclusive w _ (gives_up waits) k = record {
  counted = k.counted;
  active = k.active;
  owned = k.owned;
  alone = k.alone;
}
Step-IsExclusive w _ (releases g gone) k =
    subst (λ h. IsExclusive (record w { gate = h })) (sym (release_inv w.gate g gone).0)
      (record {
        counted = k.counted;
        active = k.active;
        owned = k.owned;
        alone = λ human. absurd (true-false (sym human));
      })

quiet-IsExclusive : IsExclusive quiet
quiet-IsExclusive = record { counted = refl; active = refl; owned = tt; alone = λ human. refl }

-- However agents and people come and go, no mutation is open while a person has control, and the
-- mutations that are open are all of the owner.
pub one_at_once :
    (w : World)
    → Star Step quiet w
    → (w.gate.human_control ≡ true → w.inside ≡ [])
      × All (λ t. w.gate.operation_owner ≡ some t) w.inside
one_at_once w run =
    let k = Star_keeps IsExclusive Step-IsExclusive run quiet-IsExclusive in
    (λ human. no-length w.inside (k.alone human), owners w.gate.operation_owner w.inside k.owned)
