-- ===== src/Star.antt =====
-- Runs of a step relation, and the invariants that its steps keep.
module _ {ℓ} {S : Type ℓ} (R : S → S → Type ℓ) where
  pub data Star (s : S) : S → Type ℓ where
    here : Star s s
    next : {t u : S} → Star s t → R t u → Star s u

module _ {ℓ κ} {S : Type ℓ} {R : S → S → Type ℓ} (P : S → Type κ) where
  -- What every step keeps, every run keeps.
  pub Star_keeps : ((t u : S) → R t u → P t → P u) → {s t : S} → Star R s t → P s → P t
  Star_keeps keep here h = h
  Star_keeps keep (next {t} {u} run step) h = keep t u step (Star_keeps keep run h)
