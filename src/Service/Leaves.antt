-- ===== src/Service/Leaves.antt =====
-- What holds after a method that may refuse (src/z_apply_core/integrations/service.py).
use z_apply_core.Prelude.{◌≡◌, refl, subst, Bool, true, false, not, ◌⊎◌, inl, inr, if◌then◌else◌}
use z_apply_core.Service.Requests.{Error}

-- What holds of the state that a method leaves, if it does not raise.
pub data Leaves {A : Type 0} (P : A → Type 0) : Error ⊎ A → Type 0 where
  raises : {e : Error} → Leaves P (inl e)
  leaves : {s : A} → P s → Leaves P (inr s)

module _ {A : Type 0} where
  raised : (e : Error) (s : A) (m : Error ⊎ A) → m ≡ inl e → m ≡ inr s → ⊥
  raised e s m h g = cc

  same_result : (t s : A) (m : Error ⊎ A) → m ≡ inr t → m ≡ inr s → t ≡ s
  same_result t s m h g = cc

  pub left : {P : A → Type 0} (m : Error ⊎ A) (s : A) → Leaves P m → m ≡ inr s → P s
  left _ s (raises {e}) h = absurd (raised e s _ refl h)
  left {P} _ s (leaves {s = t} p) h = subst P (same_result t s _ refl h) p

  pub guarded :
      {P : A → Type 0} (b : Bool) (e : Error) (m : Error ⊎ A)
      → Leaves P m
      → Leaves P (if b then inl e else m)
  guarded true e m k = raises
  guarded false e m k = k

-- The method raises.
pub record Fails {A : Type 0} (m : Error ⊎ A) : Type 0 where
  pub error : Error
  pub fails : m ≡ inl error

pub if-Fails :
    {A : Type 0} (b : Bool) (e : Error) (m : Error ⊎ A)
    → (b ≡ false → Fails m)
    → Fails (if b then inl e else m)
if-Fails true e m h = record { error = e; fails = refl }
if-Fails false e m h = h refl

-- The guard that refuses.
pub this-Fails :
    {A : Type 0} (b : Bool) (e : Error) (m : Error ⊎ A)
    → b ≡ false
    → Fails (if not b then inl e else m)
this-Fails b e m h = rw h (record { error = e; fails = refl })

apart : {A : Type 0} (m : Error ⊎ A) (e : Error) (d : A) → m ≡ inl e → m ≡ inr d → ⊥
apart m e d h g = cc

pub no_success : {A : Type 0} (m : Error ⊎ A) (d : A) → Fails m → m ≡ inr d → ⊥
no_success m d f h = apart m f.error d f.fails h
