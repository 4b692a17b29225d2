-- ===== src/Dict.antt =====
-- Python's `dict` with text keys, in insertion order: a write to a present key keeps its place.
use z_apply_core.Prelude.{
  ◌+◌, ◌≤◌, String, ◌≡◌, refl, Bool, true, false, ◌||◌, Option, none, some, List, [], ◌∷◌, arith,
  str_eq, eq_iff, if◌then◌else◌, length,
}

abbrev pub Dict {ℓ} : Type ℓ → Type ℓ
Dict V = List (String × V)

module _ {ℓ} {V : Type ℓ} where
  -- `d.get(k)`
  unfoldable pub get : String → Dict V → Option V
  get k [] = none
  get k ((j, v) ∷ d) = if str_eq j k then some v else get k d

  -- `d[k] = v`
  unfoldable pub put : String → V → Dict V → Dict V
  put k v [] = (k, v) ∷ []
  put k v ((j, w) ∷ d) = if str_eq j k then (j, v) ∷ d else (j, w) ∷ put k v d

  -- `d.pop(k, None)` without its result
  unfoldable pub remove : String → Dict V → Dict V
  remove k [] = []
  remove k ((j, w) ∷ d) = if str_eq j k then remove k d else (j, w) ∷ remove k d

  -- `k in d`
  unfoldable pub has : String → Dict V → Bool
  has k [] = false
  has k ((j, w) ∷ d) = str_eq j k || has k d

  pub get-put :
      (k j : String) (v : V) (d : Dict V)
      → get j (put k v d) ≡ (if str_eq k j then some v else get j d)
  unfolding get put
  get-put k j v [] = refl
  get-put k j v ((i, w) ∷ d) = ground (arith, eq_iff k j, eq_iff i k, eq_iff i j, get-put k j v d)

  pub get-remove :
      (k j : String) (d : Dict V) → get j (remove k d) ≡ (if str_eq k j then none else get j d)
  unfolding get remove
  get-remove k j [] = ground arith
  get-remove k j ((i, w) ∷ d) = ground (arith, eq_iff k j, eq_iff i k, eq_iff i j, get-remove k j d)

  pub has-get : (k : String) (d : Dict V) → get k d ≡ none → has k d ≡ false
  unfolding get has
  has-get k [] e = refl
  has-get k ((i, w) ∷ d) e = ground (arith, has-get k d)

  pub has-some : (k : String) (d : Dict V) (v : V) → get k d ≡ some v → has k d ≡ true
  unfolding get has
  has-some k [] v e = cc
  has-some k ((i, w) ∷ d) v e = ground (arith, has-some k d v)

  pub length-remove-le : (k : String) (d : Dict V) → length (remove k d) ≤ length d
  unfolding remove
  length-remove-le k [] = omega arith
  length-remove-le k ((i, w) ∷ d) = ground (arith, length-remove-le k d)

  pub length-remove-lt :
      (k : String) (d : Dict V) (v : V) → get k d ≡ some v → length (remove k d) + 1 ≤ length d
  unfolding remove get
  length-remove-lt k [] v e = cc
  length-remove-lt k ((i, w) ∷ d) v e = ground (arith, length-remove-lt k d v, length-remove-le k d)

  pub length-put-le : (k : String) (v : V) (d : Dict V) → length (put k v d) ≤ length d + 1
  unfolding put
  length-put-le k v [] = omega arith
  length-put-le k v ((i, w) ∷ d) = ground (arith, length-put-le k v d)

pub ruleset dict_laws = (get-put, get-remove)
