-- ===== src/Events/Tails.antt =====
-- Lemmas on the last elements of a list, and on one queue.
use z_apply_core.Prelude.{
  ℕ, zero, suc, ◌+◌, ◌-◌, ◌≤◌, ◌<◌, ◌≡◌, refl, List, [], sym, ap, ◌∙◌, ◌∷◌, ◌++◌, length, drop,
  arith, length-append, length-drop,
}
use z_apply_core.Events.Event.{CoreEvent}
use z_apply_core.Events.Broadcast.{last_n, is_full, offer}

module _ {ℓ} {A : Type ℓ} where
  drop-drop : (k m n : ℕ) (xs : List A) → k ≡ n + m → drop m (drop n xs) ≡ drop k xs
  drop-drop k m zero xs h = let e : m ≡ k = omega arith in ap (λ i. drop i xs) e
  drop-drop k zero (suc n) [] h = ground arith
  drop-drop zero (suc m) (suc n) [] h = refl
  drop-drop (suc k) (suc m) (suc n) [] h = refl
  drop-drop zero m (suc n) (x ∷ xs) h = ground arith
  drop-drop (suc k) m (suc n) (x ∷ xs) h = drop-drop k m n xs (omega arith)

  pub drop-append : (n : ℕ) (xs ys : List A) → n ≤ length xs → drop n (xs ++ ys) ≡ drop n xs ++ ys
  drop-append zero xs ys h = refl
  drop-append (suc n) [] ys h = ground arith
  drop-append (suc n) (x ∷ xs) ys h = drop-append n xs ys (omega arith)

  pub append_assoc : (xs ys zs : List A) → (xs ++ ys) ++ zs ≡ xs ++ (ys ++ zs)
  append_assoc [] ys zs = refl
  append_assoc (x ∷ xs) ys zs = cc (append_assoc xs ys zs)

  pub append_nil : (xs : List A) → xs ++ [] ≡ xs
  append_nil [] = refl
  append_nil (x ∷ xs) = cc (append_nil xs)

  -- What is dropped early would be dropped later.
  pub last_n-append : (n : ℕ) (xs ys : List A) → last_n n (last_n n xs ++ ys) ≡ last_n n (xs ++ ys)
  unfolding last_n
  last_n-append n xs ys =
      let k = length xs - n in
      ap (drop (length (drop k xs ++ ys) - n)) (sym (drop-append k xs ys (omega arith)))
      ∙ (drop-drop (length (xs ++ ys) - n) (length (drop k xs ++ ys) - n) k (xs ++ ys)
          (omega (arith, length-append xs ys, length-append (drop k xs) ys, length-drop k xs)))

  pub last_n-short : (n : ℕ) (xs : List A) → length xs ≤ n → last_n n xs ≡ xs
  unfolding last_n
  last_n-short n xs h = let e : length xs - n ≡ 0 = omega arith in ap (λ i. drop i xs) e

  pub length-last_n : (n : ℕ) (xs : List A) → length (last_n n xs) ≤ n
  unfolding last_n
  length-last_n n xs = omega (arith, length-drop (length xs - n) xs)

-- A bounded queue keeps the last events that fit.
pub offer_lem :
    (size : ℕ) (e : CoreEvent) (q : List CoreEvent)
    → 0 < size
    → length q ≤ size
    → (offer size e q).0 ≡ last_n size (q ++ (e ∷ []))
unfolding offer is_full last_n
offer_lem size e q pos h =
    ground
      (arith, length-append q (e ∷ []), drop-append 1 q (e ∷ []), last_n-short size (q ++ (e ∷ [])))
