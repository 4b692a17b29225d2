-- ===== src/Service/Delivered.antt =====
-- What the observers of a run get of the events that it makes (`_emit` and `_emit_live` of
-- src/z_apply_core/integrations/service.py): an emission hands its event to a broadcaster once, or, if a sink
-- raises or its task is cancelled, never; emissions that run at the same time hand them over in any order.
use z_apply_core.Prelude.{ℕ, ◌+◌, ◌≤◌, ◌<◌, ◌≡◌, refl, List, [], ◌∷◌, ◌++◌, All, arith, ◌==◌}
use z_apply_core.Slots.Counting.{bit}
use z_apply_core.Service.Run.{CoreEvent}
use z_apply_core.Service.Sound.{Numbered, unsent, sent, sent_live}

-- `published` is what was handed over of the events `es` and of the live events `ls`.
pub data Delivered : List CoreEvent → List CoreEvent → List CoreEvent → Type 0 where
  nothing : Delivered [] [] []
  lost :
      {es ls published : List CoreEvent} (e : CoreEvent)
      → Delivered es ls published
      → Delivered (e ∷ es) ls published
  lost_live :
      {es ls published : List CoreEvent} (e : CoreEvent)
      → Delivered es ls published
      → Delivered es (e ∷ ls) published
  handed :
      {es ls : List CoreEvent} (e : CoreEvent) (before after : List CoreEvent)
      → Delivered es ls (before ++ after)
      → Delivered (e ∷ es) ls (before ++ (e ∷ after))
  handed_live :
      {es ls : List CoreEvent} (e : CoreEvent) (before after : List CoreEvent)
      → Delivered es ls (before ++ after)
      → Delivered es (e ∷ ls) (before ++ (e ∷ after))

-- A number that a run has given out.
abbrev pub IsGiven : ℕ → CoreEvent → Type 0
IsGiven last e = (1 ≤ e.sequence) × (e.sequence ≤ last)

module _ (P : CoreEvent → Type 0) where
  All-insert :
      (e : CoreEvent) (before after : List CoreEvent)
      → P e
      → All P (before ++ after)
      → All P (before ++ (e ∷ after))
  All-insert e [] after p k = (p, k)
  All-insert e (b ∷ before) after p k = (k.0, All-insert e before after p k.1)

  pub Delivered-All :
      {es ls published : List CoreEvent}
      → Delivered es ls published
      → All P es
      → All P ls
      → All P published
  Delivered-All nothing k l = tt
  Delivered-All (lost e d) k l = Delivered-All d k.1 l
  Delivered-All (lost_live e d) k l = Delivered-All d k l.1
  Delivered-All (handed e before after d) k l =
      All-insert e before after k.0 (Delivered-All d k.1 l)
  Delivered-All (handed_live e before after d) k l =
      All-insert e before after l.0 (Delivered-All d k l.1)

later-IsGiven : (m n : ℕ) (es : List CoreEvent) → n ≤ m → All (IsGiven n) es → All (IsGiven m) es
later-IsGiven m n [] le k = tt
later-IsGiven m n (e ∷ es) le k = ((k.0.0, omega (arith, k.0.1, le)), later-IsGiven m n es le k.1)

pub Numbered-IsGiven :
    {m : ℕ} {es ls : List CoreEvent} → Numbered m es ls → All (IsGiven m) es × All (IsGiven m) ls
Numbered-IsGiven unsent = (tt, tt)
Numbered-IsGiven (sent {m} {n} {es} {ls} e same up k) =
    let before = Numbered-IsGiven k in
    (
      (
        (omega (arith, same, up), omega (arith, same)),
        later-IsGiven m n es (omega (arith, up)) before.0,
      ),
      later-IsGiven m n ls (omega (arith, up)) before.1,
    )
Numbered-IsGiven (sent_live {m} {n} {es} {ls} e same up k) =
    let before = Numbered-IsGiven k in
    (
      later-IsGiven m n es (omega (arith, up)) before.0,
      (
        (omega (arith, same, up), omega (arith, same)),
        later-IsGiven m n ls (omega (arith, up)) before.1,
      ),
    )

module _ (number : ℕ) where
  -- The events that have the number.
  unfoldable pub count_number : List CoreEvent → ℕ
  count_number [] = 0
  count_number (e ∷ es) = bit (e.sequence == number) + count_number es

  count_number-insert :
      (e : CoreEvent) (before after : List CoreEvent)
      → count_number (before ++ (e ∷ after))
        ≡ bit (e.sequence == number) + count_number (before ++ after)
  unfolding count_number
  count_number-insert e [] after = refl
  count_number-insert e (b ∷ before) after = omega (arith, count_number-insert e before after)

  pub Delivered-count :
      {es ls published : List CoreEvent}
      → Delivered es ls published
      → count_number published ≤ count_number es + count_number ls
  unfolding count_number
  Delivered-count nothing = omega arith
  Delivered-count (lost e d) = omega (arith, Delivered-count d)
  Delivered-count (lost_live e d) = omega (arith, Delivered-count d)
  Delivered-count (handed e before after d) =
      omega (arith, Delivered-count d, count_number-insert e before after)
  Delivered-count (handed_live e before after d) =
      omega (arith, Delivered-count d, count_number-insert e before after)

  -- The next number is on no event yet.
  step-count :
      (m n c b : ℕ) (e : CoreEvent)
      → e.sequence ≡ m
      → m ≡ n + 1
      → (b ≤ 1) × (n < number → b ≡ 0)
      → c ≡ bit (e.sequence == number) + b
      → (c ≤ 1) × (m < number → c ≡ 0)
  step-count m n c b e same up k count = ground (arith, same, up, k, count)

  pub Numbered-count :
      {m : ℕ} {es ls : List CoreEvent}
      → Numbered m es ls
      → (count_number es + count_number ls ≤ 1)
        × (m < number → count_number es + count_number ls ≡ 0)
  unfolding count_number
  Numbered-count unsent = (omega arith, λ lt. refl)
  Numbered-count (sent {m} {n} {es} {ls} e same up k) =
      step-count m n _ _ e same up (Numbered-count k) (omega arith)
  Numbered-count (sent_live {m} {n} {es} {ls} e same up k) =
      step-count m n _ _ e same up (Numbered-count k) (omega arith)
