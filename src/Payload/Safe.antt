-- ===== src/Payload/Safe.antt =====
-- What `_safe_payload` gives out (src/z_apply_core/integrations/service.py).
use z_apply_core.Prelude.{
  ℕ, zero, suc, ◌+◌, ◌≤◌, ◌≡◌, String, true, false, Option, none, some, leb, leb→le, arith,
  Bool-cases, inl, inr, take_text, count-take_text, if◌then◌else◌,
}
use Prim.Native.String
use z_apply_core.Payload.Json.{
  Json, null, opaque, boolean, number, decimal, text, list, dict, instance, Items, no_items, item,
  Entries, no_entries, entry,
}
use z_apply_core.Payload.Sanitize.{
  max_text, max_items, depth_limit, is_private, keep_item, keep_entry, within, safe_value,
  safe_items, safe_entries, safe_payload,
}

unfoldable pub count_items : Items → ℕ
count_items no_items = 0
count_items (item v vs) = 1 + count_items vs

unfoldable pub count_entries : Entries → ℕ
count_entries no_entries = 0
count_entries (entry k v es) = 1 + count_entries es

-- A value that may go out, at a depth: no None, no object, no private key, no long text, no long
-- list or dict, and nothing below the limit of the depth.
unfoldable mutual
  pub IsSafe : (String → String) → ℕ → Json → Type 0
  IsSafe lower depth null = ⊥
  IsSafe lower depth opaque = ⊥
  IsSafe lower depth (boolean b) = depth ≤ depth_limit
  IsSafe lower depth (number n) = depth ≤ depth_limit
  IsSafe lower depth (decimal s) = depth ≤ depth_limit
  IsSafe lower depth (text s) = (depth ≤ depth_limit) × (String.count s ≤ max_text)
  IsSafe lower depth (list vs) =
      (depth ≤ depth_limit) × (count_items vs ≤ max_items) × AllSafe lower (suc depth) vs
  IsSafe lower depth (dict es) =
      (depth ≤ depth_limit) × (count_entries es ≤ max_items) × AllPublic lower (suc depth) es
  IsSafe lower depth (instance es) = ⊥

  pub AllSafe : (String → String) → ℕ → Items → Type 0
  AllSafe lower depth no_items = Unit
  AllSafe lower depth (item v vs) = IsSafe lower depth v × AllSafe lower depth vs

  pub AllPublic : (String → String) → ℕ → Entries → Type 0
  AllPublic lower depth no_entries = Unit
  AllPublic lower depth (entry k v es) =
      (is_private lower k ≡ false) × IsSafe lower depth v × AllPublic lower depth es

-- No dataclass in a value, whose fields are not looked at.
unfoldable mutual
  pub IsPlain : Json → Type 0
  IsPlain null = Unit
  IsPlain opaque = Unit
  IsPlain (boolean b) = Unit
  IsPlain (number n) = Unit
  IsPlain (decimal s) = Unit
  IsPlain (text s) = Unit
  IsPlain (list vs) = AllPlain vs
  IsPlain (dict es) = PlainEntries es
  IsPlain (instance es) = ⊥

  pub AllPlain : Items → Type 0
  AllPlain no_items = Unit
  AllPlain (item v vs) = IsPlain v × AllPlain vs

  pub PlainEntries : Entries → Type 0
  PlainEntries no_entries = Unit
  PlainEntries (entry k v es) = IsPlain v × PlainEntries es

abbrev OptionSafe : (String → String) → ℕ → Option Json → Type 0
OptionSafe lower depth none = Unit
OptionSafe lower depth (some v) = IsSafe lower depth v

within-OptionSafe :
    (lower : String → String) (depth : ℕ) (v : Json)
    → (depth ≤ depth_limit → IsSafe lower depth v)
    → OptionSafe lower depth (within depth v)
within-OptionSafe lower depth v safe = elim (Bool-cases (leb depth depth_limit)) [
  | inl shallow ↦ rw shallow (safe (leb→le depth depth_limit shallow))
  | inr deep ↦ rw deep tt
]

keep_item-AllSafe :
    (lower : String → String) (depth : ℕ) (o : Option Json) (vs : Items)
    → OptionSafe lower depth o
    → AllSafe lower depth vs
    → AllSafe lower depth (keep_item o vs)
unfolding IsSafe
keep_item-AllSafe lower depth none vs h k = k
keep_item-AllSafe lower depth (some v) vs h k = (h, k)

keep_entry-AllPublic :
    (lower : String → String) (depth : ℕ) (key : String) (o : Option Json) (es : Entries)
    → is_private lower key ≡ false
    → OptionSafe lower depth o
    → AllPublic lower depth es
    → AllPublic lower depth (keep_entry key o es)
unfolding IsSafe
keep_entry-AllPublic lower depth key none es open' h k = k
keep_entry-AllPublic lower depth key (some v) es open' h k = (open', h, k)

count-safe_items :
    (lower : String → String) (n depth : ℕ) (vs : Items)
    → count_items (safe_items lower n depth vs) ≤ n
unfolding safe_value count_items
count-safe_items lower zero depth vs = omega arith
count-safe_items lower (suc n) depth no_items = omega arith
count-safe_items lower (suc n) depth (item v vs) =
    elim (safe_value lower depth v)
      as (λ o. count_items (keep_item o (safe_items lower n depth vs)) ≤ suc n) [
        | none ↦ omega (arith, count-safe_items lower n depth vs)
        | some w ↦ omega (arith, count-safe_items lower n depth vs)
      ]

count-safe_entries :
    (lower : String → String) (n depth : ℕ) (es : Entries)
    → count_entries (safe_entries lower n depth es) ≤ n
unfolding safe_value count_entries
count-safe_entries lower zero depth es = omega arith
count-safe_entries lower (suc n) depth no_entries = omega arith
count-safe_entries lower (suc n) depth (entry k v es) =
    let rest = count-safe_entries lower n depth es in
    elim (is_private lower k)
      as (λ b.
        count_entries (
          if b
          then safe_entries lower n depth es
          else keep_entry k (safe_value lower depth v) (safe_entries lower n depth es))
        ≤ suc n) [
          | true ↦ omega (arith, rest)
          | false ↦
              elim (safe_value lower depth v)
                as (λ o. count_entries (keep_entry k o (safe_entries lower n depth es)) ≤ suc n) [
                  | none ↦ omega (arith, rest)
                  | some w ↦ omega (arith, rest)
                ]
        ]

mutual
  unfolding safe_value IsSafe IsPlain

  safe_value-OptionSafe :
      (lower : String → String) (depth : ℕ) (v : Json)
      → IsPlain v
      → OptionSafe lower depth (safe_value lower depth v)
  safe_value-OptionSafe lower depth null p = tt
  safe_value-OptionSafe lower depth opaque p = tt
  safe_value-OptionSafe lower depth (boolean b) p =
      within-OptionSafe lower depth (boolean b) (λ h. h)
  safe_value-OptionSafe lower depth (number n) p = within-OptionSafe lower depth (number n) (λ h. h)
  safe_value-OptionSafe lower depth (decimal s) p =
      within-OptionSafe lower depth (decimal s) (λ h. h)
  safe_value-OptionSafe lower depth (text s) p =
      within-OptionSafe lower depth (text (take_text max_text s))
        (λ h. (h, count-take_text max_text s))
  safe_value-OptionSafe lower depth (list vs) p =
      within-OptionSafe lower depth (list (safe_items lower max_items (suc depth) vs)) (λ h. (
        h,
        count-safe_items lower max_items (suc depth) vs,
        safe_items-AllSafe lower max_items (suc depth) vs p,
      ))
  safe_value-OptionSafe lower depth (dict es) p =
      within-OptionSafe lower depth (dict (safe_entries lower max_items (suc depth) es)) (λ h. (
        h,
        count-safe_entries lower max_items (suc depth) es,
        safe_entries-AllPublic lower max_items (suc depth) es p,
      ))
  safe_value-OptionSafe lower depth (instance es) p = absurd p

  safe_items-AllSafe :
      (lower : String → String) (n depth : ℕ) (vs : Items)
      → AllPlain vs
      → AllSafe lower depth (safe_items lower n depth vs)
  safe_items-AllSafe lower zero depth vs p = tt
  safe_items-AllSafe lower (suc n) depth no_items p = tt
  safe_items-AllSafe lower (suc n) depth (item v vs) p =
      keep_item-AllSafe lower depth (safe_value lower depth v) (safe_items lower n depth vs)
        (safe_value-OptionSafe lower depth v p.0) (safe_items-AllSafe lower n depth vs p.1)

  safe_entries-AllPublic :
      (lower : String → String) (n depth : ℕ) (es : Entries)
      → PlainEntries es
      → AllPublic lower depth (safe_entries lower n depth es)
  safe_entries-AllPublic lower zero depth es p = tt
  safe_entries-AllPublic lower (suc n) depth no_entries p = tt
  safe_entries-AllPublic lower (suc n) depth (entry k v es) p =
      let rest = safe_entries-AllPublic lower n depth es p.1 in
      let value = safe_value-OptionSafe lower depth v p.0 in
      elim (Bool-cases (is_private lower k)) [
        | inl hidden ↦ rw hidden rest
        | inr shown ↦ rw shown (
            keep_entry-AllPublic lower depth k (safe_value lower depth v)
              (safe_entries lower n depth es) shown value rest)
      ]

pub safe_payload-AllPublic :
    (lower : String → String) (es : Entries)
    → PlainEntries es
    → AllPublic lower 0 (safe_payload lower es)
unfolding safe_payload IsSafe IsPlain
safe_payload-AllPublic lower no_entries p = tt
safe_payload-AllPublic lower (entry k v es) p =
    let rest = safe_payload-AllPublic lower es p.1 in
    elim (Bool-cases (is_private lower k)) [
      | inl hidden ↦ rw hidden rest
      | inr shown ↦ rw shown (
          keep_entry-AllPublic lower 0 k (safe_value lower 0 v) (safe_payload lower es) shown
            (safe_value-OptionSafe lower 0 v p.0) rest)
    ]
