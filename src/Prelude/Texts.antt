-- ===== src/Prelude/Texts.antt =====
-- Python's text operations that the program uses, on the native `String`.
use Prim.Native.Nat.{ℕ, zero, suc, ◌-◌, ◌≤◌}
use mathlib.Core.Path.{◌≡◌, refl, ap}
use native.Mathlib.Omega.{arith}
use Prim.Native.Char.{code}
use Prim.Native.String
use Prim.Native.String.{String}
use mathlib.Core.Bool.{Bool, true, false, ◌&&◌, ◌||◌}
use mathlib.Core.List.{List, [], ◌∷◌}
use text.Mathlib.TextLemmas.{length-cons}
use text.Mathlib.Text.{◌==◌ as str_eq, starts_with}
use mathlib.Core.Option.{Option, none, some}
use z_apply_core.Prelude.Tests.{◌==◌, leb, if◌then◌else◌}

-- `name in names`, for a collection of texts.
unfoldable pub mem_str : String → List String → Bool
mem_str s [] = false
mem_str s (t ∷ ts) = str_eq s t || mem_str s ts

-- `not s`
abbrev pub is_blank : String → Bool
is_blank String.[] = true
is_blank (String.◌∷◌ c s) = false

abbrev between : ℕ → ℕ → ℕ → Bool
between lo hi n = leb lo n && leb n hi

-- `str.isspace` of one character.
unfoldable pub is_space : ℕ → Bool
is_space n =
    between 9 13 n
    || between 28 32 n
    || between 133 133 n
    || between 160 160 n
    || between 5760 5760 n
    || between 8192 8202 n
    || between 8232 8233 n
    || between 8239 8239 n
    || between 8287 8287 n
    || between 12288 12288 n

-- `s.lstrip()`
unfoldable pub lstrip : String → String
unfolding is_space
lstrip String.[] = String.[]
lstrip (String.◌∷◌ c s) = if is_space (code c) then lstrip s else String.◌∷◌ c s

-- `s.rstrip()`
unfoldable pub rstrip : String → String
unfolding is_space
rstrip String.[] = String.[]
rstrip (String.◌∷◌ c s) =
    let rest = rstrip s in
    if is_space (code c) && is_blank rest then String.[] else String.◌∷◌ c rest

-- `s.strip()`
unfoldable pub strip : String → String
unfolding lstrip rstrip
strip s = rstrip (lstrip s)

-- `s.replace(old, new)`, where `old` has `suc n` characters, and `skip` more of one that was found are
-- to be passed over.
replace_from : String → ℕ → String → ℕ → String → String
replace_from old n new skip String.[] = String.[]
replace_from old n new (suc skip) (String.◌∷◌ c s) = replace_from old n new skip s
replace_from old n new zero (String.◌∷◌ c s) =
    let found = replace_from old n new n s in
    let rest = replace_from old n new zero s in
    if starts_with (String.◌∷◌ c s) old then String.◌++◌ new found else String.◌∷◌ c rest

-- `s.replace(old, new)` for a text `old` that is not empty.
unfoldable pub replace : String → String → String → String
unfolding replace_from
replace old new s = replace_from old (String.count old - 1) new 0 s

-- `s[:n]`
unfoldable pub take_text : ℕ → String → String
take_text zero s = String.[]
take_text (suc n) String.[] = String.[]
take_text (suc n) (String.◌∷◌ c s) = String.◌∷◌ c (take_text n s)

pub count-take_text : (n : ℕ) (s : String) → String.count (take_text n s) ≤ n
unfolding take_text
count-take_text zero s = omega arith
count-take_text (suc n) String.[] = omega arith
count-take_text (suc n) (String.◌∷◌ c s) =
    omega (arith, count-take_text n s, length-cons c (take_text n s))

-- A text that is short enough stays whole.
pub take_text-short : (n : ℕ) (s : String) → String.count s ≤ n → take_text n s ≡ s
unfolding take_text
take_text-short zero String.[] h = refl
take_text-short zero (String.◌∷◌ c s) h = absurd (omega (arith, h, length-cons c s))
take_text-short (suc n) String.[] h = refl
take_text-short (suc n) (String.◌∷◌ c s) h =
    ap (String.◌∷◌ c) (take_text-short n s (omega (arith, h, length-cons c s)))

-- The rest of a text after a prefix.
unfoldable pub strip_prefix : String → String → Option String
strip_prefix String.[] s = some s
strip_prefix (String.◌∷◌ p ps) String.[] = none
strip_prefix (String.◌∷◌ p ps) (String.◌∷◌ c s) =
    if code p == code c then strip_prefix ps s else none
