-- ===== src/Protocol/Evidence.antt =====
-- `_message_text` and `_detect_violations` (src/z_apply_core/agents/protocol_guard.py). `is_word` is the class `\w` of
-- regular expressions.
use z_apply_core.Prelude.{
  strip_prefix, ℕ, String, Bool, true, false, not, ◌&&◌, ◌||◌, ◌==◌, Option, none, some, List, [],
  ◌∷◌, lstrip,
}
use Prim.Native.Char.{code}
use Prim.Native.String.{◌++◌ as ◌|++|◌}

-- A part of a list of contents is a dict with a text, or something else.
pub data Content : Type 0 where
  plain : String → Content
  parts : List (Option String) → Content
  other : Content

pub record Message : Type 0 where
  pub from_model : Bool
  pub content : Content

abbrev pub joined : String → Bool → String → String
joined first true rest = first
joined first false rest = first |++| "\n" |++| rest

abbrev pub no_texts : List (Option String) → Bool
no_texts [] = true
no_texts (none ∷ ps) = no_texts ps
no_texts (some s ∷ ps) = false

-- `"\n".join(parts)`
unfoldable pub join_parts : List (Option String) → String
join_parts [] = ""
join_parts (none ∷ ps) = join_parts ps
join_parts (some s ∷ ps) = joined s (no_texts ps) (join_parts ps)

unfoldable pub message_text : Content → String
unfolding join_parts
message_text (plain s) = s
message_text (parts ps) = join_parts ps
message_text other = ""

abbrev pub ends_word : (ℕ → Bool) → Option String → Bool
ends_word is_word none = false
ends_word is_word (some String.[]) = true
ends_word is_word (some (String.◌∷◌ c s)) = not (is_word (code c))

-- Whether a match of `(?m)^\s*name\b` begins in the text, which is the start of a line or not.
unfoldable pub shows : (ℕ → Bool) → String → Bool → String → Bool
unfolding lstrip strip_prefix
shows is_word name line String.[] = false
shows is_word name line (String.◌∷◌ c s) =
    let later = shows is_word name (code c == 10) s in
    (line && ends_word is_word (strip_prefix name (lstrip (String.◌∷◌ c s)))) || later

abbrev pub action_receipt : String
action_receipt = "BROWSER ACTION RECEIPT"

abbrev pub observation : String
observation = "BROWSER OBSERVATION"

abbrev pub forges : (ℕ → Bool) → String → Message → Bool
forges is_word name m = m.from_model && shows is_word name true (message_text m.content)

unfoldable pub any_forges : (ℕ → Bool) → String → List Message → Bool
unfolding shows message_text
any_forges is_word name [] = false
any_forges is_word name (m ∷ ms) = forges is_word name m || any_forges is_word name ms

-- Whether `_detect_violations` finds any.
unfoldable pub violates : (ℕ → Bool) → List Message → Bool
unfolding any_forges
violates is_word ms = any_forges is_word action_receipt ms || any_forges is_word observation ms
