-- ===== src/Payload/Sanitize.antt =====
-- `_safe_payload`, `_safe_value` and `_framework_payload` (src/z_apply_core/integrations/service.py).
-- `lower` is `str.lower`.
use z_apply_core.Prelude.{
  ℕ, zero, suc, String, Bool, true, false, ◌||◌, Option, none, some, List, [], ◌∷◌, str_eq, mem_str,
  leb, take_text, if◌then◌else◌,
}
use z_apply_core.Payload.Json.{
  Json, null, opaque, boolean, number, decimal, text, list, dict, instance, Items, no_items, item,
  Entries, no_entries, entry, lookup, put_entry,
}

-- `_PRIVATE_PAYLOAD_KEYS`
abbrev pub private_payload_keys : List String
private_payload_keys =
    "authorization" ∷ "browser_tools" ∷ "candidate_memory" ∷ "human_channel" ∷ "messages"
    ∷ "password" ∷ "raw" ∷ "resources" ∷ "runtime" ∷ "token" ∷ "verification_url" ∷ []

abbrev pub max_text : ℕ
max_text = 4000

abbrev pub max_items : ℕ
max_items = 50

abbrev pub depth_limit : ℕ
depth_limit = 3

abbrev pub is_private : (String → String) → String → Bool
is_private lower k = mem_str (lower k) private_payload_keys

abbrev pub keep_item : Option Json → Items → Items
keep_item none rest = rest
keep_item (some v) rest = item v rest

abbrev pub keep_entry : String → Option Json → Entries → Entries
keep_entry k none rest = rest
keep_entry k (some v) rest = entry k v rest

abbrev pub within : ℕ → Json → Option Json
within depth v = if leb depth depth_limit then some v else none

-- `_safe_value`; `none` is its None. The helpers are its comprehensions, with the number of entries
-- that the slice `[:50]` leaves.
unfoldable mutual
  pub safe_value : (String → String) → ℕ → Json → Option Json
  safe_value lower depth null = none
  safe_value lower depth opaque = none
  safe_value lower depth (boolean b) = within depth (boolean b)
  safe_value lower depth (number n) = within depth (number n)
  safe_value lower depth (decimal s) = within depth (decimal s)
  safe_value lower depth (text s) = within depth (text (take_text max_text s))
  safe_value lower depth (list vs) = within depth (list (safe_items lower max_items (suc depth) vs))
  safe_value lower depth (dict es) =
      within depth (dict (safe_entries lower max_items (suc depth) es))
  safe_value lower depth (instance es) = within depth (dict (safe_fields lower (suc depth) es))

  pub safe_items : (String → String) → ℕ → ℕ → Items → Items
  safe_items lower zero depth vs = no_items
  safe_items lower (suc n) depth no_items = no_items
  safe_items lower (suc n) depth (item v vs) =
      keep_item (safe_value lower depth v) (safe_items lower n depth vs)

  pub safe_entries : (String → String) → ℕ → ℕ → Entries → Entries
  safe_entries lower zero depth es = no_entries
  safe_entries lower (suc n) depth no_entries = no_entries
  safe_entries lower (suc n) depth (entry k v es) =
      if is_private lower k
      then safe_entries lower n depth es
      else keep_entry k (safe_value lower depth v) (safe_entries lower n depth es)

  pub safe_fields : (String → String) → ℕ → Entries → Entries
  safe_fields lower depth no_entries = no_entries
  safe_fields lower depth (entry k v es) =
      keep_entry k (safe_value lower depth v) (safe_fields lower depth es)

-- `_safe_payload` of a dict, whose items are not cut.
unfoldable pub safe_payload : (String → String) → Entries → Entries
unfolding safe_value
safe_payload lower no_entries = no_entries
safe_payload lower (entry k v es) =
    if is_private lower k
    then safe_payload lower es
    else keep_entry k (safe_value lower 0 v) (safe_payload lower es)

-- `_PUBLIC_STATE_FIELDS`
abbrev pub public_state_fields : List String
public_state_fields =
    "auth_model_id" ∷ "auth_status" ∷ "auth_summary" ∷ "model_id" ∷ "orchestrator_summary"
    ∷ "run_status" ∷ []

unfoldable pub public_fields : List String → Entries → Entries
unfolding lookup
public_fields [] state = no_entries
public_fields (k ∷ ks) state = keep_entry k (lookup k state) (public_fields ks state)

-- `{key: value for item in values for key, value in item.items()}` over the values that are dicts.
unfoldable pub merge_entries : Entries → Entries → Entries
unfolding put_entry
merge_entries no_entries into = into
merge_entries (entry k v es) into = merge_entries es (put_entry k v into)

unfoldable pub merge_values : Entries → Entries → Entries
unfolding merge_entries
merge_values no_entries into = into
merge_values (entry k (dict es) rest) into = merge_values rest (merge_entries es into)
merge_values (entry k _ rest) into = merge_values rest into

abbrev state_fields : Bool → Option Json → Entries
state_fields true (some (dict es)) = merge_values es no_entries
state_fields false (some (dict es)) = es
state_fields _ _ = no_entries

-- `_framework_payload`: the name of a graph event, and its state.
unfoldable pub framework_payload : (String → String) → String → Entries → Entries
unfolding safe_payload public_fields merge_values
framework_payload lower event state =
    if str_eq event "values" || str_eq event "updates"
    then safe_payload lower (
        public_fields public_state_fields
          (state_fields (str_eq event "updates") (lookup "data" state)))
    else safe_payload lower state
