-- ===== src/Guard/Call.antt =====
-- Tool calls and the signatures of src/z_apply_core/agents/no_progress_guard.py.
use z_apply_core.Prelude.{
  ℕ, String, Bool, true, false, ◌&&◌, ◌||◌, not, Option, none, some, List, [], ◌∷◌, ◌++◌, str_eq,
  mem_str, is_blank, leb, if◌then◌else◌,
}
use Prim.Native.Nat.{Ordering, lt, eq, gt}
use Prim.Native.String.{compare, ◌++◌ as ◌|++|◌}

-- What JSON makes of arguments; numbers, booleans and null are `other`, with their JSON text.
mutual
  pub data Json : Type 0 where
    text other : String → Json
    array : Items → Json
    object : Fields → Json

  pub data Items : Type 0 where
    no_items : Items
    item : Json → Items → Items

  pub data Fields : Type 0 where
    no_fields : Fields
    field : String → Json → Fields → Fields

pub record ToolCall : Type 0 where
  pub name : String
  pub id : String
  pub args : Fields

-- BROWSER_CHANGING_TOOL_NAMES of src/z_apply_core/browser_tools.py
abbrev pub browser_changing_tool_names : List String
browser_changing_tool_names =
    "browser_navigate" ∷ "browser_click" ∷ "browser_click_upload" ∷ "browser_type"
    ∷ "browser_fill_form" ∷ "browser_select_option" ∷ "browser_evaluate" ∷ "browser_file_upload"
    ∷ "browser_handle_dialog" ∷ "browser_batched" ∷ []

-- The names that always count as work on the application.
abbrev pub productive_tool_names : List String
productive_tool_names =
    "application_blocked" ∷ "application_submitted" ∷ "ask_human" ∷ "request_manual_auth" ∷ "task"
    ∷ []

-- `_PROGRESS_TOOL_NAMES`
abbrev pub progress_tool_names : List String
progress_tool_names = browser_changing_tool_names ++ productive_tool_names

-- `_REPEATABLE_READ_TOOL_NAMES`
abbrev pub repeatable_read_tool_names : List String
repeatable_read_tool_names = "browser_wait_for" ∷ []

-- `_IDENTICAL_CALL_EXEMPT_TOOL_NAMES`
abbrev pub identical_call_exempt_tool_names : List String
identical_call_exempt_tool_names = "browser_wait_for" ∷ productive_tool_names

-- `args.get(key)`
unfoldable pub lookup : String → Fields → Option Json
lookup k no_fields = none
lookup k (field j v rest) = if str_eq j k then some v else lookup k rest

-- `{**args, key: value}` for a key that is in `args`.
unfoldable pub replace_field : String → Json → Fields → Fields
replace_field k v no_fields = no_fields
replace_field k v (field j w rest) =
    let rest' = replace_field k v rest in if str_eq j k then field j v rest else field j w rest'

-- A text that names something.
unfoldable pub ref_of : Option Json → List String
ref_of (some (text s)) = if is_blank s then [] else s ∷ []
ref_of _ = []

unfoldable pub item_refs : Items → List String
unfolding ref_of lookup
item_refs no_items = []
item_refs (item (object fs) rest) = ref_of (lookup "target" fs) ++ item_refs rest
item_refs (item _ rest) = item_refs rest

-- `_field_refs`
unfoldable pub field_refs : Option Json → List String
unfolding item_refs
field_refs (some (array items)) = item_refs items
field_refs _ = []

unfoldable pub step_refs : Items → List String
unfolding field_refs
step_refs no_items = []
step_refs (item (object fs) rest) =
    ref_of (lookup "target" fs) ++ field_refs (lookup "fields" fs) ++ step_refs rest
step_refs (item _ rest) = step_refs rest

abbrev script_refs : Option Json → List String
script_refs (some (array items)) = step_refs items
script_refs _ = []

-- `_target_refs`, a set as a list.
unfoldable pub target_refs : Fields → List String
unfolding step_refs
target_refs args =
    ref_of (lookup "target" args)
    ++ field_refs (lookup "fields" args)
    ++ script_refs (lookup "steps" args)

pub record ActionSignature : Type 0 where
  pub name : String
  pub refs : List String

-- `_action_signature`
unfoldable pub action_signature : ToolCall → Option ActionSignature
unfolding target_refs ref_of lookup
action_signature c =
    if mem_str c.name browser_changing_tool_names
    then some (record {
      name = c.name;
      refs =
          target_refs c.args
          ++ (if str_eq c.name "browser_navigate" then ref_of (lookup "url" c.args) else []);
    })
    else none

abbrev subset : List String → List String → Bool
subset [] ys = true
subset (x ∷ xs) ys = mem_str x ys && subset xs ys

-- Equality of signatures: the refs are sets.
unfoldable pub same_action : ActionSignature → ActionSignature → Bool
same_action s t = str_eq s.name t.name && subset s.refs t.refs && subset t.refs s.refs

-- What Python's library gives: the text of JSON with sorted keys, and `casefold`; `str` of a value
-- that is no text.
pub record Library : Type 0 where
  pub dumps : Fields → String
  pub casefold : String → String
  pub str : Json → String

abbrev or_empty : Option Json → Json
or_empty none = text ""
or_empty (some v) = v

unfoldable pub shown : Library → Json → String
shown l (text s) = s
shown l v = l.str v

-- A field of a form as it is compared.
unfoldable pub normal_field : Library → Fields → Json
unfolding lookup shown
normal_field l fs = object (
    field "target" (or_empty (lookup "target" fs)) (
      field "name" (text (l.casefold (shown l (or_empty (lookup "name" fs))))) (
        field "type" (or_empty (lookup "type" fs))
          (field "value" (or_empty (lookup "value" fs)) no_fields))))

unfoldable pub normal_fields : Library → Items → List Json
unfolding normal_field
normal_fields l no_items = []
normal_fields l (item (object fs) rest) = normal_field l fs ∷ normal_fields l rest
normal_fields l (item _ rest) = normal_fields l rest

abbrev is_before : Ordering → Bool
is_before lt = true
is_before eq = false
is_before gt = false

-- `str(f.get("target", ""))`
unfoldable pub sort_key : Library → Json → String
sort_key l (object fs) = shown l (or_empty (lookup "target" fs))
sort_key l _ = ""

unfoldable pub insert_field : Library → Json → List Json → List Json
unfolding sort_key
insert_field l x [] = x ∷ []
insert_field l x (y ∷ ys) =
    let rest = insert_field l x ys in
    if is_before (compare (sort_key l y) (sort_key l x)) then y ∷ rest else x ∷ y ∷ ys

-- `list.sort` by the key, which keeps the order of what has the same key.
unfoldable pub sort_fields : Library → List Json → List Json
unfolding insert_field
sort_fields l [] = []
sort_fields l (x ∷ xs) = insert_field l x (sort_fields l xs)

unfoldable pub items_of : List Json → Items
items_of [] = no_items
items_of (x ∷ xs) = item x (items_of xs)

abbrev form_args : Library → Fields → Option Json → Fields
form_args l args (some (array items)) =
    replace_field "fields" (array (items_of (sort_fields l (normal_fields l items)))) args
form_args l args _ = args

-- The arguments that stand in a signature.
unfoldable pub signed_args : Library → ToolCall → Fields
signed_args l c =
    if str_eq c.name "browser_fill_form"
    then form_args l c.args (lookup "fields" c.args)
    else c.args

abbrev or_unknown : Option String → String
or_unknown none = "(unknown)"
or_unknown (some s) = if is_blank s then "(unknown)" else s

-- `_state_action_signature`, with the signature of the browser.
unfoldable pub state_action_signature : Library → Option String → ToolCall → String
state_action_signature l browser c =
    or_unknown browser |++| ":" |++| c.name |++| ":" |++| l.dumps (signed_args l c)

-- `_read_signature`
unfoldable pub read_signature : Library → ToolCall → Option String
read_signature l c =
    if mem_str c.name progress_tool_names || mem_str c.name repeatable_read_tool_names
    then none
    else some (c.name |++| ":" |++| l.dumps c.args)

-- `_is_repeatable_identical_call`
unfoldable pub is_repeatable_identical_call : ToolCall → ℕ → Bool
is_repeatable_identical_call c attempt_no =
    leb 1 attempt_no
    && mem_str c.name browser_changing_tool_names
    && not (mem_str c.name identical_call_exempt_tool_names)
