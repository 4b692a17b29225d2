-- ===== src/Payload/Json.antt =====
-- The Python values that reach an event payload (src/z_apply_core/integrations/service.py).
use z_apply_core.Prelude.{ℕ, String, Bool, Option, none, some, str_eq, if◌then◌else◌}

-- `instance` is a dataclass, with its fields. An `opaque` value is of any other type. A number that is
-- no natural number is a `decimal`, by its text.
mutual
  pub data Json : Type 0 where
    null opaque : Json
    boolean : Bool → Json
    number : ℕ → Json
    decimal text : String → Json
    list : Items → Json
    dict instance : Entries → Json

  pub data Items : Type 0 where
    no_items : Items
    item : Json → Items → Items

  pub data Entries : Type 0 where
    no_entries : Entries
    entry : String → Json → Entries → Entries

-- `d.get(key)`
unfoldable pub lookup : String → Entries → Option Json
lookup k no_entries = none
lookup k (entry j v rest) = if str_eq j k then some v else lookup k rest

-- `{**d, key: value}`
unfoldable pub put_entry : String → Json → Entries → Entries
put_entry k v no_entries = entry k v no_entries
put_entry k v (entry j w rest) =
    if str_eq j k then entry j v rest else entry j w (put_entry k v rest)
