-- ===== src/Slots/Profile.antt =====
-- The profile directory of a slot: what is copied into it, removed from it and checked in it
-- (src/z_apply_core/profile_pool.py). A directory is the list of the paths below it. `rsync` and the
-- JSON parser are not the program's own: they enter through `Host`.
use z_apply_core.Prelude.{
  String, Bool, true, false, ◌&&◌, ◌||◌, not, Option, none, some, List, [], ◌∷◌, str_eq,
  if◌then◌else◌, is_some,
}
use text.Mathlib.Text.{starts_with}

pub data Node : Type 0 where
  file : String → Node
  dir : Node

-- A path relative to the profile directory, by its components.
abbrev pub FilePath : Type 0
FilePath = List String

abbrev pub Profile : Type 0
Profile = List (FilePath × Node)

-- One entry of "addons" in extensions.json; a missing key is `none`.
pub record Addon : Type 0 where
  pub id : Option String
  pub active : Bool
  pub location : Option String

-- What runs outside the program: `rsync` from a master to a slot (whether it exited with 0, and the
-- slot that it leaves), and `json.loads` of extensions.json with its "addons".
pub record Host : Type 0 where
  pub rsync : Profile → Profile → Bool × Profile
  pub load_addons : String → Option (List Addon)

pub data SlotError : Type 0 where
  no_master rsync_failed unlink_failed no_sideload no_addon_storage no_free_slot : SlotError
  missing_files : List String → SlotError

unfoldable pub path_eq : FilePath → FilePath → Bool
path_eq [] [] = true
path_eq (a ∷ p) (b ∷ q) = str_eq a b && path_eq p q
path_eq _ _ = false

-- The node at a path.
unfoldable pub find_node : FilePath → Profile → Option Node
find_node p [] = none
find_node p ((q, n) ∷ r) = if path_eq q p then some n else find_node p r

unfoldable pub exists : FilePath → Profile → Bool
unfolding find_node path_eq
exists p d = is_some (find_node p d)

abbrev node_is_dir : Option Node → Bool
node_is_dir (some dir) = true
node_is_dir _ = false

unfoldable pub is_dir : FilePath → Profile → Bool
unfolding find_node path_eq
is_dir p d = node_is_dir (find_node p d)

abbrev node_is_file : Option Node → Bool
node_is_file (some (file _)) = true
node_is_file _ = false

unfoldable pub is_file : FilePath → Profile → Bool
unfolding find_node path_eq
is_file p d = node_is_file (find_node p d)

-- `Path.unlink`: the entry itself.
unfoldable pub unlink : FilePath → Profile → Profile
unlink p [] = []
unlink p ((q, n) ∷ d) = let rest = unlink p d in if path_eq q p then rest else (q, n) ∷ rest

abbrev below : String → FilePath → Bool
below name [] = false
below name (a ∷ p) = str_eq a name

-- `shutil.rmtree` of a directory at the top of the profile: it and all below it.
unfoldable pub rmtree : String → Profile → Profile
rmtree name [] = []
rmtree name ((q, n) ∷ d) = let rest = rmtree name d in if below name q then rest else (q, n) ∷ rest

abbrev pub sessionstore_artifacts : List String
sessionstore_artifacts =
    "sessionstore-backups" ∷ "sessionCheckpoints.json" ∷ "sessionstore.jsonlz4" ∷ []

abbrev pub lock_files : List String
lock_files = ".parentlock" ∷ "lock" ∷ []

abbrev pub required_manifest : List String
required_manifest = "extensions.json" ∷ "prefs.js" ∷ "cookies.sqlite" ∷ "storage" ∷ []

abbrev pub simplify_addon_id : String
simplify_addon_id = "sabre@simplify.jobs"

-- The loop over the session-restore artifacts.
unfoldable pub clean_artifacts : List String → Profile → Profile
unfolding is_dir exists unlink rmtree
clean_artifacts [] d = d
clean_artifacts (name ∷ names) d = clean_artifacts names (
    if is_dir (name ∷ []) d
    then rmtree name d
    else if exists (name ∷ []) d
    then unlink (name ∷ []) d
    else d)

-- The loop over the lock files. `unlink` raises at a directory.
unfoldable pub clean_locks : List String → Profile → Option SlotError × Profile
unfolding is_dir unlink
clean_locks [] d = (none, d)
clean_locks (name ∷ names) d =
    let rest = clean_locks names (unlink (name ∷ []) d) in
    if is_dir (name ∷ []) d then (some unlink_failed, d) else rest

-- `_clean_launch_artifacts`
unfoldable pub clean_launch_artifacts : Profile → Option SlotError × Profile
unfolding clean_artifacts clean_locks
clean_launch_artifacts d = clean_locks lock_files (clean_artifacts sessionstore_artifacts d)

unfoldable pub is_text : String → Option String → Bool
is_text s none = false
is_text s (some t) = str_eq t s

-- The loop over "addons".
unfoldable pub any_sideload : Profile → List Addon → Bool
unfolding is_text is_file
any_sideload d [] = false
any_sideload d (a ∷ as') =
    (is_text simplify_addon_id a.id
      && a.active
      && is_text "app-profile" a.location
      && is_file ("extensions" ∷ "sabre@simplify.jobs.xpi" ∷ []) d)
    || any_sideload d as'

abbrev sideload_in : Profile → Option (List Addon) → Bool
sideload_in d none = false
sideload_in d (some l) = any_sideload d l

-- `read_text` raises at what is no file.
abbrev read_addons : Host → Option Node → Option (List Addon)
read_addons h (some (file text)) = h.load_addons text
read_addons h _ = none

-- `_is_simplify_sideloaded`
unfoldable pub is_simplify_sideloaded : Host → Profile → Bool
unfolding any_sideload find_node path_eq
is_simplify_sideloaded h d = sideload_in d (read_addons h (find_node ("extensions.json" ∷ []) d))

unfoldable pub missing_from : Profile → List String → List String
unfolding exists
missing_from d [] = []
missing_from d (name ∷ names) =
    let rest = missing_from d names in if exists (name ∷ []) d then rest else name ∷ rest

-- An entry of storage/default that is a directory named moz-extension….
unfoldable pub is_addon_storage : FilePath × Node → Bool
is_addon_storage ((a ∷ b ∷ c ∷ []), dir) =
    str_eq a "storage" && str_eq b "default" && starts_with c "moz-extension"
is_addon_storage _ = false

unfoldable pub any_addon_storage : Profile → Bool
unfolding is_addon_storage
any_addon_storage [] = false
any_addon_storage (e ∷ d) = is_addon_storage e || any_addon_storage d

abbrev no_files_missing : List String → Bool
no_files_missing [] = true
no_files_missing _ = false

-- `verify_manifest`: the error that it raises.
unfoldable pub verify_manifest : Host → Bool → Profile → Option SlotError
unfolding missing_from is_simplify_sideloaded any_addon_storage is_dir
verify_manifest h require_addon_storage d =
    let missing = missing_from d required_manifest in
    if not (no_files_missing missing)
    then some (missing_files missing)
    else if not (is_simplify_sideloaded h d)
    then some no_sideload
    else if require_addon_storage
        && (not (is_dir ("storage" ∷ "default" ∷ []) d) || not (any_addon_storage d))
    then some no_addon_storage
    else none

-- `_rsync_mirror`: `none` for a master that is no directory.
unfoldable pub rsync_mirror : Host → Option Profile → Profile → Option SlotError × Profile
rsync_mirror h none d = (some no_master, d)
rsync_mirror h (some master) d =
    let (exited, d') = h.rsync master d in (if exited then none else some rsync_failed, d')
