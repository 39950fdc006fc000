-- ===== src/Locks/Repository.antt =====
-- validate_locks.py: `validate_repository`. The state of its loops is passed on: the locks by their
-- resolved directories, the image identifiers by their references, the directories in use.
pub mod Loops
pub mod Recorded
pub mod Images
pub mod Owners
use home_lab.Prelude.{
  ℕ, String, Bool, true, false, not, ◌&&◌, ◌||◌, Option, none, some, List, [], ◌∷◌, ◌++◌, length,
  str_eq, if◌then◌else◌,
}
use home_lab.Prelude.Dict.{Dict, put}
use home_lab.Program.{Io, Outcome, ok, raised, pure, raise, ◌>>=◌, ◌>>◌}
use home_lab.Json.{Json, str, obj, Fields}
use home_lab.Locks.Checks.{
  Error, invalid, key_error, type_error, attribute_error, index_error, value_error, os_error, Check,
  Python, require, at, is_in,
}
use home_lab.Locks.Dockerfile.{Mod}
use home_lab.Locks.Lock.{Kind, is_readiness}
use home_lab.Locks.Documents.{read_json, some_or}
use home_lab.Locks.Validate.{validate_lock}
use home_lab.Locks.Recipe.{Locked, RecipePath, lookup, equal}
use home_lab.Locks.Gates.{validate_recipe}

-- An upstream.lock.json below mods: its path, whether it stands in a directory of mods itself, that
-- directory, its resolved path, and the text.
pub record Manifest : Type 0 where
  pub path : String
  pub is_direct : Bool
  pub mod_dir : Mod
  pub resolved : String
  pub content : Check String

-- An entry of mods
pub record Entry : Type 0 where
  pub name : String
  pub is_dir : Bool
  pub has_lock : Bool

-- A file below the root named *.yaml or *.yml: the first part of its relative path, and the text
pub record RecipeFile : Type 0 where
  pub top : String
  pub path : RecipePath
  pub content : Check String

-- What the root holds: whether mods is a directory, its manifests in the order of their paths, its
-- entries, and the files named like recipes in the order of their paths.
pub record Tree : Type 0 where
  pub has_mods : Bool
  pub manifests : List Manifest
  pub entries : List Entry
  pub files : List RecipeFile

pub record Seen : Type 0 where
  pub locks : Dict Locked
  pub images : Dict Json

abbrev pub caught_of_lock : Error → String → Error
caught_of_lock attribute_error path = attribute_error
caught_of_lock index_error path = index_error
caught_of_lock _ path = invalid path

abbrev pub caught_of_recipe : Error → String → Error
caught_of_recipe index_error path = index_error
caught_of_recipe _ path = invalid path

-- `except (...) as exc: raise InvalidManifest(...) from exc`
abbrev pub catching : {A : Type 0} → (Error → String → Error) → String → Check A → Check A
catching caught path m s =
    let (r, t) = m s in elim r [ ok a ↦ (ok a, t) | raised e ↦ (raised (caught e path), t) ]

abbrev pub is_nonempty : {A : Type 0} → List A → Bool
is_nonempty [] = false
is_nonempty (_ ∷ _) = true

-- Directories that have no lock
unfoldable pub check_entries : List Entry → Check (Unit {0})
check_entries [] = pure tt
check_entries (entry ∷ entries) = do
  require (not (entry.is_dir && not (str_eq entry.name "__pycache__")) || entry.has_lock) "mods"
  check_entries entries

-- A key of a dict of texts
abbrev pub as_key : Json → Check String
as_key (str s) = pure s
as_key _ = raise type_error

module _ (python : Python) where
  -- `if reference in images: equal(...)`
  abbrev pub same_image : Json → Option Json → Check (Unit {0})
  same_image config_id none = pure tt
  same_image config_id (some known) = equal python config_id known "image/image_id relationship"

  abbrev pub add_image : Locked → Seen → Check (Dict Json)
  add_image (lock, kind) seen =
      if is_readiness kind
      then pure seen.images
      else (at (obj lock) "image" >>= λ v. at (obj lock) "image_id" >>= λ config_id.
          as_key v >>= λ reference. same_image config_id (lookup reference seen.images) >>= λ _.
          pure (put reference config_id seen.images))

  -- The body of the loop over the manifests
  unfoldable pub add_manifest : Manifest → Seen → Check Seen
  add_manifest manifest seen = do
    require manifest.is_direct manifest.path
    v ← read_json python manifest.content
    lock ← validate_lock python v manifest.mod_dir
    images ← add_image lock seen
    pure (record { locks = put manifest.resolved lock seen.locks; images = images })

  unfoldable pub add_manifests : List Manifest → Seen → Check Seen
  add_manifests [] seen = pure seen
  add_manifests (manifest ∷ manifests) seen = do
    more ← catching caught_of_lock manifest.path (add_manifest manifest seen)
    add_manifests manifests more

-- `path.relative_to(root).parts[0] not in {...}`
abbrev pub is_recipe : RecipeFile → Bool
is_recipe file = not (is_in file.top ("benchmarks" ∷ "mods" ∷ "tests" ∷ "plugins" ∷ []))

abbrev pub recipes_in : List RecipeFile → List RecipeFile
recipes_in [] = []
recipes_in (file ∷ files) =
    let rest = recipes_in files in if is_recipe file then file ∷ rest else rest

-- `(path.parent / ref).resolve() for ref in mods`
abbrev pub resolved_mods : RecipePath → List Json → List String
resolved_mods path [] = []
resolved_mods path (str ref ∷ refs) = path.resolve ref ∷ resolved_mods path refs
resolved_mods path (_ ∷ refs) = resolved_mods path refs

module _ (python : Python) (locks : Dict Locked) where
  -- The body of the loop over the recipes: the directories that it uses
  unfoldable pub check_recipe : RecipeFile → Check (List String)
  check_recipe file = do
    text ← file.content
    recipe ← some_or (python.safe_load text)
    mods ← validate_recipe python recipe file.path locks
    pure (resolved_mods file.path mods)

  unfoldable pub check_recipes : List RecipeFile → Check (List String)
  check_recipes [] = pure []
  check_recipes (file ∷ files) = do
    first ← catching caught_of_recipe file.path.stem (check_recipe file)
    rest ← check_recipes files
    pure (first ++ rest)

-- `set(locks) <= used`
abbrev pub all_used : Dict Locked → List String → Bool
all_used [] used = true
all_used ((k, lock) ∷ locks) used = is_in k used && all_used locks used

abbrev pub nothing_seen : Seen
nothing_seen = record { locks = []; images = [] }

-- `validate_repository`
unfoldable pub validate_repository : Python → Tree → Check (ℕ × ℕ)
validate_repository python tree = do
  require tree.has_mods "root"
  require (is_nonempty tree.manifests) "root"
  check_entries tree.entries
  seen ← add_manifests python tree.manifests nothing_seen
  let recipes = recipes_in tree.files
  require (is_nonempty recipes) "root"
  used ← check_recipes python seen.locks recipes
  require (all_used seen.locks used) "mods"
  pure (length seen.locks, length recipes)

-- How the program ends: with 0; with 1 and a message; or with the traceback of an error
pub data Ended : Type 0 where
  verified : ℕ → ℕ → Ended
  refused : Ended
  traceback : Error → Ended

abbrev pub ended : Outcome Error (ℕ × ℕ) → Ended
ended (ok (locks, recipes)) = verified locks recipes
ended (raised (invalid _)) = refused
ended (raised os_error) = refused
ended (raised e) = traceback e

-- `main`, of the root that the arguments name
unfoldable pub main : Python → Tree → Ended
main python tree = ended (validate_repository python tree tt).0
