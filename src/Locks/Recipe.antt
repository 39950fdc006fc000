-- ===== src/Locks/Recipe.antt =====
-- validate_locks.py: `validate_recipe`, up to the sources of the distribution.
use home_lab.Prelude.{
  String, Bool, true, false, ◌&&◌, ◌||◌, Option, none, some, List, [], ◌∷◌, ◌++◌, length, str_eq,
  if◌then◌else◌,
}
use home_lab.Prelude.Int.{pos}
use home_lab.Prelude.Dict.{Dict}
use home_lab.Program.{pure, raise, ◌>>=◌, ◌>>◌}
use home_lab.Json.{Json, str, int, arr, obj, cons, Fields, end, field, list_of, get, has}
use home_lab.Locks.Checks.{
  invalid, attribute_error, Check, Python, require, at, text, fields, hash_value, repository,
}
use home_lab.Locks.Lock.{
  Kind, glm, qwen_tp1, qwen_tp2, deepseek, is_readiness, is_readiness_mod, with_at,
}

-- A lock with its kind
abbrev pub Locked : Type 0
Locked = Fields × Kind

-- The path of a recipe: its stem, and for what a recipe refers to, from the recipe's directory, the
-- resolved path and the name.
pub record RecipePath : Type 0 where
  pub stem : String
  pub resolve : String → String
  pub name_of : String → String

-- `locks.get(mod)`
unfoldable pub lookup : {V : Type 0} → String → Dict V → Option V
lookup k [] = none
lookup k ((j, v) ∷ d) = if str_eq j k then some v else lookup k d

abbrev pub lock_of : Option Locked → Check Locked
lock_of none = raise (invalid "mods")
lock_of (some lock) = pure lock

abbrev pub only_one : {A : Type 0} → List A → String → Check A
only_one (a ∷ []) place = pure a
only_one _ place = raise (invalid place)

abbrev pub some_list : Json → String → Check (List Json)
some_list (arr (cons v vs)) place = pure (v ∷ list_of vs)
some_list _ place = raise (invalid place)

-- `isinstance(v, dict)`
abbrev pub dict_in : Json → String → Check Fields
dict_in (obj d) place = pure d
dict_in _ place = raise (invalid place)

abbrev pub items_of : Json → List Json
items_of (arr vs) = list_of vs
items_of _ = []

-- `d.get(k, {})` of a value that must have `get`
abbrev pub get_dict : Json → String → Check Json
get_dict (obj d) k = if has d k then pure (get d k) else pure (obj end)
get_dict _ k = raise attribute_error

-- `v.get(k)`
abbrev pub get_of : Json → String → Check Json
get_of (obj d) k = pure (get d k)
get_of _ k = raise attribute_error

-- A repository and a revision
abbrev pub Source : Type 0
Source = Json × Json

module _ (path : RecipePath) where
  -- The names of the readiness mods
  abbrev pub readiness_of : List Json → List String
  readiness_of [] = []
  readiness_of (str ref ∷ refs) =
      let rest = readiness_of refs in
      if is_readiness_mod (path.name_of ref) then path.name_of ref ∷ rest else rest
  readiness_of (_ ∷ refs) = readiness_of refs

  module _ (locks : Dict Locked) where
    -- The mods in order, each in `locks`; those that are not of kind readiness
    unfoldable pub owners_of : Python → List Json → Check (List Locked)
    owners_of python [] = pure []
    owners_of python (str ref ∷ refs) = do
      text python (str ref) "mods"
      lock ← lock_of (lookup (path.resolve ref) locks)
      owners ← owners_of python refs
      pure (if is_readiness lock.1 then owners else lock ∷ owners)
    owners_of python (_ ∷ refs) = raise (invalid "mods")

-- The field of the lock that names the container
abbrev pub container_field : Kind → String
container_field qwen_tp1 = "image_id"
container_field deepseek = "image_id"
container_field _ = "image"

abbrev pub is_deepseek : Kind → Bool
is_deepseek deepseek = true
is_deepseek _ = false

abbrev pub is_glm : Kind → Bool
is_glm glm = true
is_glm _ = false

-- `len(lock["server_patches"]) + len(lock.get("site_patches", []))`
abbrev pub patch_total : Fields → Json
patch_total lock =
    int (pos (length (items_of (get lock "server_patches") ++ items_of (get lock "site_patches"))))

abbrev pub model_source : Fields → Json
model_source recipe =
    obj
      (field "repository" (get recipe "model") (field "revision" (get recipe "model_revision") end))

abbrev pub kit_source : Kind → Fields → Check (List Source)
kit_source deepseek lock = do
  kit ← at (obj lock) "kit"
  name ← at kit "repository"
  revision ← at kit "revision"
  pure ((name, revision) ∷ [])
kit_source _ lock = pure []

abbrev pub entry_source : Json → Check Source
entry_source entry = do
  fields entry ("name" ∷ "revision" ∷ "target" ∷ []) "distribution entry"
  name ← at entry "name"
  repository name "distribution entry.name"
  revision ← at entry "revision"
  hash_value revision 40 "distribution entry.revision"
  pure (name, revision)

unfoldable pub sources_of : List Json → Check (List Source)
sources_of [] = pure []
sources_of (entry ∷ entries) = do
  first ← entry_source entry
  rest ← sources_of entries
  pure (first ∷ rest)

module _ (python : Python) where
  -- `equal`
  abbrev pub equal : Json → Json → String → Check (Unit {0})
  equal actual expected place = require (python.equal actual expected) place

  abbrev pub is_text_field : Fields → String → String → Bool
  is_text_field recipe k value = python.equal (get recipe k) (str value)

  abbrev pub check_header : Json → Check Fields
  check_header (obj recipe) = do
    require
        (is_text_field recipe "runtime" "tensorfold" && is_text_field recipe "recipe_version" "2")
        "recipe"
    pure recipe
  check_header _ = raise (invalid "recipe")

  -- `if k in lock: equal(metadata.get(k), lock[k], ...)`
  abbrev pub same_field : Fields → Fields → String → Check (Unit {0})
  same_field metadata lock k = if has lock k then equal (get metadata k) (get lock k) k else pure tt

  abbrev pub tp1_count : Kind → Fields → Fields → Check (Unit {0})
  tp1_count qwen_tp1 metadata lock =
      with_at lock "kit_patch_count"
        (λ v. equal (get metadata "upstream_patch_count") v "upstream_patch_count")
  tp1_count _ metadata lock = pure tt

  abbrev pub check_qwen : Fields → Fields → Fields → Check (Unit {0})
  check_qwen recipe metadata lock = do
    equal (get metadata "server_patch_count") (patch_total lock) "metadata.server_patch_count"
    with_at lock "weights" (λ v. equal (model_source recipe) v "model/weights")

  abbrev pub qwen_agrees : Kind → Fields → Fields → Fields → Check (Unit {0})
  qwen_agrees qwen_tp1 recipe metadata lock = check_qwen recipe metadata lock
  qwen_agrees qwen_tp2 recipe metadata lock = check_qwen recipe metadata lock
  qwen_agrees _ recipe metadata lock = pure tt

  abbrev pub check_image_field : Kind → Fields → Fields → Check (Unit {0})
  check_image_field kind metadata lock =
      if is_deepseek kind || has metadata "image"
      then with_at lock "image" (λ v. equal (get metadata "image") v "metadata.image")
      else pure tt

  -- From the profile to the target's revision
  abbrev pub agreement_checks : String → Locked → Fields → Fields → List (Check (Unit {0}))
  agreement_checks stem (lock, kind) recipe metadata =
      equal (get metadata "profile") (str stem) "metadata.profile"
      ∷ with_at lock (container_field kind) (λ v. equal (get recipe "container") v "container")
      ∷ same_field metadata lock "engine_revision"
      ∷ same_field metadata lock "kit_revision"
      ∷ same_field metadata lock "upstream_patch_count"
      ∷ same_field metadata lock "upstream_patch_hash"
      ∷ tp1_count kind metadata lock
      ∷ qwen_agrees kind recipe metadata lock
      ∷ check_image_field kind metadata lock
      ∷ repository (get recipe "model") "model"
      ∷ hash_value (get recipe "model_revision") 40 "model_revision"
      ∷ equal (get metadata "target_model_revision") (get recipe "model_revision") "metadata"
      ∷ []

  abbrev pub check_drafter : Fields → Fields → Check (List Source)
  check_drafter metadata defaults = do
    repository (get defaults "drafter") "defaults.drafter"
    hash_value (get defaults "drafter_revision") 40 "defaults.drafter_revision"
    equal (get metadata "draft_model_revision") (get defaults "drafter_revision") "metadata"
    pure ((get defaults "drafter", get defaults "drafter_revision") ∷ [])

  abbrev pub drafter_source : Kind → Fields → Fields → Check (List Source)
  drafter_source kind metadata defaults =
      if is_glm kind || has defaults "drafter" || has metadata "draft_model_revision"
      then check_drafter metadata defaults
      else pure []

  -- `expected_sources`
  unfoldable pub expected_sources : Locked → Fields → Fields → Fields → Check (List Source)
  expected_sources (lock, kind) recipe metadata defaults = do
    kit ← kit_source kind lock
    drafter ← drafter_source kind metadata defaults
    pure ((get recipe "model", get recipe "model_revision") ∷ kit ++ drafter)

  abbrev pub is_source_in : Source → List Source → Bool
  is_source_in s [] = false
  is_source_in s (t ∷ ts) = (python.equal t.0 s.0 && python.equal t.1 s.1) || is_source_in s ts

  abbrev pub all_sources_in : List Source → List Source → Bool
  all_sources_in [] ts = true
  all_sources_in (s ∷ ss) ts = is_source_in s ts && all_sources_in ss ts

  -- Equality of two sets of sources
  abbrev pub same_sources : List Source → List Source → Bool
  same_sources ss ts = all_sources_in ss ts && all_sources_in ts ss

  -- The entries of the distribution name the expected sources.
  unfoldable pub check_sources : Locked → Fields → Fields → Fields → Check (Unit {0})
  check_sources locked recipe metadata defaults = do
    expected ← expected_sources locked recipe metadata defaults
    config ← get_dict (obj recipe) "distribution_config"
    models ← get_dict config "models"
    entries ← get_of models "entries"
    distribution ← some_list entries "distribution_config.models.entries"
    sources ← sources_of distribution
    require (same_sources sources expected) "distribution sources"
