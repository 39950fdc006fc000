-- ===== src/Locks/Deepseek.antt =====
-- validate_locks.py, `validate_lock`: the checks of a lock of kind deepseek.
use home_lab.Prelude.{
  joined, take_chars, after_start, ℕ, String, Bool, true, false, ◌&&◌, Option, none, some, List, [],
  ◌∷◌, str_eq, if◌then◌else◌,
}
use home_lab.Program.{pure, raise, ◌>>=◌, ◌>>◌}
use home_lab.Json.{Json, str, obj, Fields, end, field, keys_of, is_hashable}
use home_lab.Locks.Checks.{
  invalid, type_error, attribute_error, Check, Python, require, at, same_names, text, hash_value,
  path_value, source, last_part,
}
use home_lab.Locks.Documents.{read_json, sorted}
use home_lab.Locks.Dockerfile.{Mod}
use home_lab.Locks.Lock.{with_at, each_field}
use home_lab.Locks.Engines.{fields_of}
use home_lab.Locks.Qwen.{first_seven}

-- `d.values()`
abbrev pub listed : Fields → List Json
listed end = []
listed (field _ v d) = v ∷ listed d

-- `v.values()`
abbrev pub values_of : Json → Check (List Json)
values_of (obj d) = pure (listed d)
values_of _ = raise attribute_error

abbrev pub all_hashable : List Json → Bool
all_hashable [] = true
all_hashable (v ∷ vs) = is_hashable v && all_hashable vs

-- `set(vs)`
abbrev pub set_of : List Json → Check (List Json)
set_of vs = if all_hashable vs then pure vs else raise type_error

-- The texts of a set, if it has nothing else
abbrev pub texts_of : List Json → Option (List String)
texts_of [] = some []
texts_of (str s ∷ vs) = elim (texts_of vs) [ none ↦ none | some ss ↦ some (s ∷ ss) ]
texts_of (_ ∷ vs) = none

-- `isinstance(blobs, dict) and set(blobs) == {"config.json", *shards}`
abbrev pub covers : Json → Option (List String) → Bool
covers (obj d) (some shards) = same_names (keys_of d) ("config.json" ∷ shards)
covers _ _ = false

abbrev pub starts_with_patches : String → Bool
starts_with_patches name = elim (after_start "patches/" name) [ none ↦ false | some _ ↦ true ]

-- `{name for name in files if name.startswith("patches/")}`
abbrev pub frozen_patches : List String → List String
frozen_patches [] = []
frozen_patches (name ∷ names) =
    let rest = frozen_patches names in if starts_with_patches name then name ∷ rest else rest

abbrev pub size_of_blob : String → ℕ
size_of_blob name = if str_eq name "config.json" then 40 else 64

-- The tag: both revisions and the hash of the patches
abbrev pub expected_tag : Json → Json → String → String
expected_tag engine inputs patch_hash =
    joined (first_seven engine) (joined "-" (joined (first_seven inputs) (joined "-" patch_hash)))

abbrev pub is_text_of : Json → String → Bool
is_text_of (str s) t = str_eq s t
is_text_of _ t = false

module _ (python : Python) (mod_dir : Mod) where
  -- `lock["kit"]`
  abbrev pub check_kit : Json → Check (Unit {0})
  check_kit kit = do
    source kit "kit" ("bias_vl_sha256" ∷ [])
    pin ← at kit "bias_vl_sha256"
    hash_value pin 64 "kit.bias_vl_sha256"

  -- `set(index["weight_map"].values())`
  abbrev pub read_shards : Check (List Json)
  read_shards = do
    index ← read_json python mod_dir.index_text
    weight_map ← at index "weight_map"
    values ← values_of weight_map
    set_of values

  abbrev pub check_blob : String → Json → Check (Unit {0})
  check_blob name pin = do
    path_value python (str name) "engram.files"
    hash_value pin (size_of_blob name) "engram.files"

  -- `lock["engram"]`
  abbrev pub check_engram : Json → Check (Unit {0})
  check_engram engram = do
    source engram "engram" ("files" ∷ [])
    blobs ← at engram "files"
    shards ← read_shards
    require (covers blobs (texts_of shards)) "engram.files"
    pins ← fields_of blobs
    each_field check_blob pins

  abbrev pub describe : String → Json → Check (Unit {0})
  describe name description = text python description "patches"

  -- `lock["patches"]`
  abbrev pub check_patches : Fields → Json → Check (Unit {0})
  check_patches files (obj (field k v d)) = do
    require (same_names (keys_of (field k v d)) (frozen_patches (keys_of files))) "patches"
    each_field describe (field k v d)
  check_patches files _ = raise (invalid "patches")

  -- `(mod / name).read_bytes() for name in names`
  abbrev pub read_all : List String → Check (List String)
  read_all [] = pure []
  read_all (name ∷ names) = do
    first ← mod_dir.bytes_of name
    rest ← read_all names
    pure (first ∷ rest)

  abbrev pub check_patch_hash : Fields → Json → Check (Unit {0})
  check_patch_hash lock patches = do
    d ← fields_of patches
    contents ← read_all (sorted (keys_of d))
    engine ← at (obj lock) "engine_revision"
    inputs ← at (obj lock) "inputs_revision"
    reference ← at (obj lock) "image"
    tag ← last_part 58 reference
    require (is_text_of tag (expected_tag engine inputs (take_chars 12 (python.sha256 contents))))
        "image"

  abbrev pub deepseek_checks : Fields → Fields → List (Check (Unit {0}))
  deepseek_checks lock files =
      with_at lock "kit" check_kit
      ∷ with_at lock "engram" check_engram
      ∷ with_at lock "patches" (check_patches files)
      ∷ with_at lock "patches" (check_patch_hash lock)
      ∷ []
