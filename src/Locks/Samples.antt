-- ===== src/Locks/Samples.antt =====
-- validate_locks.py: a root with one engine in two directories, its readiness mod and two recipes.
use Prim.Native.Char.{code}
use home_lab.Prelude.{
  ℕ, zero, suc, joined, String, Bool, true, false, ◌&&◌, Option, none, some, List, [], ◌∷◌, ◌==◌,
  drop_chars, bool_eq, str_eq, if◌then◌else◌,
}
use home_lab.Prelude.Int.{pos}
use home_lab.Program.{pure}
use home_lab.Json.{Json, null, bool, int, str, arr, obj, nil, cons, Fields, end, field}
use home_lab.Prelude.Dict.{Dict}
use home_lab.Locks.Checks.{Python}
use home_lab.Locks.Dockerfile.{Mod}
use home_lab.Locks.Lock.{qwen_tp1, readiness}
use home_lab.Locks.Recipe.{Locked, RecipePath}
use home_lab.Locks.Repository.{Manifest, Tree}

-- Repeated characters
abbrev pub repeated : ℕ → String → String
repeated zero s = ""
repeated (suc n) s = joined s (repeated n s)

abbrev pub pin : Json
pin = str (repeated 64 "a")

abbrev pub revision : Json
revision = str (repeated 40 "b")

abbrev pub image_id : Json
image_id = str (joined "sha256:" (repeated 64 "c"))

abbrev reference : Json
reference = str "qwen:bbbbbbb-dddddddddddd"

abbrev pub base_image : String
base_image = joined "debian@sha256:" (repeated 64 "e")

abbrev files : Fields
files = field "patches/one.patch" pin end

abbrev patch : Json
patch = obj (
    field "file" (str "patches/one.patch") (
      field "repository" (str "owner/server") (
        field "base" revision
          (field "commit" revision (field "paths" (arr (cons (str "src/main.zig") nil)) end)))))

abbrev build : Json
build = obj (
    field "base_image" (str base_image) (
      field "zig_version" (str "0.14.1") (
        field "zig_sha256" pin (
          field "zig_cpu" (str "native") (
            field "kernel_source_mtime" (str "1700000000")
              (field "pip_packages" (arr (cons (str "numpy==2.1.0") nil)) end))))))

abbrev weights : Json
weights = obj (field "repository" (str "owner/model") (field "revision" revision end))

abbrev pub lock : Fields
lock = field "engine_repository" (str "owner/engine") (
    field "engine_revision" revision (
      field "image" reference (
        field "image_id" image_id (
          field "mod_files" (obj files) (
            field "kit_repository" (str "owner/kit") (
              field "kit_revision" revision (
                field "engine_branch" (str "main") (
                  field "weights" weights (
                    field "server_patches" (arr (cons patch nil)) (
                      field "build" build (
                        field "kit_patch_count" (int (pos 3))
                          (field "kit_patches_sha256" pin end))))))))))))

abbrev pub ready_lock : Fields
ready_lock = field "mod_files" (obj (field "readiness.py" pin end)) end

abbrev trimmed : String → String
trimmed String.[] = ""
trimmed (String.◌∷◌ c s) = let rest = trimmed s in if code c == 32 then rest else String.◌∷◌ c rest

-- The words between spaces
abbrev add_letter : String → List String → List String
add_letter s [] = s ∷ []
add_letter s (w ∷ words) = joined s w ∷ words

abbrev pub words_of : String → List String
words_of String.[] = "" ∷ []
words_of (String.◌∷◌ c s) =
    let rest = words_of s in if code c == 32 then "" ∷ rest else add_letter (String.◌∷◌ c "") rest

abbrev mutual
  same_json : Json → Json → Bool
  same_json null null = true
  same_json (bool a) (bool b) = bool_eq a b
  same_json (int (pos a)) (int (pos b)) = a == b
  same_json (str a) (str b) = str_eq a b
  same_json (obj d) (obj e) = same_fields d e
  same_json _ _ = false

  same_fields : Fields → Fields → Bool
  same_fields end end = true
  same_fields (field j v d) (field k w e) = str_eq j k && same_json v w && same_fields d e
  same_fields _ _ = false

abbrev document : String → Option Json
document name =
    if str_eq name "engine"
    then some (obj lock)
    else if str_eq name "ready"
    then some (obj ready_lock)
    else none

abbrev pub engine_mod : Mod
engine_mod = record {
  name = "qwen";
  dockerfile = some (pure (joined "FROM " base_image));
  index_text = pure "";
  bytes_of = λ _. pure "";
}

abbrev pub ready_mod : Mod
ready_mod = record {
  name = "tensorfold-readiness-v2";
  dockerfile = none;
  index_text = pure "";
  bytes_of = λ _. pure "";
}

abbrev gate : String
gate = "python3 /opt/tensorfold-readiness/readiness.py --context 8192 --model qwen"

abbrev metadata : Fields
metadata = field "profile" (str "qwen") (
    field "engine_revision" revision (
      field "kit_revision" revision (
        field "upstream_patch_count" (int (pos 3))
          (field "server_patch_count" (int (pos 1)) (field "target_model_revision" revision end)))))

abbrev defaults : Fields
defaults =
    field "entrypoint" (str "/usr/local/bin/tensorfold-entrypoint")
      (field "context" (int (pos 8192)) (field "served_model_name" (str "qwen") end))

abbrev sources : Json
sources = arr (
    cons
      (obj (
        field "name" (str "owner/model")
          (field "revision" revision (field "target" (str "/models") end))))
      nil)

abbrev pub recipe : Fields
recipe = field "runtime" (str "tensorfold") (
    field "recipe_version" (str "2") (
      field "mods" (arr (cons (str "mods/qwen") (cons (str "mods/tensorfold-readiness-v2") nil))) (
        field "metadata" (obj metadata) (
          field "defaults" (obj defaults) (
            field "container" image_id (
              field "model" (str "owner/model") (
                field "model_revision" revision (
                  field "distribution_config"
                    (obj (field "models" (obj (field "entries" sources end)) end))
                    (field "post_exec" (arr (cons (str gate) nil)) end)))))))))

abbrev pub python : Python
python = record {
  strip = trimmed;
  upper = λ s. s;
  equal = same_json;
  text_of = λ _. "8192";
  words_of_lines = λ s. words_of s ∷ [];
  shlex_split = λ s. some (words_of s);
  loads = document;
  safe_load = λ _. some (obj recipe);
  sha256 = λ _. repeated 64 "0";
}

abbrev after_mods : String → String
after_mods s = drop_chars 5 s

abbrev pub recipe_path : RecipePath
recipe_path = record { stem = "qwen"; resolve = λ s. s; name_of = after_mods }

abbrev pub engine : Manifest
engine = record {
  path = "mods/qwen/upstream.lock.json";
  is_direct = true;
  mod_dir = engine_mod;
  resolved = "mods/qwen";
  content = pure "engine";
}

abbrev ready : Manifest
ready = record {
  path = "mods/tensorfold-readiness-v2/upstream.lock.json";
  is_direct = true;
  mod_dir = ready_mod;
  resolved = "mods/tensorfold-readiness-v2";
  content = pure "ready";
}

-- The same engine in another directory, with a recipe of its own
abbrev pub copy : Manifest
copy = record {
  path = "mods/copy/upstream.lock.json";
  is_direct = true;
  mod_dir = engine_mod;
  resolved = "mods/copy";
  content = pure "engine";
}

abbrev copy_path : RecipePath
copy_path = record {
  stem = "qwen";
  resolve = λ s. if str_eq s "mods/qwen" then "mods/copy" else s;
  name_of = after_mods;
}

abbrev pub tree : Tree
tree = record {
  has_mods = true;
  manifests = copy ∷ engine ∷ ready ∷ [];
  entries =
      record { name = "copy"; is_dir = true; has_lock = true }
      ∷ record { name = "qwen"; is_dir = true; has_lock = true }
      ∷ record { name = "tensorfold-readiness-v2"; is_dir = true; has_lock = true }
      ∷ record { name = "__pycache__"; is_dir = true; has_lock = false }
      ∷ [];
  files =
      record { top = "copies"; path = copy_path; content = pure "" }
      ∷ record { top = "benchmarks"; path = copy_path; content = pure "" }
      ∷ record { top = "qwen.yaml"; path = recipe_path; content = pure "" }
      ∷ [];
}

abbrev pub locks : Dict Locked
locks =
    ("mods/qwen", (lock, qwen_tp1)) ∷ ("mods/tensorfold-readiness-v2", (ready_lock, readiness)) ∷ []
