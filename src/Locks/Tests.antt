-- ===== src/Locks/Tests.antt =====
-- validate_locks.py: the theorems at concrete inputs.
use home_lab.Prelude.{
  ◌≡◌, ◌↔◌, refl, sym, ap, All, In, str_eq_iff, arith, inl, inr, joined, String, true, [], ◌∷◌,
}
use home_lab.Program.{pure, raised}
use home_lab.Json.{str, obj, get}
use home_lab.Locks.Regex.{fullmatch, accepts, after, followed, either}
use home_lab.Prelude.Dict.{put}
use home_lab.Locks.Checks.{
  invalid, run_all, hash_value, path_value, is_normal_path, split_slashes, join_slashes, path_parts,
  digest, source, image, after_last,
}
use home_lab.Locks.Checks.Passes.{Passes, Gives}
use home_lab.Locks.Checks.Pins.{IsPin, hash_value_iff}
use home_lab.Locks.Checks.Paths.{IsPlain, path_value-IsPlain}
use home_lab.Locks.Dockerfile.{validate_dockerfile, read_lines, from_line, arg_line}
use home_lab.Locks.Dockerfile.Bases.{AreBased, validate_dockerfile-IsBased}
use home_lab.Locks.Lock.{qwen_tp1, readiness, shape, some_fields, some_items, each_field, each_item}
use home_lab.Locks.Validate.{validate_lock, check_mod_files, check_engine}
use home_lab.Locks.Documents.{read_json}
use home_lab.Locks.Recipe.{Locked, lookup, owners_of, expected_sources, sources_of, check_sources}
use home_lab.Locks.Gates.{
  check_parts, check_mods, split_hooks, value_after, same_env, check_env, check_flag, check_gate,
  check_owned, validate_recipe,
}
use home_lab.Locks.Gates.Agreement.{HasOwner, validate_recipe-HasOwner}
use home_lab.Locks.Repository.{
  RecipeFile, Seen, nothing_seen, is_recipe, check_entries, add_manifests, add_manifest,
  check_recipes, check_recipe, validate_repository,
}
use home_lab.Locks.Repository.Loops.{IsAccepted}
use home_lab.Locks.Repository.Images.{validate_repository-images}
use home_lab.Locks.Repository.Recorded.{EqualTexts}
use home_lab.Locks.Repository.Owners.{IsUsedBy, validate_repository-owners}
use home_lab.Locks.Validate.Pinned.{IsPinned, validate_lock-IsPinned}
use home_lab.Locks.Samples.{
  repeated, revision, base_image, lock, ready_lock, words_of, engine_mod, ready_mod, recipe, python,
  recipe_path, engine, copy, tree, locks,
}

accepts_engine : Gives (validate_lock python (obj lock) engine_mod) (lock, qwen_tp1)
unfolding validate_lock shape check_mod_files check_engine run_all some_fields some_items each_field
    each_item path_value is_normal_path split_slashes join_slashes path_parts hash_value digest
    source image fullmatch accepts after followed either after_last validate_dockerfile read_lines
    from_line arg_line
accepts_engine = refl

accepts_tree : Gives (validate_repository python tree) (3, 2)
unfolding validate_repository check_entries add_manifests add_manifest read_json check_recipes
    check_recipe put lookup validate_recipe check_parts check_mods owners_of expected_sources
    sources_of check_sources split_hooks value_after same_env check_env check_flag check_gate
    check_owned validate_lock shape check_mod_files check_engine run_all some_fields some_items
    each_field each_item path_value is_normal_path split_slashes join_slashes path_parts hash_value
    digest source image fullmatch accepts after followed either after_last validate_dockerfile
    read_lines from_line arg_line
accepts_tree = refl

accepts_recipe :
    Gives
      (validate_recipe python (obj recipe) recipe_path locks)
      (str "mods/qwen" ∷ str "mods/tensorfold-readiness-v2" ∷ [])
unfolding lookup validate_recipe check_parts check_mods owners_of expected_sources sources_of
    check_sources split_hooks value_after same_env check_env check_flag check_gate check_owned
    run_all hash_value fullmatch accepts after followed either
accepts_recipe = refl

accepts_ready : Gives (validate_lock python (obj ready_lock) ready_mod) (ready_lock, readiness)
unfolding validate_lock shape check_mod_files run_all some_fields each_field path_value
    is_normal_path split_slashes join_slashes path_parts hash_value fullmatch accepts after followed
    either
accepts_ready = refl

accepts_dockerfile : Passes (validate_dockerfile python lock engine_mod)
unfolding validate_dockerfile read_lines from_line arg_line image digest after_last hash_value
    fullmatch accepts after followed either
accepts_dockerfile = refl

accepts_path : Passes (path_value python (str "src/main.zig") "paths")
unfolding path_value is_normal_path split_slashes join_slashes path_parts
accepts_path = refl

-- Twelve zeros are no pin.
rejects_zero : hash_value (str (repeated 12 "0")) 12 "pin" tt ≡ (raised (invalid "pin"), tt)
unfolding hash_value fullmatch accepts after followed either
rejects_zero = refl

-- A path that leads upwards
rejects_parent : path_value python (str "../main.zig") "paths" tt ≡ (raised (invalid "paths"), tt)
unfolding path_value is_normal_path split_slashes join_slashes path_parts
rejects_parent = refl

engine-IsAccepted : IsAccepted python engine (lock, qwen_tp1)
unfolding read_json
engine-IsAccepted = (refl, obj lock, refl, accepts_engine)

copy-IsAccepted : IsAccepted python copy (lock, qwen_tp1)
unfolding read_json
copy-IsAccepted = (refl, obj lock, refl, accepts_engine)

-- Texts are equal to themselves alone.
texts_equal : EqualTexts python
texts_equal s (str t) e = ap str (sym ((str_eq_iff s t).0 e))
texts_equal s _ e = ground (arith, e)

hash_value_iff_example : Passes (hash_value revision 40 "revision") ↔ IsPin 40 revision
hash_value_iff_example = hash_value_iff revision 40 "revision"

path_value_example : IsPlain (str "src/main.zig")
path_value_example = path_value-IsPlain python (str "src/main.zig") "paths" accepts_path

validate_lock_example : (obj lock ≡ obj lock) × IsPinned lock qwen_tp1
validate_lock_example =
    validate_lock-IsPinned python (obj lock) engine_mod lock qwen_tp1 accepts_engine

validate_dockerfile_example :
    (text : String) × Gives (pure (joined "FROM " base_image)) text
    × AreBased python lock (words_of text ∷ [])
validate_dockerfile_example =
    validate_dockerfile-IsBased python lock engine_mod (pure (joined "FROM " base_image)) refl
      accepts_dockerfile

validate_recipe_example :
    HasOwner python
      (obj recipe)
      recipe_path
      locks
      (str "mods/qwen" ∷ str "mods/tensorfold-readiness-v2" ∷ [])
validate_recipe_example =
    validate_recipe-HasOwner python (obj recipe) recipe_path locks
      (str "mods/qwen" ∷ str "mods/tensorfold-readiness-v2" ∷ []) accepts_recipe

images_example : get lock "image_id" ≡ get lock "image_id"
images_example =
    validate_repository-images python texts_equal tree (3, 2) accepts_tree copy engine lock lock
      qwen_tp1 qwen_tp1 (inl refl) (inr (inl refl)) copy-IsAccepted engine-IsAccepted refl refl refl

owners_example :
    (seen : Seen) × Gives (add_manifests python tree.manifests nothing_seen) seen
    × All
        (λ m.
          ((l : Locked) × IsAccepted python m l)
          × ((file : RecipeFile) × In file tree.files
              × (is_recipe file ≡ true)
              × IsUsedBy python seen.locks m.resolved file))
        tree.manifests
owners_example = validate_repository-owners python tree (3, 2) accepts_tree
