-- ===== src/Locks/Validate.antt =====
-- validate_locks.py: `validate_lock`. The checks that do not depend on the kind of lock come first.
pub mod Pinned
use home_lab.Prelude.{String, Bool, true, false, List, [], ◌∷◌, ◌++◌}
use home_lab.Program.{pure, raise, ◌>>=◌, ◌>>◌}
use home_lab.Json.{Json, str, obj, Fields, has}
use home_lab.Locks.Regex.{Regex, seq, word}
use home_lab.Locks.Checks.{
  Check, Python, run_all, at, text, pattern, hash_value, digest, positive, path_value, image_name,
  tag_regex, repository, image,
}
use home_lab.Locks.Dockerfile.{Mod, validate_dockerfile}
use home_lab.Locks.Lock.{
  Kind, glm, qwen_tp1, qwen_tp2, deepseek, readiness, shape, with_at, with_any, hash_at,
  some_fields,
}
use home_lab.Locks.Engines.{fields_of, glm_checks}
use home_lab.Locks.Qwen.{qwen_checks, tp1_checks, tp2_checks}
use home_lab.Locks.Deepseek.{deepseek_checks}

-- IMAGE_NAME and TAG, without a digest
abbrev pub local_image : Regex
local_image = seq image_name (seq (word ":") tag_regex)

-- The image of a lock: by a digest, or by a local tag
abbrev pub image_checks : Kind → Fields → List (Check (Unit {0}))
image_checks glm lock =
    with_at lock "image" (λ v. image v "image")
    ∷ with_at lock "upstream_patch_count" (λ v. positive v "upstream_patch_count")
    ∷ hash_at lock "upstream_patch_hash" 12
    ∷ []
image_checks qwen_tp2 lock =
    with_at lock "image" (λ v. image v "image")
    ∷ with_at lock "upstream_patch_count" (λ v. positive v "upstream_patch_count")
    ∷ hash_at lock "upstream_patch_hash" 12
    ∷ []
image_checks _ lock = with_at lock "image" (λ v. pattern v local_image "image") ∷ []

module _ (python : Python) where
  -- One of mod_files
  abbrev pub check_mod_file : String → Json → Check (Unit {0})
  check_mod_file name pin =
      path_value python (str name) "mod_files" >> hash_value pin 64 "mod_files"

  abbrev pub common_checks : Fields → List (Check (Unit {0}))
  common_checks lock =
      with_at lock "engine_repository" (λ v. repository v "engine_repository")
      ∷ with_any lock "engine_revision" (λ v. hash_value v 40 "engine_revision")
      ∷ with_any lock "kit_revision" (λ v. hash_value v 40 "kit_revision")
      ∷ with_any lock "inputs_revision" (λ v. hash_value v 40 "inputs_revision")
      ∷ with_any lock "engine_branch" (λ v. text python v "engine_branch")
      ∷ with_any lock "inputs_branch" (λ v. text python v "inputs_branch")
      ∷ with_any lock "kit_repository" (λ v. repository v "kit_repository")
      ∷ with_at lock "image_id" (λ v. digest v "image_id")
      ∷ []

  abbrev pub engine_checks : Kind → Mod → Fields → Fields → List (Check (Unit {0}))
  engine_checks glm mod_dir lock files = glm_checks python lock
  engine_checks qwen_tp1 mod_dir lock files =
      qwen_checks python qwen_tp1 lock files ++ tp1_checks lock
  engine_checks qwen_tp2 mod_dir lock files =
      qwen_checks python qwen_tp2 lock files ++ tp2_checks python lock files
  engine_checks deepseek mod_dir lock files = deepseek_checks python mod_dir lock files
  engine_checks readiness mod_dir lock files = []

  -- What follows mod_files for a lock that is not of kind readiness
  unfoldable pub check_engine : Kind → Mod → Fields → Fields → Check (Unit {0})
  check_engine kind mod_dir lock files = do
    run_all (common_checks lock)
    run_all (image_checks kind lock)
    run_all (engine_checks kind mod_dir lock files)
    validate_dockerfile python lock mod_dir

  unfoldable pub check_mod_files : Fields → Check Fields
  check_mod_files lock = do
    v ← at (obj lock) "mod_files"
    some_fields "mod_files" check_mod_file v
    fields_of v

  abbrev pub check_rest : Kind → Mod → Fields → Fields → Check (Unit {0})
  check_rest readiness mod_dir lock files = pure tt
  check_rest glm mod_dir lock files = check_engine glm mod_dir lock files
  check_rest qwen_tp1 mod_dir lock files = check_engine qwen_tp1 mod_dir lock files
  check_rest qwen_tp2 mod_dir lock files = check_engine qwen_tp2 mod_dir lock files
  check_rest deepseek mod_dir lock files = check_engine deepseek mod_dir lock files

  abbrev pub check_shaped : Mod → (Fields × Kind) → Check (Fields × Kind)
  check_shaped mod_dir (lock, kind) = do
    files ← check_mod_files lock
    check_rest kind mod_dir lock files
    pure (lock, kind)

  -- `validate_lock`, with the fields of the lock
  unfoldable pub validate_lock : Json → Mod → Check (Fields × Kind)
  validate_lock lock mod_dir = shape lock mod_dir.name >>= λ shaped. check_shaped mod_dir shaped
