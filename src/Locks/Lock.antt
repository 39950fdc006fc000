-- ===== src/Locks/Lock.antt =====
-- validate_locks.py: the shapes of locks, `shape` and `validate_lock`. Places are kept without the
-- index or the key of an item.
pub mod Shapes
use Prim.Native.Char.{Char, code}
use home_lab.Prelude.{
  take_chars, after_start, ℕ, zero, suc, String, Bool, true, false, not, ◌&&◌, ◌||◌, Option, none,
  some, List, [], ◌∷◌, ◌++◌, ◌==◌, str_eq, if◌then◌else◌,
}
use home_lab.Program.{Io, pure, raise, raise_if, ◌>>=◌, ◌>>◌}
use home_lab.Json.{
  Json, str, arr, obj, Items, nil, cons, Fields, end, field, list_of, get, has, keys_of,
  is_hashable,
}
use home_lab.Locks.Regex.{Regex, chars, seq, or, many, empty, times, word}
use home_lab.Locks.Checks.{
  Error, invalid, type_error, attribute_error, Check, Python, require, run_all, at, is_in,
  same_names, fields, text, pattern, hex, hash_value, digest, positive, path_value, digits,
  image_name, tag_regex, lower_digits, letters_digits, digit_ranges, name_chars, repository, source,
  last_part, image,
}
use home_lab.Locks.Dockerfile.{Mod, validate_dockerfile}

pub data Kind : Type 0 where
  glm qwen_tp1 qwen_tp2 deepseek readiness : Kind

abbrev pub is_readiness : Kind → Bool
is_readiness readiness = true
is_readiness _ = false

-- COMMON, KIT, QWEN
abbrev pub common_names : List String
common_names = "engine_repository" ∷ "engine_revision" ∷ "image" ∷ "image_id" ∷ "mod_files" ∷ []

abbrev pub kit_names : List String
kit_names = "kit_repository" ∷ "kit_revision" ∷ []

abbrev pub qwen_names : List String
qwen_names = "engine_branch" ∷ "weights" ∷ "server_patches" ∷ "build" ∷ []

-- SHAPES
abbrev pub names_of_kind : Kind → List String
names_of_kind glm =
    common_names
    ++ kit_names
    ++ ("engine_version" ∷ "upstream_patch_count" ∷ "upstream_patch_hash" ∷ "launcher_env"
        ∷ "installed_files" ∷ [])
names_of_kind qwen_tp1 =
    common_names ++ kit_names ++ qwen_names ++ ("kit_patch_count" ∷ "kit_patches_sha256" ∷ [])
names_of_kind qwen_tp2 =
    common_names
    ++ kit_names
    ++ qwen_names
    ++ ("upstream_patch_count" ∷ "upstream_patch_hash" ∷ "site_patches" ∷ "binary_sha256" ∷ [])
names_of_kind deepseek =
    common_names
    ++ ("engine_branch" ∷ "inputs_branch" ∷ "inputs_revision" ∷ "patches" ∷ "kit" ∷ "engram" ∷ [])
names_of_kind readiness = "mod_files" ∷ []

-- GLM_LAUNCHER
abbrev pub glm_launcher : List String
glm_launcher =
    "TENSORFOLD_GLM_REQUEST_IMAGE_TOKENS" ∷ "TENSORFOLD_MEMORY_RESERVE_GIB"
    ∷ "TENSORFOLD_NO_UPDATE_CHECK" ∷ "TENSORFOLD_NUCLEUS_UNION" ∷ "TENSORFOLD_SSE_KEEPALIVE_S"
    ∷ "TENSORFOLD_VISION_WORKSPACE_MIB" ∷ "TF_GLM_CACHE_ENTRIES" ∷ "TF_GLM_CACHE_GIB"
    ∷ "TF_GLM_CACHE_SHARE_PCT" ∷ "TF_GLM_CLEAR_THINKING" ∷ "TF_GLM_COMM" ∷ "TF_GLM_COPY_DRAFTS"
    ∷ "TF_GLM_COPY_MAX" ∷ "TF_GLM_COPY_REPLY_MATCH" ∷ "TF_GLM_DENSE" ∷ "TF_GLM_DFLASH_POLICY"
    ∷ "TF_GLM_DISPLAY_KV_BACKEND" ∷ "TF_GLM_DISPLAY_KV_MIB" ∷ "TF_GLM_EFFORT_TAIL"
    ∷ "TF_GLM_EXL3_DEC_ORDER" ∷ "TF_GLM_EXL3_LOADS" ∷ "TF_GLM_FILL_BUDGET_MS" ∷ "TF_GLM_FILL_DRAFTS"
    ∷ "TF_GLM_FILL_ROWS" ∷ "TF_GLM_HC_SPLIT" ∷ "TF_GLM_KDA_CHUNKED" ∷ "TF_GLM_KEEP_PER_CHAT"
    ∷ "TF_GLM_KEPT_BYTES_GIB" ∷ "TF_GLM_KV" ∷ "TF_GLM_L2PF" ∷ "TF_GLM_MAX_QUEUED" ∷ "TF_GLM_MTP"
    ∷ "TF_GLM_MULTI_LONE" ∷ "TF_GLM_MULTI_PREFILL" ∷ "TF_GLM_MULTI_WINDOW"
    ∷ "TF_GLM_PREFILL_OVERLAP" ∷ "TF_GLM_PREFIX_WAIT" ∷ "TF_GLM_SHARED_PREFIX"
    ∷ "TF_GLM_SPILL_QUOTA" ∷ "TF_GLM_SPILL_TURNS" ∷ "TF_GLM_STREAM_SMOOTH"
    ∷ "TF_GLM_STREAM_SMOOTH_MS" ∷ "TF_GLM_WIDE_GRAPHS" ∷ "TF_ROCE_MAX_KB" ∷ "TF_ROCE_WAIT_S" ∷ []

-- GLM_INSTALLED
abbrev pub glm_installed : List String
glm_installed = "families/glm5_next/cuda/kept_reasoning.py" ∷ "cuda/health.py" ∷ "cuda/http.py" ∷ []

-- READINESS_MODS
abbrev pub is_readiness_mod : String → Bool
is_readiness_mod name = str_eq name "tensorfold-readiness" || str_eq name "tensorfold-readiness-v2"

-- `set(lock) & {...}`
abbrev pub has_any : Fields → List String → Bool
has_any lock [] = false
has_any lock (k ∷ ks) = has lock k || has_any lock ks

abbrev pub kind_of : Fields → String → Check Kind
kind_of lock name =
    if is_readiness_mod name
    then pure readiness
    else if has_any lock ("launcher_env" ∷ "installed_files" ∷ "engine_version" ∷ [])
    then pure glm
    else if has_any lock ("kit" ∷ "engram" ∷ "inputs_revision" ∷ "inputs_branch" ∷ [])
    then pure deepseek
    else if has_any lock ("binary_sha256" ∷ "site_patches" ∷ [])
    then pure qwen_tp2
    else if has_any lock ("weights" ∷ "kit_patch_count" ∷ "kit_patches_sha256" ∷ [])
    then pure qwen_tp1
    else raise (invalid "")

abbrev pub dict_or_invalid : Json → String → Check Fields
dict_or_invalid (obj d) place = pure d
dict_or_invalid _ place = raise (invalid place)

-- `shape`, with the fields of the lock
unfoldable pub shape : Json → String → Check (Fields × Kind)
shape lock name = do
  d ← dict_or_invalid lock "lock"
  kind ← kind_of d name
  fields (obj d) (names_of_kind kind) "kind"
  pure (d, kind)

-- `<check>(d[k])`
abbrev pub with_at : Fields → String → (Json → Check (Unit {0})) → Check (Unit {0})
with_at d k check = at (obj d) k >>= check

-- `if k in d: <check>(d[k])`
abbrev pub with_any : Fields → String → (Json → Check (Unit {0})) → Check (Unit {0})
with_any d k check = if has d k then with_at d k check else pure tt

abbrev pub hash_at : Fields → String → ℕ → Check (Unit {0})
hash_at d k size = with_at d k (λ v. hash_value v size k)

abbrev pub is_nonempty_dict : Json → Bool
is_nonempty_dict (obj (field _ _ _)) = true
is_nonempty_dict _ = false

abbrev pub is_nonempty_list : Json → Bool
is_nonempty_list (arr (cons _ _)) = true
is_nonempty_list _ = false

-- `for name, value in d.items()`
unfoldable pub each_field : (String → Json → Check (Unit {0})) → Fields → Check (Unit {0})
each_field check end = pure tt
each_field check (field k v d) = check k v >>= λ _. each_field check d

unfoldable pub each_item : (Json → Check (Unit {0})) → List Json → Check (Unit {0})
each_item check [] = pure tt
each_item check (v ∷ vs) = check v >>= λ _. each_item check vs

-- A list that is not empty, each item checked
unfoldable pub some_items : String → (Json → Check (Unit {0})) → Json → Check (Unit {0})
some_items place check (arr (cons v vs)) = each_item check (v ∷ list_of vs)
some_items place check _ = raise (invalid place)

-- A dict that is not empty, each field checked
unfoldable pub some_fields : String → (String → Json → Check (Unit {0})) → Json → Check (Unit {0})
some_fields place check (obj (field k v d)) = each_field check (field k v d)
some_fields place check _ = raise (invalid place)
