-- ===== src/Locks/Qwen.antt =====
-- validate_locks.py, `validate_lock`: the checks of the locks of kind qwen-tp1 and qwen-tp2.
use home_lab.Prelude.{joined, take_chars, String, Bool, false, List, [], ◌∷◌, if◌then◌else◌}
use home_lab.Program.{◌>>=◌, ◌>>◌}
use home_lab.Json.{Json, str, obj, Fields, get, has}
use home_lab.Locks.Regex.{seq, times, word}
use home_lab.Locks.Checks.{
  Check, Python, require, run_all, at, fields, text, pattern, hex, hash_value, digest, positive,
  path_value, repository, source, last_part, image,
}
use home_lab.Locks.Lock.{Kind, with_at, hash_at, some_items}
use home_lab.Locks.Engines.{release, timestamp, package_pin, fields_of, is_tp1}

-- `patch["file"] in files`, of a text
abbrev pub stands_in : Fields → Json → Bool
stands_in files (str s) = has files s
stands_in files _ = false

abbrev pub build_names : Kind → List String
build_names kind =
    "base_image"
    ∷ "zig_version"
    ∷ "zig_sha256"
    ∷ "zig_cpu"
    ∷ (if is_tp1 kind
        then "kernel_source_mtime" ∷ "pip_packages" ∷ []
        else "kit_patches_sha256" ∷ "fatbin_layer" ∷ "published_binary_sha256" ∷ [])

abbrev pub first_seven : Json → String
first_seven (str s) = take_chars 7 s
first_seven _ = ""

-- The tag of the image: the kit's revision and an identifier
abbrev pub check_tag : Fields → Json → Check (Unit {0})
check_tag lock reference = do
  tag ← last_part 58 reference
  revision ← at (obj lock) "kit_revision"
  pattern tag (seq (word (joined (first_seven revision) "-")) (times 12 hex)) "image"
  identifier ← last_part 45 tag
  hash_value identifier 12 "image patch identifier"

abbrev pub mtime_and_packages : Fields → List (Check (Unit {0}))
mtime_and_packages build =
    with_at build "kernel_source_mtime" (λ v. pattern v timestamp "build.kernel_source_mtime")
    ∷ with_at build "pip_packages"
        (some_items "build.pip_packages" (λ v. pattern v package_pin "build.pip_packages"))
    ∷ []

abbrev pub tp1_checks : Fields → List (Check (Unit {0}))
tp1_checks lock =
    with_at lock "kit_patch_count" (λ v. positive v "kit_patch_count")
    ∷ hash_at lock "kit_patches_sha256" 64
    ∷ with_at lock "build" (λ v. fields_of v >>= λ build. run_all (mtime_and_packages build))
    ∷ with_at lock "image" (check_tag lock)
    ∷ []

abbrev pub published_checks : Fields → List (Check (Unit {0}))
published_checks build =
    hash_at build "kit_patches_sha256" 64
    ∷ hash_at build "published_binary_sha256" 64
    ∷ with_at build "fatbin_layer" (λ v. digest v "build.fatbin_layer")
    ∷ []

module _ (python : Python) where
  abbrev pub patch_checks : Fields → Fields → List (Check (Unit {0}))
  patch_checks files patch =
      with_at patch "file" (λ v. path_value python v "server_patches.file")
      ∷ with_at patch "file" (λ v. require (stands_in files v) "server_patches")
      ∷ with_at patch "repository" (λ v. repository v "server_patches.repository")
      ∷ hash_at patch "base" 40
      ∷ hash_at patch "commit" 40
      ∷ with_at patch "paths" (some_items "server_patches.paths" (λ v. path_value python v "paths"))
      ∷ []

  -- One of server_patches
  abbrev pub check_patch : Fields → Json → Check (Unit {0})
  check_patch files v = do
    fields v ("file" ∷ "repository" ∷ "base" ∷ "commit" ∷ "paths" ∷ []) "server_patches"
    patch ← fields_of v
    run_all (patch_checks files patch)

  abbrev pub build_checks : Fields → List (Check (Unit {0}))
  build_checks build =
      with_at build "base_image" (λ v. image v "build.base_image")
      ∷ hash_at build "zig_sha256" 64
      ∷ with_at build "zig_version" (λ v. pattern v release "build.zig_version")
      ∷ with_at build "zig_cpu" (λ v. text python v "build.zig_cpu")
      ∷ []

  abbrev pub check_build : Kind → Json → Check (Unit {0})
  check_build kind v = do
    fields v (build_names kind) "build"
    build ← fields_of v
    run_all (build_checks build)

  abbrev pub qwen_checks : Kind → Fields → Fields → List (Check (Unit {0}))
  qwen_checks kind lock files =
      with_at lock "weights" (λ v. source v "weights" [])
      ∷ with_at lock "server_patches" (some_items "server_patches" (check_patch files))
      ∷ with_at lock "build" (check_build kind)
      ∷ []

  -- `files.get(patch["file"]) == patch["sha256"]`, of a text
  abbrev pub has_hash : Fields → Json → Json → Bool
  has_hash files (str name) pin = python.equal (get files name) pin
  has_hash files _ pin = false

  abbrev pub site_patch_checks : Fields → Fields → List (Check (Unit {0}))
  site_patch_checks files patch =
      with_at patch "file" (λ v. path_value python v "site_patches.file")
      ∷ with_at patch "fixes" (λ v. text python v "site_patches.fixes")
      ∷ with_at patch "source" (λ v. text python v "site_patches.source")
      ∷ with_at patch "author" (λ v. text python v "site_patches.author")
      ∷ with_at patch "license" (λ v. text python v "site_patches.license")
      ∷ hash_at patch "sha256" 64
      ∷ with_at patch "file"
          (λ v. with_at patch "sha256" (λ pin. require (has_hash files v pin) "site_patches"))
      ∷ []

  -- One of site_patches
  abbrev pub check_site_patch : Fields → Json → Check (Unit {0})
  check_site_patch files v = do
    fields v ("file" ∷ "fixes" ∷ "source" ∷ "author" ∷ "license" ∷ "sha256" ∷ []) "site_patches"
    patch ← fields_of v
    run_all (site_patch_checks files patch)

  abbrev pub tp2_checks : Fields → Fields → List (Check (Unit {0}))
  tp2_checks lock files =
      with_at lock "build" (λ v. fields_of v >>= λ build. run_all (published_checks build))
      ∷ hash_at lock "binary_sha256" 64
      ∷ with_at lock "site_patches" (some_items "site_patches" (check_site_patch files))
      ∷ []
