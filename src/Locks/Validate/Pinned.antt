-- ===== src/Locks/Validate/Pinned.antt =====
-- validate_locks.py: what a lock that `validate_lock` lets pass pins.
use home_lab.Prelude.{◌≡◌, refl, ap, subst, ◌∙◌, String, true, false, not, All, arith}
use home_lab.Program.{◌>>=◌, ◌>>◌, pure}
use home_lab.Json.{Json, str, obj, Fields, get, has}
use home_lab.Locks.Checks.{Check, Python, at, is_in, run_all, path_value, hash_value, digest, image}
use home_lab.Locks.Checks.Passes.{When, Passes, Gives, Gives-bind, Gives-at, Passes-run_all}
use home_lab.Locks.Checks.Pins.{IsPin, hash_value_iff}
use home_lab.Locks.Checks.Paths.{IsPlain, path_value-IsPlain}
use home_lab.Locks.Checks.Digests.{IsDigest, IsImage, digest-IsDigest, image-IsImage}
use home_lab.Locks.Dockerfile.{Mod, validate_dockerfile}
use home_lab.Locks.Engines.{fields_of}
use home_lab.Locks.Lock.{
  Kind, glm, qwen_tp1, qwen_tp2, deepseek, readiness, is_readiness, names_of_kind, shape,
  some_fields,
}
use home_lab.Locks.Lock.Shapes.{
  EachField, some_fields-EachField, map-EachField, shape-fields, shape-names, with_at-Passes,
  with_any-Passes,
}
use home_lab.Locks.Validate.{
  check_mod_file, check_mod_files, common_checks, image_checks, engine_checks, check_engine,
  check_rest, check_shaped, validate_lock,
}

-- The checksum of a file below the mod's directory
abbrev pub IsChecksum : String → Json → Type 0
IsChecksum name pin = IsPlain (str name) × IsPin 64 pin

-- The files of a lock, each with its checksum
abbrev pub HasFiles : Fields → Type 0
HasFiles lock = (files : Fields) × (get lock "mod_files" ≡ obj files) × EachField IsChecksum files

-- The image of the kinds that are pulled from a registry
abbrev pub HasImage : Kind → Fields → Type 0
HasImage glm lock = IsImage (get lock "image")
HasImage qwen_tp2 lock = IsImage (get lock "image")
HasImage _ lock = Unit

-- The engine of a lock that has one: its revision, the image's identifier, and the image
abbrev pub HasEngine : Kind → Fields → Type 0
HasEngine kind lock =
    When (not (is_readiness kind))
      (IsPin 40 (get lock "engine_revision") × IsDigest (get lock "image_id") × HasImage kind lock)

abbrev pub IsPinned : Fields → Kind → Type 0
IsPinned lock kind = HasFiles lock × HasEngine kind lock

revision_named :
    (kind : Kind) → is_readiness kind ≡ false → is_in "engine_revision" (names_of_kind kind) ≡ true
revision_named glm e = refl
revision_named qwen_tp1 e = refl
revision_named qwen_tp2 e = refl
revision_named deepseek e = refl
revision_named readiness e = ground (arith, e)

module _ (python : Python) where
  check_mod_file-IsChecksum :
      (name : String) (pin : Json) → Passes (check_mod_file python name pin) → IsChecksum name pin
  check_mod_file-IsChecksum name pin p =
      let both =
        Gives-bind (path_value python (str name) "mod_files") (λ _. hash_value pin 64 "mod_files")
          tt p in
      (
        path_value-IsPlain python (str name) "mod_files" both.first,
        (hash_value_iff pin 64 "mod_files").0 both.second,
      )

  check_mod_files-HasFiles :
      (lock files : Fields) → Gives (check_mod_files python lock) files → HasFiles lock
  unfolding check_mod_files
  check_mod_files-HasFiles lock files p =
      let each : Json → Check (Unit {0}) = some_fields "mod_files" (check_mod_file python) in
      let both =
        Gives-bind (at (obj lock) "mod_files") (λ v. each v >>= λ _. fields_of v) files p in
      let checked = Gives-bind (each both.value) (λ _. fields_of both.value) files both.second in
      let found =
        some_fields-EachField "mod_files" (check_mod_file python) both.value checked.first in
      (
        found.0,
        (Gives-at lock "mod_files" both.value both.first).1 ∙ found.1,
        map-EachField check_mod_file-IsChecksum found.0 found.2,
      )

  image_checks-HasImage :
      (kind : Kind) (lock : Fields) → All Passes (image_checks kind lock) → HasImage kind lock
  image_checks-HasImage glm lock h =
      image-IsImage (get lock "image") "image"
        (with_at-Passes lock "image" (λ v. image v "image") h.0)
  image_checks-HasImage qwen_tp2 lock h =
      image-IsImage (get lock "image") "image"
        (with_at-Passes lock "image" (λ v. image v "image") h.0)
  image_checks-HasImage qwen_tp1 lock h = tt
  image_checks-HasImage deepseek lock h = tt
  image_checks-HasImage readiness lock h = tt

  check_engine-HasEngine :
      (kind : Kind) (mod_dir : Mod) (lock files : Fields)
      → has lock "engine_revision" ≡ true
      → Passes (check_engine python kind mod_dir lock files)
      → IsPin 40 (get lock "engine_revision") × IsDigest (get lock "image_id") × HasImage kind lock
  unfolding check_engine
  check_engine-HasEngine kind mod_dir lock files e p =
      let last : Check (Unit {0}) = validate_dockerfile python lock mod_dir in
      let third : Check (Unit {0}) =
        run_all (engine_checks python kind mod_dir lock files) >> last in
      let second : Check (Unit {0}) = run_all (image_checks kind lock) >> third in
      let first = Gives-bind (run_all (common_checks python lock)) (λ _. second) tt p in
      let images = Gives-bind (run_all (image_checks kind lock)) (λ _. third) tt first.second in
      let common = Passes-run_all (common_checks python lock) first.first in
      (
        (hash_value_iff (get lock "engine_revision") 40 "engine_revision").0 (
            with_any-Passes lock "engine_revision" (λ v. hash_value v 40 "engine_revision")
              common.1.0 e),
        digest-IsDigest (get lock "image_id") "image_id"
            (with_at-Passes lock "image_id" (λ v. digest v "image_id") common.1.1.1.1.1.1.1.0),
        image_checks-HasImage kind lock (Passes-run_all (image_checks kind lock) images.first),
      )

  check_rest-HasEngine :
      (kind : Kind) (mod_dir : Mod) (lock files : Fields)
      → (is_readiness kind ≡ false → has lock "engine_revision" ≡ true)
      → Passes (check_rest python kind mod_dir lock files)
      → HasEngine kind lock
  check_rest-HasEngine readiness mod_dir lock files h p = tt
  check_rest-HasEngine glm mod_dir lock files h p =
      check_engine-HasEngine glm mod_dir lock files (h refl) p
  check_rest-HasEngine qwen_tp1 mod_dir lock files h p =
      check_engine-HasEngine qwen_tp1 mod_dir lock files (h refl) p
  check_rest-HasEngine qwen_tp2 mod_dir lock files h p =
      check_engine-HasEngine qwen_tp2 mod_dir lock files (h refl) p
  check_rest-HasEngine deepseek mod_dir lock files h p =
      check_engine-HasEngine deepseek mod_dir lock files (h refl) p

  check_shaped-IsPinned :
      (mod_dir : Mod) (d lock : Fields) (k kind : Kind)
      → (is_readiness k ≡ false → has d "engine_revision" ≡ true)
      → Gives (check_shaped python mod_dir (d, k)) (lock, kind)
      → IsPinned d k × (d ≡ lock) × (k ≡ kind)
  check_shaped-IsPinned mod_dir d lock k kind h p =
      let rest : Fields → Check (Fields × Kind) =
        λ files. check_rest python k mod_dir d files >>= λ _. pure (d, k) in
      let first = Gives-bind (check_mod_files python d) rest (lock, kind) p in
      let both =
        Gives-bind (check_rest python k mod_dir d first.value) (λ _. pure (d, k)) (lock, kind)
          first.second in
      (
        (
          check_mod_files-HasFiles d first.value first.first,
          check_rest-HasEngine k mod_dir d first.value h both.first,
        ),
        ground (arith, both.second),
        ground (arith, both.second),
      )

  -- A lock that `validate_lock` lets pass is the document that was read, and pins what it names: every file of mod_files by a path that does not leave the
  -- directory and a sha256 that is not zero; and, unless its kind is readiness, the engine by a full
  -- revision, the image's identifier by a digest, and by a digest also the image of the kinds glm
  -- and qwen-tp2.
  pub validate_lock-IsPinned :
      (v : Json) (mod_dir : Mod) (lock : Fields) (kind : Kind)
      → Gives (validate_lock python v mod_dir) (lock, kind)
      → (v ≡ obj lock) × IsPinned lock kind
  unfolding validate_lock
  validate_lock-IsPinned v mod_dir lock kind p =
      let name = mod_dir.name in
      let both = Gives-bind (shape v name) (check_shaped python mod_dir) (lock, kind) p in
      let d = both.value.0 in
      let k = both.value.1 in
      let h : is_readiness k ≡ false → has d "engine_revision" ≡ true =
        λ e. shape-names v name d k both.first "engine_revision" ∙ revision_named k e in
      let found = check_shaped-IsPinned mod_dir d lock k kind h both.second in
      let read : v ≡ obj lock = (shape-fields v name d k both.first).0 ∙ ap obj found.1 in
      let moved : IsPinned lock k = subst (λ f. IsPinned f k) found.1 found.0 in
      (read, subst (IsPinned lock) found.2 moved)
