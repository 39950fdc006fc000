-- ===== src/Locks/Dockerfile.antt =====
-- validate_locks.py: `validate_dockerfile`, and what the checks read of a mod's directory.
pub mod Bases
use Prim.Native.Char.{code}
use home_lab.Prelude.{
  after_start, ℕ, zero, suc, String, Bool, true, false, not, ◌&&◌, ◌||◌, Option, none, some, List,
  [], ◌∷◌, ◌==◌, str_eq, if◌then◌else◌,
}
use home_lab.Program.{pure, raise, raise_if, ◌>>=◌, ◌>>◌}
use home_lab.Json.{Json, str, obj, Fields, has, is_empty}
use home_lab.Locks.Checks.{Check, Python, invalid, require, at, hash_value, image}

-- The directory of a mod: its name; the text of build/Dockerfile, if it exists; the text of engram.index.json; and
-- the bytes of a file, or OSError.
pub record Mod : Type 0 where
  pub name : String
  pub dockerfile : Option (Check String)
  pub index_text : Check String
  pub bytes_of : String → Check String

-- `s.split("=", 1)`: the parts before and after the first "="
abbrev pub before_equals : String → String
before_equals String.[] = ""
before_equals (String.◌∷◌ c s) =
    let rest = before_equals s in if code c == 61 then "" else String.◌∷◌ c rest

module _ (python : Python) (lock : Fields) where
  -- `len(tokens) == 2 or (len(tokens) == 4 and tokens[2].upper() == "AS")`: the base, if it is so
  abbrev pub base_of : List String → Check String
  base_of (_ ∷ base ∷ []) = pure base
  base_of (_ ∷ base ∷ alias ∷ _ ∷ []) =
      if str_eq (python.upper alias) "AS" then pure base else raise (invalid "build/Dockerfile")
  base_of _ = raise (invalid "build/Dockerfile")

  -- `lock["build"]["base_image"]`
  abbrev pub base_image : Check Json
  base_image = at (obj lock) "build" >>= λ build. at build "base_image"

  abbrev pub declared_base : Check Json
  declared_base = require (has lock "build") "build/Dockerfile" >>= λ _. base_image

  -- What a base stands for; none is "scratch".
  abbrev pub resolved : String → Check (Option Json)
  resolved base =
      if str_eq base "scratch"
      then pure none
      else if str_eq base "${BASE_IMAGE}"
      then (declared_base >>= λ v. pure (some v))
      else pure (some (str base))

  abbrev pub add_base : Option Json → List Json → Check (List Json)
  add_base none bases = pure bases
  add_base (some base) bases = image base "build/Dockerfile FROM" >>= λ _. pure (base ∷ bases)

  -- A line that begins with FROM
  unfoldable pub from_line : List String → List Json → Check (List Json)
  from_line tokens bases = do base ← base_of tokens; value ← resolved base; add_base value bases

  abbrev pub check_zig : Option String → Check (Unit {0})
  check_zig none = pure tt
  check_zig (some pin) = hash_value (str pin) 64 "build/Dockerfile ZIG_SHA256"

  -- `equal(tokens[1:], ["BASE_IMAGE"], ...)`
  abbrev pub is_bare : String → List String → Bool
  is_bare first [] = str_eq first "BASE_IMAGE"
  is_bare first (_ ∷ _) = false

  -- A line that begins with ARG
  unfoldable pub arg_line : List String → Check (Unit {0})
  arg_line (_ ∷ first ∷ rest) =
      if str_eq (before_equals first) "BASE_IMAGE"
      then require (is_bare first rest) "build/Dockerfile BASE_IMAGE"
      else check_zig (after_start "ZIG_SHA256=" first)
  arg_line _ = pure tt

  abbrev pub is_word : String → List String → Bool
  is_word w [] = false
  is_word w (first ∷ _) = str_eq (python.upper first) w

  -- The loop over the lines; the bases, the latest first
  unfoldable pub read_lines : List (List String) → List Json → Check (List Json)
  read_lines [] bases = pure bases
  read_lines (tokens ∷ lines) bases =
      if is_word "FROM" tokens
      then (from_line tokens bases >>= λ more. read_lines lines more)
      else if is_word "ARG" tokens
      then (arg_line tokens >>= λ _. read_lines lines bases)
      else read_lines lines bases

  abbrev pub all_equal : List Json → Json → Bool
  all_equal [] v = true
  all_equal (b ∷ bases) v = python.equal b v && all_equal bases v

  abbrev pub is_some_base : List Json → Bool
  is_some_base [] = false
  is_some_base (_ ∷ _) = true

  abbrev pub agree_with_build : List Json → Check (Unit {0})
  agree_with_build bases =
      if has lock "build"
      then (base_image >>= λ v. require (all_equal bases v) "build/Dockerfile")
      else pure tt

  abbrev pub check_bases : List Json → Check (Unit {0})
  check_bases bases =
      require (is_some_base bases) "build/Dockerfile" >>= λ _. agree_with_build bases

  abbrev pub check_dockerfile : Option (Check String) → Check (Unit {0})
  check_dockerfile none = pure tt
  check_dockerfile (some content) =
      content >>= λ text. read_lines (python.words_of_lines text) [] >>= check_bases

  -- `validate_dockerfile`
  unfoldable pub validate_dockerfile : Mod → Check (Unit {0})
  validate_dockerfile mod_dir = check_dockerfile mod_dir.dockerfile
