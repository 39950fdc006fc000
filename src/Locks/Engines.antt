-- ===== src/Locks/Engines.antt =====
-- validate_locks.py, `validate_lock`: the checks of each kind of engine, in the order of the source.
use home_lab.Prelude.{String, Bool, true, false, List, [], ◌∷◌}
use home_lab.Program.{pure, raise, ◌>>=◌, ◌>>◌}
use home_lab.Json.{Json, str, obj, Fields}
use home_lab.Locks.Regex.{Regex, chars, seq, or, many, empty, word}
use home_lab.Locks.Checks.{
  type_error, Check, Python, require, fields, pattern, hash_value, path_value, digits,
  letters_digits, digit_ranges, name_chars,
}
use home_lab.Locks.Lock.{Kind, qwen_tp1, glm_launcher, glm_installed, with_at, each_field}

-- `[0-9]+\.[0-9]+\.[0-9]+`
abbrev pub release : Regex
release = seq digits (seq (word ".") (seq digits (seq (word ".") digits)))

-- `[A-Z_][A-Z0-9_]*`
abbrev pub variable_name : Regex
variable_name =
    seq (chars ((95, 95) ∷ (65, 90) ∷ [])) (many (chars ((95, 95) ∷ (65, 90) ∷ digit_ranges)))

-- `[1-9][0-9]*`
abbrev pub timestamp : Regex
timestamp = seq (chars ((49, 57) ∷ [])) (many (chars digit_ranges))

abbrev pub perhaps : Regex → Regex
perhaps r = or empty r

-- `[A-Za-z0-9]+(?:[._-][A-Za-z0-9]+)*`
abbrev pub local_label : Regex
local_label =
    let piece = seq (chars letters_digits) (many (chars letters_digits)) in
    seq piece (many (seq (chars ((95, 95) ∷ (45, 46) ∷ [])) piece))

-- The version of a package, after "=="
abbrev pub package_version : Regex
package_version = seq (seq digits (many (seq (word ".") digits))) (
    seq (perhaps (seq (or (word "a") (or (word "b") (word "rc"))) digits)) (
      seq (perhaps (seq (word ".post") digits))
        (seq (perhaps (seq (word ".dev") digits)) (perhaps (seq (word "+") local_label)))))

-- The pins of pip packages
abbrev pub package_pin : Regex
package_pin =
    seq (chars letters_digits) (
      seq (perhaps (seq (many name_chars) (chars letters_digits)))
        (seq (word "==") package_version))

-- `v.items()` and `v[k]` of a value that is known to be a dict
abbrev pub fields_of : Json → Check Fields
fields_of (obj d) = pure d
fields_of _ = raise type_error

abbrev pub fields_each : Json → (String → Json → Check (Unit {0})) → Check (Unit {0})
fields_each v check = fields_of v >>= λ d. each_field check d

abbrev pub is_tp1 : Kind → Bool
is_tp1 qwen_tp1 = true
is_tp1 _ = false

abbrev pub is_text : Json → Bool
is_text (str _) = true
is_text _ = false

module _ (python : Python) where
  -- One entry of launcher_env
  abbrev pub check_variable : String → Json → Check (Unit {0})
  check_variable name value = pattern (str name) variable_name "launcher_env" >>= λ _.
      require (is_text value) "launcher_env"

  abbrev pub check_launcher : Json → Check (Unit {0})
  check_launcher env =
      fields env glm_launcher "launcher_env" >>= λ _. fields_each env check_variable

  abbrev pub check_pins : Json → Check (Unit {0})
  check_pins pins = fields_each pins (λ _ pin. hash_value pin 64 "installed_files")

  -- One entry of installed_files
  abbrev pub check_file : String → Json → Check (Unit {0})
  check_file name pins = do
    path_value python (str name) "installed_files"
    fields pins ("upstream_sha256" ∷ "site_sha256" ∷ []) "installed_files"
    check_pins pins

  abbrev pub check_installed : Json → Check (Unit {0})
  check_installed installed =
      fields installed glm_installed "installed_files" >>= λ _. fields_each installed check_file

  abbrev pub glm_checks : Fields → List (Check (Unit {0}))
  glm_checks lock =
      with_at lock "engine_version" (λ v. pattern v release "engine_version")
      ∷ with_at lock "launcher_env" check_launcher
      ∷ with_at lock "installed_files" check_installed
      ∷ []
