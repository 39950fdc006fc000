-- ===== src/Healthchecks/Declaration.antt =====
-- healthchecks.py, `load_declaration`: the checks that healthchecks/checks.json declares.
pub mod Under
pub mod Found
pub mod Accepts
use Prim.Native.Char.{Char, code}
use home_lab.Prelude.{
  ℕ, String, Bool, true, false, not, ◌&&◌, ◌||◌, Option, none, some, List, [], ◌∷◌, ◌++◌, leb, ◌==◌,
  str_eq, if◌then◌else◌,
}
use home_lab.Prelude.Int.{ℤ, pos, negsuc}
use home_lab.Json.{Json, str, Items, nil, cons, Fields, end, field, keys_of, get, has, as_int}

-- What a `Refusal` of `load_declaration` says: with the slug, once it is known to be one.
pub data Refusal : Type 0 where
  unreadable not_a_list invalid_slug : Refusal
  duplicate_slug wrong_fields not_whole out_of_range not_text wrong_channels : String → Refusal

pub data Outcome (A : Type 0) : Type 0 where
  ok : A → Outcome A
  refused : Refusal → Outcome A

-- TEXT
abbrev pub text_fields : List String
text_fields = "name" ∷ "slug" ∷ "tags" ∷ "desc" ∷ []

-- `k in ks`
abbrev pub member : String → List String → Bool
member k [] = false
member k (j ∷ ks) = str_eq j k || member k ks

-- `set(js) <= set(ks)`
abbrev pub subset : List String → List String → Bool
subset [] ks = true
subset (j ∷ js) ks = member j ks && subset js ks

-- `[a-z0-9_-]`
abbrev pub is_slug_char : Char → Bool
is_slug_char c =
    (leb 97 (code c) && leb (code c) 122)
    || ((leb 48 (code c) && leb (code c) 57) || (code c == 95 || code c == 45))

abbrev pub is_slug_rest : String → Bool
is_slug_rest String.[] = true
is_slug_rest (String.◌∷◌ c s) = is_slug_char c && is_slug_rest s

-- `re.fullmatch(r"[a-z0-9_-]+", slug)`
abbrev pub is_slug : String → Bool
is_slug String.[] = false
is_slug (String.◌∷◌ c s) = is_slug_char c && is_slug_rest s

-- The slug, if it is a string of that form.
abbrev pub slug_in : Json → Option String
slug_in (str s) = if is_slug s then some s else none
slug_in _ = none

abbrev pub slug_of : Fields → Option String
slug_of check = slug_in (get check "slug")

-- `("timeout",) if "timeout" in check else ("schedule", "tz")`
abbrev pub timing_of : Fields → List String
timing_of check = if has check "timeout" then "timeout" ∷ [] else "schedule" ∷ "tz" ∷ []

abbrev pub expected_fields : Fields → List String
expected_fields check = text_fields ++ (timing_of check ++ "grace" ∷ "channels" ∷ [])

abbrev pub present : Fields → String → List String
present check k = if has check k then k ∷ [] else []

-- `[k for k in TIMING if k in ("timeout", "grace") and k in check]`
abbrev pub numbers_of : Fields → List String
numbers_of check = present check "timeout" ++ present check "grace"

-- `type(v) is int`
abbrev pub is_whole : Json → Bool
is_whole v = elim (as_int v) [ none ↦ false | some _ ↦ true ]

-- `60 <= v <= 31536000`
abbrev pub is_in_range : Json → Bool
is_in_range v = elim (as_int v) [
  | some (pos n) ↦ leb 60 n && leb n 31536000
  | some (negsuc _) ↦ false
  | none ↦ false
]

abbrev pub all_values : (Json → Bool) → Fields → List String → Bool
all_values test check [] = true
all_values test check (k ∷ ks) = test (get check k) && all_values test check ks

-- `isinstance(v, str)`
abbrev pub is_text : Json → Bool
is_text (str _) = true
is_text _ = false

-- `all(isinstance(v, str) for k, v in check.items() if k not in numbers)`
abbrev pub texts_but : List String → Fields → Bool
texts_but numbers end = true
texts_but numbers (field k v check) = (member k numbers || is_text v) && texts_but numbers check

-- `v == "*"`
abbrev pub is_star : Json → Bool
is_star (str s) = str_eq s "*"
is_star _ = false

-- The tests on a check whose slug is fit and new, in the order of the code.
unfoldable pub check_fields : String → Fields → Outcome (Unit {0})
check_fields slug check =
    if not (
      subset (keys_of check) (expected_fields check)
      && subset (expected_fields check) (keys_of check))
    then refused (wrong_fields slug)
    else if not (all_values is_whole check (numbers_of check))
    then refused (not_whole slug)
    else if not (all_values is_in_range check (numbers_of check))
    then refused (out_of_range slug)
    else if not (texts_but (numbers_of check) check)
    then refused (not_text slug)
    else if not (is_star (get check "channels"))
    then refused (wrong_channels slug)
    else ok tt

-- The loop over the checks, with the slugs seen before.
unfoldable pub load_checks : List String → List Fields → Outcome (Unit {0})
load_checks seen [] = ok tt
load_checks seen (check ∷ checks) = elim (slug_of check) [
  | none ↦ refused invalid_slug
  | some slug ↦
      if member slug seen then refused (duplicate_slug slug) else elim (check_fields slug check) [
        | refused r ↦ refused r
        | ok _ ↦ load_checks (slug ∷ seen) checks
      ]
]

-- `isinstance(checks, list) and all(isinstance(c, dict) for c in checks)`
abbrev pub dicts_of : Items → Option (List Fields)
dicts_of nil = some []
dicts_of (cons (Json.obj fields) items) = elim (dicts_of items) [
  | none ↦ none
  | some rest ↦ some (fields ∷ rest)
]
dicts_of (cons _ items) = none

abbrev pub checks_in : Json → Option (List Fields)
checks_in (Json.arr items) = dicts_of items
checks_in _ = none

-- `load_declaration`, of the file's JSON, or of none if it cannot be read or is no JSON
unfoldable pub load_declaration : Option Json → Outcome (List Fields)
load_declaration none = refused unreadable
load_declaration (some document) = elim (checks_in document) [
  | none ↦ refused not_a_list
  | some checks ↦ elim (load_checks [] checks) [ refused r ↦ refused r | ok _ ↦ ok checks ]
]
