-- ===== src/Readiness/Python.antt =====
-- readiness.py: the operations of Python that its checks apply to JSON documents.
pub mod Reads
use home_lab.Prelude.{
  ℕ, suc, String, Bool, true, false, Option, none, some, List, [], ◌∷◌, str_eq, if◌then◌else◌,
}
use home_lab.Prelude.Int.{ℤ, pos, int_eq}
use home_lab.Program.{pure, raise}
use home_lab.Json.{
  Json, null, bool, int, real, str, arr, obj, Fields, get, has, keys_of, list_of, truthy,
}
use home_lab.Readiness.Server.{Python, Gate, bad_value}

-- A Boolean as the integer it equals
abbrev pub of_bool : Bool → ℤ
of_bool true = pos 1
of_bool false = pos 0

-- `v == n`
abbrev pub equals_int : Python → Json → ℤ → Bool
equals_int python (bool b) n = int_eq (of_bool b) n
equals_int python (int m) n = int_eq m n
equals_int python (real _ t) n = python.float_is_int t n
equals_int python _ n = false

-- `v == s`
abbrev pub equals_str : Json → String → Bool
equals_str (str t) s = str_eq t s
equals_str _ s = false

-- `v == w`, where `v` is hashable
abbrev pub equals : Python → Json → Json → Bool
equals python null null = true
equals python (bool b) w = equals_int python w (of_bool b)
equals python (int n) w = equals_int python w n
equals python (real _ t) (real _ u) = python.same_floats t u
equals python (real _ t) (bool b) = python.float_is_int t (of_bool b)
equals python (real _ t) (int n) = python.float_is_int t n
equals python (str s) w = equals_str w s
equals python _ _ = false

abbrev pub or_bad_value : {A : Type 0} → Option A → Gate A
or_bad_value none = raise bad_value
or_bad_value (some a) = pure a

-- `v.get`, which only a dict has
abbrev pub fields_of : Json → Gate Fields
fields_of (obj fs) = pure fs
fields_of _ = raise bad_value

-- `fs.get(k, default)`
abbrev pub get_or : Fields → String → Json → Json
get_or fs k default = if has fs k then get fs k else default
