-- ===== src/Json.antt =====
-- JSON documents as `json.loads` returns them, and the Python operations that the programs apply
-- to them: `dict.get`, truth values, `or`, `isinstance`.
use home_lab.Prelude.{
  zero, String, Bool, true, false, Option, none, some, List, [], ◌∷◌, str_eq, if◌then◌else◌,
}
use home_lab.Prelude.Int.{ℤ, pos}

-- A number with a fraction or an exponent is kept as its text, and whether it equals zero.
mutual
  pub data Json : Type 0 where
    null : Json
    bool : Bool → Json
    int : ℤ → Json
    real : Bool → String → Json
    str : String → Json
    arr : Items → Json
    obj : Fields → Json

  pub data Items : Type 0 where
    nil : Items
    cons : Json → Items → Items

  pub data Fields : Type 0 where
    end : Fields
    field : String → Json → Fields → Fields

abbrev pub list_of : Items → List Json
list_of nil = []
list_of (cons x xs) = x ∷ list_of xs

abbrev pub keys_of : Fields → List String
keys_of end = []
keys_of (field k v fs) = k ∷ keys_of fs

-- `d.get(k)`: None, JSON's null, for a missing key
abbrev pub get : Fields → String → Json
get end k = null
get (field j v fs) k = if str_eq j k then v else get fs k

-- `k in d`
abbrev pub has : Fields → String → Bool
has end k = false
has (field j v fs) k = if str_eq j k then true else has fs k

abbrev pub is_empty : String → Bool
is_empty String.[] = true
is_empty (String.◌∷◌ c s) = false

-- `bool(v)`
abbrev pub truthy : Json → Bool
truthy null = false
truthy (bool b) = b
truthy (int (pos zero)) = false
truthy (int _) = true
truthy (real is_zero _) = if is_zero then false else true
truthy (str s) = if is_empty s then false else true
truthy (arr nil) = false
truthy (arr (cons _ _)) = true
truthy (obj end) = false
truthy (obj (field _ _ _)) = true

-- `a or b`
abbrev pub or_else : Json → Json → Json
or_else a b = if truthy a then a else b

-- `type(v) is int`, which a bool is not
abbrev pub as_int : Json → Option ℤ
as_int (int n) = some n
as_int _ = none

-- `type(v) is bool`
abbrev pub as_bool : Json → Option Bool
as_bool (bool b) = some b
as_bool _ = none

-- `isinstance(v, list)`
abbrev pub as_list : Json → Option (List Json)
as_list (arr xs) = some (list_of xs)
as_list _ = none

-- `isinstance(v, dict)`
abbrev pub as_dict : Json → Option Fields
as_dict (obj fs) = some fs
as_dict _ = none

-- Neither a list nor a dict
abbrev pub is_hashable : Json → Bool
is_hashable (arr _) = false
is_hashable (obj _) = false
is_hashable _ = true

-- The characters of a text, each as a text
abbrev pub singles : String → List Json
singles String.[] = []
singles (String.◌∷◌ c s) = str (String.◌∷◌ c String.[]) ∷ singles s

abbrev pub names_of : List String → List Json
names_of [] = []
names_of (k ∷ ks) = str k ∷ names_of ks

-- `list(v)`
abbrev pub iterate : Json → Option (List Json)
iterate (arr xs) = some (list_of xs)
iterate (obj fs) = some (names_of (keys_of fs))
iterate (str s) = some (singles s)
iterate _ = none
