-- ===== src/Locks/Documents.antt =====
-- validate_locks.py: `read_json`, and the order of `sorted` on texts.
use home_lab.Prelude.{
  ℕ, String, Bool, true, false, not, ◌&&◌, ◌||◌, Option, none, some, List, [], ◌∷◌, ltb, ◌==◌,
  if◌then◌else◌,
}
use home_lab.Program.{pure, raise, ◌>>=◌, ◌>>◌}
use home_lab.Json.{
  Json, null, bool, int, real, str, arr, obj, Items, nil, cons, Fields, end, field, has,
}
use home_lab.Locks.Regex.{codes}
use home_lab.Locks.Checks.{Check, Python, value_error, require}

-- No object, at any depth, has a field twice: `unique` as the hook of every object.
abbrev mutual
  pub is_unique : Json → Bool
  is_unique (arr vs) = all_unique vs
  is_unique (obj d) = fields_unique d
  is_unique null = true
  is_unique (bool _) = true
  is_unique (int _) = true
  is_unique (real _ _) = true
  is_unique (str _) = true

  pub all_unique : Items → Bool
  all_unique nil = true
  all_unique (cons v vs) = is_unique v && all_unique vs

  pub fields_unique : Fields → Bool
  fields_unique end = true
  fields_unique (field k v d) = is_unique v && not (has d k) && fields_unique d

abbrev pub some_or : {A : Type 0} → Option A → Check A
some_or none = raise value_error
some_or (some a) = pure a

-- `read_json`, of the text of a file. A text that is no JSON and has a field twice is a ValueError
-- either way.
unfoldable pub read_json : Python → Check String → Check Json
read_json python content = do
  text ← content
  v ← some_or (python.loads text)
  require (is_unique v) "json"
  pure v

-- `s < t`
abbrev pub precedes : List ℕ → List ℕ → Bool
precedes xs [] = false
precedes [] (y ∷ ys) = true
precedes (x ∷ xs) (y ∷ ys) = ltb x y || (x == y && precedes xs ys)

abbrev pub insert_name : String → List String → List String
insert_name s [] = s ∷ []
insert_name s (t ∷ ts) =
    let rest = insert_name s ts in if precedes (codes t) (codes s) then t ∷ rest else s ∷ t ∷ ts

-- `sorted(names)`
unfoldable pub sorted : List String → List String
sorted [] = []
sorted (s ∷ ss) = insert_name s (sorted ss)
