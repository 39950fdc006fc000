-- ===== src/Locks/Lock/Shapes.antt =====
-- validate_locks.py, `shape`: the fields that a lock of each kind has.
use home_lab.Prelude.{
  ◌≡◌, refl, sym, ap, ◌∙◌, subst, String, true, List, [], ◌∷◌, str_eq_iff, if◌then◌else◌, arith,
}
use home_lab.Program.{◌>>=◌, pure}
use home_lab.Json.{Json, obj, Fields, end, field, has, get, keys_of}
use home_lab.Locks.Checks.{Check, is_in, all_in, same_names, fields, require, at}
use home_lab.Locks.Checks.Passes.{Passes, Gives, Gives-bind, Gives-at, Passes-require}
use home_lab.Locks.Lock.{
  Kind, names_of_kind, shape, kind_of, with_at, with_any, each_field, some_fields,
}

pub is_in_keys : (d : Fields) (k : String) → is_in k (keys_of d) ≡ has d k
is_in_keys end k = refl
is_in_keys (field j v d) k = ground (arith, is_in_keys d k)

is_in_all :
    (k : String) (js ks : List String) → all_in js ks ≡ true → is_in k js ≡ true → is_in k ks ≡ true
is_in_all k [] ks a e = ground (arith, e)
is_in_all k (j ∷ js) ks a e =
    ground (arith, is_in_all k js ks, str_eq_iff j k, ap (λ i. is_in i ks))

pub is_in_same :
    (k : String) (js ks : List String) → same_names js ks ≡ true → is_in k js ≡ is_in k ks
is_in_same k js ks e = ground (arith, e, is_in_all k js ks, is_in_all k ks js)

shaped_fields :
    (e d : Fields) (name : String) (kind : Kind)
    → Gives (shape (obj e) name) (d, kind)
    → (e ≡ d) × (same_names (keys_of e) (names_of_kind kind) ≡ true)
unfolding shape
shaped_fields e d name kind p =
    let rest : Kind → Check (Fields × Kind) =
      λ k. fields (obj e) (names_of_kind k) "kind" >>= λ _. pure (e, k) in
    let both = Gives-bind (kind_of e name) rest (d, kind) p in
    let names = same_names (keys_of e) (names_of_kind both.value) in
    let last =
      Gives-bind (require names "kind") (λ _. pure (e, both.value)) (d, kind) both.second in
    let same : both.value ≡ kind = ground (arith, last.second) in
    (
      ground (arith, last.second),
      subst (λ k. same_names (keys_of e) (names_of_kind k) ≡ true) same
          (Passes-require names "kind" last.first),
    )

shaped :
    (v : Json) (d : Fields) (name : String) (kind : Kind)
    → Gives (shape v name) (d, kind)
    → (v ≡ obj d) × (same_names (keys_of d) (names_of_kind kind) ≡ true)
unfolding shape
shaped (obj e) d name kind p =
    let found = shaped_fields e d name kind p in
    (
      ap obj found.0,
      subst (λ f. same_names (keys_of f) (names_of_kind kind) ≡ true) found.0 found.1,
    )
shaped _ d name kind p = ground (arith, p)

module _ (lock : Json) (name : String) (d : Fields) (kind : Kind) where
  -- What `shape` gives is what it was given, and its fields are those of the kind.
  pub shape-fields :
      Gives (shape lock name) (d, kind)
      → (lock ≡ obj d) × (same_names (keys_of d) (names_of_kind kind) ≡ true)
  shape-fields p = shaped lock d name kind p

  -- A lock that `shape` lets pass has exactly the fields of the kind that it finds.
  pub shape-names :
      Gives (shape lock name) (d, kind) → (k : String) → has d k ≡ is_in k (names_of_kind kind)
  shape-names p k =
      sym (is_in_keys d k) ∙ is_in_same k (keys_of d) (names_of_kind kind) (shape-fields p).1

-- Every field of a dict satisfies the predicate.
abbrev pub EachField : (String → Json → Type 0) → Fields → Type 0
EachField P end = Unit
EachField P (field k v d) = P k v × EachField P d

pub each_field-EachField :
    (check : String → Json → Check (Unit {0})) (d : Fields)
    → Passes (each_field check d)
    → EachField (λ k v. Passes (check k v)) d
unfolding each_field
each_field-EachField check end p = tt
each_field-EachField check (field k v d) p =
    let both = Gives-bind (check k v) (λ _. each_field check d) tt p in
    (both.first, each_field-EachField check d both.second)

pub map-EachField :
    {P Q : String → Json → Type 0}
    → ((k : String) (v : Json) → P k v → Q k v)
    → (d : Fields) → EachField P d
    → EachField Q d
map-EachField f end h = tt
map-EachField f (field k v d) h = (f k v h.0, map-EachField f d h.1)

pub some_fields-EachField :
    (place : String) (check : String → Json → Check (Unit {0})) (v : Json)
    → Passes (some_fields place check v)
    → (d : Fields) × (v ≡ obj d) × EachField (λ k w. Passes (check k w)) d
unfolding some_fields
some_fields-EachField place check (obj (field k v d)) p =
    (field k v d, refl, each_field-EachField check (field k v d) p)
some_fields-EachField place check (obj end) p = ground (arith, p)
some_fields-EachField place check _ p = ground (arith, p)

pub with_at-Passes :
    (d : Fields) (k : String) (check : Json → Check (Unit {0}))
    → Passes (with_at d k check)
    → Passes (check (get d k))
with_at-Passes d k check p =
    let both = Gives-bind (at (obj d) k) check tt p in
    subst (λ v. Passes (check v)) (sym (Gives-at d k both.value both.first).1) both.second

pub with_any-Passes :
    (d : Fields) (k : String) (check : Json → Check (Unit {0}))
    → Passes (with_any d k check)
    → has d k ≡ true
    → Passes (check (get d k))
with_any-Passes d k check p e =
    with_at-Passes d k check (subst (λ b. Passes (if b then with_at d k check else pure tt)) e p)
