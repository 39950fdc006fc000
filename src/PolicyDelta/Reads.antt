-- ===== src/PolicyDelta/Reads.antt =====
-- check-unifi-delta.py: what is known of a value that has been read.
use home_lab.Prelude.{
  ◌≡◌, refl, ap, ◌∙◌, String, Bool, true, false, Option, none, some, arith, if◌then◌else◌,
}
use home_lab.Program.{pure, raise}
use home_lab.Program.Returns.{Returns}
use home_lab.Json.{Json, null, bool, int, real, str, arr, obj, Fields, get, has}
use home_lab.PolicyDelta.{
  Reason, require, Equality, at, subscript, fields_of, Policies, find, policy, or_missing,
  bad_value,
}

pub require-Returns : (b : Bool) (reason : Reason) → Returns (require b reason) tt tt tt → b ≡ true
require-Returns true reason r = refl
require-Returns false reason r = ground (arith, r)

pub at-Returns :
    (d : Fields) (k : String) (v : Json)
    → Returns (at d k) tt v tt
    → (has d k ≡ true) × (get d k ≡ v)
at-Returns d k v r = go (has d k) refl r
  where
    go :
        (b : Bool)
        → has d k ≡ b
        → Returns (if b then pure (get d k) else raise bad_value) tt v tt
        → (has d k ≡ true) × (get d k ≡ v)
    go true e q = (e, ground (arith, q))
    go false e q = ground (arith, q)

pub fields_of-obj : (v : Json) (d : Fields) → Returns (fields_of v) tt d tt → v ≡ obj d
fields_of-obj (obj e) d r = ap obj (ground (arith, r))
fields_of-obj null d r = ground (arith, r)
fields_of-obj (bool _) d r = ground (arith, r)
fields_of-obj (int _) d r = ground (arith, r)
fields_of-obj (real _ _) d r = ground (arith, r)
fields_of-obj (str _) d r = ground (arith, r)
fields_of-obj (arr _) d r = ground (arith, r)

-- The value stands there.
abbrev pub Stands : Json → String → Json → Type 0
Stands v k w = (d : Fields) × (v ≡ obj d) × (has d k ≡ true) × (get d k ≡ w)

pub subscript-Stands :
    (v : Json) (k : String) (w : Json) → Returns (subscript v k) tt w tt → Stands v k w
subscript-Stands (obj d) k w r = let a = at-Returns d k w r in (d, refl, a.0, a.1)
subscript-Stands null k w r = ground (arith, r)
subscript-Stands (bool _) k w r = ground (arith, r)
subscript-Stands (int _) k w r = ground (arith, r)
subscript-Stands (real _ _) k w r = ground (arith, r)
subscript-Stands (str _) k w r = ground (arith, r)
subscript-Stands (arr _) k w r = ground (arith, r)

pub policy-find :
    (equal : Equality) (id : Json) (ps : Policies) (p : Fields)
    → Returns (policy equal id ps) tt p tt
    → find equal id ps ≡ some p
policy-find equal id ps p r = go (find equal id ps) refl r
  where
    go :
        (o : Option Fields)
        → find equal id ps ≡ o
        → Returns (or_missing o) tt p tt
        → find equal id ps ≡ some p
    go none e q = ground (arith, q)
    go (some q) e w = e ∙ ap some (ground (arith, w))
