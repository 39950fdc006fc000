-- ===== src/Readiness/Python/Reads.antt =====
-- readiness.py: what is known of a JSON value once a check has read it.
use home_lab.Prelude.{
  ◌≡◌, ap, String, Bool, true, false, ◌||◌, Option, none, some, not, arith, str_eq_iff,
}
use home_lab.Program.Returns.{Returns}
use home_lab.Json.{Json, null, bool, int, real, str, arr, obj, Fields, as_dict}
use home_lab.Readiness.Server.{History}
use home_lab.Readiness.Python.{equals_str, fields_of, or_bad_value}

pub equals_str-str : (v : Json) (s : String) → equals_str v s ≡ true → v ≡ str s
equals_str-str (str t) s e = ap str ((str_eq_iff t s).0 e)
equals_str-str null s e = ground (arith, e)
equals_str-str (bool _) s e = ground (arith, e)
equals_str-str (int _) s e = ground (arith, e)
equals_str-str (real _ _) s e = ground (arith, e)
equals_str-str (arr _) s e = ground (arith, e)
equals_str-str (obj _) s e = ground (arith, e)

pub fields_of-Returns :
    (v : Json) (h t : History) (fs : Fields) → Returns (fields_of v) h fs t → v ≡ obj fs
fields_of-Returns (obj gs) h t fs r = ap obj (ground (arith, r))
fields_of-Returns null h t fs r = ground (arith, r)
fields_of-Returns (bool _) h t fs r = ground (arith, r)
fields_of-Returns (int _) h t fs r = ground (arith, r)
fields_of-Returns (real _ _) h t fs r = ground (arith, r)
fields_of-Returns (str _) h t fs r = ground (arith, r)
fields_of-Returns (arr _) h t fs r = ground (arith, r)

pub as_dict-obj : (v : Json) (fs : Fields) → as_dict v ≡ some fs → v ≡ obj fs
as_dict-obj (obj gs) fs e = ap obj (ground (arith, e))
as_dict-obj null fs e = ground (arith, e)
as_dict-obj (bool _) fs e = ground (arith, e)
as_dict-obj (int _) fs e = ground (arith, e)
as_dict-obj (real _ _) fs e = ground (arith, e)
as_dict-obj (str _) fs e = ground (arith, e)
as_dict-obj (arr _) fs e = ground (arith, e)

pub holds : (a : Bool) → not a ≡ false → a ≡ true
holds a e = ground (arith, e)

pub or_bad_value-Returns :
    {A : Type 0} (o : Option A) (h : History) (a : A) (t : History)
    → Returns (or_bad_value o) h a t
    → o ≡ some a
or_bad_value-Returns (some b) h a t r = ap some (ground (arith, r))
or_bad_value-Returns none h a t r = ground (arith, r)

-- Of two conditions that are reported together, both hold.
pub both : (a b : Bool) → (not a || not b) ≡ false → (a ≡ true) × (b ≡ true)
both a b e = ground (arith, e)
