-- ===== src/Tensorfold/Commands/Lookups.antt =====
-- The environment of a launch: what its dicts hold.
use home_lab.Prelude.{
  ◌≡◌, refl, String, false, Option, none, some, List, [], ◌∷◌, str_eq, str_eq_iff, arith, All,
}
use home_lab.Prelude.Dict.{Dict, put, contains, contains-put}
use home_lab.Tensorfold.Environment.{put_if, put_all, remove}
use home_lab.Tensorfold.Commands.{lookup}

pub contains-remove :
    (k j : String) (d : Dict String) → contains k d ≡ false → contains k (remove j d) ≡ false
unfolding remove
contains-remove k j [] e = refl
contains-remove k j ((i, v) ∷ d) e = ground (arith, e, contains-remove k j d)

contains-put_if :
    (key k : String) (value : Option String) (d : Dict String)
    → str_eq key k ≡ false
    → contains k d ≡ false
    → contains k (put_if key value d) ≡ false
contains-put_if key k none d ne e = e
contains-put_if key k (some v) d ne e = ground (arith, ne, e, contains-put key k v d)

pub contains-put_all :
    (k : String) (values : List (String × Option String)) (d : Dict String)
    → All (λ p. str_eq p.0 k ≡ false) values
    → contains k d ≡ false
    → contains k (put_all values d) ≡ false
unfolding put_all
contains-put_all k [] d a e = e
contains-put_all k ((key, value) ∷ values) d a e =
    contains-put_all k values (put_if key value d) a.1 (contains-put_if key k value d a.0 e)

pub lookup-none : (k : String) (d : Dict String) → contains k d ≡ false → lookup k d ≡ none
lookup-none k [] e = refl
lookup-none k ((j, v) ∷ d) e = ground (arith, e, lookup-none k d)

pub lookup-put : (k : String) (v : String) (d : Dict String) → lookup k (put k v d) ≡ some v
unfolding put
lookup-put k v [] = ground (arith, str_eq_iff k k)
lookup-put k v ((j, w) ∷ d) = ground (arith, str_eq_iff j k, lookup-put k v d)

pub lookup-put_other :
    (k j : String) (v : String) (d : Dict String)
    → str_eq j k ≡ false
    → lookup k (put j v d) ≡ lookup k d
unfolding put
lookup-put_other k j v [] ne = ground (arith, ne)
lookup-put_other k j v ((i, w) ∷ d) ne =
    ground (arith, ne, str_eq_iff i j, str_eq_iff i k, str_eq_iff j k, lookup-put_other k j v d)

pub lookup-put_if :
    (k j : String) (value : Option String) (d : Dict String)
    → str_eq j k ≡ false
    → lookup k (put_if j value d) ≡ lookup k d
lookup-put_if k j none d ne = refl
lookup-put_if k j (some v) d ne = lookup-put_other k j v d ne
