-- ===== src/Program/Grows.antt =====
-- Methods that only put new entries before a history.
use home_lab.Prelude.{List, IsTail, same, IsTail-trans}
use home_lab.Program.{Outcome, ok, raised, Io, lift, ◌>>=◌}

abbrev pub Grows : {E X A : Type 0} → Io E (List X) A → Type 0
Grows {X} m = (h : List X) → IsTail h (m h).1

module _ {E X : Type 0} where
  pub lift-Grows : {A : Type 0} (r : Outcome E A) → Grows {X = X} (lift r)
  lift-Grows r h = same

  pub bind-Grows :
      {A B : Type 0} (m : Io E (List X) A) (k : A → Io E (List X) B)
      → Grows m
      → ((a : A) → Grows (k a))
      → Grows (m >>= k)
  bind-Grows {A} m k gm gk h = go (m h) (gm h)
    where
      go : (r : Outcome E A × List X) → IsTail h r.1 → IsTail h ((lift r.0 >>= k) r.1).1
      go (ok a, h1) i = IsTail-trans i (gk a h1)
      go (raised e, h1) i = i
