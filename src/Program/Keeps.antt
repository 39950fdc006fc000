-- ===== src/Program/Keeps.antt =====
-- What a method leaves as it was, and the rule for one call after another.
use home_lab.Prelude.{◌≡◌, ◌∙◌}
use home_lab.Program.{Outcome, ok, raised, Io, lift, ◌>>=◌}

abbrev pub Keeps : {E S A X : Type 0} → (S → X) → Io E S A → Type 0
Keeps {S} f m = (s : S) → f (m s).1 ≡ f s

module _ {E S A B X : Type 0} (f : S → X) where
  pub Keeps-bind :
      (m : Io E S A) (k : A → Io E S B) → Keeps f m → ((a : A) → Keeps f (k a)) → Keeps f (m >>= k)
  Keeps-bind m k hm hk s = go (m s) (hm s)
    where
      go : (r : Outcome E A × S) → f r.1 ≡ f s → f ((lift r.0 >>= k) r.1).1 ≡ f s
      go (ok a, s') e = hk a s' ∙ e
      go (raised x, s') e = e
