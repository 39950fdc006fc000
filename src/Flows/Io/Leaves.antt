-- ===== src/Flows/Io/Leaves.antt =====
-- What a method leaves as it was, whether it returns or raises, and the rules for it: one for each
-- way to build a method.
use home_lab.Prelude.{◌≡◌, refl, ◌∙◌, Bool, true, false, if◌then◌else◌}
use home_lab.Flows.Runtime.{Outcome, ok, raised}
use home_lab.Flows.Io.{Io, lift, when, ◌>>=◌}

abbrev pub Leaves : {S A X : Type 0} → (S → X) → Io S A → Type 0
Leaves {S} f m = (s : S) → f (m s).1 ≡ f s

module _ {S A B X : Type 0} (f : S → X) where
  pub Leaves-bind :
      (m : Io S A) (k : A → Io S B) → Leaves f m → ((a : A) → Leaves f (k a)) → Leaves f (m >>= k)
  Leaves-bind m k hm hk s = go (m s) (hm s)
    where
      go : (r : Outcome A × S) → f r.1 ≡ f s → f ((lift r.0 >>= k) r.1).1 ≡ f s
      go (ok a, s') e = hk a s' ∙ e
      go (raised x, s') e = e

  -- A pure outcome changes nothing before the rest.
  pub Leaves-lift :
      (r : Outcome A) (k : A → Io S B) → ((a : A) → Leaves f (k a)) → Leaves f (lift r >>= k)
  Leaves-lift (ok a) k h s = h a s
  Leaves-lift (raised x) k h s = refl

module _ {S A X : Type 0} (f : S → X) where
  pub Leaves-if :
      (b : Bool) (m n : Io S A) → Leaves f m → Leaves f n → Leaves f (if b then m else n)
  Leaves-if true m n hm hn = hm
  Leaves-if false m n hm hn = hn

module _ {S X : Type 0} (f : S → X) where
  pub Leaves-when : (b : Bool) (m : Io S (Unit {0})) → Leaves f m → Leaves f (when b m)
  Leaves-when true m h s = h s
  Leaves-when false m h s = refl
