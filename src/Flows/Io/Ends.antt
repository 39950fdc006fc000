-- ===== src/Flows/Io/Ends.antt =====
-- How a method ends: with a result of a given kind, or raising, and never for want of depth. One
-- rule for each way to build a method.
use home_lab.Prelude.{◌≡◌, ◌≢◌, refl, Bool, true, false, if◌then◌else◌}
use home_lab.Flows.Runtime.{Outcome, ok, raised, recursion}
use home_lab.Flows.Io.{Io, lift, when, ◌>>=◌}

abbrev pub Sat : {A : Type 0} → (A → Type 0) → Outcome A → Type 0
Sat Q (ok a) = Q a
Sat Q (raised e) = e ≢ recursion

abbrev pub Ends : {S A : Type 0} → (A → Type 0) → Io S A → Type 0
Ends {S} Q m = (s : S) → Sat Q (m s).0

abbrev pub Any : {A : Type 0} → A → Type 0
Any a = Unit

module _ {S A B : Type 0} {Q : A → Type 0} (R : B → Type 0) where
  pub Ends-bind :
      (m : Io S A) (k : A → Io S B) → Ends Q m → ((a : A) → Q a → Ends R (k a)) → Ends R (m >>= k)
  Ends-bind m k hm hk s = go (m s) (hm s)
    where
      go : (r : Outcome A × S) → Sat Q r.0 → Sat R ((lift r.0 >>= k) r.1).0
      go (ok a, s') h = hk a h s'
      go (raised x, s') h = h

  pub Ends-lift :
      (r : Outcome A) (k : A → Io S B)
      → Sat Q r
      → ((a : A) → Q a → Ends R (k a))
      → Ends R (lift r >>= k)
  Ends-lift (ok a) k h hk s = hk a h s
  Ends-lift (raised x) k h hk s = h

module _ {S A : Type 0} (R : A → Type 0) where
  pub Ends-if :
      (b : Bool) (m n : Io S A)
      → (b ≡ true → Ends R m)
      → (b ≡ false → Ends R n)
      → Ends R (if b then m else n)
  Ends-if true m n hm hn = hm refl
  Ends-if false m n hm hn = hn refl

pub Ends-when : {S : Type 0} (b : Bool) (m : Io S (Unit {0})) → Ends Any m → Ends Any (when b m)
Ends-when true m h s = h s
Ends-when false m h s = tt
