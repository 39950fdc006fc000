-- ===== src/Program/Returns.antt =====
-- What is known of a method that returns: each call in it returned.
use home_lab.Prelude.{◌≡◌, refl, Bool, true, false, arith}
use home_lab.Program.{Outcome, ok, raised, Io, raise, raise_if, lift, ◌>>=◌}

-- The method returns this value, and leaves this state.
abbrev pub Returns : {E S A : Type 0} → Io E S A → S → A → S → Type 0
Returns m s a s' = m s ≡ (ok a, s')

-- A call before another one
pub record Step {E S A B : Type 0} (m : Io E S A) (k : A → Io E S B) (s : S) (b : B) (t : S)
    : Type 0 where
  pub value : A
  pub between : S
  pub first : Returns m s value between
  pub second : Returns (k value) between b t

module _ {E S : Type 0} where
  pub raise-never :
      {A : Type 0} (e : E) (s : S) (a : A) (t : S) → Returns {S = S} (raise e) s a t → ⊥
  raise-never e s a t p = ground (arith, p)

  pub raise_if-Returns :
      (b : Bool) (e : E) (s t : S) → Returns (raise_if b e) s tt t → (b ≡ false) × (s ≡ t)
  raise_if-Returns true e s t p = elim (raise-never {A = Unit} e s tt t p) [ ]
  raise_if-Returns false e s t p = (refl, ground (arith, p))

  pub bind-Returns :
      {A B : Type 0} (m : Io E S A) (k : A → Io E S B) (s : S) (b : B) (t : S)
      → Returns (m >>= k) s b t
      → Step m k s b t
  bind-Returns {A} {B} m k s b t p = go (m s) refl p
    where
      go : (r : Outcome E A × S) → m s ≡ r → (lift r.0 >>= k) r.1 ≡ (ok b, t) → Step m k s b t
      go (ok a, s1) e q = record { value = a; between = s1; first = e; second = q }
      go (raised x, s1) e q = elim (raise-never {A = B} x s1 b t q) [ ]
