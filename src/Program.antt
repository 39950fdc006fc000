-- ===== src/Program.antt =====
-- Methods in general: they change an object, and return or raise an error of some type. What was
-- changed before a raise stays changed.
pub mod Keeps
pub mod Returns
pub mod Grows
use home_lab.Prelude.{Bool, true, false}

pub data Outcome (E A : Type 0) : Type 0 where
  ok : A → Outcome E A
  raised : E → Outcome E A

abbrev pub is_raised : {E A : Type 0} → Outcome E A → Bool
is_raised (ok _) = false
is_raised (raised _) = true

abbrev pub Io : Type 0 → Type 0 → Type 0 → Type 0
Io E S A = S → Outcome E A × S

module _ {E S A : Type 0} where
  abbrev pub pure : A → Io E S A
  pure a s = (ok a, s)

  abbrev pub raise : E → Io E S A
  raise e s = (raised e, s)

  abbrev pub lift : Outcome E A → Io E S A
  lift r s = (r, s)

infixl 5 ◌>>=◌ ◌>>◌
abbrev pub ◌>>=◌ : {E S A B : Type 0} → Io E S A → (A → Io E S B) → Io E S B
◌>>=◌ m f s = let (r, s') = m s in elim r [ ok a ↦ f a s' | raised e ↦ (raised e, s') ]

abbrev pub ◌>>◌ : {E S A B : Type 0} → Io E S A → Io E S B → Io E S B
m >> k = m >>= λ _. k

module _ {E S : Type 0} where
  abbrev pub gets : {A : Type 0} → (S → A) → Io E S A
  gets f s = (ok (f s), s)

  abbrev pub modify : (S → S) → Io E S (Unit {0})
  modify f s = (ok tt, f s)

  -- `if b: raise e`
  abbrev pub raise_if : Bool → E → Io E S (Unit {0})
  raise_if true e = raise e
  raise_if false e = pure tt

  -- `try: ... except BaseException: <change>; raise`
  abbrev pub on_raise : {A : Type 0} → Io E S A → (S → S) → Io E S A
  on_raise m f s = let (r, s') = m s in elim r [ ok a ↦ (ok a, s') | raised e ↦ (raised e, f s') ]
