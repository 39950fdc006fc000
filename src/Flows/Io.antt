-- ===== src/Flows/Io.antt =====
-- A method of a collector object: it changes the object and returns or raises, and what was
-- written before a raise stays written.
pub mod Leaves
pub mod Ends
use home_lab.Prelude.{Bool, true, false}
use home_lab.Flows.Runtime.{Error, Outcome, ok, raised}

abbrev pub Io : Type 0 → Type 0 → Type 0
Io S A = S → Outcome A × S

module _ {S A : Type 0} where
  abbrev pub pure : A → Io S A
  pure a s = (ok a, s)

  abbrev pub raise : Error → Io S A
  raise e s = (raised e, s)

  abbrev pub lift : Outcome A → Io S A
  lift r s = (r, s)

infixl 5 ◌>>=◌ ◌>>◌
abbrev pub ◌>>=◌ : {S A B : Type 0} → Io S A → (A → Io S B) → Io S B
◌>>=◌ m f s = let (r, s') = m s in elim r [ ok a ↦ f a s' | raised e ↦ (raised e, s') ]

abbrev pub ◌>>◌ : {S A B : Type 0} → Io S A → Io S B → Io S B
m >> k = m >>= λ _. k

module _ {S : Type 0} where
  abbrev pub gets : {A : Type 0} → (S → A) → Io S A
  gets f s = (ok (f s), s)

  abbrev pub modify : (S → S) → Io S (Unit {0})
  modify f s = (ok tt, f s)

  -- `if c: m`
  abbrev pub when : Bool → Io S (Unit {0}) → Io S (Unit {0})
  when true m = m
  when false m = pure tt
