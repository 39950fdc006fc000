-- ===== src/Prelude/Lists.antt =====
-- Lists measured by native numbers, and the predicates on lists that the components share.
use Prim.Native.Nat.{ℕ, zero, suc, ◌+◌, ◌-◌, min}
use mathlib.Core.Path.{◌≡◌, refl}
use mathlib.Core.Logic.{◌⊎◌, inr}
use mathlib.Core.List.{List, [], ◌∷◌, ◌++◌}
use native.Mathlib.Omega.{arith}

module _ {ℓ} {A : Type ℓ} where
  abbrev pub length : List A → ℕ
  length [] = 0
  length (x ∷ xs) = suc (length xs)

  abbrev pub take : ℕ → List A → List A
  take zero xs = []
  take (suc n) [] = []
  take (suc n) (x ∷ xs) = x ∷ take n xs

  abbrev pub drop : ℕ → List A → List A
  drop zero xs = xs
  drop (suc n) [] = []
  drop (suc n) (x ∷ xs) = drop n xs

  pub length-append : (xs ys : List A) → length (xs ++ ys) ≡ length xs + length ys
  length-append [] ys = omega arith
  length-append (x ∷ xs) ys = omega (arith, length-append xs ys)

  pub length-take : (n : ℕ) (xs : List A) → length (take n xs) ≡ min n (length xs)
  length-take zero xs = omega arith
  length-take (suc n) [] = omega arith
  length-take (suc n) (x ∷ xs) = omega (arith, length-take n xs)

  pub length-drop : (n : ℕ) (xs : List A) → length (drop n xs) ≡ length xs - n
  length-drop zero xs = omega arith
  length-drop (suc n) [] = omega arith
  length-drop (suc n) (x ∷ xs) = omega (arith, length-drop n xs)

module _ {ℓ} {A : Type ℓ} where
  -- A list with these put before it, one after the other.
  abbrev pub onto : List A → List A → List A
  onto [] acc = acc
  onto (x ∷ xs) acc = onto xs (x ∷ acc)

  pub onto-append : (xs ys acc : List A) → onto (xs ++ ys) acc ≡ onto ys (onto xs acc)
  onto-append [] ys acc = refl
  onto-append (x ∷ xs) ys acc = onto-append xs ys (x ∷ acc)

module _ {A : Type 0} where
  -- The first list begins the second.
  abbrev pub IsPrefix : List A → List A → Type 0
  IsPrefix [] ys = Unit
  IsPrefix (x ∷ xs) [] = ⊥
  IsPrefix (x ∷ xs) (y ∷ ys) = (x ≡ y) × IsPrefix xs ys

  pub IsPrefix-append : (xs ys : List A) → IsPrefix xs (xs ++ ys)
  IsPrefix-append [] ys = tt
  IsPrefix-append (x ∷ xs) ys = (refl, IsPrefix-append xs ys)

  pub IsPrefix-longer : (xs ys zs : List A) → IsPrefix xs ys → IsPrefix xs (ys ++ zs)
  IsPrefix-longer [] ys zs p = tt
  IsPrefix-longer (x ∷ xs) [] zs p = elim p [ ]
  IsPrefix-longer (x ∷ xs) (y ∷ ys) zs p = (p.0, IsPrefix-longer xs ys zs p.1)

  pub IsPrefix-after : (xs ys zs : List A) → IsPrefix ys zs → IsPrefix (xs ++ ys) (xs ++ zs)
  IsPrefix-after [] ys zs p = p
  IsPrefix-after (x ∷ xs) ys zs p = (refl, IsPrefix-after xs ys zs p)

module _ {ℓ κ} {A : Type ℓ} where
  -- Every element satisfies the predicate.
  abbrev pub All : (A → Type κ) → List A → Type κ
  All P [] = Unit
  All P (x ∷ xs) = P x × All P xs

module _ {A : Type 0} where
  -- `x` stands in the list, with its place kept.
  abbrev pub In : A → List A → Type 0
  In x [] = ⊥
  In x (y ∷ ys) = (x ≡ y) ⊎ In x ys

  -- `s` is what is left of the list after some first elements were dropped: a history that grew
  -- at its head has its earlier values as tails.
  pub data IsTail (s : List A) : List A → Type 0 where
    same : IsTail s s
    later : (x : A) {t : List A} → IsTail s t → IsTail s (x ∷ t)

  pub IsTail-trans : {r s t : List A} → IsTail r s → IsTail s t → IsTail r t
  IsTail-trans p same = p
  IsTail-trans p (later x q) = later x (IsTail-trans p q)

  pub In-IsTail : (x : A) {s t : List A} → In x s → IsTail s t → In x t
  In-IsTail x m same = m
  In-IsTail x m (later y q) = inr (In-IsTail x m q)
