-- ===== src/Locks/Regex/Meaning.antt =====
-- What the regular expressions of validate_locks.py describe.
use home_lab.Prelude.{
  ℕ, ◌≡◌, ◌↔◌, ◌⊎◌, inl, inr, refl, sym, ap, subst, ◌∙◌, Bool, true, false, ◌||◌, List, [], ◌∷◌,
  ◌++◌, if◌then◌else◌, arith,
}
use home_lab.Locks.Regex.{
  Regex, nothing, empty, chars, seq, or, many, in_ranges, is_nullable, followed, either,
}

abbrev pub Codes : Type 0
Codes = List ℕ

-- Pieces that each satisfy the predicate and are not empty, one after the other
pub data Repeats (P : List ℕ → Type 0) : List ℕ → Type 0 where
  done : Repeats P []
  more :
      (c : ℕ) (piece rest whole : List ℕ)
      → P (c ∷ piece)
      → Repeats P rest
      → whole ≡ c ∷ piece ++ rest
      → Repeats P whole

abbrev pub Describes : Regex → List ℕ → Type 0
Describes nothing cs = ⊥
Describes empty cs = cs ≡ []
Describes (chars ranges) cs = (c : ℕ) × (cs ≡ c ∷ []) × (in_ranges c ranges ≡ true)
Describes (seq r s) cs =
    (xs : List ℕ) × (ys : List ℕ) × (cs ≡ xs ++ ys) × Describes r xs × Describes s ys
Describes (or r s) cs = Describes r cs ⊎ Describes s cs
Describes (many r) cs = Repeats (Describes r) cs

pub followed_iff : (r s : Regex) (cs : Codes) → Describes (followed r s) cs ↔ Describes (seq r s) cs
unfolding followed
followed_iff nothing s cs = (λ d. elim d [ ], λ d. d.3)
followed_iff empty s cs = (
  λ d. ([], cs, refl, refl, d),
  λ d. subst (Describes s) (sym (d.2 ∙ ap (λ xs. xs ++ d.1) d.3)) d.4,
)
followed_iff (chars _) s cs = (λ d. d, λ d. d)
followed_iff (seq _ _) s cs = (λ d. d, λ d. d)
followed_iff (or _ _) s cs = (λ d. d, λ d. d)
followed_iff (many _) s cs = (λ d. d, λ d. d)

pub either_iff : (r s : Regex) (cs : Codes) → Describes (either r s) cs ↔ Describes (or r s) cs
unfolding either
either_iff nothing s cs = (λ d. inr d, λ d. elim d [ inl e ↦ elim e [ ] | inr e ↦ e ])
either_iff empty s cs = (λ d. d, λ d. d)
either_iff (chars _) s cs = (λ d. d, λ d. d)
either_iff (seq _ _) s cs = (λ d. d, λ d. d)
either_iff (or _ _) s cs = (λ d. d, λ d. d)
either_iff (many _) s cs = (λ d. d, λ d. d)

append-empty : (xs ys : Codes) → [] ≡ xs ++ ys → (xs ≡ []) × (ys ≡ [])
append-empty [] ys e = (refl, sym e)
append-empty (x ∷ xs) ys e = ground (arith, e)

pub is_nullable_iff : (r : Regex) → (is_nullable r ≡ true) ↔ Describes r []
is_nullable_iff nothing = (λ e. ground (arith, e), λ d. elim d [ ])
is_nullable_iff empty = (λ e. refl, λ d. refl)
is_nullable_iff (chars ranges) = (λ e. ground (arith, e), λ d. ground (arith, d.1))
is_nullable_iff (seq r s) =
    let first = is_nullable_iff r in
    let second = is_nullable_iff s in
    (
      λ e. ([], [], refl, first.0 (ground (arith, e)), second.0 (ground (arith, e))),
      λ d.
          let parts = append-empty d.0 d.1 d.2 in
          let a = first.1 (subst (Describes r) parts.0 d.3) in
          let b = second.1 (subst (Describes s) parts.1 d.4) in ground (arith, a, b),
    )
is_nullable_iff (or r s) =
    let first = is_nullable_iff r in
    let second = is_nullable_iff s in
    (to (is_nullable r) (is_nullable s) first.0 second.0, from first.1 second.1)
  where
    to :
        (a b : Bool)
        → (a ≡ true → Describes r [])
        → (b ≡ true → Describes s [])
        → (a || b) ≡ true
        → Describes r [] ⊎ Describes s []
    to true b f g e = inl (f refl)
    to false b f g e = inr (g e)

    from :
        (Describes r [] → is_nullable r ≡ true)
        → (Describes s [] → is_nullable s ≡ true)
        → Describes r [] ⊎ Describes s []
        → (is_nullable r || is_nullable s) ≡ true
    from f g (inl d) = ground (arith, f d)
    from f g (inr d) = ground (arith, g d)
is_nullable_iff (many r) = (λ e. done, λ d. refl)

pub uncons : (c d : ℕ) (xs ys : Codes) → c ∷ xs ≡ d ∷ ys → (c ≡ d) × (xs ≡ ys)
uncons c d xs ys e = ground (arith, e)

pub chars_iff :
    (c : ℕ) (ranges : List (ℕ × ℕ)) (cs : Codes)
    → Describes (if in_ranges c ranges then empty else nothing) cs
      ↔ Describes (chars ranges) (c ∷ cs)
chars_iff c ranges cs = (to (in_ranges c ranges) refl, from (in_ranges c ranges) refl)
  where
    to :
        (b : Bool)
        → in_ranges c ranges ≡ b
        → Describes (if b then empty else nothing) cs
        → Describes (chars ranges) (c ∷ cs)
    to true e d = (c, ap (λ xs. c ∷ xs) d, e)
    to false e d = elim d [ ]

    from :
        (b : Bool)
        → in_ranges c ranges ≡ b
        → Describes (chars ranges) (c ∷ cs)
        → Describes (if b then empty else nothing) cs
    from true e (d, whole, holds) = (uncons c d cs [] whole).1
    from false e (d, whole, holds) =
        let same = (uncons c d cs [] whole).0 in
        let no : in_ranges d ranges ≡ false = subst (λ x. in_ranges x ranges ≡ false) same e in
        ground (arith, no, holds)

-- A sequence that begins with this character begins with it in its first part, or in the second.
pub seq_iff :
    (c : ℕ) (r s : Regex) (cs : Codes)
    → Describes (seq r s) (c ∷ cs) ↔ (
        ((xs : Codes) × (ys : Codes) × (cs ≡ xs ++ ys) × Describes r (c ∷ xs) × Describes s ys)
        ⊎ (Describes r [] × Describes s (c ∷ cs)))
seq_iff c r s cs = (to, from)
  where
    to :
        Describes (seq r s) (c ∷ cs)
        → ((xs : Codes) × (ys : Codes) × (cs ≡ xs ++ ys) × Describes r (c ∷ xs) × Describes s ys)
          ⊎ (Describes r [] × Describes s (c ∷ cs))
    to ([], ys, e, d, f) = inr (d, subst (Describes s) (sym e) f)
    to (x ∷ xs, ys, e, d, f) =
        let u = uncons c x cs (xs ++ ys) e in
        inl (xs, ys, u.1, subst (λ y. Describes r (y ∷ xs)) (sym u.0) d, f)

    from :
        ((xs : Codes) × (ys : Codes) × (cs ≡ xs ++ ys) × Describes r (c ∷ xs) × Describes s ys)
          ⊎ (Describes r [] × Describes s (c ∷ cs))
        → Describes (seq r s) (c ∷ cs)
    from (inl (xs, ys, e, d, f)) = (c ∷ xs, ys, ap (λ zs. c ∷ zs) e, d, f)
    from (inr (d, f)) = ([], c ∷ cs, refl, d, f)

pub many_iff :
    (c : ℕ) (r : Regex) (cs : Codes)
    → Describes (many r) (c ∷ cs) ↔ (
        (xs : Codes) × (ys : Codes) × (cs ≡ xs ++ ys)
        × Describes r (c ∷ xs)
        × Describes (many r) ys)
many_iff c r cs = (to (c ∷ cs) refl, λ d. more c d.0 d.1 (c ∷ cs) d.3 d.4 (ap (λ zs. c ∷ zs) d.2))
  where
    to :
        (whole : Codes)
        → whole ≡ c ∷ cs
        → Repeats (Describes r) whole
        → (xs : Codes) × (ys : Codes) × (cs ≡ xs ++ ys)
          × Describes r (c ∷ xs)
          × Describes (many r) ys
    to [] e done = ground (arith, e)
    to whole e (more x piece rest _ d f w) =
        let u = uncons c x cs (piece ++ rest) (sym e ∙ w) in
        (piece, rest, u.1, subst (λ y. Describes r (y ∷ piece)) (sym u.0) d, f)
