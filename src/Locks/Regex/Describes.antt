-- ===== src/Locks/Regex/Describes.antt =====
-- `fullmatch` finds out what the regular expressions of validate_locks.py describe.
use home_lab.Prelude.{
  ℕ, ◌≡◌, ◌↔◌, ◌⊎◌, inl, inr, refl, String, Bool, true, false, [], ◌∷◌, ◌++◌, if◌then◌else◌, arith,
}
use home_lab.Locks.Regex.{
  Regex, nothing, empty, chars, seq, or, many, codes, is_nullable, followed, either, after, accepts,
  fullmatch,
}
use home_lab.Locks.Regex.Meaning.{
  Codes, Describes, followed_iff, either_iff, is_nullable_iff, chars_iff, seq_iff, many_iff,
}

either_to : {A B C D : Type 0} → (A → C) → (B → D) → A ⊎ B → C ⊎ D
either_to f g (inl a) = inl (f a)
either_to f g (inr b) = inr (g b)

-- The first parts of a sequence, described otherwise
seq_to :
    {P Q R : Codes → Type 0} (cs : Codes)
    → ((xs : Codes) → P xs → Q xs)
    → ((xs : Codes) × (ys : Codes) × (cs ≡ xs ++ ys) × P xs × R ys)
    → (xs : Codes) × (ys : Codes) × (cs ≡ xs ++ ys) × Q xs × R ys
seq_to cs f d = (d.0, d.1, d.2, f d.0 d.3, d.4)

-- `after` of a sequence, from `after` of its parts
after-seq :
    (c : ℕ) (r s : Regex) (cs : Codes)
    → ((xs : Codes) → Describes (after c r) xs ↔ Describes r (c ∷ xs))
    → (Describes (after c s) cs ↔ Describes s (c ∷ cs))
    → (b : Bool) → is_nullable r ≡ b
    → Describes
        (if b then either (followed (after c r) s) (after c s) else followed (after c r) s)
        cs
      ↔ Describes (seq r s) (c ∷ cs)
after-seq c r s cs f g b e =
    (λ d. (seq_iff c r s cs).1 (to b e d), λ d. from b e ((seq_iff c r s cs).0 d))
  where
    first_to :
        Describes (followed (after c r) s) cs
        → (xs : Codes) × (ys : Codes) × (cs ≡ xs ++ ys) × Describes r (c ∷ xs) × Describes s ys
    first_to d =
        seq_to {P = Describes (after c r)} {Q = λ xs. Describes r (c ∷ xs)} {R = Describes s} cs
          (λ xs. (f xs).0) ((followed_iff (after c r) s cs).0 d)

    first_from :
        ((xs : Codes) × (ys : Codes) × (cs ≡ xs ++ ys) × Describes r (c ∷ xs) × Describes s ys)
        → Describes (followed (after c r) s) cs
    first_from d = (followed_iff (after c r) s cs).1 (
        seq_to {P = λ xs. Describes r (c ∷ xs)} {Q = Describes (after c r)} {R = Describes s} cs
          (λ xs. (f xs).1) d)

    to :
        (b1 : Bool)
        → is_nullable r ≡ b1
        → Describes
            (if b1 then either (followed (after c r) s) (after c s) else followed (after c r) s)
            cs
        → ((xs : Codes) × (ys : Codes) × (cs ≡ xs ++ ys) × Describes r (c ∷ xs) × Describes s ys)
          ⊎ (Describes r [] × Describes s (c ∷ cs))
    to false n d = inl (first_to d)
    to true n d =
        either_to first_to (λ x. ((is_nullable_iff r).0 n, g.0 x))
          ((either_iff (followed (after c r) s) (after c s) cs).0 d)

    from :
        (b1 : Bool)
        → is_nullable r ≡ b1
        → ((xs : Codes) × (ys : Codes) × (cs ≡ xs ++ ys) × Describes r (c ∷ xs) × Describes s ys)
          ⊎ (Describes r [] × Describes s (c ∷ cs))
        → Describes
            (if b1 then either (followed (after c r) s) (after c s) else followed (after c r) s)
            cs
    from false n (inl d) = first_from d
    from false n (inr d) = let no = (is_nullable_iff r).1 d.0 in ground (arith, no, n)
    from true n d =
        (either_iff (followed (after c r) s) (after c s) cs).1
          (either_to first_from (λ x. g.1 x.1) d)

after_iff : (c : ℕ) (r : Regex) (cs : Codes) → Describes (after c r) cs ↔ Describes r (c ∷ cs)
unfolding after
after_iff c nothing cs = (λ d. elim d [ ], λ d. elim d [ ])
after_iff c empty cs = (λ d. elim d [ ], λ d. ground (arith, d))
after_iff c (chars ranges) cs = chars_iff c ranges cs
after_iff c (or r s) cs =
    let e = either_iff (after c r) (after c s) cs in
    let f = after_iff c r cs in
    let g = after_iff c s cs in (λ d. either_to f.0 g.0 (e.0 d), λ d. e.1 (either_to f.1 g.1 d))
after_iff c (seq r s) cs =
    after-seq c r s cs (λ xs. after_iff c r xs) (after_iff c s cs) (is_nullable r) refl
after_iff c (many r) cs =
    let e = followed_iff (after c r) (many r) cs in
    let f = λ (xs : Codes). after_iff c r xs in
    (
      λ d. (many_iff c r cs).1 (
          seq_to {P = Describes (after c r)} {Q = λ xs. Describes r (c ∷ xs)}
            {R = Describes (many r)} cs (λ xs. (f xs).0) (e.0 d)),
      λ d. e.1 (
          seq_to {P = λ xs. Describes r (c ∷ xs)} {Q = Describes (after c r)}
            {R = Describes (many r)} cs (λ xs. (f xs).1) ((many_iff c r cs).0 d)),
    )

accepts_iff : (r : Regex) (cs : Codes) → (accepts r cs ≡ true) ↔ Describes r cs
unfolding accepts
accepts_iff r [] = is_nullable_iff r
accepts_iff r (c ∷ cs) =
    let rest = accepts_iff (after c r) cs in
    let step = after_iff c r cs in (λ e. step.0 (rest.0 e), λ d. rest.1 (step.1 d))

-- `fullmatch` accepts a text exactly if the expression describes its characters.
pub fullmatch_iff :
    (r : Regex) (text : String) → (fullmatch r text ≡ true) ↔ Describes r (codes text)
unfolding fullmatch
fullmatch_iff r text = accepts_iff r (codes text)
