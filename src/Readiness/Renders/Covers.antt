-- ===== src/Readiness/Renders/Covers.antt =====
-- readiness.py, `check_renders`: its last loop, over the names that are not advertised.
use home_lab.Prelude.{
  ℕ, ◌≡◌, ◌≢◌, refl, ap, sym, ◌∙◌, subst, inl, inr, Bool, true, false, Option, none, some, List, [],
  ◌∷◌, ◌==◌, ◌||◌, not, if◌then◌else◌, arith, In, IsTail, same, IsTail-trans,
}
use home_lab.Program.{pure, raise_if, ◌>>=◌}
use home_lab.Program.Returns.{Returns, bind-Returns, raise_if-Returns}
use home_lab.Readiness.Server.{Server, Python, History, refused, not_as}
use home_lab.Readiness.Python.{or_bad_value}
use home_lab.Readiness.Python.Reads.{or_bad_value-Returns}
use home_lab.Readiness.Nearest.{
  Effort, max, xhigh, high, medium, low, minimal, no_effort, is_in, place, nearest,
}
use home_lab.Readiness.Renders.{
  Prompt, Rendered, Mapped, render, levels_of, same_prompt, prompt_of, check_name, map_name,
  map_names,
}
use home_lab.Readiness.Renders.Answers.{Answered, Answered-IsTail, render-Answered}

-- What is known of a name that is not advertised: its prompt is the one of its nearest level.
abbrev pub MapsTo : Python → List Effort → Rendered → History → Effort → Effort → Type 0
MapsTo python efforts rendered t e target =
    (nearest e efforts ≡ some target)
    × ((prompt : Prompt) × (expected : Prompt) × Answered t (some e) prompt
        × (prompt_of target rendered ≡ some expected)
        × (same_prompt python expected prompt ≡ true))

-- The table `mapped` has each of these names that is not rendered, and is not "none".
abbrev pub Covers : Python → List Effort → Rendered → History → Mapped → List Effort → Type 0
Covers python efforts rendered t mapped names =
    (e : Effort)
    → is_in e names ≡ true
    → is_in e (levels_of rendered) ≡ false
    → e ≢ no_effort
    → (target : Effort) × In (e, target) mapped × MapsTo python efforts rendered t e target

-- The level at this place
abbrev level_at : ℕ → Effort
level_at n =
    if n == 0
    then max
    else if n == 1
    then xhigh
    else if n == 2
    then high
    else if n == 3
    then medium
    else if n == 4
    then low
    else if n == 5
    then minimal
    else no_effort

level_at-place : (a : Effort) → level_at (place a) ≡ a
level_at-place max = refl
level_at-place xhigh = refl
level_at-place high = refl
level_at-place medium = refl
level_at-place low = refl
level_at-place minimal = refl
level_at-place no_effort = refl

same_effort : (a b : Effort) → (place a == place b) ≡ true → a ≡ b
same_effort a b e =
    let places : place a ≡ place b = ground (arith, e) in
    sym (level_at-place a) ∙ ap level_at places ∙ level_at-place b

or_bad_value-same :
    {A : Type 0} (o : Option A) (h : History) (a : A) (t : History)
    → Returns (or_bad_value o) h a t
    → h ≡ t
or_bad_value-same (some b) h a t r = ground (arith, r)
or_bad_value-same none h a t r = ground (arith, r)

module _ (server : Server) (python : Python) (efforts : List Effort) (rendered : Rendered) where
  check_name-MapsTo :
      (e target : Effort) (h t : History)
      → nearest e efforts ≡ some target
      → Returns (check_name server python efforts rendered e target) h tt t
      → MapsTo python efforts rendered t e target × IsTail h t
  check_name-MapsTo e target h t n r =
      let a =
        bind-Returns (render server (some e))
          (λ prompt. or_bad_value (prompt_of target rendered) >>= λ expected.
            raise_if (not (same_prompt python expected prompt)) (refused (not_as e target)))
          h tt t r in
      let b =
        bind-Returns (or_bad_value (prompt_of target rendered))
          (λ expected.
            raise_if (not (same_prompt python expected a.value)) (refused (not_as e target)))
          a.between tt t a.second in
      let c =
        raise_if-Returns (not (same_prompt python b.value a.value)) (refused (not_as e target))
          b.between t b.second in
      let t_is : a.between ≡ t =
        or_bad_value-same (prompt_of target rendered) a.between b.value b.between b.first ∙ c.1 in
      let answered = render-Answered server (some e) h a.value a.between a.first in
      (
        (
          n,
          (
            a.value,
            b.value,
            subst (λ x. Answered x (some e) a.value) t_is answered.0,
            or_bad_value-Returns (prompt_of target rendered) a.between b.value b.between b.first,
            ground (arith, c.0),
          ),
        ),
        subst (IsTail h) t_is answered.1,
      )

  MapsTo-IsTail :
      (e target : Effort) (h t : History)
      → MapsTo python efforts rendered h e target
      → IsTail h t
      → MapsTo python efforts rendered t e target
  MapsTo-IsTail e target h t m i =
      let (prompt, expected, answered, stands, equal) = m.1 in
      (m.0, (prompt, expected, Answered-IsTail h t (some e) prompt answered i, stands, equal))

  map_name-MapsTo :
      (e : Effort) (h : History) (pair : Effort × Effort) (t : History)
      → Returns (map_name server python efforts rendered e) h pair t
      → (pair.0 ≡ e) × MapsTo python efforts rendered t e pair.1 × IsTail h t
  map_name-MapsTo e h pair t r =
      let a =
        bind-Returns (or_bad_value (nearest e efforts))
          (λ target. check_name server python efforts rendered e target >>= λ _. pure (e, target)) h
          pair t r in
      let b =
        bind-Returns (check_name server python efforts rendered e a.value) (λ _. pure (e, a.value))
          a.between pair t a.second in
      let c =
        check_name-MapsTo e a.value a.between b.between
          (or_bad_value-Returns (nearest e efforts) h a.value a.between a.first) b.first in
      let pair_is : pair ≡ (e, a.value) = ground (arith, b.second) in
      let t_is : b.between ≡ t = ground (arith, b.second) in
      let h_is = or_bad_value-same (nearest e efforts) h a.value a.between a.first in
      (
        ap (λ x. x.0) pair_is,
        subst (λ x. MapsTo python efforts rendered x e pair.1) t_is
            (subst (MapsTo python efforts rendered b.between e) (sym (ap (λ x. x.1) pair_is)) c.0),
        subst (λ x. IsTail x t) (sym h_is) (subst (IsTail a.between) t_is c.1),
      )

  pub map_names-Covers :
      (names : List Effort) (h : History) (mapped : Mapped) (t : History)
      → Returns (map_names server python efforts rendered names) h mapped t
      → Covers python efforts rendered t mapped names × IsTail h t
  unfolding map_names
  map_names-Covers [] h mapped t r =
      (λ e m _ _. ground (arith, m), subst (IsTail h) (ground (arith, r)) same)
  map_names-Covers (x ∷ names) h mapped t r =
      go (is_in x (levels_of rendered) || is_in x (no_effort ∷ [])) refl r
        (λ h1 mapped1 t1 r1. map_names-Covers names h1 mapped1 t1 r1)
    where
      keep :
          (mapped1 : Mapped) (t1 : History)
          → Covers python efforts rendered t1 mapped1 names
          → ((x ≡ no_effort → ⊥)
              → is_in x (levels_of rendered) ≡ false
              → (target : Effort) × In (x, target) mapped1
                × MapsTo python efforts rendered t1 x target)
          → Covers python efforts rendered t1 mapped1 (x ∷ names)
      keep mapped1 t1 covers own e m out ne = which (place x == place e) refl
        where
          which :
              (b : Bool)
              → (place x == place e) ≡ b
              → (target : Effort) × In (e, target) mapped1
                × MapsTo python efforts rendered t1 e target
          which true q =
              let x_is = same_effort x e q in
              subst
                (λ y.
                  (target : Effort) × In (y, target) mapped1
                  × MapsTo python efforts rendered t1 y target)
                x_is
                (own (λ z. ne (sym x_is ∙ z)) (ap (λ y. is_in y (levels_of rendered)) x_is ∙ out))
          which false q = covers e (ground (arith, m, q)) out ne

      go :
          (skip : Bool)
          → (is_in x (levels_of rendered) || is_in x (no_effort ∷ [])) ≡ skip
          → Returns
              (if skip
                then map_names server python efforts rendered names
                else map_name server python efforts rendered x >>= λ pair.
                    map_names server python efforts rendered names >>= λ rest. pure (pair ∷ rest))
              h
              mapped
              t
          → ((h1 : History) (mapped1 : Mapped) (t1 : History)
              → Returns (map_names server python efforts rendered names) h1 mapped1 t1
              → Covers python efforts rendered t1 mapped1 names × IsTail h1 t1)
          → Covers python efforts rendered t mapped (x ∷ names) × IsTail h t
      go true q p all =
          let rest = all h mapped t p in
          (
            keep mapped t rest.0
                (λ ne out. elim (ne (same_effort x no_effort (ground (arith, q, out)))) [ ]),
            rest.1,
          )
      go false q p all =
          let a =
            bind-Returns (map_name server python efforts rendered x)
              (λ pair.
                map_names server python efforts rendered names >>= λ rest. pure (pair ∷ rest))
              h mapped t p in
          let b =
            bind-Returns (map_names server python efforts rendered names)
              (λ rest. pure (a.value ∷ rest)) a.between mapped t a.second in
          let rest = all a.between b.value b.between b.first in
          let one = map_name-MapsTo x h a.value a.between a.first in
          let mapped_is : a.value ∷ b.value ≡ mapped = ground (arith, b.second) in
          let t_is : b.between ≡ t = ground (arith, b.second) in
          subst (λ u. Covers python efforts rendered u mapped (x ∷ names) × IsTail h u) t_is
            (subst
              (λ u. Covers python efforts rendered b.between u (x ∷ names) × IsTail h b.between)
              mapped_is
              (
                keep (a.value ∷ b.value) b.between
                    (λ e m out ne. let c = rest.0 e m out ne in (c.0, inr c.1, c.2))
                    (λ _ _. (
                      a.value.1,
                      inl (ap (λ y. (y, a.value.1)) (sym one.0)),
                      MapsTo-IsTail x a.value.1 a.between b.between one.1 rest.1,
                    )),
                IsTail-trans one.2 rest.1,
              ))
