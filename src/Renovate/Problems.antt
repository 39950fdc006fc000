-- ===== src/Renovate/Problems.antt =====
-- check-renovate-problems.py, `problems_in`: which problems are listed of which text.
use home_lab.Prelude.{
  ◌≤◌, ◌≡◌, ◌↔◌, ◌⊎◌, inl, inr, subst, sym, not, ◌&&◌, refl, String, Bool, true, false, List, [],
  ◌∷◌, ◌++◌, length, length-append, if◌then◌else◌, arith, In,
}
use home_lab.Program.{ok, raised}
use home_lab.Json.{Json, null, bool, int, real, str, arr, obj, Fields, get, has}
use home_lab.Renovate.{
  dashboard_is, no_anchor, unexpected_response, is_open, problems_of, with_body, problems_in,
  Outside, or_default, gathered, unix_lines, unreadable,
}

In-append : {A : Type 0} (x : A) (xs ys : List A) → In x (xs ++ ys) ↔ (In x xs ⊎ In x ys)
In-append x [] ys = ground arith
In-append x (y ∷ xs) ys = ground (arith, In-append x xs ys)

module _ (out : Outside) where
  -- It is an item of the section, or stands for a section without items.
  abbrev pub IsProblemOf : String → String → Type 0
  IsProblemOf p section =
      In p (out.items section) ⊎ ((out.items section ≡ []) × (p ≡ "section has no listed problems"))

  -- It is a problem of one of the sections.
  abbrev pub IsOfSections : String → List String → Type 0
  IsOfSections p [] = ⊥
  IsOfSections p (section ∷ rest) = IsProblemOf p section ⊎ IsOfSections p rest

  or_default_iff :
      (p section : String) (items : List String)
      → out.items section ≡ items
      → In p (or_default out items) ↔ IsProblemOf p section
  or_default_iff p section [] e = (from, to)
    where
      from : In p (or_default out []) → IsProblemOf p section
      from (inl q) = inr (e, q)
      from (inr m) = elim m [ ]

      to : IsProblemOf p section → In p (or_default out [])
      to (inl m) = elim (subst (In p) e m) [ ]
      to (inr (_, q)) = inl q
  or_default_iff p section (x ∷ items) e = (λ m. inl (subst (In p) (sym e) m), to)
    where
      to : IsProblemOf p section → In p (or_default out (x ∷ items))
      to (inl m) = subst (In p) e m
      to (inr (z, _)) = ground (arith, e, z)

  gathered_iff :
      (p : String) (sections : List String) → In p (gathered out sections) ↔ IsOfSections p sections
  unfolding gathered
  gathered_iff p [] = ground arith
  gathered_iff p (section ∷ rest) = ground (
    arith,
    In-append p (or_default out (out.items section)) (gathered out rest),
    or_default_iff p section (out.items section) refl,
    gathered_iff p rest,
  )

  or_default-length : (items : List String) → 1 ≤ length (or_default out items)
  or_default-length [] = ground arith
  or_default-length (x ∷ items) = ground arith

  gathered-length : (sections : List String) → length sections ≤ length (gathered out sections)
  unfolding gathered
  gathered-length [] = ground arith
  gathered-length (s ∷ sections) = omega (
    arith,
    gathered-length sections,
    or_default-length (out.items s),
    length-append (or_default out (out.items s)) (gathered out sections),
  )

  -- The text of an open issue with the anchor, and exactly the problems of its sections
  abbrev pub Lists : Json → List String → Type 0
  Lists v ps =
      (issue : Fields) × (text : String) × (v ≡ obj issue)
      × (is_open (get issue "state") ≡ true)
      × (get issue "body" ≡ str text)
      × (out.has_anchor (unix_lines text) ≡ true)
      × ((p : String) → In p ps ↔ IsOfSections p (out.sections (unix_lines text)))
      × (length (out.sections (unix_lines text)) ≤ length ps)

  problems_of-Lists :
      (state : Json) (body : String) (ps : List String)
      → problems_of out state body ≡ ok ps
      → (is_open state ≡ true)
        × (out.has_anchor body ≡ true)
        × ((p : String) → In p ps ↔ IsOfSections p (out.sections body))
        × (length (out.sections body) ≤ length ps)
  problems_of-Lists state body ps r = go (is_open state) (out.has_anchor body) refl refl r
    where
      go :
          (a b : Bool)
          → is_open state ≡ a
          → out.has_anchor body ≡ b
          → (if not a
              then raised (unreadable (dashboard_is state))
              else if not b
              then raised (unreadable no_anchor)
              else ok (gathered out (out.sections body)))
            ≡ ok ps
          → (is_open state ≡ true)
            × (out.has_anchor body ≡ true)
            × ((p : String) → In p ps ↔ IsOfSections p (out.sections body))
            × (length (out.sections body) ≤ length ps)
      go false b d e q = ground (arith, q)
      go true false d e q = ground (arith, q)
      go true true d e q =
          let ps_are : gathered out (out.sections body) ≡ ps = ground (arith, q) in
          (
            d,
            e,
            subst (λ x. (p : String) → In p x ↔ IsOfSections p (out.sections body)) ps_are
                (λ p. gathered_iff p (out.sections body)),
            subst (λ x. length (out.sections body) ≤ length x) ps_are
                (gathered-length (out.sections body)),
          )

  with_body-Lists :
      (issue : Fields) (v : Json) (ps : List String)
      → get issue "body" ≡ v
      → with_body out (get issue "state") v ≡ ok ps
      → Lists (obj issue) ps
  with_body-Lists issue (str body) ps e r =
      let known = problems_of-Lists (get issue "state") (unix_lines body) ps r in
      (issue, body, refl, known.0, e, known.1, known.2, known.3)
  with_body-Lists issue null ps e r = ground (arith, r)
  with_body-Lists issue (bool _) ps e r = ground (arith, r)
  with_body-Lists issue (int _) ps e r = ground (arith, r)
  with_body-Lists issue (real _ _) ps e r = ground (arith, r)
  with_body-Lists issue (arr _) ps e r = ground (arith, r)
  with_body-Lists issue (obj _) ps e r = ground (arith, r)

  pub problems_in-Lists : (v : Json) (ps : List String) → problems_in out v ≡ ok ps → Lists v ps
  unfolding problems_in
  problems_in-Lists (obj issue) ps r = go (has issue "state" && has issue "body") r
    where
      go :
          (b : Bool)
          → (if b
              then with_body out (get issue "state") (get issue "body")
              else raised (unreadable unexpected_response))
            ≡ ok ps
          → Lists (obj issue) ps
      go true q = with_body-Lists issue (get issue "body") ps refl q
      go false q = ground (arith, q)
  problems_in-Lists null ps r = ground (arith, r)
  problems_in-Lists (bool _) ps r = ground (arith, r)
  problems_in-Lists (int _) ps r = ground (arith, r)
  problems_in-Lists (real _ _) ps r = ground (arith, r)
  problems_in-Lists (str _) ps r = ground (arith, r)
  problems_in-Lists (arr _) ps r = ground (arith, r)
