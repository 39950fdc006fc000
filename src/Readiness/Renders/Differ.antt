-- ===== src/Readiness/Renders/Differ.antt =====
-- readiness.py, `check_renders`: the size of the set of prompts.
use home_lab.Prelude.{
  ◌≡◌, refl, subst, Bool, true, false, some, [], ◌∷◌, ◌==◌, ◌&&◌, if◌then◌else◌, arith,
}
use home_lab.Readiness.Server.{Python}
use home_lab.Readiness.Nearest.{Effort, place}
use home_lab.Readiness.Renders.{Prompt, Rendered, is_shared, any_shared, same_prompt, prompt_of}

-- No two levels have the same prompt.
abbrev pub AllDiffer : Python → Rendered → Type 0
AllDiffer python rendered =
    (d e : Effort) (p q : Prompt)
    → (place d == place e) ≡ false
    → prompt_of d rendered ≡ some p
    → prompt_of e rendered ≡ some q
    → (same_prompt python p q && same_prompt python q p) ≡ false

module _ (python : Python) where
  is_shared-differs :
      (p : Prompt) (rendered : Rendered) (e : Effort) (q : Prompt)
      → is_shared python p rendered ≡ false
      → prompt_of e rendered ≡ some q
      → same_prompt python p q ≡ false
  is_shared-differs p [] e q s o = ground (arith, o)
  is_shared-differs p ((d, other) ∷ rest) e q s o =
      go (place d == place e) o (is_shared-differs p rest e q (ground (arith, s)))
    where
      go :
          (b : Bool)
          → (if b then some other else prompt_of e rest) ≡ some q
          → (prompt_of e rest ≡ some q → same_prompt python p q ≡ false)
          → same_prompt python p q ≡ false
      go true w later =
          let is_q : other ≡ q = ground (arith, w) in
          subst (λ x. same_prompt python p x ≡ false) is_q (ground (arith, s))
      go false w later = later w

  pub any_shared-AllDiffer :
      (rendered : Rendered) → any_shared python rendered ≡ false → AllDiffer python rendered
  any_shared-AllDiffer [] s d e p q ne op oq = ground (arith, op)
  any_shared-AllDiffer ((l, other) ∷ rest) s d e p q ne op oq =
      go (place l == place d) (place l == place e) refl refl op oq
        (λ mp mq. any_shared-AllDiffer rest (ground (arith, s)) d e p q ne mp mq)
    where
      go :
          (b c : Bool)
          → (place l == place d) ≡ b
          → (place l == place e) ≡ c
          → (if b then some other else prompt_of d rest) ≡ some p
          → (if c then some other else prompt_of e rest) ≡ some q
          → (prompt_of d rest ≡ some p
              → prompt_of e rest ≡ some q
              → (same_prompt python p q && same_prompt python q p) ≡ false)
          → (same_prompt python p q && same_prompt python q p) ≡ false
      go true true x y u v others = ground (arith, x, y, ne)
      go true false x y u v others =
          let is_p : other ≡ p = ground (arith, u) in
          let differs =
            subst (λ z. same_prompt python z q ≡ false) is_p
              (is_shared-differs other rest e q (ground (arith, s)) v) in
          ground (arith, differs)
      go false true x y u v others =
          let is_q : other ≡ q = ground (arith, v) in
          let differs =
            subst (λ z. same_prompt python z p ≡ false) is_q
              (is_shared-differs other rest d p (ground (arith, s)) u) in
          ground (arith, differs)
      go false false x y u v others = others u v
