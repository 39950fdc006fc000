-- ===== src/Readiness/Renders/Faithful.antt =====
-- readiness.py, `check_renders`: what it has found out when it returns.
use home_lab.Prelude.{
  ◌≡◌, ◌≢◌, refl, ap, sym, ◌∙◌, subst, true, false, Option, none, some, List, [], ◌∷◌, not, arith,
  In, IsTail,
}
use home_lab.Program.{pure, raise_if, ◌>>=◌}
use home_lab.Program.Returns.{Returns, bind-Returns, raise_if-Returns}
use home_lab.Readiness.Server.{Server, Python, History, refused, bad_value, shared_prompt}
use home_lab.Readiness.Nearest.{Effort, max, xhigh, high, medium, low, minimal, no_effort, is_in}
use home_lab.Readiness.Renders.{
  Rendered, Mapped, Gathered, standard_efforts, gather, levels_of, prompts_hashable, any_shared,
  map_names, check_prompts, check_default, after_gather, check_renders,
}
use home_lab.Readiness.Renders.Answers.{AllAnswered, AllAnswered-IsTail}
use home_lab.Readiness.Renders.Gathered.{GatheredAll, gather-GatheredAll}
use home_lab.Readiness.Renders.Covers.{MapsTo, map_names-Covers}
use home_lab.Readiness.Renders.Differ.{AllDiffer, any_shared-AllDiffer}

is_standard : (e : Effort) → is_in e standard_efforts ≡ true
is_standard max = refl
is_standard xhigh = refl
is_standard high = refl
is_standard medium = refl
is_standard low = refl
is_standard minimal = refl
is_standard no_effort = refl

module _ (python : Python) (efforts : List Effort) where
  -- What the prompts show: one for each level, all different, and the other names as their levels
  abbrev pub IsFaithful : History → Mapped → Rendered → Type 0
  IsFaithful t mapped rendered =
      (levels_of rendered ≡ efforts)
      × AllAnswered t rendered
      × AllDiffer python rendered
      × ((e : Effort)
          → is_in e efforts ≡ false
          → e ≢ no_effort
          → (target : Effort) × In (e, target) mapped × MapsTo python efforts rendered t e target)

module _ (server : Server) (python : Python) (efforts : List Effort) where
  check_prompts-IsFaithful :
      (rendered : Rendered) (h : History) (mapped : Mapped) (t : History)
      → levels_of rendered ≡ efforts
      → AllAnswered h rendered
      → Returns (check_prompts server python efforts rendered) h mapped t
      → IsFaithful python efforts t mapped rendered
  unfolding check_prompts
  check_prompts-IsFaithful rendered h mapped t levels answered r =
      let a =
        bind-Returns (raise_if (not (prompts_hashable rendered)) bad_value)
          (λ _.
            raise_if (any_shared python rendered) (refused (shared_prompt (levels_of rendered)))
            >>= λ _. map_names server python efforts rendered standard_efforts)
          h mapped t r in
      let b =
        bind-Returns
          (raise_if (any_shared python rendered) (refused (shared_prompt (levels_of rendered))))
          (λ _. map_names server python efforts rendered standard_efforts) a.between mapped t
          a.second in
      let h_is = raise_if-Returns (not (prompts_hashable rendered)) bad_value h a.between a.first in
      let differ =
        raise_if-Returns (any_shared python rendered) (refused (shared_prompt (levels_of rendered)))
          a.between b.between b.first in
      let c =
        map_names-Covers server python efforts rendered standard_efforts b.between mapped t
          b.second in
      (
        levels,
        AllAnswered-IsTail h t rendered answered
            (subst (λ x. IsTail x t) (sym (h_is.1 ∙ differ.1)) c.1),
        any_shared-AllDiffer python rendered differ.0,
        λ e out ne. c.0 e (is_standard e) (ap (is_in e) levels ∙ out) ne,
      )

  checked-IsFaithful :
      (rendered : Rendered) (h : History) (mapped : Mapped) (t : History)
      → (levels_of rendered ≡ efforts) × AllAnswered h rendered
      → Returns
          (check_prompts server python efforts rendered >>= λ m. pure (some m))
          h
          (some mapped)
          t
      → (rendered1 : Rendered) × IsFaithful python efforts t mapped rendered1
  checked-IsFaithful rendered h mapped t known r =
      let a =
        bind-Returns (check_prompts server python efforts rendered) (λ m. pure (some m)) h
          (some mapped) t r in
      let same_mapped : a.value ≡ mapped = ground (arith, a.second) in
      let same_history : a.between ≡ t = ground (arith, a.second) in
      (
        rendered,
        subst (λ m. IsFaithful python efforts t m rendered) same_mapped
            (subst (λ x. IsFaithful python efforts x a.value rendered) same_history
              (check_prompts-IsFaithful rendered h a.value a.between known.0 known.1 a.first)),
      )

  after_gather-IsFaithful :
      (g : Gathered) (h : History) (mapped : Mapped) (t : History)
      → GatheredAll h efforts g
      → Returns (after_gather server python efforts g.0 g.1) h (some mapped) t
      → (rendered : Rendered) × IsFaithful python efforts t mapped rendered
  unfolding GatheredAll
  after_gather-IsFaithful ([], m ∷ missing) h mapped t all r =
      let a =
        bind-Returns (check_default server (m ∷ missing)) (λ _. pure {A = Option Mapped} none) h
          (some mapped) t r in
      ground (arith, a.second)
  after_gather-IsFaithful (l ∷ rendered, m ∷ missing) h mapped t all r = ground (arith, r)
  after_gather-IsFaithful ([], []) h mapped t all r = checked-IsFaithful [] h mapped t (all refl) r
  after_gather-IsFaithful (l ∷ rendered, []) h mapped t all r =
      checked-IsFaithful (l ∷ rendered) h mapped t (all refl) r

  -- If `check_renders` returns a table, the server has answered a prompt for each advertised level, in
  -- their order, no two of them the same; and each other standard name but "none" stands in the
  -- table with the level that `nearest` gives, whose prompt the server has answered for the name too.
  pub check_renders-IsFaithful :
      (h : History) (mapped : Mapped) (t : History)
      → Returns (check_renders server python efforts) h (some mapped) t
      → (rendered : Rendered) × IsFaithful python efforts t mapped rendered
  unfolding check_renders
  check_renders-IsFaithful h mapped t r =
      let a =
        bind-Returns (gather server efforts) (λ g. after_gather server python efforts g.0 g.1) h
          (some mapped) t r in
      after_gather-IsFaithful a.value a.between mapped t
        (gather-GatheredAll server efforts h a.value a.between a.first).1 a.second
