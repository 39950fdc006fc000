-- ===== src/Readiness/Renders/Gathered.antt =====
-- readiness.py, `check_renders`: what its first loop gathers.
use home_lab.Prelude.{
  ◌≡◌, refl, ap, sym, subst, Option, none, some, List, [], ◌∷◌, arith, IsTail, same, IsTail-trans,
}
use home_lab.Program.{pure, ◌>>=◌}
use home_lab.Program.Returns.{Returns, bind-Returns}
use home_lab.Readiness.Server.{Server, History}
use home_lab.Readiness.Nearest.{Effort}
use home_lab.Readiness.Renders.{Prompt, Gathered, filed, try_render, gather, levels_of}
use home_lab.Readiness.Renders.Answers.{
  Answered-IsTail, AllAnswered, try_render-Grows, try_render-Answered,
}

-- The loop over the levels: if none is missing, the server has answered a prompt for each.
unfoldable pub GatheredAll : History → List Effort → Gathered → Type 0
GatheredAll t efforts g = g.1 ≡ [] → (levels_of g.0 ≡ efforts) × AllAnswered t g.0

module _ (server : Server) where
  pub gather-GatheredAll :
      (efforts : List Effort) (h : History) (g : Gathered) (t : History)
      → Returns (gather server efforts) h g t
      → IsTail h t × GatheredAll t efforts g
  unfolding gather GatheredAll
  gather-GatheredAll [] h g t r =
      let g_is : g ≡ ([], []) = ground (arith, r) in
      let t_is : h ≡ t = ground (arith, r) in
      (subst (IsTail h) t_is same, subst (GatheredAll t []) (sym g_is) (λ e. (refl, tt)))
  gather-GatheredAll (e ∷ efforts) h g t r =
      let a =
        bind-Returns (try_render server (some e))
          (λ answer. gather server efforts >>= λ rest. pure (filed e answer rest)) h g t r in
      let b =
        bind-Returns (gather server efforts) (λ rest. pure (filed e a.value rest)) a.between g t
          a.second in
      let rest = gather-GatheredAll efforts a.between b.value b.between b.first in
      let first : IsTail h a.between =
        subst (IsTail h) (ap (λ x. x.1) a.first) (try_render-Grows server (some e) h) in
      let g_is : filed e a.value b.value ≡ g = ground (arith, b.second) in
      let t_is : b.between ≡ t = ground (arith, b.second) in
      (
        subst (IsTail h) t_is (IsTail-trans first rest.0),
        subst (λ x. GatheredAll x (e ∷ efforts) g) t_is
            (subst (GatheredAll b.between (e ∷ efforts)) g_is
              (go a.value b.value a.first rest.0 rest.1)),
      )
    where
      go :
          {m n : History} (answer : Option Prompt) (others : Gathered)
          → Returns (try_render server (some e)) h answer m
          → IsTail m n
          → GatheredAll n efforts others
          → GatheredAll n (e ∷ efforts) (filed e answer others)
      go {m} {n} none (rendered, missing) q i all = λ none_missing. ground (arith, none_missing)
      go {m} {n} (some prompt) (rendered, missing) q i all = λ none_missing.
          let rest = all none_missing in
          (
            ap (λ es. e ∷ es) rest.0,
            (
              Answered-IsTail m n (some e) prompt (try_render-Answered server (some e) h prompt m q)
                  i,
              rest.1,
            ),
          )
