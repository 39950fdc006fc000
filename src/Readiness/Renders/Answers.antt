-- ===== src/Readiness/Renders/Answers.antt =====
-- readiness.py: what the history holds when `render` and its loop have returned.
use home_lab.Prelude.{◌≡◌, refl, ap, sym, ◌∙◌, subst, inl, Option, some, [], ◌∷◌, arith}
use home_lab.Prelude.{In, IsTail, same, later, In-IsTail, IsTail-trans}
use home_lab.Program.{Outcome, ok, raised, ◌>>=◌}
use home_lab.Program.Returns.{Returns, bind-Returns}
use home_lab.Program.Grows.{Grows, bind-Grows}
use home_lab.Json.{
  Json, null, bool, int, real, str, arr, obj, Items, nil, cons, list_of, Fields, get,
}
use home_lab.Readiness.Server.{
  Server, Error, History, Request, Reply, body, http_error, failed, asked, ask_render, received,
  fetch, refused, http_failed, bad_value, fetch_failed, usage_error,
}
use home_lab.Readiness.Python.{fields_of}
use home_lab.Readiness.Python.Reads.{fields_of-Returns}
use home_lab.Readiness.Nearest.{Effort}
use home_lab.Readiness.Renders.{Prompt, Rendered, tokens_of, render, unless_missing, try_render}

-- The server has answered this prompt for this level.
abbrev pub Answered : History → Option Effort → Prompt → Type 0
Answered h effort prompt =
    (fs : Fields) × In (asked (ask_render effort) (body (obj fs))) h
    × ((v : Json) × (vs : Items) × (get fs "tokens" ≡ arr (cons v vs)) × (prompt ≡ v ∷ list_of vs))

abbrev pub AllAnswered : History → Rendered → Type 0
AllAnswered h [] = Unit
AllAnswered h ((e, prompt) ∷ rest) = Answered h (some e) prompt × AllAnswered h rest

pub Answered-IsTail :
    (h t : History) (e : Option Effort) (prompt : Prompt)
    → Answered h e prompt
    → IsTail h t
    → Answered t e prompt
Answered-IsTail h t e prompt a i = (a.0, In-IsTail _ a.1 i, a.2)

pub AllAnswered-IsTail :
    (h t : History) (rendered : Rendered)
    → AllAnswered h rendered
    → IsTail h t
    → AllAnswered t rendered
AllAnswered-IsTail h t [] a i = tt
AllAnswered-IsTail h t ((e, prompt) ∷ rest) a i =
    (Answered-IsTail h t (some e) prompt a.0 i, AllAnswered-IsTail h t rest a.1 i)

received-Returns :
    (a : Reply) (h : History) (v : Json) (t : History)
    → Returns (received a) h v t
    → (a ≡ body v) × (h ≡ t)
received-Returns (body w) h v t r = (ap body (ground (arith, r)), ground (arith, r))
received-Returns (http_error c d) h v t r = ground (arith, r)
received-Returns failed h v t r = ground (arith, r)

fields_of-same :
    (v : Json) (h : History) (fs : Fields) (t : History) → Returns (fields_of v) h fs t → h ≡ t
fields_of-same (obj gs) h fs t r = ground (arith, r)
fields_of-same null h fs t r = ground (arith, r)
fields_of-same (bool _) h fs t r = ground (arith, r)
fields_of-same (int _) h fs t r = ground (arith, r)
fields_of-same (real _ _) h fs t r = ground (arith, r)
fields_of-same (str _) h fs t r = ground (arith, r)
fields_of-same (arr _) h fs t r = ground (arith, r)

tokens_of-Returns :
    (e : Option Effort) (w : Json) (h : History) (prompt : Prompt) (t : History)
    → Returns (tokens_of e w) h prompt t
    → ((v : Json) × (vs : Items) × (w ≡ arr (cons v vs)) × (prompt ≡ v ∷ list_of vs)) × (h ≡ t)
tokens_of-Returns e (arr (cons v vs)) h prompt t r =
    ((v, vs, refl, ground (arith, r)), ground (arith, r))
tokens_of-Returns e (arr nil) h prompt t r = ground (arith, r)
tokens_of-Returns e null h prompt t r = ground (arith, r)
tokens_of-Returns e (bool _) h prompt t r = ground (arith, r)
tokens_of-Returns e (int _) h prompt t r = ground (arith, r)
tokens_of-Returns e (real _ _) h prompt t r = ground (arith, r)
tokens_of-Returns e (str _) h prompt t r = ground (arith, r)
tokens_of-Returns e (obj _) h prompt t r = ground (arith, r)

module _ (server : Server) where
  pub fetch-Returns :
      (q : Request) (h : History) (v : Json) (t : History)
      → Returns (fetch server q) h v t
      → t ≡ asked q (body v) ∷ h
  unfolding fetch
  fetch-Returns q h v t r =
      let c = received-Returns (server.answer q h) (asked q (server.answer q h) ∷ h) v t r in
      sym c.1 ∙ ap (λ a. asked q a ∷ h) c.0

  pub render-Answered :
      (e : Option Effort) (h : History) (prompt : Prompt) (t : History)
      → Returns (render server e) h prompt t
      → Answered t e prompt × IsTail h t
  unfolding render
  render-Answered e h prompt t r =
      let a =
        bind-Returns (fetch server (ask_render e))
          (λ v. fields_of v >>= λ fs. tokens_of e (get fs "tokens")) h prompt t r in
      let b =
        bind-Returns (fields_of a.value) (λ fs. tokens_of e (get fs "tokens")) a.between prompt t
          a.second in
      let c = tokens_of-Returns e (get b.value "tokens") b.between prompt t b.second in
      let v_is = fields_of-Returns a.value a.between b.between b.value b.first in
      let t_is : t ≡ asked (ask_render e) (body (obj b.value)) ∷ h =
        sym c.1
        ∙ sym (fields_of-same a.value a.between b.value b.between b.first)
        ∙ fetch-Returns (ask_render e) h a.value a.between a.first
        ∙ ap (λ v. asked (ask_render e) (body v) ∷ h) v_is in
      subst (λ x. Answered x e prompt × IsTail h x) (sym t_is)
        ((b.value, inl refl, c.0), later _ same)

fields_of-Grows : (v : Json) → Grows (fields_of v)
fields_of-Grows (obj _) = λ h. same
fields_of-Grows null = λ h. same
fields_of-Grows (bool _) = λ h. same
fields_of-Grows (int _) = λ h. same
fields_of-Grows (real _ _) = λ h. same
fields_of-Grows (str _) = λ h. same
fields_of-Grows (arr _) = λ h. same

tokens_of-Grows : (e : Option Effort) (v : Json) → Grows (tokens_of e v)
tokens_of-Grows e (arr (cons _ _)) = λ h. same
tokens_of-Grows e (arr nil) = λ h. same
tokens_of-Grows e null = λ h. same
tokens_of-Grows e (bool _) = λ h. same
tokens_of-Grows e (int _) = λ h. same
tokens_of-Grows e (real _ _) = λ h. same
tokens_of-Grows e (str _) = λ h. same
tokens_of-Grows e (obj _) = λ h. same

received-Grows : (a : Reply) → Grows (received a)
received-Grows (body _) = λ h. same
received-Grows (http_error _ _) = λ h. same
received-Grows failed = λ h. same

unless_missing-same : {A : Type 0} (r : Outcome Error A × History) → (unless_missing r).1 ≡ r.1
unless_missing-same (ok _, h) = refl
unless_missing-same (raised (http_failed _ _), h) = refl
unless_missing-same (raised (refused _), h) = refl
unless_missing-same (raised fetch_failed, h) = refl
unless_missing-same (raised bad_value, h) = refl
unless_missing-same (raised usage_error, h) = refl

-- A value comes through as it is.
unless_missing-some :
    {A : Type 0} (r : Outcome Error A × History) (a : A) (t : History)
    → unless_missing r ≡ (ok (some a), t)
    → r ≡ (ok a, t)
unless_missing-some (ok b, h) a t e = ground (arith, e)
unless_missing-some (raised (http_failed code d), h) a t e = ground (arith, e)
unless_missing-some (raised (refused _), h) a t e = ground (arith, e)
unless_missing-some (raised fetch_failed, h) a t e = ground (arith, e)
unless_missing-some (raised bad_value, h) a t e = ground (arith, e)
unless_missing-some (raised usage_error, h) a t e = ground (arith, e)

module _ (server : Server) where
  fetch-Grows : (q : Request) → Grows (fetch server q)
  unfolding fetch
  fetch-Grows q h =
      IsTail-trans (later _ same)
        (received-Grows (server.answer q h) (asked q (server.answer q h) ∷ h))

  render-Grows : (e : Option Effort) → Grows (render server e)
  unfolding render
  render-Grows e =
      bind-Grows (fetch server (ask_render e))
        (λ v. fields_of v >>= λ fs. tokens_of e (get fs "tokens")) (fetch-Grows (ask_render e))
        (λ v.
          bind-Grows (fields_of v) (λ fs. tokens_of e (get fs "tokens")) (fields_of-Grows v)
            (λ fs. tokens_of-Grows e (get fs "tokens")))

  pub try_render-Grows : (e : Option Effort) → Grows (try_render server e)
  unfolding try_render
  try_render-Grows e h =
      subst (IsTail h) (sym (unless_missing-same (render server e h))) (render-Grows e h)

  pub try_render-Answered :
      (e : Option Effort) (h : History) (prompt : Prompt) (t : History)
      → Returns (try_render server e) h (some prompt) t
      → Answered t e prompt
  unfolding try_render
  try_render-Answered e h prompt t r =
      (render-Answered server e h prompt t (unless_missing-some (render server e h) prompt t r)).0
