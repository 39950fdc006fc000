-- ===== src/Flows/Console/Depth.antt =====
-- collector.py, `Console.flows`: how deep its calls of itself go.
use home_lab.Prelude.{ℕ, suc, ◌≡◌, ◌≢◌, refl, ap, ◌∙◌, true, none, arith, ltb, Bool-cases, inl, inr}
use home_lab.Json.{Json}
use home_lab.Flows.Runtime.{Config, Python, Outcome, ok, raised, recursion, Request, flows, Env}
use home_lab.Flows.Io.{Io, lift, ◌>>=◌}
use home_lab.Flows.Console.{
  Link, Answer, csrf_header, read_clock, post, drop_session, ensure_session, read_page,
  request_page, attempt, fetch_depth, fetch,
}

-- The same end, and not for want of depth.
abbrev Agrees : {A : Type 0} → Outcome A × Link → Outcome A × Link → Type 0
Agrees r r' = (r ≡ r') × (r.0 ≢ raised recursion)

Agrees-lift :
    {A B : Type 0} (r : Outcome A) (f g : A → Io Link B) (l : Link)
    → r ≢ raised recursion
    → ((a : A) → r ≡ ok a → Agrees (f a l) (g a l))
    → Agrees ((lift r >>= f) l) ((lift r >>= g) l)
Agrees-lift (ok a) f g l h k = k a refl
Agrees-lift {A} {B} (raised e) f g l h k = (refl, λ p. h (cc))

module _ (python : Python) (env : Env) (config : Config) where
  ensure_session-fresh :
      (l : Link)
      → l.console.csrf ≡ none
      → (ensure_session python env config l.console.csrf l).0 ≡ ok tt
      → (ensure_session python env config l.console.csrf l).1.console.fresh ≡ true
  unfolding ensure_session
  ensure_session-fresh l e h = ground arith

  read_page-fresh :
      (retry other : Io Link Json) (a : Answer) (l : Link)
      → l.console.fresh ≡ true
      → (read_page python env config retry a l ≡ read_page python env config other a l)
        × ((read_page python env config retry a l).0 ≢ raised recursion)
  unfolding read_page
  read_page-fresh retry other a l h = ground arith

  ensure_session-ne-recursion :
      (l : Link) → (ensure_session python env config l.console.csrf l).0 ≢ raised recursion
  unfolding ensure_session
  ensure_session-ne-recursion l = ground arith

  read_page-Agrees :
      (retry other : Io Link Json) (a : Answer) (l : Link)
      → ((l' : Link) → l'.console.csrf ≡ none → Agrees (retry l') (other l'))
      → Agrees (read_page python env config retry a l) (read_page python env config other a l)
  unfolding read_page
  read_page-Agrees retry other a l again = ground (arith, again (drop_session l).1)

  post-ne-recursion :
      (request : Request) (l : Link) → (post python env config request l).0 ≢ raised recursion
  unfolding post
  post-ne-recursion request l = ground arith

  -- The link once there is a session.
  abbrev sessioned : Link → Link
  sessioned l =
      (ensure_session python env config l.console.csrf (read_clock python env config l).1).1

  module _ (start_ms end_ms page : ℕ) (retry other : Io Link Json) where
    request_page-fresh :
        (l : Link)
        → l.console.fresh ≡ true
        → Agrees
            (request_page python env config start_ms end_ms page retry l)
            (request_page python env config start_ms end_ms page other l)
    unfolding request_page post
    request_page-fresh l h =
        let request = flows start_ms end_ms page (csrf_header l.console.csrf) in
        let (r, l') = post python env config request l in
        Agrees-lift r (read_page python env config retry) (read_page python env config other) l'
          (post-ne-recursion request l) (λ a e. read_page-fresh retry other a l' h)

    request_page-Agrees :
        (l : Link)
        → ((l' : Link) → l'.console.csrf ≡ none → Agrees (retry l') (other l'))
        → Agrees
            (request_page python env config start_ms end_ms page retry l)
            (request_page python env config start_ms end_ms page other l)
    unfolding request_page
    request_page-Agrees l again =
        let request = flows start_ms end_ms page (csrf_header l.console.csrf) in
        let (r, l') = post python env config request l in
        Agrees-lift r (read_page python env config retry) (read_page python env config other) l'
          (post-ne-recursion request l) (λ a e. read_page-Agrees retry other a l' again)

    -- If the request agrees after any session that could be had, so does the call.
    attempt-step :
        (l : Link)
        → (((ensure_session python env config l.console.csrf (read_clock python env config l).1).0
              ≡ ok tt)
            → Agrees
                (request_page python env config start_ms end_ms page retry (sessioned l))
                (request_page python env config start_ms end_ms page other (sessioned l)))
        → Agrees
            (attempt python env config start_ms end_ms page retry l)
            (attempt python env config start_ms end_ms page other l)
    unfolding attempt read_clock
    attempt-step l k =
        let l1 = (read_clock python env config l).1 in
        let (r, l') = ensure_session python env config l1.console.csrf l1 in
        elim (Bool-cases (ltb (env.clock l.history) l.console.requests_after)) [
          | inl early ↦ rw early (refl, λ p. cc)
          | inr late ↦ rw late (
              Agrees-lift r (λ _. request_page python env config start_ms end_ms page retry)
                (λ _. request_page python env config start_ms end_ms page other) l'
                (ensure_session-ne-recursion l1) (λ a e. k e))
        ]

  -- A call with no token left does not use the call that it may make again.
  attempt-untokened :
      (start_ms end_ms page : ℕ) (retry other : Io Link Json) (l : Link)
      → l.console.csrf ≡ none
      → Agrees
          (attempt python env config start_ms end_ms page retry l)
          (attempt python env config start_ms end_ms page other l)
  unfolding read_clock
  attempt-untokened start_ms end_ms page retry other l h =
      attempt-step start_ms end_ms page retry other l (λ e.
        request_page-fresh start_ms end_ms page retry other (sessioned l)
          (ensure_session-fresh (read_clock python env config l).1 h e))

  -- However deep the calls may go, the result is that of two, and it is not for want of depth.
  pub fetch_depth-eq-fetch :
      (depth start_ms end_ms page : ℕ) (l : Link)
      → (fetch_depth python env config (suc (suc depth)) start_ms end_ms page l
          ≡ fetch python env config start_ms end_ms page l)
        × ((fetch python env config start_ms end_ms page l).0 ≢ raised recursion)
  unfolding fetch_depth fetch
  fetch_depth-eq-fetch depth start_ms end_ms page l =
      let deeper = fetch_depth python env config (suc depth) start_ms end_ms page in
      let once = fetch_depth python env config 1 start_ms end_ms page in
      let agree = attempt-step start_ms end_ms page deeper once l (λ e.
        request_page-Agrees start_ms end_ms page deeper once (sessioned l) (λ l' h.
          attempt-untokened start_ms end_ms page
            (fetch_depth python env config depth start_ms end_ms page)
            (fetch_depth python env config 0 start_ms end_ms page) l' h)) in
      (agree.0, λ p. agree.1 (ap (λ r. r.0) agree.0 ∙ p))
