-- ===== src/Flows/Console/Session.antt =====
-- collector.py, `Console.login` and `Console.flows`: how often one call logs in and calls itself.
use home_lab.Prelude.{
  ℕ, zero, suc, ◌+◌, ◌≤◌, ◌≡◌, Bool, true, false, [], ◌∷◌, arith, ltb, Bool-cases, inl, inr,
}
use home_lab.Json.{Json}
use home_lab.Flows.Runtime.{Config, Python, Outcome, ok, raised, login, flows, Env, History, posted}
use home_lab.Flows.Io.{Io, lift, ◌>>=◌}
use home_lab.Flows.Console.{
  Link, Answer, read_clock, post, request_page, has_token, csrf_header, drop_session, log_in,
  ensure_session, read_page, attempt, fetch_depth, fetch,
}

-- How many login requests the history holds.
abbrev pub login_count : History → ℕ
login_count [] = 0
login_count (posted login _ ∷ h) = suc (login_count h)
login_count (_ ∷ h) = login_count h

-- The logins that are left to this cycle: none once the session is fresh.
abbrev pub spare : Bool → ℕ
spare true = 0
spare false = 1

abbrev pub IsTokened : Link → Type 0
IsTokened l = l.console.fresh ≡ true → has_token l.console.csrf ≡ true

-- How a call that began at `l` may end: with a result, the logins used and left are no more than
-- before and there is a token; raising, at most the one login has been used.
abbrev pub Spends : {A : Type 0} → Link → Outcome A × Link → Type 0
Spends l (ok _, l') =
    (login_count l'.history + spare l'.console.fresh
      ≤ login_count l.history + spare l.console.fresh)
    × (has_token l'.console.csrf ≡ true)
Spends l (raised _, l') = login_count l'.history ≤ login_count l.history + spare l.console.fresh

Spends-trans :
    {B : Type 0} (l l' : Link) (r : Outcome B × Link)
    → Spends {A = Unit {0}} l (ok tt, l')
    → Spends l' r
    → Spends l r
Spends-trans l l' (ok _, l2) h k = ground arith
Spends-trans l l' (raised _, l2) h k = ground arith

module _ {A B : Type 0} where
  Spends-lift :
      (l l' : Link) (r : Outcome A) (f : A → Io Link B)
      → login_count l'.history ≤ login_count l.history + spare l.console.fresh
      → ((a : A) → Spends l (f a l'))
      → Spends l ((lift r >>= f) l')
  Spends-lift l l' (ok a) f quiet rest = rest a
  Spends-lift l l' (raised e) f quiet rest = quiet

  Spends-step :
      (l : Link) (r : Outcome A × Link) (f : A → Io Link B)
      → Spends l r
      → ((a : A) (l' : Link) → has_token l'.console.csrf ≡ true → Spends l' (f a l'))
      → Spends l ((lift r.0 >>= f) r.1)
  Spends-step l (ok a, l') f h rest = Spends-trans l l' (f a l') h (rest a l' h.1)
  Spends-step l (raised e, l') f h rest = h

module _ (python : Python) (env : Env) (config : Config) where
  log_in-Spends : (l : Link) → l.console.fresh ≡ false → Spends l (log_in python env config l)
  unfolding log_in
  log_in-Spends l h = ground arith

  ensure_session-Spends :
      (l : Link) → IsTokened l → Spends l (ensure_session python env config l.console.csrf l)
  unfolding ensure_session
  ensure_session-Spends l h = ground (arith, log_in-Spends l)

  -- A page is read in one call, or the call is made again without a token.
  read_page-Spends :
      (retry : Io Link Json) (a : Answer) (l : Link)
      → ((l' : Link) → l'.console.fresh ≡ false → Spends l' (retry l'))
      → has_token l.console.csrf ≡ true
      → Spends l (read_page python env config retry a l)
  unfolding read_page
  read_page-Spends retry a l again h = ground (arith, again (drop_session l).1)

  request_page-Spends :
      (start_ms end_ms page : ℕ) (retry : Io Link Json) (l : Link)
      → ((l' : Link) → l'.console.fresh ≡ false → Spends l' (retry l'))
      → has_token l.console.csrf ≡ true
      → Spends l (request_page python env config start_ms end_ms page retry l)
  unfolding request_page post
  request_page-Spends start_ms end_ms page retry l again h =
      let request = flows start_ms end_ms page (csrf_header l.console.csrf) in
      let l' = (post python env config request l).1 in
      Spends-lift l l' (post python env config request l).0 (read_page python env config retry)
        (omega arith) (λ a. read_page-Spends retry a l' again h)

  attempt-Spends :
      (start_ms end_ms page : ℕ) (retry : Io Link Json) (l : Link)
      → ((l' : Link) → l'.console.fresh ≡ false → Spends l' (retry l'))
      → IsTokened l
      → Spends l (attempt python env config start_ms end_ms page retry l)
  unfolding attempt read_clock
  attempt-Spends start_ms end_ms page retry l again h =
      let l1 = (read_clock python env config l).1 in
      elim (Bool-cases (ltb (env.clock l.history) l.console.requests_after)) [
        | inl early ↦ rw early (omega arith)
        | inr late ↦ rw late (
            Spends-step l1 (ensure_session python env config l1.console.csrf l1)
              (λ _. request_page python env config start_ms end_ms page retry)
              (ensure_session-Spends l1 h)
              (λ _ l2 t. request_page-Spends start_ms end_ms page retry l2 again t))
      ]

  pub fetch_depth-Spends :
      (depth start_ms end_ms page : ℕ) (l : Link)
      → IsTokened l
      → Spends l (fetch_depth python env config depth start_ms end_ms page l)
  unfolding fetch_depth
  fetch_depth-Spends zero start_ms end_ms page l h = omega arith
  fetch_depth-Spends (suc depth) start_ms end_ms page l h =
      let retry = fetch_depth python env config depth start_ms end_ms page in
      attempt-Spends start_ms end_ms page retry l
        (λ l' e. fetch_depth-Spends depth start_ms end_ms page l' (λ f. cc)) h

  -- If a session that is fresh has a token when `flows` is called, then the call posts at most one
  -- login, none in a fresh session, and leaves a token if it returns.
  pub fetch-Spends :
      (start_ms end_ms page : ℕ) (l : Link)
      → IsTokened l
      → Spends l (fetch python env config start_ms end_ms page l)
  unfolding fetch
  fetch-Spends start_ms end_ms page l h = fetch_depth-Spends 2 start_ms end_ms page l h
