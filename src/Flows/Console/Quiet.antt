-- ===== src/Flows/Console/Quiet.antt =====
-- collector.py, `Console.flows`: what was sent to VictoriaLogs before and after.
use home_lab.Prelude.{
  ℕ, zero, suc, refl, List, [], ◌∷◌, arith, String, Option, ltb, Bool-cases, inl, inr,
}
use home_lab.Json.{Json}
use home_lab.Flows.Runtime.{Config, Python, Line, Delivery, flows, Env, History, ingested}
use home_lab.Flows.Io.{Io}
use home_lab.Flows.Io.Leaves.{Leaves, Leaves-bind}
use home_lab.Flows.Console.{
  Link, Answer, csrf_header, read_clock, post, drop_session, log_in, ensure_session, read_page,
  request_page, attempt, fetch_depth, fetch,
}

-- What was sent to VictoriaLogs, and its answers, the latest first.
abbrev pub ingests : History → List (List Line × Delivery)
ingests [] = []
ingests (ingested lines d ∷ h) = (lines, d) ∷ ingests h
ingests (_ ∷ h) = ingests h

abbrev pub sent : Link → List (List Line × Delivery)
sent l = ingests l.history

module _ (python : Python) (env : Env) (config : Config) where
  log_in-sent : Leaves sent (log_in python env config)
  unfolding log_in
  log_in-sent l = ground arith

  read_page-sent :
      (retry : Io Link Json) (a : Answer)
      → Leaves sent retry
      → Leaves sent (read_page python env config retry a)
  unfolding read_page
  read_page-sent retry a h l = ground (arith, h (drop_session l).1)

  request_page-sent :
      (start_ms end_ms page : ℕ) (retry : Io Link Json)
      → Leaves sent retry
      → Leaves sent (request_page python env config start_ms end_ms page retry)
  unfolding request_page post
  request_page-sent start_ms end_ms page retry h l =
      Leaves-bind sent
        (post python env config (flows start_ms end_ms page (csrf_header l.console.csrf)))
        (read_page python env config retry) (λ l'. refl) (λ a. read_page-sent retry a h) l

  ensure_session-sent : (csrf : Option String) → Leaves sent (ensure_session python env config csrf)
  unfolding ensure_session
  ensure_session-sent csrf l = ground (arith, log_in-sent l)

  attempt-sent :
      (start_ms end_ms page : ℕ) (retry : Io Link Json)
      → Leaves sent retry
      → Leaves sent (attempt python env config start_ms end_ms page retry)
  unfolding attempt read_clock
  attempt-sent start_ms end_ms page retry h l =
      elim (Bool-cases (ltb (env.clock l.history) l.console.requests_after)) [
        | inl early ↦ rw early refl
        | inr late ↦ rw late (
            Leaves-bind sent (ensure_session python env config l.console.csrf)
              (λ _. request_page python env config start_ms end_ms page retry)
              (ensure_session-sent l.console.csrf)
              (λ _. request_page-sent start_ms end_ms page retry h)
              (read_clock python env config l).1)
      ]

  fetch_depth-sent :
      (depth start_ms end_ms page : ℕ)
      → Leaves sent (fetch_depth python env config depth start_ms end_ms page)
  unfolding fetch_depth
  fetch_depth-sent zero start_ms end_ms page l = refl
  fetch_depth-sent (suc depth) start_ms end_ms page l =
      attempt-sent start_ms end_ms page (fetch_depth python env config depth start_ms end_ms page)
        (fetch_depth-sent depth start_ms end_ms page) l

  pub fetch-sent :
      (start_ms end_ms page : ℕ) → Leaves sent (fetch python env config start_ms end_ms page)
  unfolding fetch
  fetch-sent = fetch_depth-sent 2
