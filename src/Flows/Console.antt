-- ===== src/Flows/Console.antt =====
-- collector.py, `class Console`: one session on the UniFi console. The object is kept beside the
-- history of what it asked the outside; times are in milliseconds.
pub mod Session
pub mod Quiet
pub mod Depth
use home_lab.Prelude.{
  ℕ, zero, suc, ◌+◌, ◌*◌, max, min, String, Bool, true, false, not, ◌||◌, ◌&&◌, Option, none, some,
  ◌∷◌, ltb, ◌==◌, if◌then◌else◌,
}
use home_lab.Prelude.Int.{ℤ, pos, max_ℕ}
use home_lab.Json.{Json, is_empty}
use home_lab.Flows.Runtime.{
  max_login_backoff_s, max_body_bytes, Config, Python, Error, Outcome, ok, raised, rate_limited,
  read_failed, recursion, Headers, Request, login, flows, Reply, response, http_error, os_error,
  Env, History, clock_read, password_read, posted, session_dropped,
}
use home_lab.Flows.Io.{Io, pure, raise, gets, modify, ◌>>=◌, ◌>>◌}

-- `self.refusal` holds one of two classes.
pub data Refusal : Type 0 where
  auth_failed access_denied : Refusal

abbrev pub error_of : Refusal → Error
error_of Refusal.auth_failed = Error.auth_failed
error_of Refusal.access_denied = Error.access_denied

pub record Console : Type 0 where
  pub csrf : Option String
  pub fresh : Bool
  pub login_after : ℕ
  pub backoff_s : ℕ
  pub refusal : Refusal
  pub requests_after : ℕ
  pub logins_ok : ℕ
  pub logins_failed : ℕ

abbrev pub new_console : Console
new_console = record {
  csrf = none;
  fresh = false;
  login_after = 0;
  backoff_s = 0;
  refusal = Refusal.auth_failed;
  requests_after = 0;
  logins_ok = 0;
  logins_failed = 0;
}

pub record Link : Type 0 where
  pub console : Console
  pub history : History

-- What `_post` returns of an answer: the status, the headers, the body's length and document.
pub record Answer : Type 0 where
  pub status : ℕ
  pub headers : Headers
  pub body_len : ℕ
  pub document : Option Json

abbrev pub non_empty : Option String → Option String
non_empty none = none
non_empty (some t) = if is_empty t then none else some t

-- `headers.get('x-updated-csrf-token') or headers.get('x-csrf-token')`, if it is true
abbrev pub token_of : Headers → Option String
token_of h = elim (non_empty h.updated_csrf_token) [
  | none ↦ non_empty h.csrf_token
  | some t ↦ some t
]

unfoldable pub begin_cycle : Link → Link
begin_cycle l = record l { console = record (l.console) { fresh = false } }

abbrev answer_of : Reply → Outcome Answer
answer_of (response status headers len document) =
    ok (record { status = status; headers = headers; body_len = len; document = document })
answer_of (http_error status headers) =
    ok (record { status = status; headers = headers; body_len = 0; document = none })
answer_of os_error = raised read_failed

-- `_take_token`
pub take_token : Headers → Io Link (Unit {0})
take_token h l = elim (token_of h) [
  | none ↦ (ok tt, l)
  | some t ↦ (ok tt, record l { console = record (l.console) { csrf = some t } })
]

pub drop_session : Io Link (Unit {0})
drop_session l = (
  ok tt,
  record l { console = record (l.console) { csrf = none }; history = session_dropped ∷ l.history },
)

abbrev has_token : Option String → Bool
has_token none = false
has_token (some t) = not (is_empty t)

abbrev is_ok_login : Answer → Option String → Bool
is_ok_login a csrf = (a.status == 200) && has_token csrf

-- The header X-CSRF-Token: after `ensure_session` there is one.
abbrev csrf_header : Option String → String
csrf_header none = ""
csrf_header (some t) = t

-- An accepted page: its token is taken, its document read, and the backoff ends.
accept_page : Answer → Io Link Json
unfolding take_token
accept_page a = if ltb max_body_bytes a.body_len then raise read_failed else do
  take_token a.headers
  elim a.document [
    | none ↦ raise read_failed
    | some document ↦ (do
      modify (λ (l : Link). record l { console = record (l.console) { backoff_s = 0 } })
      pure document)
  ]

module _ (python : Python) (env : Env) (config : Config) where
  unfoldable pub read_clock : Io Link ℕ
  read_clock l =
      let now = env.clock l.history in (ok now, record l { history = clock_read now ∷ l.history })

  pub post : Request → Io Link Answer
  post request l =
      let reply = env.console request l.history in
      (answer_of reply, record l { history = posted request reply ∷ l.history })

  -- `_refuse`
  pub refuse : Refusal → Io Link (Unit {0})
  unfolding read_clock
  refuse refusal l =
      let backoff = min (max (l.console.backoff_s * 2) config.poll_s) max_login_backoff_s in
      (do
        now ← read_clock
        modify λ (l' : Link). record l' {
          console = record (l'.console) {
            refusal = refusal;
            backoff_s = backoff;
            login_after = now + backoff * 1000;
          };
        })
        l

  -- `int(headers.get('Retry-After') or 0)`, zero where that raises ValueError
  abbrev retry_wait : Headers → ℤ
  retry_wait h = elim h.retry_after [
    | none ↦ pos 0
    | some text ↦ elim (python.int_of text) [ none ↦ pos 0 | some n ↦ n ]
  ]

  -- `_rate_limited`
  pub rate_limit : {A : Type 0} → Headers → Io Link A
  unfolding read_clock
  rate_limit h = do
    now ← read_clock
    modify λ (l : Link). record l {
      console = record (l.console) {
        requests_after = now + min (max_ℕ (retry_wait h) config.poll_s) max_login_backoff_s * 1000;
      };
    }
    raise rate_limited

  -- `with open(password_file)`: whether it could be read
  pub read_password : Io Link Bool
  read_password l =
      let readable = env.password l.history in
      (ok readable, record l { history = password_read readable ∷ l.history })

  -- Counts a login by its answer.
  settle_login : Answer → Option String → Io Link (Unit {0})
  unfolding refuse drop_session
  settle_login a csrf =
      if is_ok_login a csrf
      then modify (λ (l : Link). record l {
        console = record (l.console) { logins_ok = l.console.logins_ok + 1; fresh = true };
      })
      else (do
        modify λ (l : Link). record l {
          console = record (l.console) { logins_failed = l.console.logins_failed + 1 };
        }
        drop_session
        refuse Refusal.auth_failed
        raise Error.auth_failed)

  pub log_in : Io Link (Unit {0})
  unfolding read_clock read_password post rate_limit take_token settle_login
  log_in = do
    now ← read_clock
    login_after ← gets (λ (l : Link). l.console.login_after)
    refusal ← gets (λ (l : Link). l.console.refusal)
    if ltb now login_after then raise (error_of refusal) else do
      readable ← read_password
      if not readable then raise Error.auth_failed else do
        a ← post login
        if a.status == 429 then rate_limit a.headers else do
          take_token a.headers
          csrf ← gets (λ (l : Link). l.console.csrf)
          settle_login a csrf

  -- `if not self.csrf: self.login()`
  pub ensure_session : Option String → Io Link (Unit {0})
  unfolding log_in
  ensure_session csrf = if has_token csrf then pure tt else log_in

  -- What the answer to a flows request means; `retry` is the call that the source makes again.
  read_page : Io Link Json → Answer → Io Link Json
  unfolding refuse rate_limit drop_session accept_page
  read_page retry a =
      if (a.status == 401) || (a.status == 403)
      then (do
        reused ← gets (λ (l : Link). not l.console.fresh)
        drop_session
        if reused then retry else do refuse Refusal.access_denied; raise Error.access_denied)
      else if a.status == 429
      then rate_limit a.headers
      else if not (a.status == 200)
      then raise read_failed
      else accept_page a

  -- The request itself, once there is a session.
  request_page : ℕ → ℕ → ℕ → Io Link Json → Io Link Json
  unfolding post read_page
  request_page start_ms end_ms page retry = do
    token ← gets (λ (l : Link). csrf_header l.console.csrf)
    a ← post (flows start_ms end_ms page token)
    read_page retry a

  -- One call of `flows`, with the call that it may make again.
  attempt : ℕ → ℕ → ℕ → Io Link Json → Io Link Json
  unfolding read_clock ensure_session request_page
  attempt start_ms end_ms page retry = do
    now ← read_clock
    requests_after ← gets (λ (l : Link). l.console.requests_after)
    if ltb now requests_after then raise rate_limited else do
      csrf ← gets (λ (l : Link). l.console.csrf)
      ensure_session csrf
      request_page start_ms end_ms page retry

  -- `flows`, going at most `depth` calls deep.
  pub fetch_depth : ℕ → ℕ → ℕ → ℕ → Io Link Json
  unfolding attempt
  fetch_depth zero start_ms end_ms page = raise recursion
  fetch_depth (suc depth) start_ms end_ms page =
      attempt start_ms end_ms page (fetch_depth depth start_ms end_ms page)

  -- `flows`: a call makes itself again at most once (`Console.Session`).
  unfoldable pub fetch : ℕ → ℕ → ℕ → Io Link Json
  unfolding fetch_depth
  fetch start_ms end_ms page = fetch_depth 2 start_ms end_ms page
