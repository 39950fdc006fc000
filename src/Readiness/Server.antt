-- ===== src/Readiness/Server.antt =====
-- readiness.py: what it asks of the model server and what the server answers, the conditions whose
-- failure it reports, and `fetch`. What is sent is kept as far as it varies; the fixed texts and the
-- names of the fields are left out. The server answers as a function of all that was asked before.
use home_lab.Prelude.{ℕ, String, Option, List, [], ◌∷◌, Bool, true, false, ◌≡◌, refl, arith}
use home_lab.Prelude.Int.{ℤ}
use home_lab.Json.{Json}
use home_lab.Program.{Io, pure, raise, raise_if, ◌>>=◌}
use home_lab.Program.Returns.{Returns}
use home_lab.Readiness.Nearest.{Effort}

pub data Request : Type 0 where
  ask_health ask_models ask_weather : Request
  ask_smoke : ℕ → Request
  ask_warmup : ℤ → ℕ → Request
  ask_render : Option Effort → Request

-- A JSON document; an HTTP error, with its code and what of its body is read; or any other failure:
-- no connection, a time-out, a body that is not JSON.
pub data Reply : Type 0 where
  body : Json → Reply
  http_error : ℕ → String → Reply
  failed : Reply

pub data Event : Type 0 where
  asked : Request → Reply → Event

-- The latest first.
abbrev pub History : Type 0
History = List Event

-- `in_pool workers requests h r` is the answer to `r` when a pool with so many workers is given all
-- these, so that at most as many of them are under way at a time. How the threads are scheduled is
-- the server's part. In the history the requests stand in the order of the lanes, whatever the order
-- in which the answers came.
pub record Server : Type 0 where
  pub answer : Request → History → Reply
  pub in_pool : ℕ → List Request → History → Request → Reply

-- What of Python's library the checks use: `==` of two floats, and of a float and an integer, given
-- as the JSON texts; `str.strip`, `str.lower`, `in` on texts, `str` of a value, and `json.loads`.
pub record Python : Type 0 where
  pub same_floats : String → String → Bool
  pub float_is_int : String → ℤ → Bool
  pub strip : String → String
  pub lower : String → String
  pub is_within : String → String → Bool
  pub text_of : Json → String
  pub loads : String → Option Json

-- The RuntimeErrors, in the order of the source
pub data Check : Type 0 where
  health_http : ℕ → String → Check
  not_object not_strict other_streams other_context small_pool : Check
  warming other_model other_lanes no_spill : Check
  bad_spill : String → Check
  not_listed_once other_owner : Check
  other_length : String → Check
  other_efforts chat_error no_choices : Check
  bad_smoke no_usage bad_warmup bad_tool_call bad_arguments : Check
  no_tokens : Option Effort → Check
  all_refused : List Effort → Check
  some_refused : List Effort → List Effort → Check
  shared_prompt : List Effort → Check
  not_as : Effort → Effort → Check

-- A RuntimeError; an HTTPError; URLError, TimeoutError or ValueError of `fetch`; TypeError,
-- AttributeError, KeyError or ValueError of a value that is not as expected; the parser's exit.
pub data Error : Type 0 where
  refused : Check → Error
  http_failed : ℕ → String → Error
  fetch_failed bad_value usage_error : Error

abbrev pub Gate : Type 0 → Type 0
Gate A = Io Error History A

-- `if <condition>: raise RuntimeError(...)`, one after the other
unfoldable pub check_all : List (Bool × Check) → Gate (Unit {0})
check_all [] = pure tt
check_all ((is_bad, check) ∷ checks) = raise_if is_bad (refused check) >>= λ _. check_all checks

abbrev pub NoneBad : List (Bool × Check) → Type 0
NoneBad [] = Unit
NoneBad ((is_bad, check) ∷ checks) = (is_bad ≡ false) × NoneBad checks

-- What `fetch` makes of a reply
abbrev pub received : Reply → Gate Json
received (body b) = pure b
received (http_error code detail) = raise (http_failed code detail)
received failed = raise fetch_failed

module _ (server : Server) where
  -- `fetch`
  unfoldable pub fetch : Request → Gate Json
  fetch r h = let a = server.answer r h in received a (asked r a ∷ h)

pub check_all-NoneBad :
    (checks : List (Bool × Check)) (h t : History)
    → Returns (check_all checks) h tt t
    → NoneBad checks × (h ≡ t)
unfolding check_all
check_all-NoneBad [] h t r = (tt, ground (arith, r))
check_all-NoneBad ((true, check) ∷ checks) h t r = ground (arith, r)
check_all-NoneBad ((false, check) ∷ checks) h t r =
    let rest = check_all-NoneBad checks h t r in ((refl, rest.0), rest.1)
