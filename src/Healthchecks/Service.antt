-- ===== src/Healthchecks/Service.antt =====
-- healthchecks.py, what the program exchanges with healthchecks.io and the terminal, and how its
-- calls end. The service and the terminal answer as functions of all that has happened so far.
use home_lab.Prelude.{ℕ, String, Bool, Option, List}
use home_lab.Json.{Json, Fields}

-- A declared check, with its slug.
pub record Want : Type 0 where
  pub slug : String
  pub fields : Fields

-- What `call` asks: GET checks/, GET channels/, POST checks/, POST checks/<uuid>.
pub data Request : Type 0 where
  get_checks get_channels : Request
  upsert : Fields → Request
  update : Json → Fields → Request

-- A status with JSON, or any failure of the request.
pub data Reply : Type 0 where
  reply : ℕ → Json → Reply
  no_reply : Reply

-- What the plan shows of one declared check: the request's body, and for a live check its status
-- and the fields that change.
pub data Entry : Type 0 where
  creates : String → Fields → Entry
  updates : String → Json → List String → Fields → Entry

pub data Problem : Type 0 where
  missing : String → Problem
  not_up : String → Json → Problem
  timing_differs : String → Problem

pub data Failure : Type 0 where
  lost mismatched url_changed : String → Failure
  status_changed : String → Json → Json → Failure
  down : String → Json → Failure

-- The messages of a `Refusal` after the declaration is loaded.
pub data Stop : Type 0 where
  request_failed not_confirmed changed_since : Stop
  ambiguous : String → Stop
  nothing_sent : List Problem → Stop
  wrong_status : String → ℕ → ℕ → Stop
  unverified : List Failure → Stop

-- A call returns, raises a Refusal, or raises anything else, such as a KeyError.
pub data Ending (A : Type 0) : Type 0 where
  returned : A → Ending A
  refused : Stop → Ending A
  crashed : Ending A

pub data Event : Type 0 where
  called : Request → Reply → Event
  shown : List Entry → List Json → Event
  typed : Option String → Event

-- All that has happened, the latest first.
abbrev pub History : Type 0
History = List Event

-- The service, the terminal (none at its end), Python's `==` on JSON values, and the text
-- `"<m> of <n> project channels"`.
pub record Env : Type 0 where
  pub api : Request → History → Reply
  pub input : History → Option String
  pub equal : Json → Json → Bool
  pub partial : ℕ → ℕ → String

abbrev pub Step : Type 0 → Type 0
Step A = History → Ending A × History

module _ {A : Type 0} where
  abbrev pub pure : A → Step A
  pure a h = (returned a, h)

  abbrev pub lift : Ending A → Step A
  lift r h = (r, h)

infixl 5 ◌>>=◌ ◌>>◌
abbrev pub ◌>>=◌ : {A B : Type 0} → Step A → (A → Step B) → Step B
◌>>=◌ m f h =
    let (r, h') = m h in
    elim r [ returned a ↦ f a h' | refused why ↦ (refused why, h') | crashed ↦ (crashed, h') ]

abbrev pub ◌>>◌ : {A B : Type 0} → Step A → Step B → Step B
m >> k = m >>= λ _. k
