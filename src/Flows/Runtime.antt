-- ===== src/Flows/Runtime.antt =====
-- What collector.py (kubernetes/apps/observability/unifi-flows/app/collector.py) is configured
-- with, how its calls end, and the world that it talks to. The clock, the stop flag, the password
-- file, the UniFi console and VictoriaLogs answer as functions of all that has happened so far,
-- so a statement about every `Env` is one about every behaviour of the outside.
use home_lab.Prelude.{ℕ, ◌*◌, String, Bool, Option, List}
use home_lab.Prelude.Int.{ℤ}
use home_lab.Json.{Json}

abbrev pub page_size : ℕ
page_size = 100

abbrev pub max_body_bytes : ℕ
max_body_bytes = 4 * 1024 * 1024

abbrev pub max_batch_bytes : ℕ
max_batch_bytes = 1024 * 1024

abbrev pub max_login_backoff_s : ℕ
max_login_backoff_s = 3600

-- The numbers of `Config`; the addresses and names only go into requests. `page_delay_ms` is the
-- source's `page_delay_s`, and zero where that is zero.
pub record Config : Type 0 where
  pub poll_s : ℕ
  pub overlap_s : ℕ
  pub settle_s : ℕ
  pub initial_lookback_s : ℕ
  pub max_catchup_s : ℕ
  pub max_window_s : ℕ
  pub min_window_s : ℕ
  pub query_cap_rows : ℕ
  pub max_pages_per_cycle : ℕ
  pub page_delay_ms : ℕ
  pub max_cycle_s : ℕ

abbrev pub default_config : Config
default_config = record {
  poll_s = 300;
  overlap_s = 120;
  settle_s = 30;
  initial_lookback_s = 900;
  max_catchup_s = 72000;
  max_window_s = 600;
  min_window_s = 30;
  query_cap_rows = 10000;
  max_pages_per_cycle = 200;
  page_delay_ms = 100;
  max_cycle_s = 240;
}

-- The classes of exceptions that a cycle meets. `unexpected` is an AttributeError, KeyError,
-- TypeError or ValueError; `overflow` is an OverflowError, `recursion` a call that goes deeper
-- than the model's bound.
pub data Error : Type 0 where
  auth_failed access_denied rate_limited read_failed ingest_failed state_unavailable : Error
  unexpected overflow recursion : Error

pub data Outcome (A : Type 0) : Type 0 where
  ok : A → Outcome A
  raised : Error → Outcome A

-- RESULTS
pub data Result : Type 0 where
  ok no_rows backlog incomplete auth_failed access_denied rate_limited : Result
  read_failed ingest_failed state_unavailable : Result

-- `datetime.fromtimestamp` and `isoformat` of a number of milliseconds
pub data Stamp : Type 0 where
  stamp : String → Stamp
  value_error overflow_error : Stamp

-- Python's library, as far as the collector's results depend on it: `str`, `str.lower`, `==`,
-- `sorted(set(...))`, `int(text)`, the flow digest `sha256(repr(key)).hexdigest()[:24]`, `iso`,
-- and the length of `json.dumps` of a record.
pub record Python : Type 0 where
  pub str_of : Json → String
  pub lower : String → String
  pub equal : Json → Json → Bool
  pub sort_unique : List String → List String
  pub int_of : String → Option ℤ
  pub digest : List Json → String
  pub iso : Json → Stamp
  pub dumped_len : List (String × Json) → ℕ

-- A line for VictoriaLogs: a flow's record, a coverage gap (written at, start, end, in ms; its
-- reason) or a checkpoint (written at, watermark, result).
pub data Reason : Type 0 where
  beyond_catchup query_cap : Reason

pub data Line : Type 0 where
  flow : List (String × Json) → Line
  gap : ℕ → ℕ → ℕ → Reason → Line
  checkpoint : ℕ → ℕ → Result → Line

-- The payload of a flows request that varies: the window, the page and the CSRF token.
pub data Request : Type 0 where
  login : Request
  flows : ℕ → ℕ → ℕ → String → Request

pub record Headers : Type 0 where
  pub updated_csrf_token : Option String
  pub csrf_token : Option String
  pub retry_after : Option String

-- What the console answers: a status with headers and a body (its length, and what `json.loads`
-- makes of it, if it is JSON), an HTTPError, whose body is dropped, or no answer at all.
pub data Reply : Type 0 where
  response : ℕ → Headers → ℕ → Option Json → Reply
  http_error : ℕ → Headers → Reply
  os_error : Reply

-- VictoriaLogs' answer: a status, or no answer. A checkpoint query's answer also has its lines.
pub data Delivery : Type 0 where
  status : ℕ → Delivery
  os_error : Delivery

-- A line of the answer: blank, with a watermark, raising ValueError or KeyError on reading, or
-- raising TypeError.
pub data Stored : Type 0 where
  blank : Stored
  watermark : ℕ → Stored
  invalid : Stored
  wrong_type : Stored

pub data Found : Type 0 where
  found : ℕ → List Stored → Found
  os_error : Found

pub data Event : Type 0 where
  clock_read : ℕ → Event
  stop_read : Bool → Event
  password_read : Bool → Event
  posted : Request → Reply → Event
  session_dropped : Event
  ingested : List Line → Delivery → Event
  queried : Found → Event
  waited : ℕ → Event

-- All that has happened, the latest first.
abbrev pub History : Type 0
History = List Event

-- The clock reads milliseconds.
pub record Env : Type 0 where
  pub clock : History → ℕ
  pub stop : History → Bool
  pub password : History → Bool
  pub console : Request → History → Reply
  pub ingest : List Line → History → Delivery
  pub query : History → Found
