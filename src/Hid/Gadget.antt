-- ===== src/Hid/Gadget.antt =====
-- devices/glkvm/hid_input.py: what it asks of the clock, of the lock file and of the device, and
-- how its calls end. Each of them answers as a function of all that has happened so far. Times are
-- in microseconds. A signal's handler raises KeyboardInterrupt at one of these calls.
use home_lab.Prelude.{ℕ, Bool, List, [], ◌∷◌}

-- START_TIMEOUT, REPORT_TIMEOUT, IO_BUDGET, REPORT_ALLOWANCE, CLEANUP_TIMEOUT, RETRY_INTERVAL
abbrev pub start_timeout : ℕ
start_timeout = 1_000_000

abbrev pub report_timeout : ℕ
report_timeout = 1_000_000

abbrev pub io_budget : ℕ
io_budget = 2_000_000

abbrev pub report_allowance : ℕ
report_allowance = 50_000

abbrev pub cleanup_timeout : ℕ
cleanup_timeout = 250_000

abbrev pub retry_interval : ℕ
retry_interval = 10_000

-- A record of the gadget: its bytes.
abbrev pub Report : Type 0
Report = List ℕ

-- NEUTRAL
abbrev pub neutral : Report
neutral = 0 ∷ 0 ∷ 0 ∷ 0 ∷ 0 ∷ 0 ∷ 0 ∷ 0 ∷ []

-- The two files that are held open.
pub data Handle : Type 0 where
  device lock : Handle

-- `open_signal`: a signal before the attribute is set, whether or not the file has been opened
pub data Opened : Type 0 where
  opened no_file open_signal : Opened

pub data Locked : Type 0 where
  locked busy no_lock lock_signal : Locked

-- What `poll` says of one file: whether it is the device, POLLERR, POLLHUP or POLLNVAL, and POLLOUT.
pub record Ready : Type 0 where
  pub is_device : Bool
  pub is_broken : Bool
  pub is_writable : Bool

pub data Polled : Type 0 where
  ready : List Ready → Polled
  poll_interrupted no_poll poll_signal : Polled

-- How many bytes were written, InterruptedError, BlockingIOError, or another OSError.
pub data Written : Type 0 where
  count : ℕ → Written
  write_interrupted full no_write write_signal : Written

pub data Slept : Type 0 where
  slept sleep_signal : Slept

-- Closed, OSError, or a signal in `os.close`
pub data Closed : Type 0 where
  closed no_close close_signal : Closed

pub data Event : Type 0 where
  clock_read : ℕ → Event
  opens : Handle → Opened → Event
  locks : Locked → Event
  polls : ℕ → Polled → Event
  writes : Report → Written → Event
  sleeps : ℕ → Slept → Event
  closes : Handle → Closed → Event

-- All that has happened, the latest first.
abbrev pub History : Type 0
History = List Event

pub record Env : Type 0 where
  pub clock : History → ℕ
  pub open_file : Handle → History → Opened
  pub flock : History → Locked
  pub poll : ℕ → History → Polled
  pub write : Report → History → Written
  pub sleep : ℕ → History → Slept
  pub close : Handle → History → Closed

-- The messages of a HidError.
pub data Reason : Type 0 where
  expired unavailable stopped unclean : Reason
  short : ℕ → Reason

-- What a call raises. `no_end` is no exception: a loop of the model has used up its rounds.
pub data Error : Type 0 where
  hid_error : Reason → Error
  os_error value_error interrupt system_exit no_end : Error
