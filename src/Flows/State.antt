-- ===== src/Flows/State.antt =====
-- collector.py, what a `Collector` object holds. The heartbeat lock is left out: one thread
-- changes the object, the other reads metrics.
use home_lab.Prelude.{ℕ, ◌+◌, ◌*◌, String, Bool, false, Option, none, List, [], ◌∷◌, if◌then◌else◌}
use home_lab.Flows.Runtime.{Config, Outcome, Line, Result, Env, stop_read, waited, clock_read}
use home_lab.Flows.Io.{Io}
use home_lab.Flows.Console.{Link, new_console}
use home_lab.Flows.Window.PageCheck.{Problem}

pub record Counters : Type 0 where
  pub rows_read : ℕ
  pub rows_written : ℕ
  pub rows_duplicate : ℕ
  pub rows_late : ℕ
  pub pages_read : ℕ
  pub windows_shifted : ℕ
  pub gap_ms : ℕ
  pub ingest_failures : ℕ

pub record Collector : Type 0 where
  pub link : Link
  pub watermark : Option ℕ
  pub window_ms : ℕ
  pub seen : List (String × ℕ)
  pub primed : Bool
  pub pending : List Line
  pub heartbeat : ℕ
  pub counters : Counters
  pub cycles : Result → ℕ
  pub problems : Problem → ℕ
  pub last_result : Option Result
  pub last_success : ℕ
  pub last_gap : ℕ

abbrev pub zero_counters : Counters
zero_counters = record {
  rows_read = 0;
  rows_written = 0;
  rows_duplicate = 0;
  rows_late = 0;
  pages_read = 0;
  windows_shifted = 0;
  gap_ms = 0;
  ingest_failures = 0;
}

-- `__init__`, at a clock reading
unfoldable pub new_collector : Env → Config → Collector
new_collector env config = record {
  link = record { console = new_console; history = clock_read (env.clock []) ∷ [] };
  watermark = none;
  window_ms = config.max_window_s * 1000;
  seen = [];
  primed = false;
  pending = [];
  heartbeat = env.clock [];
  counters = zero_counters;
  cycles = λ _. 0;
  problems = λ _. 0;
  last_result = none;
  last_success = 0;
  last_gap = 0;
}

-- A call on the console or the sink.
abbrev pub on_link : {A : Type 0} → Io Link A → Io Collector A
on_link m s = let (r, l) = m s.link in (r, record s { link = l })

abbrev pub count : (Counters → Counters) → Io Collector (Unit {0})
count f s = (Outcome.ok tt, record s { counters = f s.counters })

module _ (env : Env) where
  -- `self.stop.is_set()`
  abbrev pub read_stop : Io Collector Bool
  read_stop s =
      let set = env.stop s.link.history in
      (
        Outcome.ok set,
        record s { link = record (s.link) { history = stop_read set ∷ s.link.history } },
      )

-- `self.wait(...)`, in ms
abbrev pub wait : ℕ → Io Collector (Unit {0})
wait ms s =
    (Outcome.ok tt, record s { link = record (s.link) { history = waited ms ∷ s.link.history } })

-- `self.problems[p] = self.problems.get(p, 0) + 1`, at a test for that key
abbrev pub bump {ℓ} : {K : Type ℓ} → (K → Bool) → (K → ℕ) → K → ℕ
bump is_key f k = if is_key k then f k + 1 else f k
