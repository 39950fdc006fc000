-- ===== src/Flows/Cycle.antt =====
-- collector.py, `Collector.cycle` and `healthy`.
pub mod Steps
pub mod Loop
pub mod Total
pub mod Watermark
pub mod Safety
use home_lab.Prelude.{
  ℕ, zero, suc, ◌+◌, ◌-◌, ◌*◌, ◌/◌, min, max, String, Bool, true, false, not, ◌&&◌, ◌||◌, Option,
  none, some, List, [], ◌∷◌, ◌++◌, length, ltb, leb, ◌==◌, if◌then◌else◌,
}
use home_lab.Prelude.Dict.{Dict}
use home_lab.Flows.Runtime.{
  page_size, Config, Python, Error, Outcome, ok, raised, auth_failed, access_denied, rate_limited,
  read_failed, ingest_failed, state_unavailable, unexpected, overflow, recursion, Result, Line,
  checkpoint, Reason, beyond_catchup, query_cap, Env,
}
use home_lab.Flows.Io.{Io, pure, raise, lift, gets, modify, when, ◌>>=◌, ◌>>◌}
use home_lab.Flows.Console.{Link, begin_cycle, read_clock}
use home_lab.Flows.Sink.{write, last_watermark}
use home_lab.Flows.Window.PageCheck.{Problem, cycle_budget, Row, Rows}
use home_lab.Flows.Window.{Window, read_window}
use home_lab.Flows.State.{Collector, Counters, on_link, count, bump}
use home_lab.Flows.Store.{store, record_gap}
use home_lab.Flows.Times.{times_shown}
use home_lab.Flows.Advance.{add_problem, advance, restore}

-- `error.result` of a CycleError; the ValueErrors and their like end the cycle as incomplete, and
-- anything else is not caught.
abbrev pub result_of : Error → Option Result
result_of Error.auth_failed = some Result.auth_failed
result_of Error.access_denied = some Result.access_denied
result_of Error.rate_limited = some Result.rate_limited
result_of Error.read_failed = some Result.read_failed
result_of Error.ingest_failed = some Result.ingest_failed
result_of Error.state_unavailable = some Result.state_unavailable
result_of Error.unexpected = some Result.incomplete
result_of Error.overflow = none
result_of Error.recursion = none

-- `self.problems['unexpected_row'] = ...`, for the errors that are no CycleError
abbrev pub note_unexpected : Error → Collector → Collector
note_unexpected Error.unexpected s = add_problem Problem.unexpected_row s
note_unexpected _ s = s

-- The handlers of `cycle`.
unfoldable pub handled : Outcome Result × Collector → Outcome Result × Collector
handled (ok result, s) = (ok result, s)
handled (raised e, s) = elim (result_of e) [
  | none ↦ (raised e, s)
  | some result ↦ (ok result, note_unexpected e s)
]

module _ (python : Python) (env : Env) (config : Config) where
  -- The `try` of `cycle`, with its handlers.
  unfoldable pub guarded : ℕ → ℕ → Io Collector Result
  guarded deadline pages s =
      handled ((restore python env config >> advance python env config deadline pages) s)

abbrev pub result_index : Result → ℕ
result_index Result.ok = 0
result_index Result.no_rows = 1
result_index Result.backlog = 2
result_index Result.incomplete = 3
result_index Result.auth_failed = 4
result_index Result.access_denied = 5
result_index Result.rate_limited = 6
result_index Result.read_failed = 7
result_index Result.ingest_failed = 8
result_index Result.state_unavailable = 9

abbrev pub is_result : Result → Result → Bool
is_result a b = result_index a == result_index b

-- `result in ('ok', 'no_rows')`
abbrev pub is_success : Result → Bool
is_success r = is_result r Result.ok || is_result r Result.no_rows

abbrev pub same_watermark : Option ℕ → ℕ → Bool
same_watermark none w = false
same_watermark (some v) w = v == w

abbrev pub is_none_pending : List Line → Bool
is_none_pending [] = true
is_none_pending (_ ∷ _) = false

abbrev add_failure : Counters → Counters
add_failure c = record c { ingest_failures = c.ingest_failures + 1 }

-- `except IngestFailed`
abbrev pub after_checkpoint : Result → Outcome (Unit {0}) → Outcome Result
after_checkpoint result (ok _) = ok result
after_checkpoint result (raised Error.ingest_failed) =
    ok (
      if is_success result || is_result result Result.backlog then Result.ingest_failed else result)
after_checkpoint result (raised e) = raised e

module _ (python : Python) (env : Env) (config : Config) where
  -- Writes the pending gaps and a checkpoint; a failure keeps the gaps and turns a good result
  -- into `ingest_failed`.
  unfoldable pub write_checkpoint : Result → ℕ → Io Collector Result
  write_checkpoint result watermark s =
      let (r, s') =
        (do
          now ← on_link (read_clock python env config)
          lift (times_shown python (now ∷ []))
          on_link (write env (s.pending ++ checkpoint now watermark result ∷ []))
          modify (λ (s : Collector). record s { pending = [] }))
          s in
      (after_checkpoint result r, s')

  -- `if self.watermark is not None and (self.watermark != before or self.pending)`
  unfoldable pub persist : Option ℕ → Result → Io Collector Result
  persist before result s = elim s.watermark [
    | none ↦ (ok result, s)
    | some w ↦
        (if same_watermark before w && is_none_pending s.pending
            then pure result
            else write_checkpoint result w)
          s
  ]

  -- The counters at the end of a cycle.
  unfoldable pub finish_cycle : Result → Io Collector (Unit {0})
  finish_cycle result = do
    when (is_result result Result.ingest_failed) (count add_failure)
    modify λ (s : Collector). record s {
      cycles = bump (λ r. is_result r result) s.cycles;
      last_result = some result;
    }
    when (is_success result) (do
      now ← on_link (read_clock python env config)
      modify (λ (s : Collector). record s { last_success = now }))
    beat ← on_link (read_clock python env config)
    modify (λ (s : Collector). record s { heartbeat = beat })

  -- `max(max_pages_per_cycle, query_cap_rows // PAGE_SIZE + 1)`
  abbrev pub page_budget : ℕ
  page_budget = max config.max_pages_per_cycle (config.query_cap_rows / page_size + 1)

  -- The log at the end of a cycle, with `iso(self.watermark)`
  unfoldable pub log_cycle : Io Collector (Unit {0})
  log_cycle s = elim s.watermark [ none ↦ (ok tt, s) | some w ↦ (times_shown python (w ∷ []), s) ]

  -- What follows the handlers.
  unfoldable pub conclude : Option ℕ → Result → Io Collector Result
  conclude before result = do
    final ← persist before result
    finish_cycle final
    log_cycle
    pure final

  unfoldable pub cycle : Io Collector Result
  cycle = do
    modify (λ (s : Collector). record s { link = begin_cycle s.link })
    now ← on_link (read_clock python env config)
    before ← gets (λ (s : Collector). s.watermark)
    result ← guarded python env config (now + config.max_cycle_s * 1000) page_budget
    conclude before result

  -- `healthy`: at a clock reading
  unfoldable pub healthy : Io Collector Bool
  healthy = do
    now ← on_link (read_clock python env config)
    beat ← gets (λ (s : Collector). s.heartbeat)
    pure (ltb (now - beat) ((3 * config.poll_s + config.max_cycle_s) * 1000))
