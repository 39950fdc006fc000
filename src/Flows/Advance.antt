-- ===== src/Flows/Advance.antt =====
-- collector.py, `Collector.advance` and `restore`.
use home_lab.Prelude.{
  ℕ, zero, suc, ◌+◌, ◌-◌, ◌*◌, ◌/◌, min, max, Bool, true, not, ◌&&◌, Option, none, some, [], ◌∷◌,
  length, ltb, leb, ◌==◌, if◌then◌else◌,
}
use home_lab.Prelude.Dict.{Dict}
use home_lab.Flows.Runtime.{
  Config, Python, Outcome, ok, raised, unexpected, recursion, Result, beyond_catchup, query_cap,
  Env,
}
use home_lab.Flows.Io.{Io, pure, raise, lift, gets, modify, when, ◌>>=◌, ◌>>◌}
use home_lab.Flows.Console.{read_clock}
use home_lab.Flows.Sink.{last_watermark}
use home_lab.Flows.Window.PageCheck.{Problem, cycle_budget, Rows}
use home_lab.Flows.Window.{Window, read_window}
use home_lab.Flows.State.{Collector, Counters, on_link, count, bump}
use home_lab.Flows.Store.{store, record_gap}
use home_lab.Flows.Times.{times_shown}

-- `min(row['time'] for row in window.rows.values())`, which raises ValueError on no rows
abbrev pub oldest_row : Rows → Outcome ℕ
oldest_row [] = raised unexpected
oldest_row ((_, row) ∷ []) = ok row.time
oldest_row ((_, row) ∷ r ∷ rows) = elim (oldest_row (r ∷ rows)) [
  | ok t ↦ ok (min row.time t)
  | raised e ↦ raised e
]

-- `{k: v for k, v in self.seen.items() if v >= floor}`
abbrev pub prune : ℕ → Dict ℕ → Dict ℕ
prune floor [] = []
prune floor ((k, v) ∷ seen) = if leb floor v then (k, v) ∷ prune floor seen else prune floor seen

abbrev pub problem_index : Problem → ℕ
problem_index Problem.cycle_budget = 0
problem_index Problem.unexpected_shape = 1
problem_index Problem.invalid_pagination = 2
problem_index Problem.ignored_page = 3
problem_index Problem.changing_total = 4
problem_index Problem.unexpected_row = 5
problem_index Problem.window_ignored = 6
problem_index Problem.repeated_page = 7
problem_index Problem.empty_page = 8
problem_index Problem.short_count = 9

abbrev pub add_problem : Problem → Collector → Collector
add_problem p s = record s { problems = bump (λ q. problem_index q == problem_index p) s.problems }

-- What one round of the loop in `advance` asks for: to go on with the pages that are left and the
-- rows that it read, or to end the cycle with a result.
pub data Turn : Type 0 where
  go_on : ℕ → ℕ → Turn
  end_with : Result → Turn

abbrev pub add_shifted : Counters → Counters
add_shifted c = record c { windows_shifted = c.windows_shifted + 1 }

-- The watermark; arithmetic on None raises TypeError.
abbrev pub get_watermark : Io Collector ℕ
get_watermark s = elim s.watermark [ none ↦ (raised unexpected, s) | some w ↦ (ok w, s) ]

module _ (python : Python) (env : Env) (config : Config) where
  -- A window at the query cap even at its smallest width: the rows are newest first, so the time
  -- before the oldest is given up.
  unfoldable pub record_cap : ℕ → Window → Io Collector (Unit {0})
  record_cap watermark window = do
    oldest ← lift (oldest_row window.rows)
    record_gap python env config watermark oldest query_cap

  abbrev pub moved : ℕ → Collector → Collector
  moved end_ms s = record s {
    watermark = some end_ms;
    primed = true;
    seen = prune (end_ms - 2 * config.overlap_s * 1000) s.seen;
    window_ms = min (s.window_ms * 2) (config.max_window_s * 1000);
  }

  -- The window was read in full, or as far as the query cap lets it: the watermark moves.
  unfoldable pub move : ℕ → ℕ → Window → Io Collector (Unit {0})
  move watermark end_ms window = do
    when window.capped (record_cap watermark window)
    modify (moved end_ms)

  -- After the rows are stored: what the window's problem makes of the cycle.
  unfoldable pub settle : ℕ → ℕ → Window → ℕ → Io Collector Turn
  settle watermark end_ms window left = elim window.problem [
    | none ↦ (do move watermark end_ms window; pure (go_on left (length window.rows)))
    | some p ↦
        if problem_index p == problem_index cycle_budget
        then pure (end_with Result.backlog)
        else (do
          modify (add_problem p)
          lift (times_shown python ((watermark - config.overlap_s * 1000) ∷ end_ms ∷ []))
          pure (end_with Result.incomplete))
  ]

  abbrev pub count_shifted : Window → Io Collector (Unit {0})
  count_shifted window = when window.shifted (count add_shifted)

  unfoldable pub take_window : ℕ → ℕ → Window → ℕ → Io Collector Turn
  take_window watermark end_ms window left = do
    store python env config watermark window
    count_shifted window
    settle watermark end_ms window left

  abbrev pub halved : ℕ → Collector → Collector
  halved window_ms s = record s { window_ms = max (window_ms / 2) (config.min_window_s * 1000) }

  -- What becomes of a window and the pages left: a capped one is read again, half as wide.
  unfoldable pub handle_window : ℕ → ℕ → ℕ → Bool → Window × ℕ → Io Collector Turn
  handle_window watermark end_ms window_ms at_floor read =
      if read.0.capped && not at_floor
      then (do modify (halved window_ms); pure (go_on read.1 0))
      else take_window watermark end_ms read.0 read.1

  -- The body of the loop, with the pages that the budget has, at a width of the window.
  unfoldable pub round_at : ℕ → ℕ → ℕ → ℕ → ℕ → Io Collector Turn
  round_at deadline end_limit watermark pages window_ms = do
    let end_ms = min (watermark + window_ms) end_limit
    let start_ms = watermark - config.overlap_s * 1000
    let at_floor = leb window_ms (config.min_window_s * 1000)
    read ← read_window python env config deadline start_ms end_ms at_floor pages
    handle_window watermark end_ms window_ms at_floor read

  unfoldable pub round : ℕ → ℕ → ℕ → ℕ → Io Collector Turn
  round deadline end_limit watermark pages = do
    window_ms ← gets (λ (s : Collector). s.window_ms)
    round_at deadline end_limit watermark pages window_ms

  -- Goes on with the loop, or ends it.
  unfoldable pub take_turn : (ℕ → ℕ → Io Collector Result) → Turn → Io Collector Result
  take_turn again (end_with result) = pure result
  take_turn again (go_on left more) = again left more

  unfoldable pub round_from :
      ℕ → ℕ → ℕ → ℕ → (ℕ → ℕ → Io Collector Result) → ℕ → Io Collector Result
  round_from deadline end_limit pages rows again watermark =
      if not (ltb watermark end_limit)
      then pure (if rows == 0 then Result.no_rows else Result.ok)
      else (do turn ← round deadline end_limit watermark pages; take_turn again turn)

  -- The loop of `advance`, for so many rounds. `rows` counts the rows read so far.
  unfoldable pub rounds : ℕ → ℕ → ℕ → ℕ → ℕ → Io Collector Result
  rounds zero deadline end_limit pages rows = raise recursion
  rounds (suc n) deadline end_limit pages rows = do
    watermark ← get_watermark
    round_from deadline end_limit pages rows
        (λ left more. rounds n deadline end_limit left (rows + more)) watermark

  -- What is older than the console keeps is given up.
  unfoldable pub catch_up : ℕ → Io Collector (Unit {0})
  catch_up oldest = do
    watermark ← get_watermark
    when (ltb watermark oldest) (do
      record_gap python env config watermark oldest beyond_catchup
      modify (λ (s : Collector). record s { watermark = some oldest }))

  -- `advance`, with one more round than there are pages
  unfoldable pub advance : ℕ → ℕ → Io Collector Result
  advance deadline pages = do
    now ← on_link (read_clock python env config)
    let end_limit = now - config.settle_s * 1000
    catch_up (end_limit - config.max_catchup_s * 1000)
    rounds (suc pages) deadline end_limit pages 0

  -- `stored if stored is not None else ...`
  abbrev pub resume : Option ℕ → Io Collector (Unit {0})
  resume none = do
    now ← on_link (read_clock python env config)
    modify λ (s : Collector). record s { watermark = some (now - config.initial_lookback_s * 1000) }
  resume (some stored) = modify (λ (s : Collector). record s { watermark = some stored })

  unfoldable pub restore : Io Collector (Unit {0})
  restore s = elim s.watermark [
    | some _ ↦ (ok tt, s)
    | none ↦
        (do
          stored ← on_link (last_watermark env)
          resume stored
          watermark ← get_watermark
          lift (times_shown python (watermark ∷ [])))
          s
  ]
