-- ===== src/Flows/Cycle/Loop.antt =====
-- collector.py, the loop of `advance` and `restore`: how they end.
use home_lab.Prelude.{
  ℕ, zero, suc, ◌+◌, ◌-◌, ◌*◌, ◌<◌, ◌≡◌, ap, ◌⊎◌, inl, inr, Bool, true, not, ◌&&◌, Option, none,
  some, [], ◌∷◌, arith, ltb, leb, min, if◌then◌else◌, List, ◌==◌,
}
use home_lab.Flows.Runtime.{Config, Python, Outcome, ok, Result, Reason, Stored, Found, found, Env}
use home_lab.Flows.Io.{Io, pure, lift, modify, when, ◌>>=◌, ◌>>◌}
use home_lab.Flows.Io.Ends.{Sat, Ends, Any, Ends-bind, Ends-if, Ends-when}
use home_lab.Flows.Sink.{first_watermark, watermark_of, last_watermark}
use home_lab.Flows.Console.{read_clock}
use home_lab.Flows.Window.PageCheck.{cycle_budget}
use home_lab.Flows.Window.{Window, new_window, with_problem, read_window}
use home_lab.Flows.Window.Ending.{read_window-Ends}
use home_lab.Flows.State.{Collector, on_link}
use home_lab.Flows.Times.{times_shown, times_shown-Sat}
use home_lab.Flows.Store.{store, record_gap}
use home_lab.Flows.Advance.{
  Turn, go_on, end_with, halved, count_shifted, handle_window, round_at, take_turn, round_from,
  get_watermark, settle, take_window, round, rounds, catch_up, advance, restore, resume,
}
use home_lab.Flows.Cycle.Steps.{store-Ends, record_gap-Ends, move-Ends}

first_watermark-Sat : (lines : List Stored) → Sat Any (first_watermark lines)
first_watermark-Sat [] = tt
first_watermark-Sat (Stored.blank ∷ lines) = first_watermark-Sat lines
first_watermark-Sat (Stored.watermark n ∷ lines) = tt
first_watermark-Sat (Stored.invalid ∷ lines) = ground arith
first_watermark-Sat (Stored.wrong_type ∷ lines) = ground arith

module _ (python : Python) (env : Env) (config : Config) where
  -- A round that goes on has fewer pages left than it had.
  abbrev Uses : ℕ → Turn → Type 0
  Uses pages (go_on left more) = left < pages
  Uses pages (end_with result) = Unit

  settle-Ends :
      (w end_ms pages left : ℕ) (window : Window)
      → ((window.problem ≡ none) → left < pages)
      → Ends (Uses pages) (settle python env config w end_ms window left)
  unfolding settle
  settle-Ends w end_ms pages left window h s = ground (
    arith,
    move-Ends python env config w end_ms window s,
    times_shown-Sat python ((w - config.overlap_s * 1000) ∷ end_ms ∷ []),
  )

  take_window-Ends :
      (w end_ms pages left : ℕ) (window : Window)
      → ((window.problem ≡ none) → left < pages)
      → Ends (Uses pages) (take_window python env config w end_ms window left)
  unfolding take_window
  take_window-Ends w end_ms pages left window h =
      let rest = settle python env config w end_ms window left in
      let shift = count_shifted python env config window in
      Ends-bind (Uses pages) (store python env config w window) (λ _. shift >> rest)
        (store-Ends python env config w window)
        (λ _ _.
          Ends-bind (Uses pages) shift (λ _. rest) (Ends-when window.shifted _ (λ s. tt))
            (λ _ _. settle-Ends w end_ms pages left window h))

  handle_window-Ends :
      (w end_ms window_ms pages : ℕ) (at_floor : Bool) (read : Window × ℕ)
      → (read.1 < pages) ⊎ ((read.0 ≡ with_problem new_window cycle_budget) × (read.1 ≡ pages))
      → Ends (Uses pages) (handle_window python env config w end_ms window_ms at_floor read)
  unfolding handle_window
  handle_window-Ends w end_ms window_ms pages at_floor read (inl h) =
      Ends-if (Uses pages) (read.0.capped && not at_floor)
        (modify (halved python env config window_ms) >> pure (go_on read.1 0))
        (take_window python env config w end_ms read.0 read.1) (λ _ s. h)
        (λ _. take_window-Ends w end_ms pages read.1 read.0 (λ _. h))
  handle_window-Ends w end_ms window_ms pages at_floor read (inr (e, _)) =
      Ends-if (Uses pages) (read.0.capped && not at_floor)
        (modify (halved python env config window_ms) >> pure (go_on read.1 0))
        (take_window python env config w end_ms read.0 read.1) (λ c. absurd (capped_false c))
        (λ _. take_window-Ends w end_ms pages read.1 read.0 (λ p. absurd (has_problem p)))
    where
      capped_false : (read.0.capped && not at_floor) ≡ true → ⊥
      capped_false c = ground (arith, ap (λ (v : Window). v.capped) e)

      has_problem : read.0.problem ≡ none → ⊥
      has_problem p = cc (ap (λ (v : Window). v.problem) e)

  round-Ends :
      (deadline end_limit w pages : ℕ)
      → Ends (Uses pages) (round python env config deadline end_limit w pages)
  unfolding round round_at
  round-Ends deadline end_limit w pages s =
      let window_ms = s.window_ms in
      let end_ms = min (w + window_ms) end_limit in
      let start_ms = w - config.overlap_s * 1000 in
      let at_floor = leb window_ms (config.min_window_s * 1000) in
      Ends-bind (Uses pages) (read_window python env config deadline start_ms end_ms at_floor pages)
        (handle_window python env config w end_ms window_ms at_floor)
        (read_window-Ends python env config deadline start_ms end_ms at_floor pages)
        (λ read h. handle_window-Ends w end_ms window_ms pages at_floor read h.1) s

  get_watermark-Ends : Ends Any get_watermark
  get_watermark-Ends s = ground arith

  -- With more rounds than pages the loop ends by itself.
  rounds-Ends :
      (n deadline end_limit pages rows : ℕ)
      → pages < n
      → Ends Any (rounds python env config n deadline end_limit pages rows)
  unfolding rounds round_from take_turn
  rounds-Ends zero deadline end_limit pages rows h = absurd (omega arith)
  rounds-Ends (suc n) deadline end_limit pages rows h =
      let again =
        λ (left more : ℕ). rounds python env config n deadline end_limit left (rows + more) in
      let finished : Io Collector Result = pure (if rows == 0 then Result.no_rows else Result.ok) in
      let turn = take_turn python env config again in
      Ends-bind Any get_watermark (round_from python env config deadline end_limit pages rows again)
        get_watermark-Ends
        (λ w _.
          Ends-if Any (not (ltb w end_limit)) finished
            (round python env config deadline end_limit w pages >>= turn) (λ _ s. tt)
            (λ _.
              Ends-bind Any (round python env config deadline end_limit w pages) turn
                (round-Ends deadline end_limit w pages)
                (elim [
                  | go_on left more ↦
                      λ used. rounds-Ends n deadline end_limit left (rows + more) (omega arith)
                  | end_with result ↦ λ _ s. tt
                ])))

  catch_up-Ends : (oldest : ℕ) → Ends Any (catch_up python env config oldest)
  unfolding catch_up
  catch_up-Ends oldest =
      let gap_to = λ (w : ℕ). record_gap python env config w oldest Reason.beyond_catchup in
      let skip : Io Collector (Unit {0}) =
        modify (λ (s : Collector). record s { watermark = some oldest }) in
      Ends-bind Any get_watermark (λ w. when (ltb w oldest) (gap_to w >>= λ _. skip))
        get_watermark-Ends
        (λ w _. Ends-when (ltb w oldest) (gap_to w >>= λ _. skip) (
          Ends-bind Any (gap_to w) (λ _. skip)
            (record_gap-Ends python env config w oldest Reason.beyond_catchup) (λ _ _ s. tt)))

  pub advance-Ends : (deadline pages : ℕ) → Ends Any (advance python env config deadline pages)
  unfolding advance read_clock
  advance-Ends deadline pages s =
      let end_limit = env.clock s.link.history - config.settle_s * 1000 in
      let oldest = end_limit - config.max_catchup_s * 1000 in
      Ends-bind Any (catch_up python env config oldest)
        (λ _. rounds python env config (suc pages) deadline end_limit pages 0)
        (catch_up-Ends oldest)
        (λ _ _. rounds-Ends (suc pages) deadline end_limit pages 0 (omega arith))
        (on_link (read_clock python env config) s).1

  watermark_of-Sat : (answer : Found) → Sat Any (watermark_of answer)
  watermark_of-Sat (found n lines) = ground (arith, first_watermark-Sat lines)
  watermark_of-Sat Found.os_error = ground arith

  resume-Ends : (stored : Option ℕ) → Ends Any (resume python env config stored)
  unfolding read_clock
  resume-Ends none s = tt
  resume-Ends (some w) s = tt

  last_watermark-Ends : Ends {S = Collector} Any (on_link (last_watermark env))
  unfolding last_watermark
  last_watermark-Ends s = watermark_of-Sat (env.query s.link.history)

  restored-Ends : Ends Any (
      on_link (last_watermark env) >>= λ stored. resume python env config stored >>= λ _.
      get_watermark >>= λ w. lift (times_shown python (w ∷ [])))
  restored-Ends =
      let show : ℕ → Io Collector (Unit {0}) = λ w. lift (times_shown python (w ∷ [])) in
      Ends-bind Any (on_link (last_watermark env))
        (λ stored. resume python env config stored >>= λ _. get_watermark >>= show)
        last_watermark-Ends
        (λ stored _.
          Ends-bind Any (resume python env config stored) (λ _. get_watermark >>= show)
            (resume-Ends stored)
            (λ _ _.
              Ends-bind Any get_watermark show get_watermark-Ends
                (λ w _ s. times_shown-Sat python (w ∷ []))))

  pub restore-Ends : Ends Any (restore python env config)
  unfolding restore
  restore-Ends s = go s.watermark
    where
      go :
          (w : Option ℕ)
          → Sat Any
              (elim w as (λ _. Outcome (Unit {0}) × Collector) [
                | some _ ↦ (ok tt, s)
                | none ↦
                    (on_link (last_watermark env) >>= λ stored.
                    resume python env config stored >>= λ _.
                    get_watermark >>= λ w. lift (times_shown python (w ∷ [])))
                      s
              ]).0
      go (some _) = tt
      go none = restored-Ends s
