-- ===== src/Flows/Cycle/Watermark.antt =====
-- collector.py, `advance`: when the watermark moves, after the window is read.
use home_lab.Prelude.{
  ℕ, ◌-◌, ◌*◌, ◌≡◌, refl, sym, ap, ◌∙◌, ◌⊎◌, inl, inr, String, Bool, true, false, Option, none,
  some, List, [], ◌∷◌, arith, length, if◌then◌else◌, ◌==◌,
}
use home_lab.Prelude.Dict.{Dict, contains}
use home_lab.Json.{Json}
use home_lab.Flows.Runtime.{Config, Python, Outcome, ok, raised, Reason, Result, Env}
use home_lab.Flows.Io.{Io, pure, lift, modify, when, ◌>>=◌, ◌>>◌}
use home_lab.Flows.Io.Leaves.{Leaves, Leaves-bind, Leaves-lift}
use home_lab.Flows.Console.{read_clock}
use home_lab.Flows.Console.Quiet.{sent}
use home_lab.Flows.Sink.{write}
use home_lab.Flows.Record.{flow_record}
use home_lab.Flows.Window.PageCheck.{Problem, Row, Rows, cycle_budget}
use home_lab.Flows.Window.{Window}
use home_lab.Flows.State.{Collector, on_link, count}
use home_lab.Flows.Store.{
  Batch, empty_batch, flush, note_late, batch_entry, add_row, store_row, store_rows, store,
  add_gap_line, write_gap, record_gap,
}
use home_lab.Flows.Times.{times_shown}
use home_lab.Flows.Store.Delivery.{AllDelivered, Identified, Stored, store-Stored}
use home_lab.Flows.Store.Delivered.{delivered, SeenDelivered}
use home_lab.Flows.Advance.{
  Turn, go_on, end_with, prune, problem_index, oldest_row, record_cap, moved, move, settle,
  add_problem, add_shifted, count_shifted, take_window,
}

abbrev mark : Collector → Option ℕ
mark s = s.watermark

module _ (python : Python) (env : Env) (config : Config) where
  flush-mark : (b : Batch) → Leaves mark (flush python env config b)
  unfolding flush write
  flush-mark b s = ground arith

  batch_entry-mark :
      (id : String) (time : ℕ) (entry : List (String × Json)) (b : Batch)
      → Leaves mark (batch_entry python env config id time entry b)
  unfolding batch_entry
  batch_entry-mark id time entry b s = ground (arith, flush-mark b s)

  note_late-mark : (floor : ℕ) (row : Row) → Leaves mark (note_late python env config floor row)
  unfolding note_late
  note_late-mark floor row s = ground arith

  add_row-mark :
      (floor : ℕ) (id : String) (row : Row) (b : Batch)
      → Leaves mark (add_row python env config floor id row b)
  unfolding add_row
  add_row-mark floor id row b =
      let entry_of =
        λ (entry : List (String × Json)). batch_entry python env config id row.time entry b in
      Leaves-bind mark (note_late python env config floor row)
        (λ _. lift (flow_record python row.fields) >>= entry_of) (note_late-mark floor row)
        (λ _.
          Leaves-lift mark (flow_record python row.fields) entry_of
            (λ entry. batch_entry-mark id row.time entry b))

  store_row-mark :
      (floor : ℕ) (id : String) (row : Row) (b : Batch)
      → Leaves mark (store_row python env config floor id row b)
  unfolding store_row
  store_row-mark floor id row b s = ground (arith, add_row-mark floor id row b s)

  store_rows-mark :
      (floor : ℕ) (rows : Rows) (b : Batch)
      → Leaves mark (store_rows python env config floor rows b)
  unfolding store_rows
  store_rows-mark floor [] b s = flush-mark b s
  store_rows-mark floor ((id, row) ∷ rows) b s =
      Leaves-bind mark (store_row python env config floor id row b)
        (store_rows python env config floor rows) (store_row-mark floor id row b)
        (store_rows-mark floor rows) s

  store-mark : (floor : ℕ) (w : Window) → Leaves mark (store python env config floor w)
  unfolding store
  store-mark floor w s = store_rows-mark floor w.rows empty_batch _

  contains-prune :
      (id : String) (floor : ℕ) (seen : Dict ℕ)
      → contains id (prune floor seen) ≡ true
      → contains id seen ≡ true
  contains-prune id floor [] h = h
  contains-prune id floor ((k, v) ∷ seen) h = ground (arith, contains-prune id floor seen)

  -- How settling a stored window may end: only a go-ahead moves the watermark.
  abbrev Settles : Collector → ℕ → Window → Outcome Turn × Collector → Type 0
  Settles s end_ms w (ok (go_on left more), s') =
      (s'.watermark ≡ some end_ms)
      × (w.problem ≡ none)
      × (sent s'.link ≡ sent s.link)
      × SeenDelivered s'
  Settles s end_ms w (ok (end_with result), s') = (s'.watermark ≡ s.watermark) × SeenDelivered s'
  Settles s end_ms w (raised e, s') = (s'.watermark ≡ s.watermark) × SeenDelivered s'

  -- What a gap leaves as it is
  abbrev Same : Collector → Collector → Type 0
  Same s s' = (s'.watermark ≡ s.watermark) × (sent s'.link ≡ sent s.link) × (s'.seen ≡ s.seen)

  write_gap-Same :
      (start_ms end_ms : ℕ) (reason : Reason) (s : Collector)
      → Same s (write_gap python env config start_ms end_ms reason s).1
  unfolding write_gap read_clock
  write_gap-Same start_ms end_ms reason s =
      go (times_shown python (env.clock s.link.history ∷ start_ms ∷ end_ms ∷ []))
    where
      read : Collector
      read = (on_link (read_clock python env config) s).1

      go :
          (shown : Outcome (Unit {0}))
          → Same s
              ((lift shown >>= λ _. modify (
                  add_gap_line python env config (env.clock s.link.history) start_ms end_ms reason))
                read).1
      go (ok _) = (refl, refl, refl)
      go (raised e) = (refl, refl, refl)

  record_gap-Same :
      (start_ms end_ms : ℕ) (reason : Reason) (s : Collector)
      → Same s (record_gap python env config start_ms end_ms reason s).1
  unfolding record_gap read_clock
  record_gap-Same start_ms end_ms reason s = write_gap-Same start_ms end_ms reason _

  record_cap-Same :
      (w : ℕ) (window : Window) (s : Collector) → Same s (record_cap python env config w window s).1
  unfolding record_cap
  record_cap-Same w window s = go (oldest_row window.rows)
    where
      go :
          (oldest : Outcome ℕ)
          → Same s ((lift oldest >>= λ t. record_gap python env config w t Reason.query_cap) s).1
      go (ok t) = record_gap-Same w t Reason.query_cap s
      go (raised e) = (refl, refl, refl)

  move-Settles :
      (w end_ms left more : ℕ) (window : Window) (s : Collector)
      → window.problem ≡ none
      → SeenDelivered s
      → Settles s end_ms window
          ((move python env config w end_ms window >> pure (go_on left more)) s)
  unfolding move
  move-Settles w end_ms left more window s p h = cap window.capped
    where
      kept_seen : (s1 : Collector) → Same s s1 → SeenDelivered s1
      kept_seen s1 (m, t, e) id k = ap (delivered id) t ∙ h id (ap (contains id) (sym e) ∙ k)

      moves :
          (r : Outcome (Unit {0}) × Collector)
          → Same s r.1
          → Settles s end_ms window (
              ((lift r.0 >>= λ _. modify (moved python env config end_ms)) >>= λ _.
              pure (go_on left more))
                r.1)
      moves (ok _, s1) k = (
        refl,
        p,
        k.1,
        λ id m.
            kept_seen s1 k id (contains-prune id (end_ms - 2 * config.overlap_s * 1000) s1.seen m),
      )
      moves (raised e, s1) k = (k.0, kept_seen s1 k)

      cap :
          (capped : Bool)
          → Settles s end_ms window (
              ((when capped (record_cap python env config w window) >>= λ _.
              modify (moved python env config end_ms))
                  >>= λ _. pure (go_on left more))
                s)
      cap true = moves (record_cap python env config w window s) (record_cap-Same w window s)
      cap false = moves (ok tt, s) (refl, refl, refl)

  settle-Settles :
      (w end_ms left : ℕ) (window : Window) (s : Collector)
      → SeenDelivered s
      → Settles s end_ms window (settle python env config w end_ms window left s)
  unfolding settle
  settle-Settles w end_ms left window s h = go window.problem refl
    where
      noted : Problem → Io Collector Turn
      noted p = modify (add_problem p) >>= λ _.
          lift (times_shown python ((w - config.overlap_s * 1000) ∷ end_ms ∷ [])) >>= λ _.
          pure (end_with Result.incomplete)

      shown_after :
          (r : Outcome (Unit {0})) (s1 : Collector)
          → s1.watermark ≡ s.watermark
          → SeenDelivered s1
          → Settles s end_ms window ((lift r >>= λ _. pure (end_with Result.incomplete)) s1)
      shown_after (ok _) s1 m k = (m, k)
      shown_after (raised e) s1 m k = (m, k)

      either :
          (b : Bool) (p : Problem)
          → Settles s end_ms window ((if b then pure (end_with Result.backlog) else noted p) s)
      either true p = (refl, h)
      either false p =
          shown_after (times_shown python ((w - config.overlap_s * 1000) ∷ end_ms ∷ []))
            (add_problem p s) refl h

      choice : Option Problem → Io Collector Turn
      choice o = elim o [
        | none ↦ (do move python env config w end_ms window; pure (go_on left (length window.rows)))
        | some p ↦
            if problem_index p == problem_index cycle_budget
            then pure (end_with Result.backlog)
            else noted p
      ]

      go : (o : Option Problem) → window.problem ≡ o → Settles s end_ms window (choice o s)
      go none e = move-Settles w end_ms left (length window.rows) window s e h
      go (some p) e = either (problem_index p == problem_index cycle_budget) p

  -- How a round may end that began at `s`: either the watermark stays, or it moves to the end of a
  -- window that has no problem and whose rows are all delivered.
  abbrev pub Advances : Collector → ℕ → Window → Outcome Turn × Collector → Type 0
  Advances s end_ms window (r, s') =
      SeenDelivered s'
      × ((s'.watermark ≡ s.watermark)
          ⊎ ((s'.watermark ≡ some end_ms)
              × (window.problem ≡ none)
              × AllDelivered python env config s' window.rows))

  AllDelivered-sent :
      (s s' : Collector) (rows : Rows)
      → sent s'.link ≡ sent s.link
      → AllDelivered python env config s rows
      → AllDelivered python env config s' rows
  AllDelivered-sent s s' [] e h = tt
  AllDelivered-sent s s' ((id, row) ∷ rows) e h =
      (ap (delivered id) e ∙ h.0, AllDelivered-sent s s' rows e h.1)

  settled-Advances :
      (s0 s : Collector) (end_ms : ℕ) (window : Window) (r : Outcome Turn × Collector)
      → s.watermark ≡ s0.watermark
      → AllDelivered python env config s window.rows
      → Settles s end_ms window r
      → Advances s0 end_ms window r
  settled-Advances s0 s end_ms window (ok (go_on left more), s') e a h =
      (h.3, inr (h.0, h.1, AllDelivered-sent s s' window.rows h.2 a))
  settled-Advances s0 s end_ms window (ok (end_with result), s') e a h = (h.1, inl (h.0 ∙ e))
  settled-Advances s0 s end_ms window (raised x, s') e a h = (h.1, inl (h.0 ∙ e))

  pub take_window-Advances :
      (w end_ms left : ℕ) (window : Window) (s : Collector)
      → Identified python env config window.rows
      → SeenDelivered s
      → Advances s end_ms window (take_window python env config w end_ms window left s)
  unfolding take_window
  take_window-Advances w end_ms left window s i h =
      go (store python env config w window s) (store-mark w window s)
        (store-Stored python env config w window s i h)
    where
      shifted :
          (b : Bool) (s1 : Collector)
          → s1.watermark ≡ s.watermark
          → SeenDelivered s1
          → AllDelivered python env config s1 window.rows
          → Advances s end_ms window
              ((when b (count add_shifted) >> settle python env config w end_ms window left) s1)
      shifted true s1 e k a =
          settled-Advances s (count add_shifted s1).1 end_ms window _ e
            (AllDelivered-sent s1 (count add_shifted s1).1 window.rows refl a)
            (settle-Settles w end_ms left window (count add_shifted s1).1 k)
      shifted false s1 e k a =
          settled-Advances s s1 end_ms window _ e a (settle-Settles w end_ms left window s1 k)

      go :
          (r : Outcome (Unit {0}) × Collector)
          → r.1.watermark ≡ s.watermark
          → Stored python env config window r
          → Advances s end_ms window (
              (lift r.0 >>= λ _.
              count_shifted python env config window
              >> settle python env config w end_ms window left)
                r.1)
      go (ok _, s1) e k = shifted window.shifted s1 e k.0 k.1
      go (raised x, s1) e k = (k, inl e)
