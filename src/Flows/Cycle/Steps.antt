-- ===== src/Flows/Cycle/Steps.antt =====
-- collector.py, `store`, `gap` and the move of the watermark: how they end.
use home_lab.Prelude.{ℕ, [], ◌∷◌, arith, String, List}
use home_lab.Json.{Json}
use home_lab.Flows.Runtime.{Config, Python, Reason, Env}
use home_lab.Flows.Io.{lift, modify, when, ◌>>=◌}
use home_lab.Flows.Io.Ends.{Sat, Ends, Any, Ends-bind, Ends-lift, Ends-when}
use home_lab.Flows.Record.{flow_record}
use home_lab.Flows.Record.Total.{flow_record-Sat}
use home_lab.Flows.Sink.{write}
use home_lab.Flows.Console.{read_clock}
use home_lab.Flows.Window.PageCheck.{Row, Rows}
use home_lab.Flows.Window.{Window}
use home_lab.Flows.State.{Collector, on_link}
use home_lab.Flows.Times.{times_shown, times_shown-Sat}
use home_lab.Flows.Store.{
  write_gap, add_gap_line, Batch, empty_batch, flush, note_late, batch_entry, add_row, store_row,
  store_rows, store, record_gap,
}
use home_lab.Flows.Advance.{oldest_row, record_cap, moved, move}

oldest_row-Sat : (rows : Rows) → Sat Any (oldest_row rows)
oldest_row-Sat [] = ground arith
oldest_row-Sat (r ∷ []) = tt
oldest_row-Sat (r ∷ q ∷ rows) = ground (arith, oldest_row-Sat (q ∷ rows))

module _ (python : Python) (env : Env) (config : Config) where
  flush-Ends : (b : Batch) → Ends Any (flush python env config b)
  unfolding flush write
  flush-Ends b s = ground arith

  note_late-Ends : (floor : ℕ) (row : Row) → Ends Any (note_late python env config floor row)
  unfolding note_late
  note_late-Ends floor row s = ground arith

  batch_entry-Ends :
      (id : String) (time : ℕ) (entry : List (String × Json)) (b : Batch)
      → Ends Any (batch_entry python env config id time entry b)
  unfolding batch_entry
  batch_entry-Ends id time entry b s = ground (arith, flush-Ends b s)

  add_row-Ends :
      (floor : ℕ) (id : String) (row : Row) (b : Batch)
      → Ends Any (add_row python env config floor id row b)
  unfolding add_row
  add_row-Ends floor id row b s =
      let entry_of =
        λ (entry : List (String × Json)). batch_entry python env config id row.time entry b in
      Ends-bind Any (note_late python env config floor row)
        (λ _. lift (flow_record python row.fields) >>= entry_of) (note_late-Ends floor row)
        (λ _ _.
          Ends-lift Any (flow_record python row.fields) entry_of (flow_record-Sat python row.fields)
            (λ entry _. batch_entry-Ends id row.time entry b))
        s

  store_row-Ends :
      (floor : ℕ) (id : String) (row : Row) (b : Batch)
      → Ends Any (store_row python env config floor id row b)
  unfolding store_row
  store_row-Ends floor id row b s = ground (arith, add_row-Ends floor id row b s)

  store_rows-Ends :
      (floor : ℕ) (rows : Rows) (b : Batch) → Ends Any (store_rows python env config floor rows b)
  unfolding store_rows
  store_rows-Ends floor [] b s = flush-Ends b s
  store_rows-Ends floor ((id, row) ∷ rows) b s =
      Ends-bind Any (store_row python env config floor id row b)
        (store_rows python env config floor rows) (store_row-Ends floor id row b)
        (λ b' _. store_rows-Ends floor rows b') s

  pub store-Ends : (floor : ℕ) (w : Window) → Ends Any (store python env config floor w)
  unfolding store
  store-Ends floor w s = store_rows-Ends floor w.rows empty_batch _

  clock-Ends : Ends {S = Collector} Any (on_link (read_clock python env config))
  unfolding read_clock
  clock-Ends s = tt

  write_gap-Ends :
      (start_ms end_ms : ℕ) (reason : Reason)
      → Ends Any (write_gap python env config start_ms end_ms reason)
  unfolding write_gap
  write_gap-Ends start_ms end_ms reason =
      let add =
        λ (written : ℕ). modify (add_gap_line python env config written start_ms end_ms reason) in
      Ends-bind Any (on_link (read_clock python env config))
        (λ written.
          lift (times_shown python (written ∷ start_ms ∷ end_ms ∷ [])) >>= λ _. add written)
        clock-Ends
        (λ written _.
          Ends-lift Any (times_shown python (written ∷ start_ms ∷ end_ms ∷ [])) (λ _. add written)
            (times_shown-Sat python (written ∷ start_ms ∷ end_ms ∷ [])) (λ _ _ s. tt))

  pub record_gap-Ends :
      (start_ms end_ms : ℕ) (reason : Reason)
      → Ends Any (record_gap python env config start_ms end_ms reason)
  unfolding record_gap read_clock
  record_gap-Ends start_ms end_ms reason s = write_gap-Ends start_ms end_ms reason _

  record_cap-Ends : (w : ℕ) (window : Window) → Ends Any (record_cap python env config w window)
  unfolding record_cap
  record_cap-Ends w window =
      Ends-lift Any (oldest_row window.rows)
        (λ oldest. record_gap python env config w oldest Reason.query_cap)
        (oldest_row-Sat window.rows) (λ oldest _. record_gap-Ends w oldest Reason.query_cap)

  pub move-Ends :
      (w end_ms : ℕ) (window : Window) → Ends Any (move python env config w end_ms window)
  unfolding move
  move-Ends w end_ms window =
      Ends-bind Any (when window.capped (record_cap python env config w window))
        (λ _. modify (moved python env config end_ms))
        (Ends-when window.capped (record_cap python env config w window) (record_cap-Ends w window))
        (λ _ _ s. tt)
