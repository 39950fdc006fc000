-- ===== src/Flows/Store.antt =====
-- collector.py, `Collector.store` and `Collector.gap`: rows go to VictoriaLogs in batches, and
-- abandoned time is recorded.
pub mod Delivered
pub mod Delivery
use home_lab.Prelude.{
  ℕ, suc, ◌+◌, ◌-◌, String, Bool, true, false, ◌&&◌, Option, none, some, List, [], ◌∷◌, ◌++◌,
  length, ltb, if◌then◌else◌,
}
use home_lab.Prelude.Dict.{Dict, contains, update}
use home_lab.Json.{Json}
use home_lab.Flows.Runtime.{max_batch_bytes, Config, Python, Outcome, Line, flow, gap, Reason, Env}
use home_lab.Flows.Io.{Io, pure, lift, gets, modify, when, ◌>>=◌, ◌>>◌}
use home_lab.Flows.Console.{read_clock}
use home_lab.Flows.Sink.{write}
use home_lab.Flows.Record.{flow_record}
use home_lab.Flows.Times.{times_shown}
use home_lab.Flows.Window.PageCheck.{Row, Rows}
use home_lab.Flows.Window.{Window}
use home_lab.Flows.State.{Collector, Counters, on_link, count}

-- `fresh, batch, size`
pub record Batch : Type 0 where
  pub fresh : Dict ℕ
  pub lines : List Line
  pub size : ℕ

abbrev pub empty_batch : Batch
empty_batch = record { fresh = []; lines = []; size = 0 }

abbrev pub add_written : ℕ → Counters → Counters
add_written n c = record c { rows_written = c.rows_written + n }

-- `self.seen.update(fresh)`
abbrev pub join_seen : Dict ℕ → Collector → Collector
join_seen fresh s = record s { seen = update s.seen fresh }

abbrev pub add_duplicate : Counters → Counters
add_duplicate c = record c { rows_duplicate = c.rows_duplicate + 1 }

abbrev pub add_late : Counters → Counters
add_late c = record c { rows_late = c.rows_late + 1 }

-- `batch.append(line)` of a line that dumps to `len` characters
abbrev pub add_line : String → ℕ → List (String × Json) → ℕ → Batch → Batch
add_line identity time entry len b = record {
  fresh = b.fresh ++ (identity, time) ∷ [];
  lines = b.lines ++ flow entry ∷ [];
  size = b.size + len + 1;
}

module _ (python : Python) (env : Env) (config : Config) where
  -- `flush`
  unfoldable pub flush : Batch → Io Collector (Unit {0})
  flush b = elim b.lines [
    | [] ↦ pure tt
    | _ ∷ _ ↦ (do
      on_link (write env b.lines)
      modify (join_seen b.fresh)
      count (add_written (length b.lines)))
  ]

  unfoldable pub note_late : ℕ → Row → Io Collector (Unit {0})
  note_late floor row = do
    primed ← gets (λ (s : Collector). s.primed)
    when (primed && ltb row.time floor) (count add_late)

  -- The record joins the batch, which is sent first if it would grow too long.
  unfoldable pub batch_entry : String → ℕ → List (String × Json) → Batch → Io Collector Batch
  batch_entry identity time entry b =
      let len = python.dumped_len entry in
      if ltb max_batch_bytes (b.size + len)
      then (do flush b; pure (add_line identity time entry len empty_batch))
      else pure (add_line identity time entry len b)

  -- A row that is not yet seen.
  unfoldable pub add_row : ℕ → String → Row → Batch → Io Collector Batch
  add_row floor identity row b = do
    note_late floor row
    entry ← lift (flow_record python row.fields)
    batch_entry identity row.time entry b

  unfoldable pub store_row : ℕ → String → Row → Batch → Io Collector Batch
  store_row floor identity row b = do
    known ← gets (λ (s : Collector). contains identity s.seen)
    if known then (do count add_duplicate; pure b) else add_row floor identity row b

  unfoldable pub store_rows : ℕ → Rows → Batch → Io Collector (Unit {0})
  store_rows floor [] b = flush b
  store_rows floor ((identity, row) ∷ rows) b = do
    b' ← store_row floor identity row b
    store_rows floor rows b'

  abbrev add_read : ℕ → Counters → Counters
  add_read n c = record c { rows_read = c.rows_read + n }

  -- `store`, at the watermark
  unfoldable pub store : ℕ → Window → Io Collector (Unit {0})
  store floor window = do
    count (add_read (length window.rows))
    store_rows floor window.rows empty_batch

  abbrev add_gap : ℕ → Counters → Counters
  add_gap ms c = record c { gap_ms = c.gap_ms + ms }

  abbrev pub add_gap_line : ℕ → ℕ → ℕ → Reason → Collector → Collector
  add_gap_line written start_ms end_ms reason s = record s {
    pending = s.pending ++ gap written start_ms end_ms reason ∷ [];
  }

  -- The gap's line; the log shows two of the same times again.
  unfoldable pub write_gap : ℕ → ℕ → Reason → Io Collector (Unit {0})
  write_gap start_ms end_ms reason = do
    written ← on_link (read_clock python env config)
    lift (times_shown python (written ∷ start_ms ∷ end_ms ∷ []))
    modify (add_gap_line written start_ms end_ms reason)

  -- `gap`: truncated subtraction is the source's `max(end_ms - start_ms, 0)`.
  unfoldable pub record_gap : ℕ → ℕ → Reason → Io Collector (Unit {0})
  record_gap start_ms end_ms reason = do
    count (add_gap (end_ms - start_ms))
    detected ← on_link (read_clock python env config)
    modify (λ (s : Collector). record s { last_gap = detected })
    write_gap start_ms end_ms reason
