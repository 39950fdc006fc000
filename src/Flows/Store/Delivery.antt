-- ===== src/Flows/Store/Delivery.antt =====
-- collector.py, `store`: the ids seen, and what VictoriaLogs has accepted.
use home_lab.Prelude.{
  ℕ, ◌+◌, ◌≡◌, refl, String, Bool, true, false, ◌&&◌, List, [], ◌∷◌, arith, length, ltb, str_eq_iff,
  if◌then◌else◌,
}
use home_lab.Prelude.Dict.{Dict, contains, contains-update, contains-append}
use home_lab.Json.{Json}
use home_lab.Flows.Runtime.{
  max_batch_bytes, Config, Python, Outcome, ok, raised, Line, flow, Delivery, ingest_failed,
  ingested, Env,
}
use home_lab.Flows.Io.{Io, pure, lift, modify, when, ◌>>=◌, ◌>>◌}
use home_lab.Flows.Console.Quiet.{sent}
use home_lab.Flows.Sink.{is_accepted, write}
use home_lab.Flows.Record.{flow_id, flow_record}
use home_lab.Flows.Record.Identity.{carries, flow_record-carries}
use home_lab.Flows.Window.PageCheck.{Row, Rows}
use home_lab.Flows.Window.{Window}
use home_lab.Flows.State.{Collector, count}
use home_lab.Flows.Store.{
  Batch, empty_batch, add_line, join_seen, add_written, add_late, add_duplicate, flush, note_late,
  batch_entry, add_row, store_row, store_rows, store,
}
use home_lab.Flows.Store.Delivered.{
  delivered, has_flow-append, SeenDelivered, IsFilled, safe, Flushes, Fills, NowSafe,
}

module _ (python : Python) (env : Env) (config : Config) where
  flush_parts :
      (fresh : Dict ℕ) (lines : List Line) (size : ℕ) (s : Collector)
      → let b : Batch = record { fresh = fresh; lines = lines; size = size } in
        SeenDelivered s → IsFilled b → Flushes s b (flush python env config b s)
  unfolding flush write
  flush_parts fresh [] size s h f = (h, λ id c. ground (arith, f id))
  flush_parts fresh (l ∷ ls) size s h f =
      wrote (env.ingest (l ∷ ls) s.link.history) (is_accepted (env.ingest (l ∷ ls) s.link.history))
        refl
    where
      wrote :
          (answer : Delivery) (accepted : Bool)
          → is_accepted answer ≡ accepted
          → Flushes s
              (record { fresh = fresh; lines = l ∷ ls; size = size })
              ((lift (if accepted then ok tt else raised ingest_failed) >>= λ _.
                  modify (join_seen fresh) >> count (add_written (length (l ∷ ls))))
                (record s {
                  link = record (s.link) { history = ingested (l ∷ ls) answer ∷ s.link.history };
                }))
      wrote answer true e = (
        λ id c. ground (arith, e, contains-update id s.seen fresh, h id, f id),
        λ id c. ground (arith, e, f id),
      )
      wrote answer false e = λ id c. ground (arith, e, h id)

  flush-Flushes :
      (b : Batch) (s : Collector)
      → SeenDelivered s
      → IsFilled b
      → Flushes s b (flush python env config b s)
  flush-Flushes b s = flush_parts b.fresh b.lines b.size s

  -- The lines of the batch with one more record.
  add_line-IsFilled :
      (id : String) (time : ℕ) (entry : List (String × Json)) (len : ℕ) (b : Batch)
      → carries id entry ≡ true
      → IsFilled b
      → IsFilled (add_line id time entry len b)
  add_line-IsFilled id time entry len b c f = λ j m. ground (
    arith,
    contains-append j b.fresh ((id, time) ∷ []),
    has_flow-append j b.lines (flow entry ∷ []),
    f j,
    str_eq_iff id j,
  )

  -- The id is in the batch that it was added to, and what was there stays.
  add_line-safe :
      (id : String) (time : ℕ) (entry : List (String × Json)) (len : ℕ) (b : Batch) (s : Collector)
      → (safe s (add_line id time entry len b) id ≡ true)
        × ((j : String) → safe s b j ≡ true → safe s (add_line id time entry len b) j ≡ true)
  add_line-safe id time entry len b s = (
    ground (arith, contains-append id b.fresh ((id, time) ∷ []), str_eq_iff id id),
    λ j h. ground (arith, contains-append j b.fresh ((id, time) ∷ []), h),
  )

  -- After a flush the batch starts again with the one record.
  restart-Fills :
      (id : String) (time : ℕ) (entry : List (String × Json)) (len : ℕ) (b : Batch) (s : Collector)
      (r : Outcome (Unit {0}) × Collector)
      → carries id entry ≡ true
      → Flushes s b r
      → let r' = (lift r.0 >>= λ _. pure (add_line id time entry len empty_batch)) r.1 in
        Fills s b r' × NowSafe id r'
  restart-Fills id time entry len b s (ok _, s') c h =
      let added = add_line-safe id time entry len empty_batch s' in
      (
        (
          h.0,
          add_line-IsFilled id time entry len empty_batch c (λ j m. cc),
          λ j k. added.1 j (ground (arith, h.1 j k)),
        ),
        added.0,
      )
  restart-Fills id time entry len b s (raised e, s') c h = (h, tt)

  batch_entry-Fills :
      (id : String) (time : ℕ) (entry : List (String × Json)) (b : Batch) (s : Collector)
      → carries id entry ≡ true
      → SeenDelivered s
      → IsFilled b
      → Fills s b (batch_entry python env config id time entry b s)
        × NowSafe id (batch_entry python env config id time entry b s)
  unfolding batch_entry
  batch_entry-Fills id time entry b s c h f =
      go (ltb max_batch_bytes (b.size + python.dumped_len entry))
    where
      len : ℕ
      len = python.dumped_len entry

      choice : Bool → Io Collector Batch
      choice full =
          if full
          then flush python env config b >> pure (add_line id time entry len empty_batch)
          else pure (add_line id time entry len b)

      go : (full : Bool) → Fills s b (choice full s) × NowSafe id (choice full s)
      go true =
          restart-Fills id time entry len b s (flush python env config b s) c
            (flush-Flushes b s h f)
      go false =
          let added = add_line-safe id time entry len b s in
          ((h, add_line-IsFilled id time entry len b c f, added.1), added.0)

  -- A row under its id, once its record is asked for.
  recorded-Fills :
      (id : String) (row : Row) (b : Batch) (s : Collector) (r : Outcome (List (String × Json)))
      → flow_id python row.fields ≡ ok id
      → flow_record python row.fields ≡ r
      → SeenDelivered s
      → IsFilled b
      → let r' = (lift r >>= λ entry. batch_entry python env config id row.time entry b) s in
        Fills s b r' × NowSafe id r'
  recorded-Fills id row b s (ok entry) same e h f =
      batch_entry-Fills id row.time entry b s
        (flow_record-carries python row.fields id entry same e) h f
  recorded-Fills id row b s (raised x) same e h f = (h, tt)

  add_row-Fills :
      (floor : ℕ) (id : String) (row : Row) (b : Batch) (s : Collector)
      → flow_id python row.fields ≡ ok id
      → SeenDelivered s
      → IsFilled b
      → Fills s b (add_row python env config floor id row b s)
        × NowSafe id (add_row python env config floor id row b s)
  unfolding add_row note_late
  add_row-Fills floor id row b s same h f = go (s.primed && ltb row.time floor)
    where
      rest : Io Collector Batch
      rest = lift (flow_record python row.fields) >>= λ entry.
          batch_entry python env config id row.time entry b

      go :
          (late : Bool)
          → let r = (when late (count add_late) >> rest) s in Fills s b r × NowSafe id r
      go true =
          recorded-Fills id row b (count add_late s).1 (flow_record python row.fields) same refl h f
      go false = recorded-Fills id row b s (flow_record python row.fields) same refl h f

  -- A row under its id, new or already seen.
  store_row-Fills :
      (floor : ℕ) (id : String) (row : Row) (b : Batch) (s : Collector)
      → flow_id python row.fields ≡ ok id
      → SeenDelivered s
      → IsFilled b
      → Fills s b (store_row python env config floor id row b s)
        × NowSafe id (store_row python env config floor id row b s)
  unfolding store_row
  store_row-Fills floor id row b s same h f = go (contains id s.seen) refl
    where
      choice : Bool → Io Collector Batch
      choice known =
          if known then count add_duplicate >> pure b else add_row python env config floor id row b

      go :
          (known : Bool)
          → contains id s.seen ≡ known
          → Fills s b (choice known s) × NowSafe id (choice known s)
      go true e = ((h, f, λ j k. k), ground (arith, h id e))
      go false e = add_row-Fills floor id row b s same h f

  -- Every id of the rows is delivered.
  abbrev pub AllDelivered : Collector → Rows → Type 0
  AllDelivered s [] = Unit
  AllDelivered s ((id, row) ∷ rows) = (delivered id (sent s.link) ≡ true) × AllDelivered s rows

  -- How the loop over the rows may end.
  abbrev Stores : Collector → Batch → Rows → Outcome (Unit {0}) × Collector → Type 0
  Stores s b rows (ok _, s') =
      SeenDelivered s'
      × ((id : String) → safe s b id ≡ true → delivered id (sent s'.link) ≡ true)
      × AllDelivered s' rows
  Stores s b rows (raised _, s') = SeenDelivered s'

  -- Rows under their own ids.
  abbrev pub Identified : Rows → Type 0
  Identified [] = Unit
  Identified ((id, row) ∷ rows) = (flow_id python row.fields ≡ ok id) × Identified rows

  flush-Stores :
      (s : Collector) (b : Batch) (r : Outcome (Unit {0}) × Collector)
      → Flushes s b r
      → Stores s b [] r
  flush-Stores s b (ok _, s') h = (h.0, h.1, tt)
  flush-Stores s b (raised e, s') h = h

  chain-Stores :
      (floor : ℕ) (id : String) (row : Row) (rows : Rows) (b : Batch) (s : Collector)
      (r : Outcome Batch × Collector)
      → ((b' : Batch) (s' : Collector)
          → SeenDelivered s'
          → IsFilled b'
          → Stores s' b' rows (store_rows python env config floor rows b' s'))
      → Fills s b r × NowSafe id r
      → Stores s b ((id, row) ∷ rows) ((lift r.0 >>= store_rows python env config floor rows) r.1)
  chain-Stores floor id row rows b s (ok b', s') later (h, now) =
      join (store_rows python env config floor rows b' s') (later b' s' h.0 h.1)
    where
      join :
          (r : Outcome (Unit {0}) × Collector)
          → Stores s' b' rows r
          → Stores s b ((id, row) ∷ rows) r
      join (ok _, s2) k = (k.0, λ j safe_j. k.1 j (h.2 j safe_j), (k.1 id now, k.2))
      join (raised e, s2) k = k
  chain-Stores floor id row rows b s (raised e, s') later (h, now) = h

  store_rows-Stores :
      (floor : ℕ) (rows : Rows) (b : Batch) (s : Collector)
      → Identified rows
      → SeenDelivered s
      → IsFilled b
      → Stores s b rows (store_rows python env config floor rows b s)
  unfolding store_rows
  store_rows-Stores floor [] b s i h f =
      flush-Stores s b (flush python env config b s) (flush-Flushes b s h f)
  store_rows-Stores floor ((id, row) ∷ rows) b s i h f =
      chain-Stores floor id row rows b s (store_row python env config floor id row b s)
        (λ b' s' h' f'. store_rows-Stores floor rows b' s' i.1 h' f')
        (store_row-Fills floor id row b s i.0 h f)

  -- What a store leaves: the ids seen are delivered, and if it returned, so are the window's rows.
  abbrev pub Stored : Window → Outcome (Unit {0}) × Collector → Type 0
  Stored w (ok _, s') = SeenDelivered s' × AllDelivered s' w.rows
  Stored w (raised _, s') = SeenDelivered s'

  -- If each row of the window stands under its own flow id, and each id in `seen` was delivered
  -- before the call, then after `store`, returning or raising, each id in `seen` was delivered, and
  -- after one that returns each row of the window was delivered too.
  pub store-Stored :
      (floor : ℕ) (w : Window) (s : Collector)
      → Identified w.rows
      → SeenDelivered s
      → Stored w (store python env config floor w s)
  unfolding store
  store-Stored floor w s i h = go _ (store_rows-Stores floor w.rows empty_batch _ i h (λ id m. cc))
    where
      go : (r : Outcome (Unit {0}) × Collector) → Stores s empty_batch w.rows r → Stored w r
      go (ok _, s') k = (k.0, k.2)
      go (raised e, s') k = k
