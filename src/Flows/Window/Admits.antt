-- ===== src/Flows/Window/Admits.antt =====
-- collector.py, `read_window`: the rows that it lets into its window.
use home_lab.Prelude.{
  ℕ, ◌≤◌, ◌≡◌, String, Bool, true, false, Option, List, [], ◌∷◌, arith, str_eq_iff,
}
use home_lab.Prelude.Dict.{IsDict, put, update, update-IsDict}
use home_lab.Json.{Json, Fields}
use home_lab.Flows.Runtime.{Config, Python, Outcome, ok, raised}
use home_lab.Flows.Io.Ends.{Sat}
use home_lab.Flows.Record.{flow_id, derived_id}
use home_lab.Flows.Window.PageCheck.{
  Checked, pass, fail, Row, Rows, Page, check_row, check_rows, parse_page,
}
use home_lab.Flows.Window.{
  Window, Step, done, next, finish, advance_page, with_problem, absorb, is_over_cap, with_cap,
  judge_page, judge,
}

module _ (python : Python) (start_ms end_ms : ℕ) where
  -- A row of the window, under its id.
  pub record Admitted (id : String) (row : Row) : Type 0 where
    pub from_start : start_ms ≤ row.time
    pub to_end : row.time ≤ end_ms
    pub identity : flow_id python row.fields ≡ ok id

  -- Every row is admitted under its id.
  abbrev pub AllAdmitted : Rows → Type 0
  AllAdmitted [] = Unit
  AllAdmitted ((id, row) ∷ rows) = Admitted id row × AllAdmitted rows

  -- The rows of a window: admitted, and no id twice.
  pub record IsAdmitted (w : Window) : Type 0 where
    pub rows : AllAdmitted w.rows
    pub distinct : IsDict w.rows

  put-AllAdmitted :
      (id : String) (row : Row) (rows : Rows)
      → Admitted id row
      → AllAdmitted rows
      → AllAdmitted (put id row rows)
  unfolding put
  put-AllAdmitted id row [] a h = (a, tt)
  put-AllAdmitted id row ((j, r) ∷ rows) a h =
      ground (arith, str_eq_iff j id, put-AllAdmitted id row rows a h.1)

  update-AllAdmitted :
      (rows fresh : Rows) → AllAdmitted rows → AllAdmitted fresh → AllAdmitted (update rows fresh)
  unfolding update
  update-AllAdmitted rows [] h f = h
  update-AllAdmitted rows ((id, row) ∷ fresh) h f =
      update-AllAdmitted (put id row rows) fresh (put-AllAdmitted id row rows f.0 h) f.1

  -- What a check that passed has shown.
  abbrev Passes : {A : Type 0} → (A → Type 0) → Checked A → Type 0
  Passes P (pass a) = P a
  Passes P (fail _) = Unit

  check_row_bounds :
      (v : Json)
      → Passes
          (λ (row : Row). (start_ms ≤ row.time) × (row.time ≤ end_ms))
          (check_row start_ms end_ms v)
  unfolding check_row
  check_row_bounds v = ground arith

  flow_id-Sat : (row : Fields) → Sat (λ id. flow_id python row ≡ ok id) (flow_id python row)
  unfolding flow_id derived_id
  flow_id-Sat row = ground arith

  check_rows-Sat :
      (vs : List Json) → Sat (Passes AllAdmitted) (check_rows python start_ms end_ms vs)
  unfolding check_rows
  check_rows-Sat [] = tt
  check_rows-Sat (v ∷ vs) =
      go (check_row start_ms end_ms v) (check_row_bounds v) (check_rows-Sat vs)
    where
      go :
          (c : Checked Row)
          → Passes (λ (row : Row). (start_ms ≤ row.time) × (row.time ≤ end_ms)) c
          → Sat (Passes AllAdmitted) (check_rows python start_ms end_ms vs)
          → Sat (Passes AllAdmitted) (elim c [
            | fail p ↦ ok (fail p)
            | pass row ↦ elim (flow_id python row.fields) [
              | raised e ↦ raised e
              | ok id ↦ elim (check_rows python start_ms end_ms vs) [
                | raised e ↦ raised e
                | ok (fail p) ↦ ok (fail p)
                | ok (pass rows) ↦ ok (pass ((id, row) ∷ rows))
              ]
            ]
          ])
      go (fail p) h later = tt
      go (pass row) h later = ground (arith, flow_id-Sat row.fields)

  abbrev pub StepAdmitted : Step → Type 0
  StepAdmitted (done w) = IsAdmitted w
  StepAdmitted (next w total fresh) = IsAdmitted w

  module _ (config : Config) (page : ℕ) (p : Page) where
    advance_page-StepAdmitted :
        (window : Window) (fresh : Rows)
        → IsAdmitted window
        → AllAdmitted fresh
        → StepAdmitted (advance_page config page p window fresh)
    unfolding advance_page finish
    advance_page-StepAdmitted window fresh h f = ground (
      arith,
      update-AllAdmitted window.rows fresh h.rows f,
      update-IsDict window.rows fresh h.distinct,
    )

    absorb-StepAdmitted :
        (previous : Rows) (window : Window) (c : Checked Rows)
        → IsAdmitted window
        → Passes AllAdmitted c
        → StepAdmitted (absorb config page p previous window c)
    unfolding absorb
    absorb-StepAdmitted previous window (fail problem) h f = record {
      rows = h.rows;
      distinct = h.distinct;
    }
    absorb-StepAdmitted previous window (pass fresh) h f =
        ground (arith, advance_page-StepAdmitted window fresh h f)

  module _ (config : Config) (accept_cap : Bool) (page : ℕ) (first_total : Option ℕ)
      (previous : Rows) (window : Window) (h : IsAdmitted window) where
    checked-Sat :
        (p : Page) (over : Bool) (checked : Outcome (Checked Rows))
        → Sat (Passes AllAdmitted) checked
        → Sat StepAdmitted (elim checked [
          | raised e ↦ raised e
          | ok c ↦ ok (absorb config page p previous (with_cap over window) c)
        ])
    checked-Sat p true (ok c) k =
        absorb-StepAdmitted config page p previous (with_cap true window) c
          (record { rows = h.rows; distinct = h.distinct }) k
    checked-Sat p false (ok c) k = absorb-StepAdmitted config page p previous window c h k
    checked-Sat p over (raised e) k = k

    judge_page-Sat :
        (p : Page)
        → Sat StepAdmitted
            (judge_page python config accept_cap start_ms end_ms page first_total previous window p)
    unfolding judge_page
    judge_page-Sat p = ground (
      arith,
      checked-Sat p (is_over_cap config page p) (check_rows python start_ms end_ms p.rows)
          (check_rows-Sat p.rows),
    )

    pub judge-Sat :
        (document : Json)
        → Sat StepAdmitted (
            judge python config accept_cap start_ms end_ms page first_total previous window
              document)
    unfolding judge
    judge-Sat document =
        elim (parse_page config page document)
          as (λ c. Sat StepAdmitted (elim c [
            | fail problem ↦ ok (done (with_problem window problem))
            | pass p ↦
                judge_page python config accept_cap start_ms end_ms page first_total previous window
                  p
          ])) [
            | fail problem ↦ record { rows = h.rows; distinct = h.distinct }
            | pass p ↦ judge_page-Sat p
          ]
