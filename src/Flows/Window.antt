-- ===== src/Flows/Window.antt =====
-- collector.py, `Window`, `Budget` and `Collector.read_window`: one time window, page by page.
pub mod PageCheck
pub mod Quiet
pub mod Admits
pub mod Ending
use home_lab.Prelude.{
  ℕ, zero, suc, ◌+◌, ◌*◌, Bool, true, false, not, ◌&&◌, ◌||◌, Option, none, some, [], length, leb,
  ◌==◌, if◌then◌else◌,
}
use home_lab.Prelude.Dict.{update}
use home_lab.Json.{Json}
use home_lab.Flows.Runtime.{page_size, Config, Python, Outcome, ok, raised, Env}
use home_lab.Flows.Io.{Io, pure, lift, when, ◌>>=◌, ◌>>◌}
use home_lab.Flows.Console.{read_clock, fetch}
use home_lab.Flows.State.{Collector, Counters, on_link, count, read_stop, wait}
use PageCheck.{
  Problem, cycle_budget, changing_total, repeated_page, empty_page, short_count, Checked, pass,
  fail, Page, is_nil, parse_page, check_rows, Rows, is_repeated,
}

pub record Window : Type 0 where
  pub rows : Rows
  pub problem : Option Problem
  pub capped : Bool
  pub shifted : Bool

abbrev pub new_window : Window
new_window = record { rows = []; problem = none; capped = false; shifted = false }

abbrev pub with_problem : Window → Problem → Window
with_problem w p = record w { problem = some p }

-- A page leaves the window finished, or asks for the next page; it hands on the total and the
-- page's rows.
pub data Step : Type 0 where
  done : Window → Step
  next : Window → ℕ → Rows → Step

abbrev pub is_changed : Option ℕ → ℕ → Bool
is_changed none total = false
is_changed (some first) total = not (total == first)

-- After the loop: `if not window.capped and len(window.rows) != first_total`
unfoldable pub finish : Window → ℕ → Window
finish w total =
    if not w.capped && not (length w.rows == total) then with_problem w short_count else w

-- From the rows of an accepted page to the end of the loop's body.
unfoldable pub advance_page : Config → ℕ → Page → Window → Rows → Step
advance_page config page p window fresh =
    let w = record window { rows = update window.rows fresh } in
    if not p.has_next
    then done (finish w p.total)
    else if is_nil p.rows
    then done (with_problem w empty_page)
    else if leb config.query_cap_rows ((page + 1) * page_size)
    then done (record w { capped = true })
    else next w p.total fresh

-- What the rows' checks make of the window.
unfoldable pub absorb : Config → ℕ → Page → Rows → Window → Checked Rows → Step
absorb config page p previous window (fail problem) = done (with_problem window problem)
absorb config page p previous window (pass fresh) =
    if is_repeated page fresh previous window.rows
    then done (with_problem window repeated_page)
    else advance_page config page p window fresh

-- `page == 0 and (document.get('or_more') or total >= self.config.query_cap_rows)`
abbrev pub is_over_cap : Config → ℕ → Page → Bool
is_over_cap config page p = (page == 0) && (p.or_more || leb config.query_cap_rows p.total)

abbrev pub with_cap : Bool → Window → Window
with_cap over w = if over then record w { capped = true } else w

module _ (python : Python) (config : Config) (accept_cap : Bool) (start_ms end_ms page : ℕ)
    (first_total : Option ℕ) (previous : Rows) (window : Window) where
  -- From the total of a consistent page to the end of the loop's body.
  unfoldable pub judge_page : Page → Outcome Step
  judge_page p =
      let w = with_cap (is_over_cap config page p) window in
      let checked = check_rows python start_ms end_ms p.rows in
      if is_changed first_total p.total
      then ok (done (record window { shifted = true; problem = some changing_total }))
      else if is_over_cap config page p && not accept_cap
      then ok (done (record window { capped = true }))
      else elim checked [ raised e ↦ raised e | ok c ↦ ok (absorb config page p previous w c) ]

  -- The loop's body once a document is there.
  unfoldable pub judge : Json → Outcome Step
  judge document = elim (parse_page config page document) [
    | fail problem ↦ ok (done (with_problem window problem))
    | pass p ↦ judge_page p
  ]

abbrev pub add_page : Counters → Counters
add_page c = record c { pages_read = c.pages_read + 1 }

module _ (python : Python) (env : Env) (config : Config) where
  -- `budget.spent(self.clock) or self.stop.is_set()`, while there are pages
  unfoldable pub is_over : ℕ → Io Collector Bool
  is_over deadline = do
    now ← on_link (read_clock python env config)
    if leb deadline now then pure true else read_stop env

  -- One request, and its count.
  unfoldable pub load : ℕ → ℕ → ℕ → Io Collector Json
  load start_ms end_ms page = do
    document ← on_link (fetch python env config start_ms end_ms page)
    count add_page
    pure document

-- `if self.config.page_delay_s: self.wait(...)`
unfoldable pub delay : Config → Io Collector (Unit {0})
delay config = when (leb 1 config.page_delay_ms) (wait config.page_delay_ms)

-- The loop, by recursion on the pages that the budget still has; the pages left come back with the
-- window. `previous` is empty before the first page.
module _ (python : Python) (env : Env) (config : Config) (deadline start_ms end_ms : ℕ)
    (accept_cap : Bool) where
  -- The window and the pages left, or the next round: `again` is the loop.
  unfoldable pub follow :
      ℕ → (ℕ → Rows → Window → Io Collector (Window × ℕ)) → Step → Io Collector (Window × ℕ)
  follow pages again (done w) = pure (w, pages)
  follow pages again (next w total fresh) = delay config >> again total fresh w

  -- One page of the loop, in time.
  unfoldable pub read_one :
      ℕ
      → ℕ
      → Option ℕ
      → Rows
      → Window
      → (ℕ → Rows → Window → Io Collector (Window × ℕ))
      → Io Collector (Window × ℕ)
  read_one pages page first_total previous window again = do
    document ← load python env config start_ms end_ms page
    step ←
        lift
          (judge python config accept_cap start_ms end_ms page first_total previous window document)
    follow pages again step

  unfoldable pub read_pages : ℕ → ℕ → Option ℕ → Rows → Window → Io Collector (Window × ℕ)
  read_pages zero page first_total previous window = pure (with_problem window cycle_budget, zero)
  read_pages (suc pages) page first_total previous window = do
    over ← is_over python env config deadline
    if over
        then pure (with_problem window cycle_budget, suc pages)
        else read_one pages page first_total previous window
            (λ total fresh w. read_pages pages (page + 1) (some total) fresh w)

  -- `read_window`, with the pages that the budget has
  unfoldable pub read_window : ℕ → Io Collector (Window × ℕ)
  read_window pages = read_pages pages 0 none [] new_window
