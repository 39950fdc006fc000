-- ===== src/Flows/Window/Ending.antt =====
-- collector.py, `read_window`: how it ends, and the pages that are left.
use home_lab.Prelude.{
  ℕ, zero, suc, ◌+◌, ◌≤◌, ◌<◌, ◌≡◌, refl, ◌⊎◌, inl, inr, Bool, Option, none, some, [], arith,
  if◌then◌else◌,
}
use home_lab.Json.{Json}
use home_lab.Flows.Runtime.{Config, Python, Outcome, ok, raised, Env}
use home_lab.Flows.Io.{Io, pure, lift, ◌>>=◌}
use home_lab.Flows.Io.Ends.{Sat, Ends, Any, Ends-bind, Ends-lift, Ends-if}
use home_lab.Flows.Console.{read_clock}
use home_lab.Flows.Console.Depth.{fetch_depth-eq-fetch}
use home_lab.Flows.State.{Collector}
use home_lab.Flows.Window.PageCheck.{Rows, cycle_budget}
use home_lab.Flows.Window.Admits.{IsAdmitted, StepAdmitted, judge-Sat}
use home_lab.Flows.Window.{
  Window, Step, done, next, new_window, with_problem, is_over, load, delay, judge, follow, read_one,
  read_pages, read_window,
}

module _ (python : Python) (env : Env) (config : Config) where
  is_over-Ends : (deadline : ℕ) → Ends Any (is_over python env config deadline)
  unfolding is_over read_clock
  is_over-Ends deadline s = ground arith

  load-Ends : (start_ms end_ms page : ℕ) → Ends Any (load python env config start_ms end_ms page)
  unfolding load
  load-Ends start_ms end_ms page s =
      ground (arith, (fetch_depth-eq-fetch python env config 0 start_ms end_ms page s.link).1)

  delay-Ends : Ends Any (delay config)
  unfolding delay
  delay-Ends s = ground arith

  module _ (deadline start_ms end_ms : ℕ) (accept_cap : Bool) where
    -- A window of admitted rows, with at most so many pages left.
    abbrev Leftover : ℕ → Window × ℕ → Type 0
    Leftover pages r = IsAdmitted python start_ms end_ms r.0 × (r.1 ≤ pages)

    follow-Ends :
        (pages : ℕ) (again : ℕ → Rows → Window → Io Collector (Window × ℕ))
        → ((total : ℕ) (fresh : Rows) (w : Window)
            → IsAdmitted python start_ms end_ms w
            → Ends (Leftover pages) (again total fresh w))
        → (step : Step) → StepAdmitted python start_ms end_ms step
        → Ends
            (Leftover pages)
            (follow python env config deadline start_ms end_ms accept_cap pages again step)
    unfolding follow
    follow-Ends pages again h (done w) a s = (a, omega arith)
    follow-Ends pages again h (next w total fresh) a s =
        Ends-bind (Leftover pages) (delay config) (λ _. again total fresh w) delay-Ends
          (λ _ _. h total fresh w a) s

    read_one-Ends :
        (pages page : ℕ) (first_total : Option ℕ) (previous : Rows) (window : Window)
        (again : ℕ → Rows → Window → Io Collector (Window × ℕ))
        → IsAdmitted python start_ms end_ms window
        → ((total : ℕ) (fresh : Rows) (w : Window)
            → IsAdmitted python start_ms end_ms w
            → Ends (Leftover pages) (again total fresh w))
        → Ends (Leftover pages) (
            read_one python env config deadline start_ms end_ms accept_cap pages page first_total
              previous window again)
    unfolding read_one
    read_one-Ends pages page first_total previous window again a h =
        let judged = λ (document : Json).
          judge python config accept_cap start_ms end_ms page first_total previous window
            document in
        let rest = follow python env config deadline start_ms end_ms accept_cap pages again in
        Ends-bind (Leftover pages) (load python env config start_ms end_ms page)
          (λ document. lift (judged document) >>= rest) (load-Ends start_ms end_ms page)
          (λ document _.
            Ends-lift (Leftover pages) (judged document) rest
              (judge-Sat python start_ms end_ms config accept_cap page first_total previous window a
                document)
              (follow-Ends pages again h))

    -- Either a page was used, or the window is as it was but for the budget's problem.
    abbrev pub Outlasts : ℕ → Window → Window × ℕ → Type 0
    Outlasts pages window r =
        IsAdmitted python start_ms end_ms r.0
        × ((r.1 < pages) ⊎ ((r.0 ≡ with_problem window cycle_budget) × (r.1 ≡ pages)))

    Leftover-of_Outlasts :
        (pages : ℕ) (window : Window) (r : Outcome (Window × ℕ))
        → Sat (Outlasts pages window) r
        → Sat (Leftover pages) r
    Leftover-of_Outlasts pages window (ok r) (a, inl h) = (a, omega arith)
    Leftover-of_Outlasts pages window (ok r) (a, inr h) = (a, omega arith)
    Leftover-of_Outlasts pages window (raised e) h = h

    Outlasts-of_Leftover :
        (pages : ℕ) (window : Window) (r : Outcome (Window × ℕ))
        → Sat (Leftover pages) r
        → Sat (Outlasts (suc pages) window) r
    Outlasts-of_Leftover pages window (ok r) h = (h.0, inl (omega arith))
    Outlasts-of_Leftover pages window (raised e) h = h

    read_pages-Ends :
        (pages page : ℕ) (first_total : Option ℕ) (previous : Rows) (window : Window)
        → IsAdmitted python start_ms end_ms window
        → Ends (Outlasts pages window) (
            read_pages python env config deadline start_ms end_ms accept_cap pages page first_total
              previous window)
    unfolding read_pages
    read_pages-Ends zero page first_total previous window a s =
        (record { rows = a.rows; distinct = a.distinct }, inr (refl, refl))
    read_pages-Ends (suc pages) page first_total previous window a s =
        let again = λ (total : ℕ) (fresh : Rows) (w : Window).
          read_pages python env config deadline start_ms end_ms accept_cap pages (page + 1)
            (some total) fresh w in
        let one =
          read_one python env config deadline start_ms end_ms accept_cap pages page first_total
            previous window again in
        let stop : Io Collector (Window × ℕ) = pure (with_problem window cycle_budget, suc pages) in
        let goal = Outlasts (suc pages) window in
        Ends-bind goal (is_over python env config deadline) (λ over. if over then stop else one)
          (is_over-Ends deadline)
          (λ over _.
            Ends-if goal over stop one
              (λ _ s1. (record { rows = a.rows; distinct = a.distinct }, inr (refl, refl)))
              (λ _ s1. Outlasts-of_Leftover pages window (one s1).0 (
                read_one-Ends pages page first_total previous window again a
                  (λ total fresh w b s2.
                    Leftover-of_Outlasts pages w (again total fresh w s2).0
                      (read_pages-Ends pages (page + 1) (some total) fresh w b s2))
                  s1)))
          s

    -- The rows of a window stand under their own ids, each once, with times inside the window; and
    -- a page was used, unless the budget was spent at once and the window is empty.
    pub read_window-Ends :
        (pages : ℕ)
        → Ends
            (Outlasts pages new_window)
            (read_window python env config deadline start_ms end_ms accept_cap pages)
    unfolding read_window
    read_window-Ends pages s =
        read_pages-Ends pages 0 none [] new_window (record { rows = tt; distinct = tt }) s
