-- ===== src/Flows/Window/Quiet.antt =====
-- collector.py, `read_window`: what of the collector it may change.
use home_lab.Prelude.{
  ℕ, zero, suc, ◌+◌, refl, Bool, Option, none, some, List, [], arith, if◌then◌else◌,
}
use home_lab.Prelude.Dict.{Dict}
use home_lab.Json.{Json}
use home_lab.Flows.Runtime.{Config, Python, Line, Delivery, Env}
use home_lab.Flows.Io.{Io, pure, lift, ◌>>=◌}
use home_lab.Flows.Io.Leaves.{Leaves, Leaves-bind, Leaves-lift, Leaves-if}
use home_lab.Flows.Console.{read_clock}
use home_lab.Flows.Console.Quiet.{sent, fetch-sent}
use home_lab.Flows.State.{Collector}
use home_lab.Flows.Window.PageCheck.{Rows, cycle_budget}
use home_lab.Flows.Window.{
  Window, new_window, Step, done, next, is_over, load, delay, judge, follow, read_one, with_problem,
  read_pages, read_window,
}

pub record Kept : Type 0 where
  pub sent_lines : List (List Line × Delivery)
  pub seen : Dict ℕ
  pub watermark : Option ℕ
  pub pending : List Line
  pub primed : Bool
  pub window_ms : ℕ

abbrev pub kept : Collector → Kept
kept s = record {
  sent_lines = sent s.link;
  seen = s.seen;
  watermark = s.watermark;
  pending = s.pending;
  primed = s.primed;
  window_ms = s.window_ms;
}

module _ (python : Python) (env : Env) (config : Config) where
  is_over-kept : (deadline : ℕ) → Leaves kept (is_over python env config deadline)
  unfolding is_over read_clock
  is_over-kept deadline s = ground arith

  load-kept : (start_ms end_ms page : ℕ) → Leaves kept (load python env config start_ms end_ms page)
  unfolding load
  load-kept start_ms end_ms page s =
      ground (arith, fetch-sent python env config start_ms end_ms page s.link)

  delay-kept : Leaves kept (delay config)
  unfolding delay
  delay-kept s = ground arith

  module _ (deadline start_ms end_ms : ℕ) (accept_cap : Bool) where
    follow-kept :
        (pages : ℕ) (again : ℕ → Rows → Window → Io Collector (Window × ℕ))
        → ((total : ℕ) (fresh : Rows) (w : Window) → Leaves kept (again total fresh w))
        → (step : Step)
        → Leaves kept
            (follow python env config deadline start_ms end_ms accept_cap pages again step)
    unfolding follow
    follow-kept pages again h (done w) s = refl
    follow-kept pages again h (next w total fresh) s =
        Leaves-bind kept (delay config) (λ _. again total fresh w) delay-kept (λ _. h total fresh w)
          s

    read_one-kept :
        (pages page : ℕ) (first_total : Option ℕ) (previous : Rows) (window : Window)
        (again : ℕ → Rows → Window → Io Collector (Window × ℕ))
        → ((total : ℕ) (fresh : Rows) (w : Window) → Leaves kept (again total fresh w))
        → Leaves kept (
            read_one python env config deadline start_ms end_ms accept_cap pages page first_total
              previous window again)
    unfolding read_one
    read_one-kept pages page first_total previous window again h =
        let judged = λ (document : Json).
          judge python config accept_cap start_ms end_ms page first_total previous window
            document in
        let rest = follow python env config deadline start_ms end_ms accept_cap pages again in
        Leaves-bind kept (load python env config start_ms end_ms page)
          (λ document. lift (judged document) >>= rest) (load-kept start_ms end_ms page)
          (λ document. Leaves-lift kept (judged document) rest (follow-kept pages again h))

    read_pages-kept :
        (pages page : ℕ) (first_total : Option ℕ) (previous : Rows) (window : Window)
        → Leaves kept (
            read_pages python env config deadline start_ms end_ms accept_cap pages page first_total
              previous window)
    unfolding read_pages
    read_pages-kept zero page first_total previous window s = refl
    read_pages-kept (suc pages) page first_total previous window s =
        let again = λ (total : ℕ) (fresh : Rows) (w : Window).
          read_pages python env config deadline start_ms end_ms accept_cap pages (page + 1)
            (some total) fresh w in
        let one =
          read_one python env config deadline start_ms end_ms accept_cap pages page first_total
            previous window again in
        let stop : Io Collector (Window × ℕ) = pure (with_problem window cycle_budget, suc pages) in
        Leaves-bind kept (is_over python env config deadline) (λ over. if over then stop else one)
          (is_over-kept deadline)
          (λ over.
            Leaves-if kept over stop one (λ s1. refl)
              (read_one-kept pages page first_total previous window again
                (λ total fresh w. read_pages-kept pages (page + 1) (some total) fresh w)))
          s

    -- Reading a window changes nothing that `kept` names, whether it returns or raises.
    pub read_window-kept :
        (pages : ℕ)
        → Leaves kept (read_window python env config deadline start_ms end_ms accept_cap pages)
    unfolding read_window
    read_window-kept pages s = read_pages-kept pages 0 none [] new_window s
