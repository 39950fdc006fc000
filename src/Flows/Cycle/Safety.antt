-- ===== src/Flows/Cycle/Safety.antt =====
-- collector.py, `advance`: one round of its loop, from the reading of a window on.
use home_lab.Prelude.{
  ℕ, ◌+◌, ◌-◌, ◌*◌, ◌≡◌, refl, sym, ap, ◌∙◌, ◌⊎◌, inl, inr, Bool, true, false, not, ◌&&◌, none,
  some, [], ◌∷◌, leb, min, if◌then◌else◌,
}
use home_lab.Prelude.Dict.{contains}
use home_lab.Flows.Runtime.{Config, Python, Outcome, ok, raised, Env}
use home_lab.Flows.Io.{Io, pure, lift, modify, ◌>>=◌, ◌>>◌}
use home_lab.Flows.Io.Ends.{Sat}
use home_lab.Flows.Window.PageCheck.{Rows}
use home_lab.Flows.Window.Quiet.{Kept, kept, read_window-kept}
use home_lab.Flows.Window.{Window, new_window, read_window}
use home_lab.Flows.Window.Ending.{Outlasts, read_window-Ends}
use home_lab.Flows.Window.Admits.{AllAdmitted}
use home_lab.Flows.State.{Collector}
use home_lab.Flows.Store.Delivery.{AllDelivered, Identified}
use home_lab.Flows.Store.Delivered.{delivered, SeenDelivered}
use home_lab.Flows.Cycle.Watermark.{Advances, take_window-Advances}
use home_lab.Flows.Advance.{Turn, go_on, take_window, handle_window, halved, round_at, round}

SeenDelivered-kept : (s s' : Collector) → kept s' ≡ kept s → SeenDelivered s → SeenDelivered s'
SeenDelivered-kept s s' e h id m =
    ap (λ (k : Kept). delivered id k.sent_lines) e
    ∙ h id (ap (λ (k : Kept). contains id k.seen) (sym e) ∙ m)

module _ (python : Python) (env : Env) (config : Config) where
  Identified-AllAdmitted :
      (start_ms end_ms : ℕ) (rows : Rows)
      → AllAdmitted python start_ms end_ms rows
      → Identified python env config rows
  Identified-AllAdmitted start_ms end_ms [] h = tt
  Identified-AllAdmitted start_ms end_ms ((id, row) ∷ rows) h =
      (h.0.identity, Identified-AllAdmitted start_ms end_ms rows h.1)

  handle_window-Advances :
      (w end_ms window_ms : ℕ) (at_floor : Bool) (read : Window × ℕ) (s : Collector)
      → Identified python env config read.0.rows
      → SeenDelivered s
      → Advances python env config s end_ms read.0
          (handle_window python env config w end_ms window_ms at_floor read s)
  unfolding handle_window
  handle_window-Advances w end_ms window_ms at_floor read s i h = go (read.0.capped && not at_floor)
    where
      go :
          (again : Bool)
          → Advances python env config s end_ms read.0 (
              (if again
                  then (modify (halved python env config window_ms) >> pure (go_on read.1 0))
                  else take_window python env config w end_ms read.0 read.1)
                s)
      go true = (h, inl refl)
      go false = take_window-Advances python env config w end_ms read.1 read.0 s i h

  module _ (deadline end_limit w pages : ℕ) where
    abbrev window_start : ℕ
    window_start = w - config.overlap_s * 1000

    abbrev window_end : Collector → ℕ
    window_end s = min (w + s.window_ms) end_limit

    -- `read_window`, as the round calls it
    abbrev reading : Collector → Outcome (Window × ℕ) × Collector
    reading s =
        read_window python env config deadline window_start (window_end s)
          (leb s.window_ms (config.min_window_s * 1000)) pages s

    -- The watermark stays, or it moves to the end of the window that was read, which has no
    -- problem, and all of whose rows are delivered.
    abbrev pub MovesSafely : Collector → Outcome Turn × Collector → Type 0
    MovesSafely s (r, s') =
        (s'.watermark ≡ s.watermark)
        ⊎ ((window : Window) × (left : ℕ) × ((reading s).0 ≡ ok (window, left))
            × (s'.watermark ≡ some (window_end s))
            × (window.problem ≡ none)
            × AllDelivered python env config s' window.rows)

    -- Whatever the console and VictoriaLogs answer, and whether the round returns or raises: the
    -- ids seen stay delivered ids, and the watermark moves only past a delivered window.
    pub round_safe :
        (s : Collector)
        → SeenDelivered s
        → SeenDelivered (round python env config deadline end_limit w pages s).1
          × MovesSafely s (round python env config deadline end_limit w pages s)
    unfolding round round_at
    round_safe s h =
        go (reading s) refl
          (read_window-kept python env config deadline window_start (window_end s)
            (leb s.window_ms (config.min_window_s * 1000)) pages s)
          (read_window-Ends python env config deadline window_start (window_end s)
            (leb s.window_ms (config.min_window_s * 1000)) pages s)
      where
        at_floor : Bool
        at_floor = leb s.window_ms (config.min_window_s * 1000)

        handle : Window × ℕ → Io Collector Turn
        handle = handle_window python env config w (window_end s) s.window_ms at_floor

        take :
            (read : Window × ℕ) (s1 : Collector) (r : Outcome Turn × Collector)
            → (reading s).0 ≡ ok read
            → kept s1 ≡ kept s
            → Advances python env config s1 (window_end s) read.0 r
            → SeenDelivered r.1 × MovesSafely s r
        take read s1 r e k (d, inl stays) = (d, inl (stays ∙ ap (λ (x : Kept). x.watermark) k))
        take read s1 r e k (d, inr (m, p, a)) = (d, inr (read.0, read.1, e, m, p, a))

        go :
            (r : Outcome (Window × ℕ) × Collector)
            → reading s ≡ r
            → kept r.1 ≡ kept s
            → Sat
                (Outlasts python env config deadline window_start
                  (window_end s)
                  at_floor
                  pages
                  new_window)
                r.0
            → let r' = (lift r.0 >>= handle) r.1 in SeenDelivered r'.1 × MovesSafely s r'
        go (ok read, s1) e k o =
            take read s1 (handle read s1) (ap (λ (x : Outcome (Window × ℕ) × Collector). x.0) e) k (
              handle_window-Advances w (window_end s) s.window_ms at_floor read s1
                (Identified-AllAdmitted window_start (window_end s) read.0.rows o.0.rows)
                (SeenDelivered-kept s s1 k h))
        go (raised x, s1) e k o =
            (SeenDelivered-kept s s1 k h, inl (ap (λ (v : Kept). v.watermark) k))
