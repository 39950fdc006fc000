-- ===== src/Hid/Keyboard/Loops.antt =====
-- hid_input.py, `_ready` and `_write`: how their loops end.
use home_lab.Prelude.{
  ℕ, zero, suc, ◌-◌, ◌≡◌, ◌≤◌, ◌<◌, ◌≢◌, refl, Bool, true, false, ◌||◌, List, [], ◌∷◌, length, ◌==◌,
  arith, if◌then◌else◌,
}
use home_lab.Program.{raise, ◌>>=◌}
use home_lab.Hid.Gadget.{
  Report, Ready, Polled, ready, poll_interrupted, no_poll, poll_signal, Written, count,
  write_interrupted, full, no_write, write_signal, clock_read, polls, writes, History, Env, short,
  hid_error,
}
use home_lab.Hid.Keyboard.{
  ask_poll, after_scan, after_poll, ready_loop, await_ready, after_write, try_write, write_loop,
  submit,
}
use home_lab.Hid.Opening.{remaining, back_off, rounds_until}
use home_lab.Hid.Attributes.{Keyboard, Act, log, ceil_ms, Scan, broken, writable, nothing, scan}
use home_lab.Hid.Keyboard.Rounds.{
  IsTimed, Moves, MovesFrom, Passes, Passes-then, remaining-then, Moves-then, Gains-then,
  back_off-Gains,
}

scan-writable :
    (event : Ready) (events : List Ready)
    → event.is_device ≡ true
    → (event.is_broken || event.is_writable) ≡ true
    → scan (event ∷ events) ≢ nothing
scan-writable event events d k e = ground (arith, d, k, e)

-- It takes a millisecond at least.
ceil_ms-positive : (us : ℕ) → 0 < us → 0 < ceil_ms us
ceil_ms-positive us l = omega (arith, l)

module _ (env : Env) (timed : IsTimed env) where
  -- A poll that lets the loop go on has waited.
  scan-waited :
      (ms : ℕ) (h : History) (events : List Ready)
      → 0 < ms
      → env.poll ms h ≡ ready events
      → scan events ≡ nothing
      → env.clock h < env.clock (polls ms (ready events) ∷ h)
  scan-waited ms h [] l e n = omega (arith, l, timed.waited_for ms h e)
  scan-waited ms h (event ∷ events) l e n =
      let (d, k) = timed.told ms h event events e in elim (scan-writable event events d k n) [ ]

  polled-Moves :
      (until ms : ℕ) (again : Act (Unit {0})) (s : Keyboard)
      → 0 < ms
      → MovesFrom env timed (suc (env.clock s.history)) again
      → Moves env s ((ask_poll env ms >>= after_poll env until again) s)
  polled-Moves until ms again s l h = go (env.poll ms s.history) refl
    where
      polled : Polled → Keyboard
      polled answer = log (polls ms answer) s

      scanned :
          (events : List Ready) (found : Scan) (t : ℕ)
          → (scan events ≡ nothing → suc (env.clock s.history) ≤ t)
          → scan events ≡ found
          → MovesFrom env timed t (after_scan env again found)
      scanned events broken t w f s1 l1 = (λ x. ground (arith, x), ground arith)
      scanned events writable t w f s1 l1 = (λ x. ground (arith, x), ground arith)
      scanned events nothing t w f s1 l1 = h s1 (ground (arith, l1, w f))

      go :
          (answer : Polled)
          → env.poll ms s.history ≡ answer
          → Moves env s (after_poll env until again answer (polled answer))
      go (ready events) e =
          let (ends, later) =
            remaining-then env timed until (λ _. after_scan env again (scan events))
              (polled (ready events))
              (λ left _ _.
                scanned events (scan events) (env.clock (polled (ready events)).history)
                  (λ n. scan-waited ms s.history events l e n) refl) in
          (ends, ground (arith, later, timed.forward (polls ms (ready events)) s.history))
      go poll_interrupted e = elim (timed.poll_retried ms s.history e) [ ]
      go no_poll e = (λ x. ground (arith, x), timed.forward (polls ms no_poll) s.history)
      go poll_signal e = (λ x. ground (arith, x), timed.forward (polls ms poll_signal) s.history)

  ready_loop-Moves :
      (rounds until : ℕ) (s : Keyboard)
      → until - env.clock s.history < rounds
      → Moves env s (ready_loop env rounds until s)
  unfolding ready_loop
  ready_loop-Moves zero until s l = ground (arith, l)
  ready_loop-Moves (suc rounds) until s l =
      let again = ready_loop env rounds until in
      let h = ready_loop-Moves rounds until in
      remaining-then env timed until
        (λ left. ask_poll env (ceil_ms left) >>= after_poll env until again) s
        (λ left some_left b s1 l1.
          polled-Moves until (ceil_ms left) again s1 (ceil_ms-positive left some_left)
            (λ s2 l2. h s2 (omega (arith, l, b, l1, l2))))

  await_ready-Moves : (until : ℕ) (s : Keyboard) → Moves env s (await_ready env until s)
  unfolding await_ready
  await_ready-Moves until s = ready_loop-Moves (rounds_until env until s) until s (ground arith)

  try_write-Passes :
      (report : Report) (until : ℕ) (s : Keyboard)
      → Passes env timed
          (λ answer. answer ≢ write_interrupted)
          until
          s
          (try_write env report until s)
  unfolding try_write remaining
  try_write-Passes report until s =
      let looked = log (clock_read (env.clock s.history)) s in
      ground (
        arith,
        timed.forward (clock_read (env.clock s.history)) s.history,
        timed.forward (writes report (env.write report looked.history)) looked.history,
        timed.write_retried report looked.history,
      )

  after_write-Moves :
      (report : Report) (until : ℕ) (again : Act (Unit {0})) (answer : Written) (t : ℕ)
      → answer ≢ write_interrupted
      → MovesFrom env timed (suc t) again
      → MovesFrom env timed t (after_write env report until again answer)
  after_write-Moves report until again (count n) t i h s l = go (n == length report)
    where
      go :
          (whole : Bool)
          → Moves env s ((if whole then await_ready env until else raise (hid_error (short n))) s)
      go true = await_ready-Moves until s
      go false = (λ x. ground (arith, x), ground arith)
  after_write-Moves report until again write_interrupted t i h s l = elim (i refl) [ ]
  after_write-Moves report until again full t i h s l =
      Gains-then env timed (back_off env until) (λ _. again) s (back_off-Gains env timed until s)
        (λ _ s1 l1. h s1 (omega (arith, l, l1)))
  after_write-Moves report until again no_write t i h s l = (λ x. ground (arith, x), ground arith)
  after_write-Moves report until again write_signal t i h s l =
      (λ x. ground (arith, x), ground arith)

  write_loop-Moves :
      (rounds : ℕ) (report : Report) (until : ℕ) (s : Keyboard)
      → until - env.clock s.history < rounds
      → Moves env s (write_loop env rounds report until s)
  unfolding write_loop
  write_loop-Moves zero report until s l = ground (arith, l)
  write_loop-Moves (suc rounds) report until s l =
      let again = write_loop env rounds report until in
      let h = write_loop-Moves rounds report until in
      Moves-then env timed (await_ready env until)
        (λ _. try_write env report until >>= after_write env report until again) s
        (await_ready-Moves until s)
        (λ _ s1 l1.
          Passes-then env timed (λ answer. answer ≢ write_interrupted) until
            (try_write env report until) (after_write env report until again) s1
            (try_write-Passes report until s1)
            (λ answer i b.
              after_write-Moves report until again answer (env.clock s1.history) i
                (λ s2 l2. h s2 (omega (arith, l, b, l1, l2)))))

  pub submit-Moves :
      (report : Report) (until : ℕ) (s : Keyboard) → Moves env s (submit env report until s)
  unfolding submit
  submit-Moves report until s =
      write_loop-Moves (rounds_until env until s) report until s (ground arith)
