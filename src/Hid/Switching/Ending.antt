-- ===== src/Hid/Switching/Ending.antt =====
-- hid-hold-key.py: how `main` ends, given what is documented of time.
use home_lab.Prelude.{
  ℕ, zero, suc, ◌+◌, ◌-◌, ◌<◌, ◌≡◌, ◌≢◌, refl, String, Bool, true, false, Option, none, some, List,
  [], ◌∷◌, ltb, leb, arith, if◌then◌else◌,
}
use home_lab.Prelude.Int.{ℤ, pos, negsuc}
use home_lab.Program.{Outcome, raised, pure, ◌>>=◌}
use home_lab.Hid.Gadget.{clock_read, History, Env, Error, system_exit, no_end}
use home_lab.Hid.Keyboard.{write_report, pause, with_keyboard}
use home_lab.Hid.Opening.{monotonic, rounds_until}
use home_lab.Hid.Attributes.{Keyboard, log}
use home_lab.Hid.Keyboard.Rounds.{
  IsTimed, Moves, Gains, Moves-then, Gains-then, Moves-Gains, Gains-Moves,
}
use home_lab.Hid.Keyboard.Ending.{write_report-Moves, pause-Moves, pause-Gains, with_keyboard_ends}
use home_lab.Hid.Typing.{requested}
use home_lab.Hid.Switching.{
  Time, no_number, out_of_range, micros, Python, press, press_and, hold_loop, hold_until, hold_body,
  hold_key, hold_main,
}

module _ (env : Env) (timed : IsTimed env) where
  -- A press that returns has held the key for a while.
  press-Gains : (key : ℕ) (s : Keyboard) → Gains env s (press env key s)
  unfolding press
  press-Gains key s =
      Moves-Gains env timed (write_report env 0 key)
        (λ _.
          pause env (some 400_000) >>= λ _. write_report env 0 0 >>= λ _. pause env (some 100_000))
        s (write_report-Moves env timed 0 key s)
        (λ _ s1.
          Gains-Moves env timed (pause env (some 400_000))
            (λ _. write_report env 0 0 >>= λ _. pause env (some 100_000)) s1
            (pause-Gains env timed 400_000 s1 (omega arith))
            (λ _ s2.
              Moves-then env timed (write_report env 0 0) (λ _. pause env (some 100_000)) s2
                (write_report-Moves env timed 0 0 s2)
                (λ _ s3 _. pause-Moves env timed (some 100_000) s3)))

  hold_loop-Moves :
      (rounds key until : ℕ) (s : Keyboard)
      → until - env.clock s.history < rounds
      → Moves env s (hold_loop env rounds key until s)
  unfolding hold_loop
  hold_loop-Moves zero key until s l = ground (arith, l)
  hold_loop-Moves (suc rounds) key until s l =
      go (ltb (env.clock s.history) until) refl (hold_loop-Moves rounds key until)
    where
      go :
          (more : Bool)
          → ltb (env.clock s.history) until ≡ more
          → ((s : Keyboard)
              → until - env.clock s.history < rounds
              → Moves env s (hold_loop env rounds key until s))
          → Moves env s
              ((monotonic env >>= λ _. press_and env key (hold_loop env rounds key until) more) s)
      go false e h =
          Moves-then env timed (monotonic env) (λ _. pure tt) s (clock-Moves s)
            (λ _ s1 _. (λ x. ground (arith, x), ground arith))
        where
          clock-Moves : (s : Keyboard) → Moves env s (monotonic env s)
          clock-Moves s = (
            λ x. ground (arith, x),
            ground (arith, timed.forward (clock_read (env.clock s.history)) s.history),
          )
      go true e h =
          let s1 = log (clock_read (env.clock s.history)) s in
          let forward = timed.forward (clock_read (env.clock s.history)) s.history in
          let (ends, later) =
            Gains-then env timed (press env key) (λ _. hold_loop env rounds key until) s1
              (press-Gains key s1) (λ _ s2 l2. h s2 (ground (arith, l, e, forward, l2))) in
          (ends, ground (arith, forward, later))

  hold_body-Moves : (key hold : ℕ) (s : Keyboard) → Moves env s (hold_body env key hold s)
  unfolding hold_body hold_until
  hold_body-Moves key hold s =
      let s1 = log (clock_read (env.clock s.history)) s in
      let until = env.clock s.history + hold in
      let forward = timed.forward (clock_read (env.clock s.history)) s.history in
      let (ends, later) = hold_loop-Moves (rounds_until env until s1) key until s1 (ground arith) in
      (ends, ground (arith, forward, later))

  hold_key_ends :
      (key : Option ℤ) (time : Time) (h : History) → (hold_key env key time h).0 ≢ raised no_end
  hold_key_ends none time h = λ x. ground (arith, x)
  hold_key_ends (some (negsuc n)) no_number h = λ x. ground (arith, x)
  hold_key_ends (some (negsuc n)) out_of_range h = λ x. ground (arith, x)
  hold_key_ends (some (negsuc n)) (micros us) h = λ x. ground (arith, x)
  hold_key_ends (some (pos key)) no_number h = λ x. ground (arith, x)
  hold_key_ends (some (pos key)) out_of_range h = λ x. ground (arith, x)
  hold_key_ends (some (pos key)) (micros us) h = go (leb key 0xFF)
    where
      go :
          (fits : Bool)
          → (if◌then◌else◌ {A = Outcome Error (Unit {0}) × Keyboard} fits
              (with_keyboard env (hold_body env key us) (requested env h))
              (raised system_exit, requested env h)).0
            ≢ raised no_end
      go true =
          with_keyboard_ends env timed (hold_body env key us) (requested env h)
            (hold_body-Moves key us)
      go false = λ x. ground (arith, x)

  -- If the clock never goes back, a sleep and a poll without events take their time, a poll's events
  -- are of the device and say that it is broken or writable, and poll and write are never
  -- interrupted (a signal's handler raises, else they are retried), then `main` of hid-hold-key.py
  -- ends, whatever its arguments, and however the lock file and the gadget answer.
  pub hold_main_ends :
      (python : Python) (arguments : List String) (h : History)
      → (hold_main env python arguments h).0 ≢ raised no_end
  unfolding hold_main
  hold_main_ends python [] h = λ x. ground (arith, x)
  hold_main_ends python (key ∷ []) h = hold_key_ends (python.hex_of key) (micros 25_000_000) h
  hold_main_ends python (key ∷ seconds ∷ []) h =
      hold_key_ends (python.hex_of key) (python.time_of seconds) h
  hold_main_ends python (a ∷ b ∷ c ∷ more) h = λ x. ground (arith, x)
