-- ===== src/Hid/Keyboard/Ending.antt =====
-- hid_input.py: how the calls of a HidKeyboard end, given what is documented of time.
use home_lab.Prelude.{
  ℕ, ◌+◌, ◌≤◌, ◌<◌, ◌≢◌, Bool, true, false, not, ◌||◌, Option, none, some, arith, if◌then◌else◌,
}
use home_lab.Program.{
  Outcome, ok, raised, is_raised, pure, raise, lift, raise_if, gets, modify, on_raise, ◌>>=◌, ◌>>◌,
}
use home_lab.Hid.Gadget.{
  neutral, cleanup_timeout, clock_read, Env, stopped, Error, hid_error, value_error, no_end,
}
use home_lab.Hid.Keyboard.{
  submit, write_body, write_report, pause_body, pause, release_body, release, exit, settled,
  entered, with_keyboard,
}
use home_lab.Hid.Opening.{close_all, enter, remaining, rest_for}
use home_lab.Hid.Attributes.{
  Keyboard, Act, log, fail, report_of, report_deadline, is_byte, completed, caught, exit_outcome,
}
use home_lab.Hid.Keyboard.Rounds.{
  IsTimed, Moves, Gains, Moves-then, Moves-Gains, Gains-Moves, rest_for-Moves, rest_for-Gains,
}
use home_lab.Hid.Keyboard.Loops.{submit-Moves}
use home_lab.Hid.Keyboard.Entering.{looks-Moves, close_all-Moves, enter-Moves}

module _ (env : Env) (timed : IsTimed env) where
  on_raise-Moves :
      {A : Type 0} (m : Act A) (f : Keyboard → Keyboard) (s : Keyboard)
      → ((s : Keyboard) → env.clock s.history ≤ env.clock (f s).history)
      → Moves env s (m s)
      → Moves env s (on_raise m f s)
  on_raise-Moves {A} m f s hf hm = go (m s) hm
    where
      go :
          (r : Outcome Error A × Keyboard)
          → Moves env s r
          → Moves {A = A} env s (on_raise {S = Keyboard} (λ _. r) f s)
      go (ok a, s1) h = h
      go (raised e, s1) (n, l) = (n, ground (arith, l, hf s1))

  finish-Moves :
      (s : Keyboard) (r : Outcome Error (Unit {0}) × Keyboard)
      → Moves env s r
      → Moves env s ((lift r.0 >> modify completed) r.1)
  finish-Moves s (ok _, s1) h = h
  finish-Moves s (raised e, s1) h = h

  write_body-Moves : (modifier key : ℕ) (s : Keyboard) → Moves env s (write_body env modifier key s)
  unfolding write_body
  write_body-Moves modifier key s =
      go (not (is_byte modifier) || not (is_byte key)) (
        submit-Moves env timed (report_of modifier key) (report_deadline (env.clock s.history) s)
          s1)
    where
      s1 : Keyboard
      s1 = log (clock_read (env.clock s.history)) s

      go :
          (bad : Bool)
          → Moves env s1
              (submit env (report_of modifier key) (report_deadline (env.clock s.history) s) s1)
          → Moves env s (
              (raise_if bad value_error
                  >> (submit env (report_of modifier key) (report_deadline (env.clock s.history) s)
                      >> modify completed))
                s1)
      go true h = (
        λ x. ground (arith, x),
        ground (arith, timed.forward (clock_read (env.clock s.history)) s.history),
      )
      go false h =
          let (ends, later) =
            finish-Moves s1
              (submit env (report_of modifier key) (report_deadline (env.clock s.history) s) s1)
              h in
          (ends, ground (arith, later, timed.forward (clock_read (env.clock s.history)) s.history))

  -- `if self.failed or self.fd is None`, and the `try`
  guarded-Moves :
      (off : Bool) (m : Act (Unit {0})) (s : Keyboard)
      → Moves env s (m s)
      → Moves env s ((if off then raise (hid_error stopped) else on_raise m fail) s)
  guarded-Moves true m s h = (λ x. ground (arith, x), ground arith)
  guarded-Moves false m s h = on_raise-Moves m fail s (λ s. ground arith) h

  pub write_report-Moves :
      (modifier key : ℕ) (s : Keyboard) → Moves env s (write_report env modifier key s)
  unfolding write_report
  write_report-Moves modifier key s =
      guarded-Moves (s.failed || not s.fd) (write_body env modifier key) s
        (write_body-Moves modifier key s)

  pause_body-Moves : (us : ℕ) (s : Keyboard) → Moves env s (pause_body env us s)
  unfolding pause_body
  pause_body-Moves us s =
      Moves-then env timed (remaining env s.deadline)
        (λ _ s1. (rest_for env us >>= λ _. lengthen us) s1) s (looks-Moves env timed s.deadline s)
        (λ _ s1 _.
          Moves-then env timed (rest_for env us) (λ _. lengthen us) s1
            (rest_for-Moves env timed us s1) (λ _ s2 _. lengthen-Moves us s2))
    where
      lengthen : ℕ → Act (Unit {0})
      lengthen us = do
        modify (λ (s : Keyboard). record s { deadline = s.deadline + us })
        after ← gets (λ (s : Keyboard). s.deadline)
        remaining env after
        pure tt

      lengthen-Moves : (us : ℕ) (s : Keyboard) → Moves env s (lengthen us s)
      lengthen-Moves us s =
          Moves-then env timed (remaining env (s.deadline + us)) (λ _. pure tt)
            (record s { deadline = s.deadline + us })
            (looks-Moves env timed (s.deadline + us) (record s { deadline = s.deadline + us }))
            (λ _ s1 _. (λ x. ground (arith, x), ground arith))

  -- A pause that returns has slept.
  pause_body-Gains : (us : ℕ) (s : Keyboard) → 0 < us → Gains env s (pause_body env us s)
  unfolding pause_body
  pause_body-Gains us s l =
      Moves-Gains env timed (remaining env s.deadline)
        (λ _ s1. (rest_for env us >>= λ _. lengthen) s1) s (looks-Moves env timed s.deadline s)
        (λ _ s1.
          Gains-Moves env timed (rest_for env us) (λ _. lengthen) s1
            (rest_for-Gains env timed us s1 l) (λ _ s2. lengthen-Moves s2))
    where
      lengthen : Act (Unit {0})
      lengthen = do
        modify (λ (s : Keyboard). record s { deadline = s.deadline + us })
        after ← gets (λ (s : Keyboard). s.deadline)
        remaining env after
        pure tt

      lengthen-Moves : (s : Keyboard) → Moves env s (lengthen s)
      lengthen-Moves s =
          Moves-then env timed (remaining env (s.deadline + us)) (λ _. pure tt)
            (record s { deadline = s.deadline + us })
            (looks-Moves env timed (s.deadline + us) (record s { deadline = s.deadline + us }))
            (λ _ s1 _. (λ x. ground (arith, x), ground arith))

  guarded-Gains :
      (off : Bool) (m : Act (Unit {0})) (s : Keyboard)
      → Gains env s (m s)
      → Gains env s ((if off then raise (hid_error stopped) else on_raise m fail) s)
  guarded-Gains true m s h = (λ x. ground (arith, x), ground arith)
  guarded-Gains false m s h = go (m s) h
    where
      go :
          (r : Outcome Error (Unit {0}) × Keyboard)
          → Gains env s r
          → Gains env s (on_raise {S = Keyboard} (λ _. r) fail s)
      go (ok _, s1) g = g
      go (raised e, s1) g = g

  pub pause-Gains : (us : ℕ) (s : Keyboard) → 0 < us → Gains env s (pause env (some us) s)
  unfolding pause
  pause-Gains us s l =
      guarded-Gains (s.failed || not s.fd) (pause_body env us) s (pause_body-Gains us s l)

  pub pause-Moves : (time : Option ℕ) (s : Keyboard) → Moves env s (pause env time s)
  unfolding pause
  pause-Moves none s = (λ x. ground (arith, x), ground arith)
  pause-Moves (some us) s =
      guarded-Moves (s.failed || not s.fd) (pause_body env us) s (pause_body-Moves us s)

  -- The releasing report, and what `__exit__` makes of it
  release_ends : (s : Keyboard) → (release env s).0 ≢ raised no_end
  unfolding release release_body
  release_ends s =
      go s.fd
        (submit-Moves env timed neutral (env.clock s.history + cleanup_timeout)
          (log (clock_read (env.clock s.history)) s)).0
    where
      caught_ends : (r : Outcome Error (Unit {0})) → r ≢ raised no_end → caught r ≢ raised no_end
      caught_ends r n x = ground (arith, n, x)

      go :
          (held : Bool)
          → (submit env neutral
              (env.clock s.history + cleanup_timeout)
              (log (clock_read (env.clock s.history)) s)).0
            ≢ raised no_end
          → (if◌then◌else◌ {A = Outcome Error Bool × Keyboard} held
              (let (r, s') = release_body env s in (caught r, s'))
              (ok true, s)).0
            ≢ raised no_end
      go true n =
          caught_ends
            (submit env neutral (env.clock s.history + cleanup_timeout)
              (log (clock_read (env.clock s.history)) s)).0
            n
      go false n = λ x. ground (arith, x)

  -- If the body ends, so does the `with` statement.
  pub with_keyboard_ends :
      {A : Type 0} (body : Act A) (s : Keyboard)
      → ((s : Keyboard) → Moves env s (body s))
      → (with_keyboard env body s).0 ≢ raised no_end
  unfolding with_keyboard exit
  with_keyboard_ends {A} body s h = go (enter env s) (enter-Moves env timed s).0
    where
      exited :
          (pending unclosed : Bool) (r : Outcome Error Bool)
          → r ≢ raised no_end
          → exit_outcome r unclosed pending ≢ raised no_end
      exited pending unclosed r n x = ground (arith, n, x)

      left :
          (r : Outcome Error A) (x : Outcome Error (Unit {0}) × Keyboard)
          → r ≢ raised no_end
          → x.0 ≢ raised no_end
          → (settled env r x).0 ≢ raised no_end
      left r (ok _, s2) n m = n
      left r (raised e, s2) n m = λ y. m (ground (arith, y))

      go :
          (r : Outcome Error (Unit {0}) × Keyboard)
          → r.0 ≢ raised no_end
          → (entered env body r).0 ≢ raised no_end
      go (raised e, s1) n = λ y. n (ground (arith, y))
      go (ok _, s1) n =
          let b = (body s1).0 in
          let s2 = (body s1).1 in
          left b (exit env (is_raised b) s2) (h s1).0 (
            (Moves-then env timed (close_all env)
              (λ unclosed. lift (exit_outcome (release env s2).0 unclosed (is_raised b)))
              (fail (release env s2).1) (close_all-Moves env timed (fail (release env s2).1))
              (λ unclosed s3 _. (
                exited (is_raised b) unclosed (release env s2).0 (release_ends s2),
                ground arith,
              ))).0)
