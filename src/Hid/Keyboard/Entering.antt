-- ===== src/Hid/Keyboard/Entering.antt =====
-- hid_input.py: how `__enter__` and `_close` end, given what is documented of time.
use home_lab.Prelude.{ℕ, zero, suc, ◌+◌, ◌-◌, ◌<◌, not, length, ◌==◌, arith}
use home_lab.Program.{Outcome, ok, raised, pure, raise, ◌>>=◌}
use home_lab.Hid.Gadget.{
  closes, opens, device, lock, Handle, Locked, locked, busy, no_lock, lock_signal, clock_read,
  locks, Env, Error,
}
use home_lab.Hid.Opening.{
  open_file, close_fd, close_lock_fd, close_all, closed_after, enter_body, enter, remaining,
  back_off, rounds_until, ask_lock, after_flock, lock_loop, take_lock,
}
use home_lab.Hid.Attributes.{Keyboard, Act}
use home_lab.Hid.Keyboard.Rounds.{
  IsTimed, Moves, MovesFrom, Moves-then, Gains-then, remaining-then, back_off-Gains,
}

module _ (env : Env) (timed : IsTimed env) where
  after_flock-Moves :
      (until : ℕ) (again : Act (Unit {0})) (answer : Locked) (t : ℕ)
      → MovesFrom env timed (suc t) again
      → MovesFrom env timed t (after_flock env until again answer)
  after_flock-Moves until again locked t h s l = (λ x. ground (arith, x), ground arith)
  after_flock-Moves until again busy t h s l =
      Gains-then env timed (back_off env until) (λ _. again) s (back_off-Gains env timed until s)
        (λ _ s1 l1. h s1 (ground (arith, l, l1)))
  after_flock-Moves until again no_lock t h s l = (λ x. ground (arith, x), ground arith)
  after_flock-Moves until again lock_signal t h s l = (λ x. ground (arith, x), ground arith)

  ask_lock-Moves : (s : Keyboard) → Moves env s (ask_lock env s)
  ask_lock-Moves s = (
    λ x. ground (arith, x),
    ground (arith, timed.forward (locks (env.flock s.history)) s.history),
  )

  lock_loop-Moves :
      (rounds until : ℕ) (s : Keyboard)
      → until - env.clock s.history < rounds
      → Moves env s (lock_loop env rounds until s)
  unfolding lock_loop
  lock_loop-Moves zero until s l = ground (arith, l)
  lock_loop-Moves (suc rounds) until s l =
      let again = lock_loop env rounds until in
      let h = lock_loop-Moves rounds until in
      remaining-then env timed until (λ _. ask_lock env >>= after_flock env until again) s
        (λ _ _ b s1 l1.
          Moves-then env timed (ask_lock env) (after_flock env until again) s1 (ask_lock-Moves s1)
            (λ answer s2 l2.
              after_flock-Moves until again answer (env.clock s.history)
                (λ s3 l3. h s3 (ground (arith, l, b, l3))) s2 (ground (arith, l1, l2))))

  take_lock-Moves : (s : Keyboard) → Moves env s (take_lock env s)
  unfolding take_lock
  take_lock-Moves s =
      lock_loop-Moves (rounds_until env s.start_deadline s) s.start_deadline s (ground arith)

  open_file-Moves : (f : Handle) (s : Keyboard) → Moves env s (open_file env f s)
  unfolding open_file
  open_file-Moves f s =
      ground (arith, timed.forward (opens f (env.open_file f s.history)) s.history)

  pub looks-Moves : (until : ℕ) (s : Keyboard) → Moves env s (remaining env until s)
  unfolding remaining
  looks-Moves until s = ground (arith, timed.forward (clock_read (env.clock s.history)) s.history)

  enter_body-Moves : (s : Keyboard) → Moves env s (enter_body env s)
  unfolding enter_body
  enter_body-Moves s =
      let until = s.start_deadline in
      Moves-then env timed (remaining env until)
        (λ _. open_file env lock >>= λ _. take_lock env >>= λ _. remaining env until >>= λ _.
          open_file env device >>= λ _. remaining env until >>= λ _. pure tt)
        s (looks-Moves until s)
        (λ _ s1 _.
          Moves-then env timed (open_file env lock)
            (λ _. take_lock env >>= λ _. remaining env until >>= λ _.
              open_file env device >>= λ _. remaining env until >>= λ _. pure tt)
            s1 (open_file-Moves lock s1)
            (λ _ s2 _.
              Moves-then env timed (take_lock env)
                (λ _. remaining env until >>= λ _.
                  open_file env device >>= λ _. remaining env until >>= λ _. pure tt)
                s2 (take_lock-Moves s2)
                (λ _ s3 _.
                  Moves-then env timed (remaining env until)
                    (λ _. open_file env device >>= λ _. remaining env until >>= λ _. pure tt) s3
                    (looks-Moves until s3)
                    (λ _ s4 _.
                      Moves-then env timed (open_file env device)
                        (λ _. remaining env until >>= λ _. pure tt) s4 (open_file-Moves device s4)
                        (λ _ s5 _.
                          Moves-then env timed (remaining env until) (λ _. pure tt) s5
                            (looks-Moves until s5)
                            (λ _ s6 _. (λ x. ground (arith, x), ground arith)))))))

  close_fd-Moves : (s : Keyboard) → Moves env s (close_fd env s)
  unfolding close_fd
  close_fd-Moves s =
      ground (arith, timed.forward (closes device (env.close device s.history)) s.history)

  close_lock_fd-Moves : (s : Keyboard) → Moves env s (close_lock_fd env s)
  unfolding close_lock_fd
  close_lock_fd-Moves s =
      ground (arith, timed.forward (closes lock (env.close lock s.history)) s.history)

  pub close_all-Moves : (s : Keyboard) → Moves env s (close_all env s)
  unfolding close_all
  close_all-Moves s =
      Moves-then env timed (close_fd env)
        (λ a. close_lock_fd env >>= λ b. pure (not (length a + length b == 0))) s (close_fd-Moves s)
        (λ a s1 _.
          Moves-then env timed (close_lock_fd env) (λ b. pure (not (length a + length b == 0))) s1
            (close_lock_fd-Moves s1) (λ b s2 _. (λ x. ground (arith, x), ground arith)))

  pub enter-Moves : (s : Keyboard) → Moves env s (enter env s)
  unfolding enter
  enter-Moves s = go (enter_body env s) (enter_body-Moves s)
    where
      go :
          (r : Outcome Error (Unit {0}) × Keyboard)
          → Moves env s r
          → Moves env s (closed_after env r.0 r.1)
      go (ok _, s1) h = h
      go (raised e, s1) (n, l) =
          let (ends, later) =
            Moves-then env timed (close_all env) (λ _. raise e) s1 (close_all-Moves s1)
              (λ _ s2 _. (n, ground arith)) in
          (ends, ground (arith, l, later))
