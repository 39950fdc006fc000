-- ===== src/Hid/Opening.antt =====
-- devices/glkvm/hid_input.py, `class HidKeyboard`: the lock file and the device, opened and closed.
use home_lab.Prelude.{
  ℕ, zero, suc, ◌+◌, ◌-◌, min, Bool, false, not, List, [], ◌∷◌, length, leb, ◌==◌, if◌then◌else◌,
}
use home_lab.Program.{Outcome, ok, raised, pure, raise, gets, raise_if, ◌>>=◌, ◌>>◌}
use home_lab.Hid.Gadget.{
  retry_interval, Handle, device, lock, opened, no_file, open_signal, Locked, locked, busy, no_lock,
  lock_signal, slept, sleep_signal, clock_read, opens, locks, sleeps, closes, Env, expired, Error,
  hid_error, os_error, interrupt, no_end,
}
use home_lab.Hid.Attributes.{Keyboard, Act, log, opened_as, after_close}

module _ (env : Env) where
  -- `time.monotonic()`
  abbrev pub monotonic : Act ℕ
  monotonic s = let now = env.clock s.history in (ok now, log (clock_read now) s)

  -- `remaining`
  unfoldable pub remaining : ℕ → Act ℕ
  remaining until = do
    now ← monotonic
    raise_if (leb until now) (hid_error expired)
    pure (until - now)

  -- `time.sleep`
  abbrev pub rest_for : ℕ → Act (Unit {0})
  rest_for us s =
      let answer = env.sleep us s.history in
      (elim answer [ slept ↦ ok tt | sleep_signal ↦ raised interrupt ], log (sleeps us answer) s)

  -- `self.lock_fd = os.open(...)` and `self.fd = os.open(...)`
  unfoldable pub open_file : Handle → Act (Unit {0})
  open_file f s =
      let answer = env.open_file f s.history in
      let s' = log (opens f answer) s in
      elim answer [
        | opened ↦ (ok tt, opened_as f s')
        | no_file ↦ (raised os_error, s')
        | open_signal ↦ (raised interrupt, s')
      ]

  -- The `except BlockingIOError` of the lock and of the write: a short rest, and again.
  unfoldable pub back_off : ℕ → Act (Unit {0})
  back_off until = do left ← remaining until; rest_for (min retry_interval left)

  -- `fcntl.flock`
  abbrev pub ask_lock : Act Locked
  ask_lock s = let answer = env.flock s.history in (ok answer, log (locks answer) s)

  abbrev pub after_flock : ℕ → Act (Unit {0}) → Locked → Act (Unit {0})
  after_flock until again locked = pure tt
  after_flock until again busy = back_off until >> again
  after_flock until again no_lock = raise os_error
  after_flock until again lock_signal = raise interrupt

  -- The loop in `__enter__`, for so many rounds.
  unfoldable pub lock_loop : ℕ → ℕ → Act (Unit {0})
  lock_loop zero until = raise no_end
  lock_loop (suc rounds) until =
      let again = lock_loop rounds until in
      remaining until >>= λ _. ask_lock >>= after_flock until again

  -- The rounds that a loop may need until then, if each takes a microsecond.
  abbrev pub rounds_until : ℕ → Keyboard → ℕ
  rounds_until until s = suc (until - env.clock s.history)

  unfoldable pub take_lock : Act (Unit {0})
  take_lock s = lock_loop (rounds_until s.start_deadline s) s.start_deadline s

  -- The `try` of `__enter__`; registering the device with the poller asks nothing of it.
  unfoldable pub enter_body : Act (Unit {0})
  enter_body = do
    until ← gets (λ (s : Keyboard). s.start_deadline)
    remaining until
    open_file lock
    take_lock
    remaining until
    open_file device
    remaining until
    pure tt

  -- The attribute is None before the file is closed.
  unfoldable pub close_fd : Act (List Handle)
  close_fd s =
      if s.fd
      then (
        after_close device (env.close device s.history),
        record s { fd = false; history = closes device (env.close device s.history) ∷ s.history },
      )
      else (ok [], s)

  unfoldable pub close_lock_fd : Act (List Handle)
  close_lock_fd s =
      if s.lock_fd
      then (
        after_close lock (env.close lock s.history),
        record s { lock_fd = false; history = closes lock (env.close lock s.history) ∷ s.history },
      )
      else (ok [], s)

  -- `_close`: whether there are errors
  unfoldable pub close_all : Act Bool
  close_all = do a ← close_fd; b ← close_lock_fd; pure (not (length a + length b == 0))

  -- `except BaseException: self._close(); raise`
  abbrev pub closed_after : Outcome Error (Unit {0}) → Act (Unit {0})
  closed_after (ok _) = pure tt
  closed_after (raised e) = close_all >>= λ _. raise e

  -- `__enter__`
  unfoldable pub enter : Act (Unit {0})
  enter s = let (r, s1) = enter_body s in closed_after r s1
