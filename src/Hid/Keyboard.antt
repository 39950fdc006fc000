-- ===== src/Hid/Keyboard.antt =====
-- devices/glkvm/hid_input.py, `class HidKeyboard`.
pub mod Core
pub mod Submits
pub mod Takes
pub mod Rounds
pub mod Loops
pub mod Entering
pub mod Ending
pub mod Enters
pub mod Leaves
use home_lab.Prelude.{
  ℕ, zero, suc, ◌+◌, ◌-◌, ◌/◌, min, Bool, true, false, not, ◌||◌, Option, none, some, List, [], ◌∷◌,
  length, ltb, leb, ◌==◌, if◌then◌else◌,
}
use home_lab.Program.{
  Outcome, ok, raised, is_raised, Io, pure, raise, lift, gets, modify, raise_if, on_raise, ◌>>=◌,
  ◌>>◌,
}
use home_lab.Hid.Gadget.{
  start_timeout, report_timeout, io_budget, report_allowance, cleanup_timeout, retry_interval,
  Report, neutral, Handle, device, lock, Opened, opened, no_file, open_signal, Locked, locked, busy,
  no_lock, lock_signal, Ready, Polled, ready, poll_interrupted, no_poll, poll_signal, Written,
  count, write_interrupted, full, no_write, write_signal, Slept, slept, sleep_signal, Closed,
  closed, no_close, Event, clock_read, opens, locks, polls, writes, sleeps, closes, History, Env,
  Reason, expired, unavailable, stopped, unclean, short, Error, hid_error, os_error, value_error,
  interrupt, no_end,
}
use home_lab.Hid.Attributes.{
  Keyboard, Act, log, fail, ceil_ms, Scan, broken, writable, nothing, scan, report_of, opened_as,
  report_deadline, is_byte, completed, caught, exit_outcome,
}
use home_lab.Hid.Opening.{monotonic, remaining, rest_for, back_off, rounds_until, close_all, enter}

module _ (env : Env) where
  -- `self.poller.poll(timeout_ms)`
  abbrev pub ask_poll : ℕ → Act Polled
  ask_poll ms s = let answer = env.poll ms s.history in (ok answer, log (polls ms answer) s)

  abbrev pub after_scan : Act (Unit {0}) → Scan → Act (Unit {0})
  after_scan again broken = raise (hid_error unavailable)
  after_scan again writable = pure tt
  after_scan again nothing = again

  -- A late wakeup never licenses input after expiry.
  abbrev pub after_poll : ℕ → Act (Unit {0}) → Polled → Act (Unit {0})
  after_poll until again (ready events) =
      remaining env until >>= λ _. after_scan again (scan events)
  after_poll until again poll_interrupted = again
  after_poll until again no_poll = raise os_error
  after_poll until again poll_signal = raise interrupt

  -- The loop of `_ready`, for so many rounds.
  unfoldable pub ready_loop : ℕ → ℕ → Act (Unit {0})
  ready_loop zero until = raise no_end
  ready_loop (suc rounds) until =
      let again = ready_loop rounds until in
      remaining env until >>= λ left. ask_poll (ceil_ms left) >>= after_poll until again

  -- `_ready`
  unfoldable pub await_ready : ℕ → Act (Unit {0})
  await_ready until s = ready_loop (rounds_until env until s) until s

  -- `os.write(self.fd, report)`
  abbrev pub ask_write : Report → Act Written
  ask_write report s =
      let answer = env.write report s.history in (ok answer, log (writes report answer) s)

  -- A record is never sent in parts. After it, the wait is for the slot, not for the host.
  abbrev pub after_write : Report → ℕ → Act (Unit {0}) → Written → Act (Unit {0})
  after_write report until again (count n) =
      if n == length report then await_ready until else raise (hid_error (short n))
  after_write report until again write_interrupted = again
  after_write report until again full = back_off env until >> again
  after_write report until again no_write = raise os_error
  after_write report until again write_signal = raise interrupt

  -- The last look at the clock, and the write.
  unfoldable pub try_write : Report → ℕ → Act Written
  try_write report until = remaining env until >>= λ _. ask_write report

  -- The loop of `_write`, for so many rounds.
  unfoldable pub write_loop : ℕ → Report → ℕ → Act (Unit {0})
  write_loop zero report until = raise no_end
  write_loop (suc rounds) report until =
      let again = write_loop rounds report until in
      await_ready until >>= λ _. try_write report until >>= after_write report until again

  -- `_write`
  unfoldable pub submit : Report → ℕ → Act (Unit {0})
  submit report until s = write_loop (rounds_until env until s) report until s

  -- The `try` of `write_report`
  unfoldable pub write_body : ℕ → ℕ → Act (Unit {0})
  write_body modifier key = do
    now ← monotonic env
    until ← gets (report_deadline now)
    raise_if (not (is_byte modifier) || not (is_byte key)) value_error
    submit (report_of modifier key) until
    modify completed

  -- `if self.failed or self.fd is None`
  unfoldable pub write_report : ℕ → ℕ → Act (Unit {0})
  write_report modifier key s =
      (if s.failed || not s.fd
          then raise (hid_error stopped)
          else on_raise (write_body modifier key) fail)
        s

  unfoldable pub pause_body : ℕ → Act (Unit {0})
  pause_body us = do
    before ← gets (λ (s : Keyboard). s.deadline)
    remaining env before
    rest_for env us
    modify (λ (s : Keyboard). record s { deadline = s.deadline + us })
    after ← gets (λ (s : Keyboard). s.deadline)
    remaining env after
    pure tt

  -- `pause`, of a time, or of none: a number that is not finite or is negative
  unfoldable pub pause : Option ℕ → Act (Unit {0})
  pause none s = (raised value_error, s)
  pause (some us) s =
      (if s.failed || not s.fd then raise (hid_error stopped) else on_raise (pause_body us) fail) s

  unfoldable pub release_body : Act (Unit {0})
  release_body = do now ← monotonic env; submit neutral (now + cleanup_timeout)

  unfoldable pub release : Act Bool
  release s = if s.fd then (let (r, s') = release_body s in (caught r, s')) else (ok true, s)

  -- `__exit__`; `pending` says whether the body raised
  unfoldable pub exit : Bool → Act (Unit {0})
  exit pending s =
      let (r, s1) = release s in
      (close_all env >>= λ unclosed. lift (exit_outcome r unclosed pending)) (fail s1)

  -- `__exit__` returns False: the body's exception goes on.
  abbrev pub settled :
      {A : Type 0}
      → Outcome Error A
      → Outcome Error (Unit {0}) × Keyboard
      → Outcome Error A × Keyboard
  settled r (ok _, s) = (r, s)
  settled r (raised e, s) = (raised e, s)

  abbrev pub leave : {A : Type 0} → Outcome Error A → Act A
  leave r s = settled r (exit (is_raised r) s)

  abbrev pub entered :
      {A : Type 0} → Act A → Outcome Error (Unit {0}) × Keyboard → Outcome Error A × Keyboard
  entered body (raised e, s) = (raised e, s)
  entered body (ok _, s) = leave (body s).0 (body s).1

  -- `with HidKeyboard(...) as keyboard: body`
  unfoldable pub with_keyboard : {A : Type 0} → Act A → Act A
  with_keyboard body s = entered body (enter env s)
