-- ===== src/Hid/Keyboard/Core.antt =====
-- hid_input.py: waiting for the gadget, for the lock and for time submits nothing.
use home_lab.Prelude.{
  ℕ, zero, suc, ◌+◌, refl, Bool, false, List, [], ◌∷◌, length, ltb, ◌==◌, arith, if◌then◌else◌,
}
use home_lab.Program.{◌>>=◌}
use home_lab.Program.Keeps.{Keeps, Keeps-bind}
use home_lab.Hid.Gadget.{
  Report, Polled, ready, poll_interrupted, no_poll, poll_signal, Written, count, clock_read, opens,
  locks, polls, writes, sleeps, closes, History, Env,
}
use home_lab.Hid.Keyboard.{ask_poll, after_scan, after_poll, ready_loop, await_ready}
use home_lab.Hid.Opening.{remaining, back_off, rounds_until}
use home_lab.Hid.Attributes.{Keyboard, Act, ceil_ms, Scan, broken, writable, nothing, scan}

-- The gadget took the whole record.
abbrev pub is_taken : Report → Written → Bool
is_taken report (count n) = n == length report
is_taken report _ = false

-- The records that the gadget took, the latest first.
abbrev pub taken : History → List Report
taken [] = []
taken (writes report answer ∷ h) = if is_taken report answer then report ∷ taken h else taken h
taken (clock_read _ ∷ h) = taken h
taken (opens _ _ ∷ h) = taken h
taken (locks _ ∷ h) = taken h
taken (polls _ _ ∷ h) = taken h
taken (sleeps _ _ ∷ h) = taken h
taken (closes _ _ ∷ h) = taken h

-- The last thing that happened was a look at the clock, before this time.
abbrev pub is_early : ℕ → History → Bool
is_early until (clock_read now ∷ h) = ltb now until
is_early until _ = false

-- How many writes did not follow at once on a look at the clock before this time.
abbrev pub late : ℕ → History → ℕ
late until [] = 0
late until (writes _ _ ∷ h) = (if is_early until h then 0 else 1) + late until h
late until (clock_read _ ∷ h) = late until h
late until (opens _ _ ∷ h) = late until h
late until (locks _ ∷ h) = late until h
late until (polls _ _ ∷ h) = late until h
late until (sleeps _ _ ∷ h) = late until h
late until (closes _ _ ∷ h) = late until h

-- The attributes.
pub record Attributes : Type 0 where
  pub start_deadline : ℕ
  pub deadline : ℕ
  pub fd : Bool
  pub lock_fd : Bool
  pub started : Bool
  pub failed : Bool

abbrev pub attributes : Keyboard → Attributes
attributes s = record {
  start_deadline = s.start_deadline;
  deadline = s.deadline;
  fd = s.fd;
  lock_fd = s.lock_fd;
  started = s.started;
  failed = s.failed;
}

-- The attributes, the records taken and the late writes.
abbrev pub core : ℕ → Keyboard → Attributes × List Report × ℕ
core until s = (attributes s, taken s.history, late until s.history)

module _ (env : Env) (until : ℕ) where
  pub remaining-core : (deadline : ℕ) → Keeps (core until) (remaining env deadline)
  unfolding remaining
  remaining-core deadline s = ground arith

  pub back_off-core : (deadline : ℕ) → Keeps (core until) (back_off env deadline)
  unfolding back_off remaining
  back_off-core deadline s = ground arith

  ask_poll-core : (ms : ℕ) → Keeps (core until) (ask_poll env ms)
  ask_poll-core ms s = refl

  after_scan-core :
      (again : Act (Unit {0})) (found : Scan)
      → Keeps (core until) again
      → Keeps (core until) (after_scan env again found)
  after_scan-core again broken h s = refl
  after_scan-core again writable h s = refl
  after_scan-core again nothing h s = h s

  after_poll-core :
      (deadline : ℕ) (again : Act (Unit {0})) (answer : Polled)
      → Keeps (core until) again
      → Keeps (core until) (after_poll env deadline again answer)
  after_poll-core deadline again (ready events) h =
      Keeps-bind (core until) (remaining env deadline) (λ _. after_scan env again (scan events))
        (remaining-core deadline) (λ _. after_scan-core again (scan events) h)
  after_poll-core deadline again poll_interrupted h = h
  after_poll-core deadline again no_poll h = λ s. refl
  after_poll-core deadline again poll_signal h = λ s. refl

  ready_loop-core : (rounds deadline : ℕ) → Keeps (core until) (ready_loop env rounds deadline)
  unfolding ready_loop
  ready_loop-core zero deadline = λ s. refl
  ready_loop-core (suc rounds) deadline =
      let again = ready_loop env rounds deadline in
      let h = ready_loop-core rounds deadline in
      Keeps-bind (core until) (remaining env deadline)
        (λ left. ask_poll env (ceil_ms left) >>= after_poll env deadline again)
        (remaining-core deadline)
        (λ left.
          Keeps-bind (core until) (ask_poll env (ceil_ms left)) (after_poll env deadline again)
            (ask_poll-core (ceil_ms left)) (λ answer. after_poll-core deadline again answer h))

  pub await_ready-core : (deadline : ℕ) → Keeps (core until) (await_ready env deadline)
  unfolding await_ready
  await_ready-core deadline s = ready_loop-core (rounds_until env deadline s) deadline s
