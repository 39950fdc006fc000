-- ===== src/Hid/Switching/Sends.antt =====
-- kvm-switch.py, the reports that switch to a channel, and what of them the gadget takes.
use home_lab.Prelude.{
  ℕ, ◌+◌, ◌≤◌, ◌≡◌, subst, sym, String, true, ◌&&◌, some, List, [], ◌∷◌, leb, le→leb, arith,
  if◌then◌else◌,
}
use home_lab.Prelude.Int.{pos}
use home_lab.Program.{Outcome, ◌>>=◌}
use home_lab.Hid.Gadget.{Report, neutral, History, Env, Error}
use home_lab.Hid.Keyboard.{write_report, pause, with_keyboard}
use home_lab.Hid.Attributes.{Act, report_of}
use home_lab.Hid.Keyboard.Takes.{Takes, Takes-bind, write_report-Takes, pause-Takes}
use home_lab.Hid.Keyboard.Leaves.{Leaves, with_keyboard-Leaves}
use home_lab.Hid.Typing.{requested}
use home_lab.Hid.Switching.{
  switch_hold, switch_gap, Python, tap, switch_body, switch_to, switch_main,
}

-- Left Control twice, then the digit of the channel; every key goes up before the next goes down.
abbrev pub switch_reports : ℕ → List Report
switch_reports channel =
    neutral
    ∷ report_of 0x01 0
    ∷ neutral
    ∷ report_of 0x01 0
    ∷ neutral
    ∷ report_of 0 (0x1D + channel)
    ∷ neutral
    ∷ []

module _ (env : Env) where
  tap-Takes :
      (modifier key : ℕ) → Takes (report_of modifier key ∷ neutral ∷ []) (tap env modifier key)
  unfolding tap
  tap-Takes modifier key =
      Takes-bind (report_of modifier key ∷ []) (neutral ∷ []) (write_report env modifier key)
        (λ _. pause env (some switch_hold) >>= λ _. write_report env 0 0)
        (write_report-Takes env modifier key)
        (λ _.
          Takes-bind [] (neutral ∷ []) (pause env (some switch_hold)) (λ _. write_report env 0 0)
            (pause-Takes env (some switch_hold)) (λ _. write_report-Takes env 0 0))

  -- A tap, a gap, and the rest
  tap_then-Takes :
      (modifier key : ℕ) (rest : List Report) (k : Act (Unit {0}))
      → Takes rest k
      → Takes
          (report_of modifier key ∷ neutral ∷ rest)
          (tap env modifier key >>= λ _. pause env (some switch_gap) >>= λ _. k)
  tap_then-Takes modifier key rest k h =
      Takes-bind (report_of modifier key ∷ neutral ∷ []) rest (tap env modifier key)
        (λ _. pause env (some switch_gap) >>= λ _. k) (tap-Takes modifier key)
        (λ _.
          Takes-bind [] rest (pause env (some switch_gap)) (λ _. k)
            (pause-Takes env (some switch_gap)) (λ _. h))

  switch_body-Takes : (channel : ℕ) → Takes (switch_reports channel) (switch_body env channel)
  unfolding switch_body
  switch_body-Takes channel =
      let digit = tap env 0 (0x1D + channel) in
      let last = report_of 0 (0x1D + channel) ∷ neutral ∷ [] in
      let second = tap env 0x01 0 >>= λ _. pause env (some switch_gap) >>= λ _. digit in
      Takes-bind (neutral ∷ []) (report_of 0x01 0 ∷ neutral ∷ report_of 0x01 0 ∷ neutral ∷ last)
        (write_report env 0 0)
        (λ _. tap env 0x01 0 >>= λ _. pause env (some switch_gap) >>= λ _. second)
        (write_report-Takes env 0 0)
        (λ _.
          tap_then-Takes 0x01 0 (report_of 0x01 0 ∷ neutral ∷ last) second
            (tap_then-Takes 0x01 0 last digit (tap-Takes 0 (0x1D + channel))))

  -- Whatever the clock, the lock file, the gadget and signals do: when `main` of kvm-switch.py ends
  -- that was asked for a channel from 1 to 8, `fd` is None, and so is `lock_fd`, unless a signal struck
  -- in the closing of the device and KeyboardInterrupt is raised; and the gadget has taken a
  -- beginning of the seven reports that switch to it, in order, each once, and then at most one
  -- neutral report. If nothing was raised, it has taken all of them, and the neutral report after.
  pub switch_main-Leaves :
      (python : Python) (channel : String) (n : ℕ) (h : History)
      → python.int_of channel ≡ some (pos n)
      → 1 ≤ n
      → n ≤ 8
      → Leaves (switch_reports n) (requested env h) (switch_main env python (channel ∷ []) h)
  unfolding switch_main
  switch_main-Leaves python channel n h e low high =
      let fits : (leb 1 n && leb n 8) ≡ true = ground (arith, le→leb 1 n low, le→leb n 8 high) in
      subst (λ c. Leaves (switch_reports n) (requested env h) (switch_to env c h)) (sym e)
        (subst
          (λ b. Leaves (switch_reports n) (requested env h) (
            if b
            then with_keyboard env (switch_body env n) (requested env h)
            else (Outcome.raised Error.system_exit, requested env h)))
          (sym fits)
          (with_keyboard-Leaves env (switch_reports n) (switch_body env n) (requested env h)
            (switch_body-Takes n)))
