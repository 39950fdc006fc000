-- ===== src/Hid/Tests.antt =====
-- Runs of the keyboard programs on a gadget that takes every report, and the theorems at concrete
-- inputs.
use home_lab.Prelude.{ℕ, ◌+◌, ◌≤◌, ◌≡◌, ◌≢◌, refl, true, false, some, [], ◌∷◌, arith}
use home_lab.Prelude.Int.{pos}
use home_lab.Program.{ok, raised}
use home_lab.Hid.Gadget.{
  neutral, opened, locked, Ready, ready, count, slept, closed, Env, no_end, Event, History,
  clock_read, opens, locks, polls, writes, sleeps, closes,
}
use home_lab.Hid.Keyboard.{
  ready_loop, await_ready, try_write, write_loop, submit, write_body, write_report, pause_body,
  pause, release_body, release, exit, with_keyboard,
}
use home_lab.Hid.Opening.{
  remaining, open_file, back_off, lock_loop, take_lock, enter_body, close_fd, close_lock_fd,
  close_all, enter,
}
use home_lab.Hid.Attributes.{new_keyboard, report_of}
use home_lab.Hid.Keyboard.Core.{taken}
use home_lab.Hid.Keyboard.Submits.{Submits, submit-Submits}
use home_lab.Hid.Keyboard.Takes.{write_report-Takes}
use home_lab.Hid.Keyboard.Leaves.{Leaves, with_keyboard-Leaves}
use home_lab.Hid.Keyboard.Rounds.{IsTimed}
use home_lab.Hid.Keys.{key_of_char}
use home_lab.Hid.Keys.Readable.{char_of_key, char_of_key-key_of_char}
use home_lab.Hid.Typing
use home_lab.Hid.Typing.Sends.{reports_of, text_reports, type_main-Leaves}
use home_lab.Hid.Typing.Ending.{type_main_ends}
use home_lab.Hid.Typing.Reading.{codes, read_back, read_back-text_reports}
use home_lab.Hid.Switching.{micros, Python, switch_body, switch_main, hold_main}
use home_lab.Hid.Switching
use home_lab.Hid.Switching.Sends.{switch_reports, switch_main-Leaves}
use home_lab.Hid.Switching.Ending.{hold_main_ends}

abbrev device_ready : Ready
device_ready = record { is_device = true; is_broken = false; is_writable = true }

-- A sleep takes its time, and the rest none.
abbrev elapsed : History → ℕ
elapsed [] = 0
elapsed (sleeps us _ ∷ h) = elapsed h + us
elapsed (_ ∷ h) = elapsed h

-- The gadget is ready at once and takes every report.
abbrev toy_env : Env
toy_env = record {
  clock = elapsed;
  open_file = λ _ _. opened;
  flock = λ _. locked;
  poll = λ _ _. ready (device_ready ∷ []);
  write = λ _ _. count 8;
  sleep = λ _ _. slept;
  close = λ _ _. closed;
}

toy_forward : (e : Event) (h : History) → elapsed h ≤ elapsed (e ∷ h)
toy_forward (sleeps us _) h = omega arith
toy_forward (clock_read _) h = omega arith
toy_forward (opens _ _) h = omega arith
toy_forward (locks _) h = omega arith
toy_forward (polls _ _) h = omega arith
toy_forward (writes _ _) h = omega arith
toy_forward (closes _ _) h = omega arith

toy-IsTimed : IsTimed toy_env
toy-IsTimed = record {
  forward = toy_forward;
  slept_for = λ us h. omega arith;
  waited_for = λ ms h e. ground (arith, e);
  told = λ ms h event events e. ground (arith, e);
  poll_retried = λ ms h e. ground (arith, e);
  write_retried = λ report h e. ground (arith, e);
}

abbrev toy_python : Python
toy_python = record {
  int_of = λ _. some (pos 3);
  hex_of = λ _. some (pos 0x29);
  time_of = λ _. micros 1000;
}

abbrev type_python : Typing.Python
type_python = record { lower = λ s. s; seconds = λ _. some 1000 }

submit-Submits_example :
    Submits neutral 1000 (new_keyboard 0 []) (submit toy_env neutral 1000 (new_keyboard 0 []))
submit-Submits_example = submit-Submits toy_env neutral 1000 (new_keyboard 0 [])

with_keyboard-Leaves_example :
    Leaves
      (report_of 0 0x29 ∷ [])
      (new_keyboard 0 [])
      (with_keyboard toy_env (write_report toy_env 0 0x29) (new_keyboard 0 []))
with_keyboard-Leaves_example =
    with_keyboard-Leaves toy_env (report_of 0 0x29 ∷ []) (write_report toy_env 0 0x29)
      (new_keyboard 0 []) (write_report-Takes toy_env 0 0x29)

switch_main-Leaves_example :
    Leaves
      (switch_reports 3)
      (Typing.requested toy_env [])
      (switch_main toy_env toy_python ("3" ∷ []) [])
switch_main-Leaves_example =
    switch_main-Leaves toy_env toy_python "3" 3 [] refl (omega arith) (omega arith)

type_main-Leaves_example :
    Leaves
      (neutral ∷ reports_of type_python ("enter" ∷ []))
      (Typing.requested toy_env [])
      (Typing.type_main toy_env type_python ("enter" ∷ []) [])
type_main-Leaves_example = type_main-Leaves toy_env type_python "enter" [] []

hold_main_ends_example : (hold_main toy_env toy_python ("29" ∷ "1" ∷ []) []).0 ≢ raised no_end
hold_main_ends_example = hold_main_ends toy_env toy-IsTimed toy_python ("29" ∷ "1" ∷ []) []

type_main_ends_example :
    (Typing.type_main toy_env type_python ("type:Hi!" ∷ []) []).0 ≢ raised no_end
type_main_ends_example = type_main_ends toy_env toy-IsTimed type_python ("type:Hi!" ∷ []) []

upper_h : key_of_char 72 ≡ some (0x02, 0x0B)
unfolding key_of_char
upper_h = refl

exclamation : key_of_char 33 ≡ some (0x02, 0x1E)
unfolding key_of_char
exclamation = refl

char_of_key-key_of_char_example : char_of_key 0x02 0x0B ≡ some 72
char_of_key-key_of_char_example = char_of_key-key_of_char 72 0x02 0x0B upper_h

read_back-text_reports_example : read_back (text_reports "H!") ≡ codes "H!"
read_back-text_reports_example =
    read_back-text_reports "H!" (((0x02, 0x0B), upper_h), (((0x02, 0x1E), exclamation), tt))

switches : (switch_main toy_env toy_python ("3" ∷ []) []).0 ≡ ok tt
unfolding switch_main switch_body Switching.tap with_keyboard exit release release_body enter
    close_all close_fd close_lock_fd enter_body take_lock lock_loop open_file remaining back_off
    write_report write_body submit write_loop try_write await_ready ready_loop pause pause_body
switches = refl

reports_taken :
    taken (switch_main toy_env toy_python ("3" ∷ []) []).1.history
    ≡ neutral
      ∷ neutral
      ∷ report_of 0 0x20
      ∷ neutral
      ∷ report_of 1 0
      ∷ neutral
      ∷ report_of 1 0
      ∷ neutral
      ∷ []
unfolding switch_main switch_body Switching.tap with_keyboard exit release release_body enter
    close_all close_fd close_lock_fd enter_body take_lock lock_loop open_file remaining back_off
    write_report write_body submit write_loop try_write await_ready ready_loop pause pause_body
reports_taken = refl
