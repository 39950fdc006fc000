-- ===== src/Hid/Switching.antt =====
-- devices/glkvm/kvm-switch.py and hid-hold-key.py, their `main`.
pub mod Sends
pub mod Ending
use home_lab.Prelude.{
  ℕ, zero, suc, ◌+◌, ◌-◌, String, Bool, true, false, not, ◌&&◌, ◌||◌, Option, none, some, List, [],
  ◌∷◌, ltb, leb, if◌then◌else◌,
}
use home_lab.Prelude.Int.{ℤ, pos, negsuc}
use home_lab.Program.{Outcome, ok, raised, pure, raise, ◌>>=◌, ◌>>◌}
use home_lab.Hid.Gadget.{History, Env, Error, value_error, system_exit, no_end}
use home_lab.Hid.Keyboard.{write_report, pause, with_keyboard}
use home_lab.Hid.Opening.{monotonic, rounds_until}
use home_lab.Hid.Attributes.{Keyboard, Act}
use home_lab.Hid.Typing.{requested}

-- KEY_HOLD_SECONDS, INTER_KEY_SECONDS, in microseconds
abbrev pub switch_hold : ℕ
switch_hold = 75_000

abbrev pub switch_gap : ℕ
switch_gap = 250_000

-- What Python's library makes of an argument: `int(text)`, `int(text, 16)`, or none for a ValueError;
-- and `float(text)`, which may be no number, not finite or not above zero, or a time.
pub data Time : Type 0 where
  no_number out_of_range : Time
  micros : ℕ → Time

pub record Python : Type 0 where
  pub int_of : String → Option ℤ
  pub hex_of : String → Option ℤ
  pub time_of : String → Time

module _ (env : Env) where
  -- `tap` of kvm-switch.py
  unfoldable pub tap : ℕ → ℕ → Act (Unit {0})
  tap modifier key = do
    write_report env modifier key
    pause env (some switch_hold)
    write_report env 0 0

  -- The body of the `with` statement
  unfoldable pub switch_body : ℕ → Act (Unit {0})
  switch_body channel = do
    write_report env 0 0
    tap 0x01 0
    pause env (some switch_gap)
    tap 0x01 0
    pause env (some switch_gap)
    tap 0 (0x1D + channel)

  abbrev pub switch_to : Option ℤ → History → Outcome Error (Unit {0}) × Keyboard
  switch_to none h = (raised value_error, requested env h)
  switch_to (some (negsuc n)) h = (raised system_exit, requested env h)
  switch_to (some (pos n)) h =
      if leb 1 n && leb n 8
      then with_keyboard env (switch_body n) (requested env h)
      else (raised system_exit, requested env h)

  -- `main` of kvm-switch.py
  unfoldable pub switch_main : Python → List String → History → Outcome Error (Unit {0}) × Keyboard
  switch_main python (channel ∷ []) h = switch_to (python.int_of channel) h
  switch_main python _ h = (raised system_exit, requested env h)

  -- The body of the loop of hid-hold-key.py
  unfoldable pub press : ℕ → Act (Unit {0})
  press key = do
    write_report env 0 key
    pause env (some 400_000)
    write_report env 0 0
    pause env (some 100_000)

  abbrev pub press_and : ℕ → Act (Unit {0}) → Bool → Act (Unit {0})
  press_and key again true = press key >>= λ _. again
  press_and key again false = pure tt

  -- The loop, for so many rounds
  unfoldable pub hold_loop : ℕ → ℕ → ℕ → Act (Unit {0})
  hold_loop zero key until = raise no_end
  hold_loop (suc rounds) key until =
      let again = hold_loop rounds key until in
      monotonic env >>= λ now. press_and key again (ltb now until)

  unfoldable pub hold_until : ℕ → ℕ → Act (Unit {0})
  hold_until key until s = hold_loop (rounds_until env until s) key until s

  unfoldable pub hold_body : ℕ → ℕ → Act (Unit {0})
  hold_body key hold = monotonic env >>= λ now. hold_until key (now + hold)

  abbrev pub hold_for : ℕ → Time → History → Outcome Error (Unit {0}) × Keyboard
  hold_for key no_number h = (raised value_error, requested env h)
  hold_for key out_of_range h = (raised system_exit, requested env h)
  hold_for key (micros us) h =
      if leb key 0xFF
      then with_keyboard env (hold_body key us) (requested env h)
      else (raised system_exit, requested env h)

  abbrev pub hold_key : Option ℤ → Time → History → Outcome Error (Unit {0}) × Keyboard
  hold_key none time h = (raised value_error, requested env h)
  hold_key (some (negsuc n)) no_number h = (raised value_error, requested env h)
  hold_key (some (negsuc n)) _ h = (raised system_exit, requested env h)
  hold_key (some (pos key)) time h = hold_for key time h

  -- `main` of hid-hold-key.py; without SECONDS it holds for 25
  unfoldable pub hold_main : Python → List String → History → Outcome Error (Unit {0}) × Keyboard
  hold_main python (key ∷ []) h = hold_key (python.hex_of key) (micros 25_000_000) h
  hold_main python (key ∷ seconds ∷ []) h = hold_key (python.hex_of key) (python.time_of seconds) h
  hold_main python _ h = (raised system_exit, requested env h)
