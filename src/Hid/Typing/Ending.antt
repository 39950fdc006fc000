-- ===== src/Hid/Typing/Ending.antt =====
-- hid-type.py: how `main` ends, given what is documented of time.
use Prim.Native.Char.{code}
use home_lab.Prelude.{◌≢◌, String, ℕ, Option, none, some, List, [], ◌∷◌, arith}
use home_lab.Program.{◌>>=◌}
use home_lab.Hid.Gadget.{History, Env, no_end}
use home_lab.Program.{raised}
use home_lab.Hid.Keyboard.{write_report, pause}
use home_lab.Hid.Attributes.{Keyboard}
use home_lab.Hid.Keyboard.Rounds.{IsTimed, Moves, Moves-then}
use home_lab.Hid.Keyboard.Ending.{write_report-Moves, pause-Moves, with_keyboard_ends}
use home_lab.Hid.Keys.{key_of_char}
use home_lab.Hid.Typing.{
  key_hold, inter_key, Python, Token, sleeps, types, taps, unknown, token_of, tap, tap_or_exit,
  type_text, play, play_all, type_body, requested, type_main,
}

module _ (env : Env) (timed : IsTimed env) where
  tap-Moves : (modifier key : ℕ) (s : Keyboard) → Moves env s (tap env modifier key s)
  unfolding tap
  tap-Moves modifier key s =
      Moves-then env timed (write_report env modifier key)
        (λ _. pause env (some key_hold) >>= λ _.
          write_report env 0 0 >>= λ _. pause env (some inter_key))
        s (write_report-Moves env timed modifier key s)
        (λ _ s1 _.
          Moves-then env timed (pause env (some key_hold))
            (λ _. write_report env 0 0 >>= λ _. pause env (some inter_key)) s1
            (pause-Moves env timed (some key_hold) s1)
            (λ _ s2 _.
              Moves-then env timed (write_report env 0 0) (λ _. pause env (some inter_key)) s2
                (write_report-Moves env timed 0 0 s2)
                (λ _ s3 _. pause-Moves env timed (some inter_key) s3)))

  tap_or_exit-Moves : (key : Option (ℕ × ℕ)) (s : Keyboard) → Moves env s (tap_or_exit env key s)
  tap_or_exit-Moves none s = (λ x. ground (arith, x), ground arith)
  tap_or_exit-Moves (some (modifier, key)) s = tap-Moves modifier key s

  type_text-Moves : (text : String) (s : Keyboard) → Moves env s (type_text env text s)
  unfolding type_text
  type_text-Moves String.[] s = (λ x. ground (arith, x), ground arith)
  type_text-Moves (String.◌∷◌ c text) s =
      Moves-then env timed (tap_or_exit env (key_of_char (code c))) (λ _. type_text env text) s
        (tap_or_exit-Moves (key_of_char (code c)) s) (λ _ s1 _. type_text-Moves text s1)

  play-Moves : (token : Token) (s : Keyboard) → Moves env s (play env token s)
  unfolding play
  play-Moves (sleeps time) s = pause-Moves env timed time s
  play-Moves (types text) s = type_text-Moves text s
  play-Moves (taps modifier key) s = tap-Moves modifier key s
  play-Moves unknown s = (λ x. ground (arith, x), ground arith)

  play_all-Moves :
      (python : Python) (tokens : List String) (s : Keyboard)
      → Moves env s (play_all env python tokens s)
  unfolding play_all
  play_all-Moves python [] s = (λ x. ground (arith, x), ground arith)
  play_all-Moves python (token ∷ tokens) s =
      Moves-then env timed (play env (token_of python token)) (λ _. play_all env python tokens) s
        (play-Moves (token_of python token) s) (λ _ s1 _. play_all-Moves python tokens s1)

  type_body-Moves :
      (python : Python) (tokens : List String) (s : Keyboard)
      → Moves env s (type_body env python tokens s)
  unfolding type_body
  type_body-Moves python tokens s =
      Moves-then env timed (write_report env 0 0) (λ _. play_all env python tokens) s
        (write_report-Moves env timed 0 0 s) (λ _ s1 _. play_all-Moves python tokens s1)

  -- If the clock never goes back, a sleep and a poll without events take their time, a poll's events
  -- are of the device and say that it is broken or writable, and poll and write are never
  -- interrupted (a signal's handler raises, else they are retried), then `main` of hid-type.py
  -- ends, whatever its arguments, and however the lock file and the gadget answer.
  pub type_main_ends :
      (python : Python) (tokens : List String) (h : History)
      → (type_main env python tokens h).0 ≢ raised no_end
  unfolding type_main
  type_main_ends python [] h = λ x. ground (arith, x)
  type_main_ends python (token ∷ tokens) h =
      with_keyboard_ends env timed (type_body env python (token ∷ tokens)) (requested env h)
        (type_body-Moves python (token ∷ tokens))
