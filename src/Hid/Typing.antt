-- ===== src/Hid/Typing.antt =====
-- devices/glkvm/hid-type.py, `tap` and `main`.
pub mod Sends
pub mod Ending
pub mod Reading
use Prim.Native.Char.{code}
use home_lab.Prelude.{
  after_start, ℕ, ◌+◌, String, Bool, true, false, Option, none, some, List, [], ◌∷◌, ◌==◌,
  if◌then◌else◌,
}
use home_lab.Program.{Outcome, ok, raised, pure, raise, ◌>>=◌, ◌>>◌}
use home_lab.Hid.Gadget.{
  History, Env, clock_read, Error, hid_error, os_error, value_error, interrupt, system_exit, no_end,
}
use home_lab.Hid.Keyboard.{write_report, pause, with_keyboard}
use home_lab.Hid.Attributes.{Keyboard, new_keyboard, Act}
use home_lab.Hid.Keys.{named, key_named, plain, find_key, key_of_char}

-- KEY_HOLD, INTER_KEY, in microseconds
abbrev pub key_hold : ℕ
key_hold = 75_000

abbrev pub inter_key : ℕ
inter_key = 150_000

-- What Python's library makes of a token: `str.lower`, and `float` in microseconds, or none if that
-- is no time: not a number, not finite, or negative.
pub record Python : Type 0 where
  pub lower : String → String
  pub seconds : String → Option ℕ

-- `PLAIN[text][1]`, which only texts of one character have
abbrev pub plain_key : String → Option ℕ
plain_key String.[] = none
plain_key (String.◌∷◌ c String.[]) = find_key (code c) plain
plain_key (String.◌∷◌ c (String.◌∷◌ d s)) = none

-- The kinds of tokens
pub data Token : Type 0 where
  sleeps : Option ℕ → Token
  types : String → Token
  taps : ℕ → ℕ → Token
  unknown : Token

abbrev pub key_or : Option ℕ → Option ℕ → Option ℕ
key_or (some key) other = some key
key_or none other = other

abbrev pub tap_or_unknown : ℕ → Option ℕ → Token
tap_or_unknown modifier none = unknown
tap_or_unknown modifier (some key) = taps modifier key

abbrev pub control_token : Option String → Token
control_token none = unknown
control_token (some rest) = tap_or_unknown 0x05 (key_or (key_named rest named) (plain_key rest))

module _ (python : Python) where
  -- The tests of the loop in `main`, in their order.
  abbrev pub token_of : String → Token
  token_of token = elim (after_start "sleep:" token) [
    | some time ↦ sleeps (python.seconds time)
    | none ↦ elim (after_start "type:" token) [
      | some text ↦ types text
      | none ↦ elim (key_named (python.lower token) named) [
        | some key ↦ taps 0 key
        | none ↦ control_token (after_start "ctrl-alt-" (python.lower token))
      ]
    ]
  ]

module _ (env : Env) where
  -- `tap`
  unfoldable pub tap : ℕ → ℕ → Act (Unit {0})
  tap modifier key = do
    write_report env modifier key
    pause env (some key_hold)
    write_report env 0 0
    pause env (some inter_key)

  abbrev pub tap_or_exit : Option (ℕ × ℕ) → Act (Unit {0})
  tap_or_exit none = raise system_exit
  tap_or_exit (some (modifier, key)) = tap modifier key

  -- The loop over the characters of a text
  unfoldable pub type_text : String → Act (Unit {0})
  type_text String.[] = pure tt
  type_text (String.◌∷◌ c s) = tap_or_exit (key_of_char (code c)) >>= λ _. type_text s

  unfoldable pub play : Token → Act (Unit {0})
  play (sleeps time) = pause env time
  play (types text) = type_text text
  play (taps modifier key) = tap modifier key
  play unknown = raise system_exit

  unfoldable pub play_all : Python → List String → Act (Unit {0})
  play_all python [] = pure tt
  play_all python (token ∷ tokens) = play (token_of python token) >>= λ _. play_all python tokens

  -- The body of the `with` statement of `main`
  unfoldable pub type_body : Python → List String → Act (Unit {0})
  type_body python tokens = write_report env 0 0 >>= λ _. play_all python tokens

  -- The object that is made when the program starts
  abbrev pub requested : History → Keyboard
  requested h = new_keyboard (env.clock h) (clock_read (env.clock h) ∷ h)

  -- `main`, with the arguments; without any it says how it is used and exits.
  unfoldable pub type_main : Python → List String → History → Outcome Error (Unit {0}) × Keyboard
  type_main python [] h = (raised system_exit, requested h)
  type_main python (token ∷ tokens) h =
      with_keyboard env (type_body python (token ∷ tokens)) (requested h)

-- `run` of hid_input.py: the exit code; a SystemExit goes on.
abbrev pub exit_code : Outcome Error (Unit {0}) → Option ℕ
exit_code (ok _) = some 0
exit_code (raised (hid_error _)) = some 1
exit_code (raised os_error) = some 1
exit_code (raised value_error) = some 1
exit_code (raised interrupt) = some 130
exit_code (raised system_exit) = none
exit_code (raised no_end) = none
