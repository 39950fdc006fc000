-- ===== src/Hid/Typing/Sends.antt =====
-- hid-type.py, the reports that its tokens stand for, and what of them the gadget takes.
use Prim.Native.Char.{code}
use home_lab.Prelude.{ℕ, String, Option, none, some, List, [], ◌∷◌, ◌++◌}
use home_lab.Program.{◌>>=◌}
use home_lab.Hid.Gadget.{Report, neutral, History, Env, system_exit}
use home_lab.Hid.Keyboard.{write_report, pause}
use home_lab.Hid.Attributes.{report_of}
use home_lab.Hid.Keyboard.Takes.{
  Takes, Takes-pure, Takes-raise, Takes-bind, write_report-Takes, pause-Takes,
}
use home_lab.Hid.Keyboard.Leaves.{Leaves, with_keyboard-Leaves}
use home_lab.Hid.Keys.{key_of_char}
use home_lab.Hid.Typing.{
  key_hold, inter_key, Python, Token, sleeps, types, taps, unknown, token_of, tap, tap_or_exit,
  type_text, play, play_all, type_body, requested, type_main,
}

-- A key goes down, and every key goes up.
abbrev pub tap_reports : ℕ → ℕ → List Report
tap_reports modifier key = report_of modifier key ∷ neutral ∷ []

abbrev pub char_reports : Option (ℕ × ℕ) → List Report
char_reports none = []
char_reports (some (modifier, key)) = tap_reports modifier key

abbrev pub text_reports : String → List Report
text_reports String.[] = []
text_reports (String.◌∷◌ c s) = char_reports (key_of_char (code c)) ++ text_reports s

abbrev pub token_reports : Token → List Report
token_reports (sleeps time) = []
token_reports (types text) = text_reports text
token_reports (taps modifier key) = tap_reports modifier key
token_reports unknown = []

abbrev pub reports_of : Python → List String → List Report
reports_of python [] = []
reports_of python (token ∷ tokens) =
    token_reports (token_of python token) ++ reports_of python tokens

module _ (env : Env) where
  pub tap-Takes : (modifier key : ℕ) → Takes (tap_reports modifier key) (tap env modifier key)
  unfolding tap
  tap-Takes modifier key =
      Takes-bind (report_of modifier key ∷ []) (neutral ∷ []) (write_report env modifier key)
        (λ _. pause env (some key_hold) >>= λ _.
          write_report env 0 0 >>= λ _. pause env (some inter_key))
        (write_report-Takes env modifier key)
        (λ _.
          Takes-bind [] (neutral ∷ []) (pause env (some key_hold))
            (λ _. write_report env 0 0 >>= λ _. pause env (some inter_key))
            (pause-Takes env (some key_hold))
            (λ _.
              Takes-bind (neutral ∷ []) [] (write_report env 0 0) (λ _. pause env (some inter_key))
                (write_report-Takes env 0 0) (λ _. pause-Takes env (some inter_key))))

  tap_or_exit-Takes : (key : Option (ℕ × ℕ)) → Takes (char_reports key) (tap_or_exit env key)
  tap_or_exit-Takes none = Takes-raise (Unit {0}) [] system_exit
  tap_or_exit-Takes (some (modifier, key)) = tap-Takes modifier key

  type_text-Takes : (text : String) → Takes (text_reports text) (type_text env text)
  unfolding type_text
  type_text-Takes String.[] = Takes-pure tt
  type_text-Takes (String.◌∷◌ c s) =
      Takes-bind (char_reports (key_of_char (code c))) (text_reports s)
        (tap_or_exit env (key_of_char (code c))) (λ _. type_text env s)
        (tap_or_exit-Takes (key_of_char (code c))) (λ _. type_text-Takes s)

  play-Takes : (token : Token) → Takes (token_reports token) (play env token)
  unfolding play
  play-Takes (sleeps time) = pause-Takes env time
  play-Takes (types text) = type_text-Takes text
  play-Takes (taps modifier key) = tap-Takes modifier key
  play-Takes unknown = Takes-raise (Unit {0}) [] system_exit

  play_all-Takes :
      (python : Python) (tokens : List String)
      → Takes (reports_of python tokens) (play_all env python tokens)
  unfolding play_all
  play_all-Takes python [] = Takes-pure tt
  play_all-Takes python (token ∷ tokens) =
      Takes-bind (token_reports (token_of python token)) (reports_of python tokens)
        (play env (token_of python token)) (λ _. play_all env python tokens)
        (play-Takes (token_of python token)) (λ _. play_all-Takes python tokens)

  -- Whatever the clock, the lock file, the gadget and signals do: when `main` of hid-type.py ends,
  -- `fd` is None, and so is `lock_fd`, unless a signal struck in the closing of the device and
  -- KeyboardInterrupt is raised; and the gadget has taken a beginning of the tokens' reports, after a
  -- neutral one, in order, each once, and then at most one neutral report. If nothing was raised,
  -- it has taken all of them, and the neutral report after them.
  pub type_main-Leaves :
      (python : Python) (token : String) (tokens : List String) (h : History)
      → Leaves
          (neutral ∷ reports_of python (token ∷ tokens))
          (requested env h)
          (type_main env python (token ∷ tokens) h)
  unfolding type_main type_body
  type_main-Leaves python token tokens h =
      with_keyboard-Leaves env (neutral ∷ reports_of python (token ∷ tokens))
        (type_body env python (token ∷ tokens)) (requested env h)
        (Takes-bind (neutral ∷ []) (reports_of python (token ∷ tokens)) (write_report env 0 0)
          (λ _. play_all env python (token ∷ tokens)) (write_report-Takes env 0 0)
          (λ _. play_all-Takes python (token ∷ tokens)))
