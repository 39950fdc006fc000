-- ===== src/Prelude/Texts.antt =====
-- Native texts, by their characters.
use Prim.Native.Char.{code}
use Prim.Native.Nat.{ℕ, zero, suc}
use Prim.Native.String.{String}
use mathlib.Core.Option.{Option, none, some}
use home_lab.Prelude.Tests.{◌==◌, if◌then◌else◌}

-- `text[len(start):]`, if the text starts with it
abbrev pub after_start : String → String → Option String
after_start String.[] text = some text
after_start (String.◌∷◌ c start) String.[] = none
after_start (String.◌∷◌ c start) (String.◌∷◌ d text) =
    let rest = after_start start text in if code c == code d then rest else none

-- `s + t`
abbrev pub joined : String → String → String
joined String.[] t = t
joined (String.◌∷◌ c s) t = String.◌∷◌ c (joined s t)

-- `s[n:]`
abbrev pub drop_chars : ℕ → String → String
drop_chars zero s = s
drop_chars (suc n) String.[] = ""
drop_chars (suc n) (String.◌∷◌ c s) = drop_chars n s

-- `s[:n]`
abbrev pub take_chars : ℕ → String → String
take_chars zero s = ""
take_chars (suc n) String.[] = ""
take_chars (suc n) (String.◌∷◌ c s) = String.◌∷◌ c (take_chars n s)
