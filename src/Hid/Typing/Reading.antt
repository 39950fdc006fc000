-- ===== src/Hid/Typing/Reading.antt =====
-- hid-type.py, `type:` tokens: the text, read back from its reports.
use Prim.Native.Char.{code}
use home_lab.Prelude.{ℕ, ◌≡◌, refl, ap, ◌∙◌, String, Option, none, some, List, [], ◌∷◌, ◌++◌}
use home_lab.Hid.Gadget.{Report}
use home_lab.Hid.Keys.{key_of_char}
use home_lab.Hid.Keys.Readable.{char_of_key, char_of_key-key_of_char}
use home_lab.Hid.Typing.Sends.{char_reports, text_reports}

-- The character that a report stands for, if it is of a key with one.
abbrev pub char_in : Report → Option ℕ
char_in (modifier ∷ _ ∷ key ∷ _) = char_of_key modifier key
char_in _ = none

abbrev pub read_next : Option ℕ → List ℕ → List ℕ
read_next none chars = chars
read_next (some c) chars = c ∷ chars

abbrev pub read_back : List Report → List ℕ
read_back [] = []
read_back (r ∷ rs) = read_next (char_in r) (read_back rs)

abbrev pub codes : String → List ℕ
codes String.[] = []
codes (String.◌∷◌ c s) = code c ∷ codes s

-- Every character has a key on the tables.
abbrev pub IsTypable : String → Type 0
IsTypable String.[] = Unit
IsTypable (String.◌∷◌ c s) = ((key : ℕ × ℕ) × (key_of_char (code c) ≡ some key)) × IsTypable s

-- The reports of a text whose every character has a key on the tables read back, on the United
-- States layout, as that text.
pub read_back-text_reports :
    (text : String) → IsTypable text → read_back (text_reports text) ≡ codes text
read_back-text_reports String.[] h = refl
read_back-text_reports (String.◌∷◌ c s) (((modifier, key), e), rest) =
    ap (λ k. read_back (char_reports k ++ text_reports s)) e
    ∙ (ap (λ o. read_next o (read_back (text_reports s)))
          (char_of_key-key_of_char (code c) modifier key e)
        ∙ ap (λ l. code c ∷ l) (read_back-text_reports s rest))
