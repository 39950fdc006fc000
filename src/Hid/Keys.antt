-- ===== src/Hid/Keys.antt =====
-- devices/glkvm/hid-type.py, the tables of keys, and their use.
pub mod Readable
use Prim.Native.Char.{code}
use home_lab.Prelude.{
  ℕ, suc, ◌+◌, ◌-◌, String, Bool, true, false, Option, none, some, List, [], ◌∷◌, ◌++◌, str_eq,
  ◌==◌, if◌then◌else◌,
}
use home_lab.Hid.Gadget.{Report, neutral}
use home_lab.Hid.Attributes.{report_of}

-- NAMED, before the function keys
abbrev pub named_keys : List (String × ℕ)
named_keys =
    ("enter", 0x28)
    ∷ ("esc", 0x29)
    ∷ ("bksp", 0x2A)
    ∷ ("tab", 0x2B)
    ∷ ("space", 0x2C)
    ∷ ("capslock", 0x39)
    ∷ ("right", 0x4F)
    ∷ ("left", 0x50)
    ∷ ("down", 0x51)
    ∷ ("up", 0x52)
    ∷ ("ins", 0x49)
    ∷ ("home", 0x4A)
    ∷ ("pgup", 0x4B)
    ∷ ("del", 0x4C)
    ∷ ("end", 0x4D)
    ∷ ("pgdn", 0x4E)
    ∷ ("pause", 0x48)
    ∷ []

-- `NAMED[f"f{i}"] = 0x3A + i - 1`
abbrev pub function_keys : ℕ → List String → List (String × ℕ)
function_keys i [] = []
function_keys i (name ∷ names) = (name, 0x3A + i - 1) ∷ function_keys (i + 1) names

-- NAMED
abbrev pub named : List (String × ℕ)
named =
    named_keys
    ++ function_keys 1
        ("f1" ∷ "f2" ∷ "f3" ∷ "f4" ∷ "f5" ∷ "f6" ∷ "f7" ∷ "f8" ∷ "f9" ∷ "f10" ∷ "f11" ∷ "f12" ∷ [])

-- `NAMED.get(name)`
abbrev pub key_named : String → List (String × ℕ) → Option ℕ
key_named name [] = none
key_named name ((n, key) ∷ keys) = if str_eq n name then some key else key_named name keys

-- Characters, by their numbers, with their keys; `PLAIN[char] = (0, key + i)`
abbrev pub numbered : ℕ → String → List (ℕ × ℕ)
numbered key String.[] = []
numbered key (String.◌∷◌ c s) = (code c, key) ∷ numbered (suc key) s

-- PLAIN
abbrev pub plain : List (ℕ × ℕ)
plain =
    numbered 0x04 "abcdefghijklmnopqrstuvwxyz"
    ++ (numbered 0x1E "1234567890" ++ (numbered 0x2C " -=[]\\" ++ (numbered 0x33 ";'`,./")))

abbrev pub find_key : ℕ → List (ℕ × ℕ) → Option ℕ
find_key char [] = none
find_key char ((c, key) ∷ keys) = if c == char then some key else find_key char keys

-- `for base, symbol in zip(bases, symbols): SHIFTED[symbol] = PLAIN[base]`
abbrev pub shift_with : String → String → List (ℕ × ℕ)
shift_with String.[] symbols = []
shift_with (String.◌∷◌ b bases) String.[] = []
shift_with (String.◌∷◌ b bases) (String.◌∷◌ c symbols) =
    let rest = shift_with bases symbols in
    elim (find_key (code b) plain) [ none ↦ rest | some key ↦ (code c, key) ∷ rest ]

-- SHIFTED
abbrev pub shifted : List (ℕ × ℕ)
shifted =
    shift_with "abcdefghijklmnopqrstuvwxyz" "ABCDEFGHIJKLMNOPQRSTUVWXYZ"
    ++ (shift_with "1234567890" "!@#$%^&*()" ++ shift_with "-=[]\\;'`,./" "_+{}|:\"~<>?")

abbrev pub with_modifier : ℕ → Option ℕ → Option (ℕ × ℕ)
with_modifier modifier none = none
with_modifier modifier (some key) = some (modifier, key)

abbrev pub or_other : Option (ℕ × ℕ) → Option (ℕ × ℕ) → Option (ℕ × ℕ)
or_other none other = other
or_other (some key) other = some key

-- The modifier and the key of a character: `PLAIN`, else `SHIFTED` with Shift
unfoldable pub key_of_char : ℕ → Option (ℕ × ℕ)
key_of_char char =
    or_other (with_modifier 0 (find_key char plain)) (with_modifier 0x02 (find_key char shifted))
