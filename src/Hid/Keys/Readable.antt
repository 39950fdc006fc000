-- ===== src/Hid/Keys/Readable.antt =====
-- hid-type.py, the tables of keys: what was typed can be read back from the reports.
use Prim.Native.Char.{Char, code}
use home_lab.Prelude.{
  ℕ, ◌≡◌, refl, ap, subst, Bool, true, false, ◌&&◌, Option, none, some, List, [], ◌∷◌, ◌==◌, ==_iff,
  arith, if◌then◌else◌,
}
use home_lab.Hid.Keys.{plain, shifted, find_key, with_modifier, or_other, key_of_char}

-- The United States layout: the usage numbers of the HID usage tables (Keyboard/Keypad page), each
-- with what the key gives alone and what it gives with Shift.
abbrev us_layout : List (ℕ × (Char × Char))
us_layout =
    (0x04, ("a", "A"))
    ∷ (0x05, ("b", "B"))
    ∷ (0x06, ("c", "C"))
    ∷ (0x07, ("d", "D"))
    ∷ (0x08, ("e", "E"))
    ∷ (0x09, ("f", "F"))
    ∷ (0x0A, ("g", "G"))
    ∷ (0x0B, ("h", "H"))
    ∷ (0x0C, ("i", "I"))
    ∷ (0x0D, ("j", "J"))
    ∷ (0x0E, ("k", "K"))
    ∷ (0x0F, ("l", "L"))
    ∷ (0x10, ("m", "M"))
    ∷ (0x11, ("n", "N"))
    ∷ (0x12, ("o", "O"))
    ∷ (0x13, ("p", "P"))
    ∷ (0x14, ("q", "Q"))
    ∷ (0x15, ("r", "R"))
    ∷ (0x16, ("s", "S"))
    ∷ (0x17, ("t", "T"))
    ∷ (0x18, ("u", "U"))
    ∷ (0x19, ("v", "V"))
    ∷ (0x1A, ("w", "W"))
    ∷ (0x1B, ("x", "X"))
    ∷ (0x1C, ("y", "Y"))
    ∷ (0x1D, ("z", "Z"))
    ∷ (0x1E, ("1", "!"))
    ∷ (0x1F, ("2", "@"))
    ∷ (0x20, ("3", "#"))
    ∷ (0x21, ("4", "$"))
    ∷ (0x22, ("5", "%"))
    ∷ (0x23, ("6", "^"))
    ∷ (0x24, ("7", "&"))
    ∷ (0x25, ("8", "*"))
    ∷ (0x26, ("9", "("))
    ∷ (0x27, ("0", ")"))
    ∷ (0x2C, (" ", " "))
    ∷ (0x2D, ("-", "_"))
    ∷ (0x2E, ("=", "+"))
    ∷ (0x2F, ("[", "{"))
    ∷ (0x30, ("]", "}"))
    ∷ (0x31, ("\\", "|"))
    ∷ (0x33, (";", ":"))
    ∷ (0x34, ("'", "\""))
    ∷ (0x35, ("`", "~"))
    ∷ (0x36, (",", "<"))
    ∷ (0x37, (".", ">"))
    ∷ (0x38, ("/", "?"))
    ∷ []

-- The numbers of the characters, with their keys, without Shift and with it
abbrev us_plain : List (ℕ × (Char × Char)) → List (ℕ × ℕ)
us_plain [] = []
us_plain ((key, (c, d)) ∷ keys) = (code c, key) ∷ us_plain keys

abbrev us_shifted : List (ℕ × (Char × Char)) → List (ℕ × ℕ)
us_shifted [] = []
us_shifted ((key, (c, d)) ∷ keys) = (code d, key) ∷ us_shifted keys

abbrev pub find_char : ℕ → List (ℕ × ℕ) → Option ℕ
find_char key [] = none
find_char key ((c, k) ∷ keys) = if k == key then some c else find_char key keys

-- The character that a modifier and a key give on that layout
abbrev pub char_of_key : ℕ → ℕ → Option ℕ
char_of_key modifier key =
    if modifier == 0
    then find_char key (us_plain us_layout)
    else if modifier == 0x02
    then find_char key (us_shifted us_layout)
    else none

abbrev is_char : ℕ → Option ℕ → Bool
is_char c none = false
is_char c (some d) = d == c

-- Each entry of the second table is found back in the first.
abbrev all_found : List (ℕ × ℕ) → List (ℕ × ℕ) → Bool
all_found table [] = true
all_found table ((c, key) ∷ keys) = is_char c (find_char key table) && all_found table keys

found_back :
    (table keys : List (ℕ × ℕ)) (char key : ℕ)
    → all_found table keys ≡ true
    → find_key char keys ≡ some key
    → is_char char (find_char key table) ≡ true
found_back table [] char key a e = ground (arith, e)
found_back table ((c, k) ∷ keys) char key a e =
    go (found_back table keys char key (ground (arith, a))) (c == char) refl
  where
    go :
        (find_key char keys ≡ some key → is_char char (find_char key table) ≡ true)
        → (same : Bool) → (c == char) ≡ same
        → is_char char (find_char key table) ≡ true
    go rest true s =
        let same : k ≡ key = ground (arith, e, s) in
        subst (λ d. is_char d (find_char key table) ≡ true) ((==_iff c char).0 s)
          (subst (λ j. is_char c (find_char j table) ≡ true) same (ground (arith, a)))
    go rest false s = rest (ground (arith, e, s))

is_char-some : (c : ℕ) (o : Option ℕ) → is_char c o ≡ true → o ≡ some c
is_char-some c none h = ground (arith, h)
is_char-some c (some d) h = ap some ((==_iff d c).0 h)

plain_found : all_found (us_plain us_layout) plain ≡ true
plain_found = refl

shifted_found : all_found (us_shifted us_layout) shifted ≡ true
shifted_found = refl

-- A character that has a key on the tables is the one that this key gives on the United States
-- layout, so no two characters are typed alike.
pub char_of_key-key_of_char :
    (char modifier key : ℕ)
    → key_of_char char ≡ some (modifier, key)
    → char_of_key modifier key ≡ some char
unfolding key_of_char
char_of_key-key_of_char char modifier key e =
    go (find_key char plain) refl (find_key char shifted) refl e
  where
    as_plain :
        (k m : ℕ) → find_key char plain ≡ some k → 0 ≡ m → k ≡ key → char_of_key m key ≡ some char
    as_plain k m f z same =
        subst (λ m. char_of_key m key ≡ some char) z
          (subst (λ j. find_char j (us_plain us_layout) ≡ some char) same
            (is_char-some char (find_char k (us_plain us_layout))
              (found_back (us_plain us_layout) plain char k plain_found f)))

    as_shifted :
        (k m : ℕ)
        → find_key char shifted ≡ some k
        → 0x02 ≡ m
        → k ≡ key
        → char_of_key m key ≡ some char
    as_shifted k m f z same =
        subst (λ m. char_of_key m key ≡ some char) z
          (subst (λ j. find_char j (us_shifted us_layout) ≡ some char) same
            (is_char-some char (find_char k (us_shifted us_layout))
              (found_back (us_shifted us_layout) shifted char k shifted_found f)))

    go :
        (o : Option ℕ)
        → find_key char plain ≡ o
        → (p : Option ℕ) → find_key char shifted ≡ p
        → or_other (with_modifier 0 o) (with_modifier 0x02 p) ≡ some (modifier, key)
        → char_of_key modifier key ≡ some char
    go (some k) f p g e = as_plain k modifier f (ground (arith, e)) (ground (arith, e))
    go none f (some k) g e = as_shifted k modifier g (ground (arith, e)) (ground (arith, e))
    go none f none g e = ground (arith, e)
