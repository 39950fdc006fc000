-- ===== src/Locks/Checks/Pins.antt =====
-- validate_locks.py: which values `hash_value` takes for a pin.
use package.text.Mathlib.TextEquality.{Char-path}
use home_lab.Prelude.{
  ℕ, zero, suc, ◌≡◌, ◌↔◌, refl, sym, ap, subst, ◌∙◌, String, Bool, true, not, ◌&&◌, List, [], ◌∷◌,
  ◌++◌, All, str_eq, str_eq_iff, ◌⊎◌, length, ◌≤◌, arith,
}
use home_lab.Json.{Json, str}
use home_lab.Locks.Regex.{fullmatch, codes, times}
use home_lab.Locks.Regex.Describes.{fullmatch_iff}
use home_lab.Locks.Regex.Meaning.{Describes}
use home_lab.Locks.Checks.{hash_value, hex, zeros, zero_char}
use home_lab.Locks.Checks.Passes.{Passes}

-- A lowercase hexadecimal digit
abbrev pub IsHexDigit : ℕ → Type 0
IsHexDigit c = ((48 ≤ c) × (c ≤ 57)) ⊎ ((97 ≤ c) × (c ≤ 102))

-- A text of this many hexadecimal digits that are not all zero
abbrev pub IsPin : ℕ → Json → Type 0
IsPin size (str s) =
    (length (codes s) ≡ size) × All IsHexDigit (codes s) × (All (λ c. c ≡ 48) (codes s) → ⊥)
IsPin size _ = ⊥

hex_digit : (c : ℕ) → Describes hex (c ∷ []) → IsHexDigit c
hex_digit c d = ground (arith, d.1, d.2)

digits_described :
    (size : ℕ) (cs : List ℕ)
    → Describes (times size hex) cs
    → (length cs ≡ size) × All IsHexDigit cs
digits_described zero cs d = subst (λ l. (length l ≡ zero) × All IsHexDigit l) (sym d) (refl, tt)
digits_described (suc size) cs d =
    let rest = digits_described size d.1 d.4 in
    let first : cs ≡ d.3.0 ∷ d.1 = d.2 ∙ ap (λ l. l ++ d.1) d.3.1 in
    subst (λ l. (length l ≡ suc size) × All IsHexDigit l) (sym first)
      (ap suc rest.0, (hex_digit d.3.0 (d.3.0, refl, d.3.2), rest.1))

described_digits :
    (size : ℕ) (cs : List ℕ) → length cs ≡ size → All IsHexDigit cs → Describes (times size hex) cs
described_digits zero [] e h = refl
described_digits zero (c ∷ cs) e h = ground (arith, e)
described_digits (suc size) [] e h = ground (arith, e)
described_digits (suc size) (c ∷ cs) e h = (
  c ∷ [],
  cs,
  refl,
  (c, refl, ground (arith, h.0)),
  described_digits size cs (ground (arith, e)) h.1,
)

zero_text :
    (size : ℕ) (s : String) → length (codes s) ≡ size → All (λ c. c ≡ 48) (codes s) → s ≡ zeros size
zero_text zero String.[] e h = refl
zero_text zero (String.◌∷◌ c s) e h = ground (arith, e)
zero_text (suc size) String.[] e h = ground (arith, e)
zero_text (suc size) (String.◌∷◌ c s) e h =
    let first : c ≡ zero_char = Char-path c zero_char h.0 in
    let rest = zero_text size s (ground (arith, e)) h.1 in
    ap (λ d. String.◌∷◌ d s) first ∙ ap (λ t. String.◌∷◌ zero_char t) rest

text_zero : (size : ℕ) → All (λ c. c ≡ 48) (codes (zeros size))
text_zero zero = tt
text_zero (suc size) = (refl, text_zero size)

-- The test of `hash_value` on a text
abbrev is_pin : ℕ → String → Bool
is_pin size s = fullmatch (times size hex) s && not (str_eq s (zeros size))

is_pin_iff : (size : ℕ) (s : String) → (is_pin size s ≡ true) ↔ IsPin size (str s)
is_pin_iff size s = (
  λ e.
      let read =
        digits_described size (codes s)
          ((fullmatch_iff (times size hex) s).0 (ground (arith, e))) in
      (
        read.0,
        read.1,
        λ zero. ground (arith, e, str_eq_iff s (zeros size), zero_text size s read.0 zero),
      ),
  λ h.
      let matched =
        (fullmatch_iff (times size hex) s).1 (described_digits size (codes s) h.0 h.1) in
      let is_zero : s ≡ zeros size → ⊥ =
        λ e. h.2 (subst (λ t. All (λ c. c ≡ 48) (codes t)) (sym e) (text_zero size)) in
      ground (arith, matched, is_zero, str_eq_iff s (zeros size)),
)

hash_value_text :
    (s : String) (size : ℕ) (place : String)
    → Passes (hash_value (str s) size place) ↔ (is_pin size s ≡ true)
unfolding hash_value
hash_value_text s size place = ground arith

-- `hash_value(v, size, ...)` returns exactly for a text of `size` lowercase hexadecimal digits that
-- are not all zero.
pub hash_value_iff :
    (v : Json) (size : ℕ) (place : String) → Passes (hash_value v size place) ↔ IsPin size v
unfolding hash_value
hash_value_iff (str s) size place = (
  λ p. (is_pin_iff size s).0 ((hash_value_text s size place).0 p),
  λ h. (hash_value_text s size place).1 ((is_pin_iff size s).1 h),
)
hash_value_iff _ size place = (λ p. ground (arith, p), λ h. elim h [ ])
