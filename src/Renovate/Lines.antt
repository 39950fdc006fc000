-- ===== src/Renovate/Lines.antt =====
-- check-renovate-problems.py, `annotate`: an annotation is one line.
use Prim.Native.Char.{code}
use home_lab.Prelude.{
  joined, ℕ, ◌≡◌, refl, String, Bool, false, ◌||◌, List, [], ◌∷◌, ◌==◌, arith, All, map,
}
use home_lab.Renovate.{replace_char, escaped}

-- The character with this code stands in the text.
abbrev pub has_code : ℕ → String → Bool
has_code c String.[] = false
has_code c (String.◌∷◌ d text) = (code d == c) || has_code c text

has_code-joined : (c : ℕ) (s t : String) → has_code c (joined s t) ≡ (has_code c s || has_code c t)
has_code-joined c String.[] t = refl
has_code-joined c (String.◌∷◌ d s) t = ground (arith, has_code-joined c s t)

has_code-replaced :
    (c : ℕ) (part text : String)
    → has_code c part ≡ false
    → has_code c (replace_char c part text) ≡ false
unfolding replace_char
has_code-replaced c part String.[] e = refl
has_code-replaced c part (String.◌∷◌ d text) e =
    ground
      (arith, e, has_code-replaced c part text, has_code-joined c part (replace_char c part text))

has_code-kept :
    (b c : ℕ) (part text : String)
    → has_code b part ≡ false
    → has_code b text ≡ false
    → has_code b (replace_char c part text) ≡ false
unfolding replace_char
has_code-kept b c part String.[] e f = refl
has_code-kept b c part (String.◌∷◌ d text) e f =
    ground
      (arith, e, f, has_code-kept b c part text, has_code-joined b part (replace_char c part text))

-- No carriage return and no line feed
abbrev pub IsOneLine : String → Type 0
IsOneLine text = (has_code 13 text ≡ false) × (has_code 10 text ≡ false)

pub escaped-IsOneLine : (message : String) → IsOneLine (escaped message)
unfolding escaped
escaped-IsOneLine message = (
  has_code-kept 13 10 "%0A" (replace_char 13 "%0D" (replace_char 37 "%25" message)) refl
      (has_code-replaced 13 "%0D" (replace_char 37 "%25" message) refl),
  has_code-replaced 10 "%0A" (replace_char 13 "%0D" (replace_char 37 "%25" message)) refl,
)

pub map-IsOneLine : (messages : List String) → All IsOneLine (map escaped messages)
map-IsOneLine [] = tt
map-IsOneLine (m ∷ messages) = (escaped-IsOneLine m, map-IsOneLine messages)
