-- ===== src/Locks/Regex.antt =====
-- The regular expressions of validate_locks.py, and `re.fullmatch`: by derivatives, a character at a
-- time.
pub mod Meaning
pub mod Describes
use Prim.Native.Char.{code}
use home_lab.Prelude.{
  ℕ, zero, suc, String, Bool, true, false, ◌&&◌, ◌||◌, List, [], ◌∷◌, leb, if◌then◌else◌,
}

-- `chars` is a class of characters, by ranges of code points.
pub data Regex : Type 0 where
  nothing empty : Regex
  chars : List (ℕ × ℕ) → Regex
  seq or : Regex → Regex → Regex
  many : Regex → Regex

abbrev pub codes : String → List ℕ
codes String.[] = []
codes (String.◌∷◌ c s) = code c ∷ codes s

abbrev pub in_ranges : ℕ → List (ℕ × ℕ) → Bool
in_ranges c [] = false
in_ranges c ((low, high) ∷ ranges) = (leb low c && leb c high) || in_ranges c ranges

-- The expression matches the empty text.
abbrev pub is_nullable : Regex → Bool
is_nullable nothing = false
is_nullable empty = true
is_nullable (chars _) = false
is_nullable (seq r s) = is_nullable r && is_nullable s
is_nullable (or r s) = is_nullable r || is_nullable s
is_nullable (many r) = true

-- `seq` and `or`, smaller where one side is `nothing` or `empty`
unfoldable pub followed : Regex → Regex → Regex
followed nothing s = nothing
followed empty s = s
followed r s = seq r s

unfoldable pub either : Regex → Regex → Regex
either nothing s = s
either r s = or r s

-- What may follow this character
unfoldable pub after : ℕ → Regex → Regex
after c nothing = nothing
after c empty = nothing
after c (chars ranges) = if in_ranges c ranges then empty else nothing
after c (seq r s) =
    let rest = after c s in
    let first = followed (after c r) s in if is_nullable r then either first rest else first
after c (or r s) = either (after c r) (after c s)
after c (many r) = followed (after c r) (many r)

unfoldable pub accepts : Regex → List ℕ → Bool
accepts r [] = is_nullable r
accepts r (c ∷ cs) = accepts (after c r) cs

-- `re.fullmatch(r, text) is not None`
unfoldable pub fullmatch : Regex → String → Bool
fullmatch r text = accepts r (codes text)

-- `{n}` and `{0,n}`
abbrev pub times : ℕ → Regex → Regex
times zero r = empty
times (suc n) r = seq r (times n r)

abbrev pub up_to : ℕ → Regex → Regex
up_to zero r = empty
up_to (suc n) r = or empty (seq r (up_to n r))

-- A text that stands for itself
abbrev pub word_of : List ℕ → Regex
word_of [] = empty
word_of (c ∷ cs) = seq (chars ((c, c) ∷ [])) (word_of cs)

abbrev pub word : String → Regex
word text = word_of (codes text)
