-- ===== src/Flows/Times.antt =====
-- collector.py, `iso` of times in milliseconds: whether it raises, for texts that are left out.
use home_lab.Prelude.{ℕ, ◌≡◌, ◌⊎◌, refl, inl, inr, List, [], ◌∷◌, arith}
use home_lab.Prelude.Int.{pos}
use home_lab.Json.{int}
use home_lab.Flows.Runtime.{
  Python, Stamp, stamp, value_error, overflow_error, Error, Outcome, ok, raised, unexpected,
  overflow,
}
use home_lab.Flows.Io.Ends.{Sat, Any}

abbrev pub shown_at : Stamp → Outcome (Unit {0}) → Outcome (Unit {0})
shown_at (stamp _) rest = rest
shown_at value_error rest = raised unexpected
shown_at overflow_error rest = raised overflow

-- `iso` of each of these
unfoldable pub times_shown : Python → List ℕ → Outcome (Unit {0})
times_shown python [] = ok tt
times_shown python (ms ∷ times) = shown_at (python.iso (int (pos ms))) (times_shown python times)

-- OverflowError, or ValueError and its like
abbrev pub IsTimeError : Error → Type 0
IsTimeError e = (e ≡ overflow) ⊎ (e ≡ unexpected)

-- Nothing else is raised.
abbrev pub Shows : Outcome (Unit {0}) → Type 0
Shows (ok _) = Unit
Shows (raised e) = IsTimeError e

pub times_shown-Shows : (python : Python) (times : List ℕ) → Shows (times_shown python times)
unfolding times_shown
times_shown-Shows python [] = tt
times_shown-Shows python (ms ∷ times) =
    go (python.iso (int (pos ms))) (times_shown python times) (times_shown-Shows python times)
  where
    go : (shown : Stamp) (rest : Outcome (Unit {0})) → Shows rest → Shows (shown_at shown rest)
    go (stamp _) rest h = h
    go value_error rest h = inr refl
    go overflow_error rest h = inl refl

pub times_shown-Sat : (python : Python) (times : List ℕ) → Sat Any (times_shown python times)
times_shown-Sat python times = go (times_shown python times) (times_shown-Shows python times)
  where
    go : (r : Outcome (Unit {0})) → Shows r → Sat Any r
    go (ok _) h = tt
    go (raised e) (inl o) = λ x. ground (arith, o, x)
    go (raised e) (inr o) = λ x. ground (arith, o, x)
