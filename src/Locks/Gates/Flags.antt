-- ===== src/Locks/Gates/Flags.antt =====
-- validate_locks.py: the flags of the readiness hook.
use home_lab.Prelude.{
  ◌≡◌, refl, sym, ap, ◌∙◌, String, Bool, true, false, Option, none, some, List, [], ◌∷◌, ◌++◌, ◌==◌,
  ==_iff, str_eq, str_eq_iff, if◌then◌else◌, arith,
}
use home_lab.Program.{◌>>=◌}
use home_lab.Json.{Json, str}
use home_lab.Locks.Checks.{Check, Python, require}
use home_lab.Locks.Checks.Passes.{Passes, Gives, Gives-bind, Passes-require}
use home_lab.Locks.Recipe.{equal}
use home_lab.Locks.Gates.{count, value_after, value_or, check_flag}

-- The flag stands once in the words, with a word after it that is equal to the value.
abbrev pub HasFlag : Python → List String → String → Json → Type 0
HasFlag python argv flag value =
    (before : List String) × (found : String) × (after : List String) × (argv
      ≡ before ++ flag ∷ found ∷ after)
    × (count flag before ≡ 0)
    × (count flag (found ∷ after) ≡ 0)
    × (python.equal (str found) value ≡ true)

-- The words before and after the first flag
record Split (flag found : String) (argv : List String) : Type 0 where
  before : List String
  after : List String
  whole : argv ≡ before ++ flag ∷ found ∷ after
  first : count flag before ≡ 0

value_after-Split :
    (flag found : String) (argv : List String)
    → value_after flag argv ≡ some found
    → Split flag found argv
unfolding value_after
value_after-Split flag found [] e = ground (arith, e)
value_after-Split flag found (word ∷ []) e = ground (arith, e)
value_after-Split flag found (word ∷ value ∷ argv) e =
    go (str_eq word flag) refl e (value_after-Split flag found (value ∷ argv))
  where
    go :
        (b : Bool)
        → str_eq word flag ≡ b
        → (if b then some value else value_after flag (value ∷ argv)) ≡ some found
        → (value_after flag (value ∷ argv) ≡ some found → Split flag found (value ∷ argv))
        → Split flag found (word ∷ value ∷ argv)
    go true f h ih =
        let same : value ≡ found = ground (arith, h) in
        record {
          before = [];
          after = argv;
          whole =
              ap (λ w. w ∷ value ∷ argv) ((str_eq_iff word flag).0 f)
              ∙ ap (λ v. flag ∷ v ∷ argv) same;
          first = refl;
        }
    go false f h ih =
        let rest = ih h in
        record {
          before = word ∷ rest.before;
          after = rest.after;
          whole = ap (λ l. word ∷ l) rest.whole;
          first = ground (arith, f, rest.first);
        }

count-append :
    (flag : String) (xs ys : List String)
    → count flag xs ≡ 0
    → count flag (xs ++ ys) ≡ count flag ys
count-append flag [] ys e = refl
count-append flag (x ∷ xs) ys e = ground (arith, e, count-append flag xs ys)

-- `check_flag` lets pass only words in which the flag stands exactly once, with a word after it that
-- is equal to the value.
pub check_flag-HasFlag :
    (python : Python) (argv : List String) (flag : String) (value : Json)
    → Passes (check_flag python argv flag value)
    → HasFlag python argv flag value
unfolding check_flag
check_flag-HasFlag python argv flag value p =
    let place : String = "post_exec" in
    let compared : String → Check (Unit {0}) = λ found. equal python (str found) value place in
    let rest : Check (Unit {0}) = value_or (value_after flag argv) >>= compared in
    let first = Gives-bind (require (count flag argv == 1) place) (λ _. rest) tt p in
    let both = Gives-bind (value_or (value_after flag argv)) compared tt first.second in
    let once =
      (==_iff (count flag argv) 1).0 (Passes-require (count flag argv == 1) place first.first) in
    let found = found_value (value_after flag argv) both.value both.first in
    let split = value_after-Split flag both.value argv found in
    let counted : count flag (flag ∷ both.value ∷ split.after) ≡ 1 =
      sym (count-append flag split.before (flag ∷ both.value ∷ split.after) split.first)
      ∙ ap (count flag) (sym split.whole)
      ∙ once in
    (
      split.before,
      both.value,
      split.after,
      split.whole,
      split.first,
      ground (arith, counted, str_eq_iff flag flag),
      Passes-require (python.equal (str both.value) value) place both.second,
    )
  where
    found_value : (o : Option String) (s : String) → Gives (value_or o) s → o ≡ some s
    found_value none s q = ground (arith, q)
    found_value (some t) s q = ground (arith, q)
