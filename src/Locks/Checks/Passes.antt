-- ===== src/Locks/Checks/Passes.antt =====
-- validate_locks.py: checks that return, and what each check before them gave.
use home_lab.Prelude.{◌≡◌, Bool, true, false, not, String, List, [], ◌∷◌, All, arith}
use home_lab.Program.{◌>>=◌}
use home_lab.Program.Returns.{Returns, bind-Returns, raise_if-Returns}
use home_lab.Json.{Json, obj, Fields, get, has}
use home_lab.Locks.Checks.{Check, invalid, require, run_all, at}

-- The statement, where the test holds
abbrev pub When : Bool → Type 0 → Type 0
When true P = P
When false P = Unit

-- The check returns this value.
abbrev pub Gives : {A : Type 0} → Check A → A → Type 0
Gives m a = Returns m tt a tt

-- The check is passed.
abbrev pub Passes : Check (Unit {0}) → Type 0
Passes m = Gives m tt

-- One check after the other, both passed, with the value of the first
pub record Both {A B : Type 0} (m : Check A) (k : A → Check B) (b : B) : Type 0 where
  pub value : A
  pub first : Gives m value
  pub second : Gives (k value) b

pub Gives-bind :
    {A B : Type 0} (m : Check A) (k : A → Check B) (b : B) → Gives (m >>= k) b → Both m k b
Gives-bind m k b p =
    let both = bind-Returns m k tt b tt p in
    record { value = both.value; first = both.first; second = both.second }

pub Passes-require : (b : Bool) (place : String) → Passes (require b place) → b ≡ true
Passes-require b place p = ground (arith, (raise_if-Returns (not b) (invalid place) tt tt p).0)

pub Passes-run_all :
    (checks : List (Check (Unit {0}))) → Passes (run_all checks) → All Passes checks
unfolding run_all
Passes-run_all [] p = tt
Passes-run_all (check ∷ checks) p =
    let both = Gives-bind check (λ _. run_all checks) tt p in
    (both.first, Passes-run_all checks both.second)

pub Gives-at :
    (d : Fields) (k : String) (v : Json) → Gives (at (obj d) k) v → (has d k ≡ true) × (get d k ≡ v)
Gives-at d k v p = ground (arith, p)
