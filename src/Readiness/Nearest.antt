-- ===== src/Readiness/Nearest.antt =====
-- readiness.py, `nearest`: the advertised reasoning level as which an unlisted name should render.
pub mod Nearer
use home_lab.Prelude.{
  ℕ, ◌+◌, ◌-◌, ◌≤◌, ◌≡◌, refl, Bool, true, false, ◌&&◌, ◌||◌, Option, none, some, List, [], ◌∷◌,
  ltb, leb, ◌==◌, arith, if◌then◌else◌,
}

-- STANDARD_EFFORTS; `no_effort` is "none"
pub data Effort : Type 0 where
  max xhigh high medium low minimal no_effort : Effort

-- The place in EFFORT_ORDER, after whose six names "none" has none of its own.
abbrev pub place : Effort → ℕ
place max = 0
place xhigh = 1
place high = 2
place medium = 3
place low = 4
place minimal = 5
place no_effort = 6

-- `level in EFFORT_ORDER`
abbrev pub is_ranked : Effort → Bool
is_ranked level = ltb (place level) 6

-- EFFORT_ORDER
abbrev pub effort_order : List Effort
effort_order = max ∷ xhigh ∷ high ∷ medium ∷ low ∷ minimal ∷ []

-- `level in levels`
abbrev pub is_in : Effort → List Effort → Bool
is_in level [] = false
is_in level (l ∷ levels) = (place l == place level) || is_in level levels

-- `[level for level in order if level in levels]`
abbrev pub named_in : List Effort → List Effort → List Effort
named_in levels [] = []
named_in levels (l ∷ order) =
    if is_in l levels then l ∷ named_in levels order else named_in levels order

abbrev pub distance : Effort → Effort → ℕ
distance a b = (place a - place b) + (place b - place a)

-- The keys of `min`, compared: the distance first, then the place.
abbrev pub precedes : Effort → Effort → Effort → Bool
precedes wanted a b =
    ltb (distance wanted a) (distance wanted b)
    || ((distance wanted a == distance wanted b) && ltb (place a) (place b))

-- `min` of these and the best before them
unfoldable pub best : Effort → Effort → List Effort → Effort
best wanted b [] = b
best wanted b (l ∷ levels) = best wanted (if precedes wanted l b then l else b) levels

-- `EFFORT_ORDER.index(wanted)` and `min`, which raise ValueError for "none" and for no levels
abbrev pub closest : Effort → List Effort → Option Effort
closest wanted [] = none
closest wanted (l ∷ levels) = if is_ranked wanted then some (best wanted l levels) else none

abbrev pub is_empty : List Effort → Bool
is_empty [] = true
is_empty (_ ∷ _) = false

-- `nearest`, or none where it raises
unfoldable pub nearest : Effort → List Effort → Option Effort
nearest wanted levels =
    let named = named_in levels effort_order in
    if is_empty named && is_in no_effort levels then some no_effort else closest wanted named
