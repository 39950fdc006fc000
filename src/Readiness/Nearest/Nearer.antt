-- ===== src/Readiness/Nearest/Nearer.antt =====
-- readiness.py, `nearest`: the distance of the level that it returns, and of the others.
use home_lab.Prelude.{
  ◌≤◌, ◌≡◌, refl, Bool, true, false, ◌&&◌, some, List, [], ◌∷◌, ◌==◌, arith, if◌then◌else◌,
}
use home_lab.Readiness.Nearest.{
  Effort, max, xhigh, high, medium, low, minimal, no_effort, place, is_ranked, effort_order, is_in,
  named_in, distance, precedes, best, closest, is_empty, nearest,
}

-- At least as near, and no lower where the distance is the same.
abbrev pub IsNearer : Effort → Effort → Effort → Type 0
IsNearer wanted t l =
    (distance wanted t ≤ distance wanted l)
    × (distance wanted t ≡ distance wanted l → place t ≤ place l)

IsNearer-trans :
    (wanted a b c : Effort) → IsNearer wanted a b → IsNearer wanted b c → IsNearer wanted a c
IsNearer-trans wanted a b c p q = (ground arith, λ e. ground arith)

-- The better of two
step-IsNearer :
    (wanted l b : Effort)
    → let t = if precedes wanted l b then l else b in IsNearer wanted t l × IsNearer wanted t b
step-IsNearer wanted l b = go (precedes wanted l b) refl
  where
    go :
        (c : Bool)
        → precedes wanted l b ≡ c
        → let t = if c then l else b in IsNearer wanted t l × IsNearer wanted t b
    go true e = ((ground arith, λ _. ground arith), (ground (arith, e), λ k. ground (arith, e, k)))
    go false e = ((ground (arith, e), λ k. ground (arith, e, k)), (ground arith, λ _. ground arith))

abbrev AllNearer : Effort → Effort → List Effort → Type 0
AllNearer wanted t [] = Unit
AllNearer wanted t (l ∷ levels) = IsNearer wanted t l × AllNearer wanted t levels

best-AllNearer :
    (wanted b : Effort) (levels : List Effort)
    → AllNearer wanted (best wanted b levels) (b ∷ levels)
unfolding best
best-AllNearer wanted b [] = ((ground arith, λ _. ground arith), tt)
best-AllNearer wanted b (l ∷ levels) =
    let better = if precedes wanted l b then l else b in
    let (here, rest) = best-AllNearer wanted better levels in
    let (to_l, to_b) = step-IsNearer wanted l b in
    (
      IsNearer-trans wanted (best wanted better levels) better b here to_b,
      (IsNearer-trans wanted (best wanted better levels) better l here to_l, rest),
    )

is_in-place :
    (a b : Effort) (levels : List Effort) → place a ≡ place b → is_in a levels ≡ is_in b levels
is_in-place a b [] e = refl
is_in-place a b (l ∷ levels) e = ground (arith, is_in-place a b levels, e)

In-AllNearer :
    (wanted t l : Effort) (order levels : List Effort)
    → AllNearer wanted t (named_in levels order)
    → is_in l order ≡ true
    → is_in l levels ≡ true
    → IsNearer wanted t l
In-AllNearer wanted t l [] levels n o m = ground (arith, o)
In-AllNearer wanted t l (k ∷ order) levels n o m =
    go (is_in k levels) refl (place k == place l) refl n
      (λ n' o'. In-AllNearer wanted t l order levels n' o' m)
  where
    go :
        (c : Bool)
        → is_in k levels ≡ c
        → (same : Bool) → (place k == place l) ≡ same
        → AllNearer wanted t (if c then k ∷ named_in levels order else named_in levels order)
        → (AllNearer wanted t (named_in levels order) → is_in l order ≡ true → IsNearer wanted t l)
        → IsNearer wanted t l
    go true c true s n rest =
        let e : place k ≡ place l = ground (arith, s) in
        (ground (arith, e, n.0), λ q. ground (arith, e, n.0, q))
    go true c false s n rest = rest n.1 (ground (arith, o, s))
    go false c true s n rest = ground (arith, is_in-place k l levels, s, m, c)
    go false c false s n rest = rest n (ground (arith, o, s))

order-is_in : (l : Effort) → is_ranked l ≡ true → is_in l effort_order ≡ true
order-is_in max h = refl
order-is_in xhigh h = refl
order-is_in high h = refl
order-is_in medium h = refl
order-is_in low h = refl
order-is_in minimal h = refl
order-is_in no_effort h = ground (arith, h)

-- Each of these is advertised.
abbrev AllIn : List Effort → List Effort → Type 0
AllIn levels [] = Unit
AllIn levels (l ∷ ls) = (is_in l levels ≡ true) × AllIn levels ls

named_in-AllIn : (levels order : List Effort) → AllIn levels (named_in levels order)
named_in-AllIn levels [] = tt
named_in-AllIn levels (l ∷ order) = go (is_in l levels) refl (named_in-AllIn levels order)
  where
    go :
        (c : Bool)
        → is_in l levels ≡ c
        → AllIn levels (named_in levels order)
        → AllIn levels (if c then l ∷ named_in levels order else named_in levels order)
    go true e rest = (e, rest)
    go false e rest = rest

best-is_in :
    (wanted b : Effort) (levels named : List Effort)
    → AllIn levels (b ∷ named)
    → is_in (best wanted b named) levels ≡ true
unfolding best
best-is_in wanted b levels [] h = h.0
best-is_in wanted b levels (l ∷ named) h =
    go (precedes wanted l b) (λ t e. best-is_in wanted t levels named (e, h.1.1))
  where
    go :
        (c : Bool)
        → ((t : Effort) → is_in t levels ≡ true → is_in (best wanted t named) levels ≡ true)
        → is_in (best wanted (if c then l else b) named) levels ≡ true
    go true rest = rest l h.1.0
    go false rest = rest b h.0

named_in-found :
    (l : Effort) (levels order : List Effort)
    → is_in l order ≡ true
    → is_in l levels ≡ true
    → is_empty (named_in levels order) ≡ false
named_in-found l levels [] o m = ground (arith, o)
named_in-found l levels (k ∷ order) o m =
    ground (arith, named_in-found l levels order, o, m, is_in-place k l levels)

-- If the wanted level is one of EFFORT_ORDER, and so is some advertised one, `nearest` returns an
-- advertised level that no advertised level of EFFORT_ORDER is nearer than; among those as near,
-- it is the highest.
pub nearest-IsNearer :
    (wanted l : Effort) (levels : List Effort)
    → is_ranked wanted ≡ true
    → is_ranked l ≡ true
    → is_in l levels ≡ true
    → (t : Effort) × (nearest wanted levels ≡ some t)
      × (is_in t levels ≡ true)
      × ((k : Effort) → is_ranked k ≡ true → is_in k levels ≡ true → IsNearer wanted t k)
unfolding nearest
nearest-IsNearer wanted l levels r s m =
    go (named_in levels effort_order) (named_in-found l levels effort_order (order-is_in l s) m)
      (named_in-AllIn levels effort_order)
      (λ t n k q o. In-AllNearer wanted t k effort_order levels n (order-is_in k q) o)
  where
    go :
        (named : List Effort)
        → is_empty named ≡ false
        → AllIn levels named
        → ((t : Effort)
            → AllNearer wanted t named
            → (k : Effort) → is_ranked k ≡ true
            → is_in k levels ≡ true
            → IsNearer wanted t k)
        → (t : Effort) × ((if is_empty named && is_in no_effort levels
              then some no_effort
              else closest wanted named)
            ≡ some t)
          × (is_in t levels ≡ true)
          × ((k : Effort) → is_ranked k ≡ true → is_in k levels ≡ true → IsNearer wanted t k)
    go [] e a n = ground (arith, e)
    go (x ∷ named) e a n = (
      best wanted x named,
      ground (arith, r),
      best-is_in wanted x levels named a,
      n (best wanted x named) (best-AllNearer wanted x named),
    )
