-- ===== src/Readiness/Health/Healthy.antt =====
-- readiness.py, `check_health`: what a body that passes says of the engine.
use home_lab.Prelude.{
  ℕ, suc, zero, ◌≡◌, ◌≢◌, refl, ap, ◌⊎◌, inl, inr, Bool, true, false, Option, none, some,
  if◌then◌else◌, arith,
}
use home_lab.Prelude.Int.{ℤ, pos, negsuc, int_eq, int_lt}
use home_lab.Program.Returns.{Returns, bind-Returns}
use home_lab.Json.{
  Json, null, bool, int, real, str, arr, obj, end, Fields, get, has, as_dict, as_int,
}
use home_lab.Readiness.Server.{Python, check_all, check_all-NoneBad, History}
use home_lab.Readiness.Python.{equals_int, fields_of, get_or}
use home_lab.Readiness.Python.Reads.{equals_str-str, fields_of-Returns, as_dict-obj, holds, both}
use home_lab.Readiness.Health.{
  Profile, mode_checks, loaded_checks, check_loaded, is_bool, is_int_from, is_small, check_strict,
  check_zig, check_engine, check_tier, check_spill, check_health,
}

-- An integer above zero
abbrev pub IsPositive : Json → Type 0
IsPositive v = (n : ℕ) × (v ≡ int (pos (suc n)))

abbrev pub HasTier : Fields → Type 0
HasTier fs =
    (tier : Fields) × (get fs "spill" ≡ obj tier)
    × (get tier "format" ≡ str "blocks")
    × IsPositive (get tier "cap_bytes")
    × IsPositive (get tier "block_tokens")

-- At least this many, if any are asked for
abbrev pub IsEnough : ℤ → Json → Type 0
IsEnough least v = (least ≢ pos 0) → (n : ℤ) × (v ≡ int n) × (int_lt n least ≡ false)

module _ (python : Python) (p : Profile) where
  -- Mia's server: in strict mode, with the streams, the context and the pool that are asked for
  abbrev pub IsStrict : Fields → Type 0
  IsStrict fs =
      (get fs "ok" ≡ bool true)
      × (get fs "mode" ≡ str "strict")
      × ((streams : Fields) × (get_or fs "streams" (obj end) ≡ obj streams)
          × (equals_int python (get streams "max") p.lanes ≡ true))
      × (equals_int python (get fs "context_length") p.context ≡ true)
      × IsEnough p.min_pool_tokens (get fs "pool_tokens")

  -- A Zig server: warm, with the model and the lanes that are asked for
  abbrev pub IsWarm : Fields → Type 0
  IsWarm fs =
      (get fs "status" ≡ str "ok")
      × (get fs "warming" ≡ bool false)
      × (get fs "model" ≡ str p.model)
      × (equals_int python (get fs "max_batch_size") p.lanes ≡ true)

  -- One of the two, and the spill tier if it is asked for
  abbrev pub IsHealthy : Json → Type 0
  IsHealthy v =
      (fs : Fields) × (v ≡ obj fs)
      × (IsStrict fs ⊎ (has fs "ok" ≡ false) × IsWarm fs)
      × (p.require_spill ≡ true → HasTier fs)

is_bool-bool : (b : Bool) (v : Json) → is_bool b v ≡ true → v ≡ bool b
is_bool-bool true (bool true) e = refl
is_bool-bool false (bool false) e = refl
is_bool-bool true (bool false) e = ground (arith, e)
is_bool-bool false (bool true) e = ground (arith, e)
is_bool-bool b null e = ground (arith, e)
is_bool-bool b (str _) e = ground (arith, e)
is_bool-bool b (int _) e = ground (arith, e)
is_bool-bool b (real _ _) e = ground (arith, e)
is_bool-bool b (arr _) e = ground (arith, e)
is_bool-bool b (obj _) e = ground (arith, e)

int_from-IsPositive : (v : Json) → is_int_from (pos 1) (as_int v) ≡ true → IsPositive v
int_from-IsPositive (int (pos (suc n))) e = (n, refl)
int_from-IsPositive (int (pos zero)) e = ground (arith, e)
int_from-IsPositive (int (negsuc n)) e = ground (arith, e)
int_from-IsPositive null e = ground (arith, e)
int_from-IsPositive (bool _) e = ground (arith, e)
int_from-IsPositive (str _) e = ground (arith, e)
int_from-IsPositive (real _ _) e = ground (arith, e)
int_from-IsPositive (arr _) e = ground (arith, e)
int_from-IsPositive (obj _) e = ground (arith, e)

int_eq-pos : (m : ℤ) → int_eq m (pos 0) ≡ true → m ≡ pos 0
int_eq-pos (pos n) e = ap pos (ground (arith, e))
int_eq-pos (negsuc n) e = ground (arith, e)

int_from-int :
    (least : ℤ) (v : Json)
    → is_int_from least (as_int v) ≡ true
    → (n : ℤ) × (v ≡ int n) × (int_lt n least ≡ false)
int_from-int least (int n) e = (n, refl, ground (arith, e))
int_from-int least null e = ground (arith, e)
int_from-int least (bool _) e = ground (arith, e)
int_from-int least (str _) e = ground (arith, e)
int_from-int least (real _ _) e = ground (arith, e)
int_from-int least (arr _) e = ground (arith, e)
int_from-int least (obj _) e = ground (arith, e)

not_small-IsEnough : (least : ℤ) (v : Json) → is_small least v ≡ false → IsEnough least v
not_small-IsEnough least v e ne = int_from-int least v (ground (arith, e, ne, int_eq-pos least))

check_tier-HasTier :
    (v : Json) (h t : History)
    → Returns (check_tier (as_dict v)) h tt t
    → (tier : Fields) × (v ≡ obj tier)
      × (get tier "format" ≡ str "blocks")
      × IsPositive (get tier "cap_bytes")
      × IsPositive (get tier "block_tokens")
unfolding check_tier
check_tier-HasTier v h t r = go (as_dict v) refl r
  where
    go :
        (o : Option Fields)
        → as_dict v ≡ o
        → Returns (check_tier o) h tt t
        → (tier : Fields) × (v ≡ obj tier)
          × (get tier "format" ≡ str "blocks")
          × IsPositive (get tier "cap_bytes")
          × IsPositive (get tier "block_tokens")
    go none e q = ground (arith, q)
    go (some tier) e q =
        let c = (check_all-NoneBad _ h t q).0 in
        (
          tier,
          as_dict-obj v tier e,
          equals_str-str _ _ (holds _ c.0),
          int_from-IsPositive _ (holds _ c.1.0),
          int_from-IsPositive _ (holds _ c.1.1.0),
        )

module _ (python : Python) (p : Profile) where
  check_zig-IsWarm :
      (fs : Fields) (h t : History) → Returns (check_zig python p fs) h tt t → IsWarm python p fs
  unfolding check_zig
  check_zig-IsWarm fs h t r =
      let c = (check_all-NoneBad _ h t r).0 in
      let w = both _ _ c.0 in
      (
        equals_str-str _ _ w.0,
        is_bool-bool _ _ w.1,
        equals_str-str _ _ (holds _ c.1.0),
        holds _ c.1.1.0,
      )

  check_strict-IsStrict :
      (fs : Fields) (h t : History)
      → Returns (check_strict python p fs) h tt t
      → IsStrict python p fs
  unfolding check_strict
  check_strict-IsStrict fs h t r =
      let a = bind-Returns (check_all (mode_checks fs)) (λ _. check_loaded python p fs) h tt t r in
      let b =
        bind-Returns (fields_of (get_or fs "streams" (obj end)))
          (λ streams. check_all (loaded_checks python p fs streams)) a.between tt t a.second in
      let w = both _ _ (check_all-NoneBad (mode_checks fs) h a.between a.first).0.0 in
      let c = (check_all-NoneBad (loaded_checks python p fs b.value) b.between t b.second).0 in
      (
        is_bool-bool _ _ w.0,
        equals_str-str _ _ w.1,
        (b.value, fields_of-Returns _ a.between b.between b.value b.first, holds _ c.0),
        holds _ c.1.0,
        not_small-IsEnough _ _ c.1.1.0,
      )

  check_engine-Fits :
      (fs : Fields) (h t : History)
      → Returns (check_engine python p fs) h tt t
      → IsStrict python p fs ⊎ (has fs "ok" ≡ false) × IsWarm python p fs
  check_engine-Fits fs h t r = go (has fs "ok") refl r
    where
      go :
          (b : Bool)
          → has fs "ok" ≡ b
          → Returns (if b then check_strict python p fs else check_zig python p fs) h tt t
          → IsStrict python p fs ⊎ (has fs "ok" ≡ false) × IsWarm python p fs
      go true e q = inl (check_strict-IsStrict fs h t q)
      go false e q = inr (e, check_zig-IsWarm fs h t q)

check_spill-HasTier :
    (b : Bool) (fs : Fields) (h t : History)
    → Returns (check_spill b fs) h tt t
    → b ≡ true
    → HasTier fs
unfolding check_spill
check_spill-HasTier true fs h t r e = check_tier-HasTier (get fs "spill") h t r
check_spill-HasTier false fs h t r e = ground (arith, e)

-- A body that `check_health` lets pass is a JSON object of one of the two engines: healthy in strict
-- mode with the streams, the context and the pool that the command line asks for, or ok and warm
-- with the model and the lanes; and with a block spill tier of positive sizes, if one is required.
pub check_health-IsHealthy :
    (python : Python) (p : Profile) (v : Json) (h t : History)
    → Returns (check_health python p v) h tt t
    → IsHealthy python p v
unfolding check_health
check_health-IsHealthy python p (obj fs) h t r =
    let a =
      bind-Returns (check_engine python p fs) (λ _. check_spill p.require_spill fs) h tt t r in
    (
      fs,
      refl,
      check_engine-Fits python p fs h a.between a.first,
      check_spill-HasTier p.require_spill fs a.between t a.second,
    )
check_health-IsHealthy python p null h t r = ground (arith, r)
check_health-IsHealthy python p (bool _) h t r = ground (arith, r)
check_health-IsHealthy python p (int _) h t r = ground (arith, r)
check_health-IsHealthy python p (real _ _) h t r = ground (arith, r)
check_health-IsHealthy python p (str _) h t r = ground (arith, r)
check_health-IsHealthy python p (arr _) h t r = ground (arith, r)
