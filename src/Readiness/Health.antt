-- ===== src/Readiness/Health.antt =====
-- readiness.py: `check_health` and `health`.
pub mod Healthy
use home_lab.Prelude.{
  ℕ, String, Bool, true, false, Option, none, some, List, [], ◌∷◌, not, ◌&&◌, ◌||◌, if◌then◌else◌,
}
use home_lab.Prelude.Int.{ℤ, pos, int_eq, int_lt}
use home_lab.Program.{Outcome, ok, raised, pure, raise, raise_if, ◌>>=◌, ◌>>◌}
use home_lab.Json.{Json, bool, int, obj, end, Fields, get, has, as_dict, as_int}
use home_lab.Readiness.Server.{
  Server, Python, Gate, Error, History, fetch, check_all, ask_health, Check, health_http,
  not_object, not_strict, other_streams, other_context, small_pool, warming, other_model,
  other_lanes, no_spill, bad_spill, refused, http_failed, fetch_failed, bad_value, usage_error,
}
use home_lab.Readiness.Python.{equals_int, equals_str, fields_of, get_or}

-- What the command line says of the engine
pub record Profile : Type 0 where
  pub model : String
  pub lanes : ℤ
  pub context : ℤ
  pub min_pool_tokens : ℤ
  pub require_spill : Bool

-- `v is True`, `v is False`
abbrev pub is_bool : Bool → Json → Bool
is_bool b (bool c) = if b then c else not c
is_bool b _ = false

-- `type(v) is int and v >= n`
abbrev pub is_int_from : ℤ → Option ℤ → Bool
is_int_from n none = false
is_int_from n (some m) = not (int_lt m n)

-- `min_pool_tokens and (type(pool) is not int or pool < min_pool_tokens)`
abbrev pub is_small : ℤ → Json → Bool
is_small least pool = not (int_eq least (pos 0)) && not (is_int_from least (as_int pool))

abbrev pub mode_checks : Fields → List (Bool × Check)
mode_checks fs =
    (not (is_bool true (get fs "ok")) || not (equals_str (get fs "mode") "strict"), not_strict) ∷ []

module _ (python : Python) (p : Profile) where
  -- The answer of Mia's server
  abbrev pub loaded_checks : Fields → Fields → List (Bool × Check)
  loaded_checks fs streams =
      (not (equals_int python (get streams "max") p.lanes), other_streams)
      ∷ (not (equals_int python (get fs "context_length") p.context), other_context)
      ∷ (is_small p.min_pool_tokens (get fs "pool_tokens"), small_pool)
      ∷ []

  abbrev pub check_loaded : Fields → Gate (Unit {0})
  check_loaded fs =
      fields_of (get_or fs "streams" (obj end)) >>= λ streams. check_all (loaded_checks fs streams)

  unfoldable pub check_strict : Fields → Gate (Unit {0})
  check_strict fs = check_all (mode_checks fs) >>= λ _. check_loaded fs

  -- The answer of a Zig server
  unfoldable pub check_zig : Fields → Gate (Unit {0})
  check_zig fs = check_all (
      (not (equals_str (get fs "status") "ok") || not (is_bool false (get fs "warming")), warming)
      ∷ (not (equals_str (get fs "model") p.model), other_model)
      ∷ (not (equals_int python (get fs "max_batch_size") p.lanes), other_lanes)
      ∷ [])

  abbrev pub check_engine : Fields → Gate (Unit {0})
  check_engine fs = if has fs "ok" then check_strict fs else check_zig fs

-- The spill tier, if it is a dict
unfoldable pub check_tier : Option Fields → Gate (Unit {0})
check_tier none = raise (refused no_spill)
check_tier (some tier) = check_all (
    (not (equals_str (get tier "format") "blocks"), no_spill)
    ∷ (not (is_int_from (pos 1) (as_int (get tier "cap_bytes"))), bad_spill "cap_bytes")
    ∷ (not (is_int_from (pos 1) (as_int (get tier "block_tokens"))), bad_spill "block_tokens")
    ∷ [])

unfoldable pub check_spill : Bool → Fields → Gate (Unit {0})
check_spill false fs = pure tt
check_spill true fs = check_tier (as_dict (get fs "spill"))

module _ (python : Python) (p : Profile) where
  -- `check_health`
  unfoldable pub check_health : Json → Gate (Unit {0})
  check_health (obj fs) = check_engine python p fs >>= λ _. check_spill p.require_spill fs
  check_health _ = raise (refused not_object)

-- `except urllib.error.HTTPError`
abbrev pub with_detail : Error → Error
with_detail (http_failed code detail) = refused (health_http code detail)
with_detail e = e

abbrev pub detailed : {A : Type 0} → Outcome Error A × History → Outcome Error A × History
detailed (ok a, h) = (ok a, h)
detailed (raised e, h) = (raised (with_detail e), h)

-- `health`
unfoldable pub health : Server → Python → Profile → Gate (Unit {0})
health server python p = (λ h. detailed (fetch server ask_health h)) >>= check_health python p
