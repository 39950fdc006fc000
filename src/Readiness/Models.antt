-- ===== src/Readiness/Models.antt =====
-- readiness.py: `check_models`.
pub mod Listed
use home_lab.Prelude.{
  ℕ, String, Bool, true, false, Option, none, some, List, [], ◌∷◌, not, ◌&&◌, if◌then◌else◌,
}
use home_lab.Prelude.Int.{ℤ}
use home_lab.Program.{pure, raise, ◌>>=◌, ◌>>◌}
use home_lab.Json.{Json, arr, obj, nil, end, Fields, get, or_else, iterate}
use home_lab.Readiness.Server.{
  Python, Gate, Check, check_all, refused, not_listed_once, other_owner, other_length,
  other_efforts,
}
use home_lab.Readiness.Python.{equals_int, equals_str, fields_of, get_or, or_bad_value}
use home_lab.Readiness.Nearest.{Effort, max, xhigh, high, medium, low, minimal, no_effort}
use home_lab.Readiness.Health.{Profile}

abbrev pub name_of : Effort → String
name_of max = "max"
name_of xhigh = "xhigh"
name_of high = "high"
name_of medium = "medium"
name_of low = "low"
name_of minimal = "minimal"
name_of no_effort = "none"

-- `reported == efforts`, of two lists
abbrev pub are_efforts : List Json → List Effort → Bool
are_efforts [] [] = true
are_efforts (v ∷ vs) (e ∷ es) = equals_str v (name_of e) && are_efforts vs es
are_efforts _ _ = false

abbrev pub kept : String → Fields → List Fields → List Fields
kept model entry rest = if equals_str (get entry "id") model then entry ∷ rest else rest

-- `[entry for entry in ... if entry.get("id") == model]`
unfoldable pub with_id : String → List Json → Gate (List Fields)
with_id model [] = pure []
with_id model (v ∷ vs) = do
  entry ← fields_of v
  rest ← with_id model vs
  pure (kept model entry rest)

-- `if len(entries) != 1`, and `entries[0]`
abbrev pub only : List Fields → Gate Fields
only (entry ∷ []) = pure entry
only _ = raise (refused not_listed_once)

abbrev pub entry_checks : Python → Profile → Fields → List (Bool × Check)
entry_checks python p entry =
    (not (equals_str (get entry "owned_by") "tensorfold"), other_owner)
    ∷ (
      not (equals_int python (get entry "context_length") p.context),
      other_length "context_length",
    )
    ∷ (not (equals_int python (get entry "max_model_len") p.context), other_length "max_model_len")
    ∷ []

-- `(entry.get("reasoning") or {}).get("supported_efforts") or []`, as a list
unfoldable pub reported_by : Fields → Gate (List Json)
reported_by entry = do
  reasoning ← fields_of (or_else (get entry "reasoning") (obj end))
  or_bad_value (iterate (or_else (get reasoning "supported_efforts") (arr nil)))

abbrev pub efforts_checks : List Json → List Effort → List (Bool × Check)
efforts_checks reported efforts = (not (are_efforts reported efforts), other_efforts) ∷ []

abbrev pub check_reported : List Effort → Fields → Gate Fields
check_reported efforts entry = do
  reported ← reported_by entry
  check_all (efforts_checks reported efforts)
  pure entry

module _ (python : Python) (p : Profile) (efforts : List Effort) where
  -- The checks of the entry, which is returned
  abbrev pub check_entry : Fields → Gate Fields
  check_entry entry = check_all (entry_checks python p entry) >>= λ _. check_reported efforts entry

  abbrev pub check_listed : List Json → Gate Fields
  check_listed vs = do entries ← with_id p.model vs; entry ← only entries; check_entry entry

  abbrev pub check_data : Fields → Gate Fields
  check_data fs = or_bad_value (iterate (get_or fs "data" (arr nil))) >>= λ vs. check_listed vs

  -- `check_models`
  unfoldable pub check_models : Json → Gate Fields
  check_models v = fields_of v >>= λ fs. check_data fs
