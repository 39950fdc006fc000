-- ===== src/Healthchecks/Upsert/Quiet.antt =====
-- healthchecks.py: the POST requests of surveys, plans and checks.
use home_lab.Prelude.{
  ◌≡◌, String, Bool, true, false, Option, none, some, List, [], ◌∷◌, str_eq, ◌||◌, arith,
}
use home_lab.Prelude.Dict.{Dict}
use home_lab.Json.{Fields}
use home_lab.Healthchecks.Service.{
  Want, Request, get_checks, get_channels, upsert, update, called, shown, typed, History, Env, Step,
}
use home_lab.Healthchecks.Upsert.{Survey, call, fetch, survey, show_plan, recheck, check_after}

-- The POST requests so far, the latest first.
abbrev pub posts : History → List Request
posts [] = []
posts (called get_checks _ ∷ h) = posts h
posts (called get_channels _ ∷ h) = posts h
posts (called (upsert b) _ ∷ h) = upsert b ∷ posts h
posts (called (update u b) _ ∷ h) = update u b ∷ posts h
posts (shown _ _ ∷ h) = posts h
posts (typed _ ∷ h) = posts h

abbrev pub is_apply : Option String → Bool
is_apply none = false
is_apply (some text) = str_eq text "apply"

-- "apply" was typed at some prompt.
abbrev pub approved : History → Bool
approved [] = false
approved (typed text ∷ h) = is_apply text || approved h
approved (called _ _ ∷ h) = approved h
approved (shown _ _ ∷ h) = approved h

-- Whatever happens, no POST is made, and what was approved stays so.
abbrev pub Quiet : {A : Type 0} → Step A → Type 0
Quiet m = (h : History) → (posts (m h).1 ≡ posts h) × (approved h ≡ true → approved (m h).1 ≡ true)

module _ (env : Env) where
  pub fetch-Quiet : Quiet (fetch env)
  unfolding fetch call
  fetch-Quiet h = ground arith

  pub survey-Quiet : (wants : List Want) → Quiet (survey env wants)
  unfolding survey
  survey-Quiet wants h = ground (arith, fetch-Quiet h)

  pub show_plan-Quiet : (wants : List Want) (found : Survey) → Quiet (show_plan env wants found)
  unfolding show_plan
  show_plan-Quiet wants found h = ground arith

  pub check_after-Quiet :
      (wants : List Want) (before : Dict Fields) → Quiet (check_after env wants before)
  unfolding check_after
  check_after-Quiet wants before h = ground (arith, survey-Quiet wants h)

  pub recheck-Quiet :
      (wants : List Want) (planned before : Survey) → Quiet (recheck env wants planned before)
  unfolding recheck
  recheck-Quiet wants planned before h = ground arith
