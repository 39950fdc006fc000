-- ===== src/Readiness/Renders.antt =====
-- readiness.py: `render` and `check_renders`.
pub mod Answers
pub mod Gathered
pub mod Covers
pub mod Differ
pub mod Faithful
use home_lab.Prelude.{
  ℕ, String, Bool, true, false, Option, none, some, List, [], ◌∷◌, ◌++◌, not, ◌&&◌, ◌||◌, ◌==◌,
  if◌then◌else◌,
}
use home_lab.Program.{Outcome, ok, raised, pure, raise, raise_if, ◌>>=◌, ◌>>◌}
use home_lab.Json.{Json, arr, Items, nil, cons, list_of, Fields, get, is_hashable}
use home_lab.Readiness.Server.{
  Server, Python, Gate, Error, Check, History, ask_render, fetch, refused, http_failed, bad_value,
  no_tokens, all_refused, some_refused, shared_prompt, not_as,
}
use home_lab.Readiness.Python.{equals, fields_of, or_bad_value}
use home_lab.Readiness.Nearest.{
  Effort, max, xhigh, high, medium, low, minimal, no_effort, is_in, place, nearest,
}

-- The tokens of a prompt
abbrev pub Prompt : Type 0
Prompt = List Json

-- `rendered`: the prompts by level, in the order of the levels
abbrev pub Rendered : Type 0
Rendered = List (Effort × Prompt)

-- STANDARD_EFFORTS
abbrev pub standard_efforts : List Effort
standard_efforts = no_effort ∷ minimal ∷ low ∷ medium ∷ high ∷ xhigh ∷ max ∷ []

abbrev pub tokens_of : Option Effort → Json → Gate Prompt
tokens_of effort (arr (cons v vs)) = pure (v ∷ list_of vs)
tokens_of effort _ = raise (refused (no_tokens effort))

module _ (server : Server) where
  -- `render`
  unfoldable pub render : Option Effort → Gate Prompt
  render effort = do
    v ← fetch server (ask_render effort)
    fs ← fields_of v
    tokens_of effort (get fs "tokens")

-- `except urllib.error.HTTPError as error: if error.code != 404: raise`, and none for a 404
abbrev pub unless_missing :
    {A : Type 0} → Outcome Error A × History → Outcome Error (Option A) × History
unless_missing (ok a, h) = (ok (some a), h)
unless_missing (raised (http_failed code detail), h) =
    (if code == 404 then ok none else raised (http_failed code detail), h)
unless_missing (raised e, h) = (raised e, h)

-- What the first loop gathers: `rendered` and `missing`
abbrev pub Gathered : Type 0
Gathered = Rendered × List Effort

abbrev pub filed : Effort → Option Prompt → Gathered → Gathered
filed effort (some prompt) (rendered, missing) = ((effort, prompt) ∷ rendered, missing)
filed effort none (rendered, missing) = (rendered, effort ∷ missing)

abbrev pub default_error : List Effort → Option Prompt → Gate (Unit {0})
default_error missing none = pure tt
default_error missing (some _) = raise (refused (all_refused missing))

module _ (server : Server) where
  unfoldable pub try_render : Option Effort → Gate (Option Prompt)
  try_render effort h = unless_missing (render server effort h)

  -- The loop over the advertised levels, which are distinct
  unfoldable pub gather : List Effort → Gate Gathered
  gather [] = pure ([], [])
  gather (effort ∷ efforts) = do
    answer ← try_render (some effort)
    rest ← gather efforts
    pure (filed effort answer rest)

  -- No level is rendered: a missing route if the default is missing too, and an error otherwise
  unfoldable pub check_default : List Effort → Gate (Unit {0})
  check_default missing = try_render none >>= λ answer. default_error missing answer

-- `all` of the tokens hashable, as `set` wants them
abbrev pub all_hashable : Prompt → Bool
all_hashable [] = true
all_hashable (v ∷ vs) = is_hashable v && all_hashable vs

-- `a == b` of two tuples, the first hashable
abbrev pub same_prompt : Python → Prompt → Prompt → Bool
same_prompt python [] [] = true
same_prompt python (v ∷ vs) (w ∷ ws) = equals python v w && same_prompt python vs ws
same_prompt python _ _ = false

abbrev pub prompts_hashable : Rendered → Bool
prompts_hashable [] = true
prompts_hashable ((e, prompt) ∷ rest) = all_hashable prompt && prompts_hashable rest

abbrev pub is_shared : Python → Prompt → Rendered → Bool
is_shared python prompt [] = false
is_shared python prompt ((e, other) ∷ rest) =
    same_prompt python prompt other || is_shared python prompt rest

-- `len(set(rendered.values())) != len(rendered)`
abbrev pub any_shared : Python → Rendered → Bool
any_shared python [] = false
any_shared python ((e, prompt) ∷ rest) = is_shared python prompt rest || any_shared python rest

abbrev pub levels_of : Rendered → List Effort
levels_of [] = []
levels_of ((e, prompt) ∷ rest) = e ∷ levels_of rest

-- `rendered[target]`
abbrev pub prompt_of : Effort → Rendered → Option Prompt
prompt_of target [] = none
prompt_of target ((e, prompt) ∷ rest) =
    if place e == place target then some prompt else prompt_of target rest

-- The last loop's table, `mapped`
abbrev pub Mapped : Type 0
Mapped = List (Effort × Effort)

module _ (server : Server) (python : Python) (efforts : List Effort) (rendered : Rendered) where
  -- One name that is not advertised, and its nearest level
  abbrev pub check_name : Effort → Effort → Gate (Unit {0})
  check_name effort target = do
    prompt ← render server (some effort)
    expected ← or_bad_value (prompt_of target rendered)
    raise_if (not (same_prompt python expected prompt)) (refused (not_as effort target))

  abbrev pub map_name : Effort → Gate (Effort × Effort)
  map_name effort = do
    target ← or_bad_value (nearest effort efforts)
    check_name effort target
    pure (effort, target)

  unfoldable pub map_names : List Effort → Gate Mapped
  map_names [] = pure []
  map_names (effort ∷ names) =
      if is_in effort (levels_of rendered) || is_in effort (no_effort ∷ [])
      then map_names names
      else map_name effort >>= λ pair. map_names names >>= λ rest. pure (pair ∷ rest)

module _ (server : Server) (python : Python) (efforts : List Effort) where
  -- The checks on the prompts, once every level has one
  unfoldable pub check_prompts : Rendered → Gate Mapped
  check_prompts rendered = do
    raise_if (not (prompts_hashable rendered)) bad_value
    raise_if (any_shared python rendered) (refused (shared_prompt (levels_of rendered)))
    map_names server python efforts rendered standard_efforts

  abbrev pub after_gather : Rendered → List Effort → Gate (Option Mapped)
  after_gather [] (m ∷ missing) = check_default server (m ∷ missing) >>= λ _. pure none
  after_gather (r ∷ rendered) (m ∷ missing) =
      raise (refused (some_refused (m ∷ missing) (levels_of (r ∷ rendered))))
  after_gather rendered [] = check_prompts rendered >>= λ mapped. pure (some mapped)

  -- `check_renders`
  unfoldable pub check_renders : Gate (Option Mapped)
  check_renders = gather server efforts >>= λ (rendered, missing). after_gather rendered missing
