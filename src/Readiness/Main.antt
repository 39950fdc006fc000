-- ===== src/Readiness/Main.antt =====
-- readiness.py: `main`, after its arguments are parsed. What it prints is left out.
use home_lab.Prelude.{Bool, false, Option, none, List, [], ◌∷◌, ◌||◌}
use home_lab.Prelude.Int.{ℤ}
use home_lab.Program.{pure, raise_if, ◌>>=◌, ◌>>◌}
use home_lab.Readiness.Server.{Server, Python, Gate, ask_models, fetch, usage_error}
use home_lab.Readiness.Nearest.{Effort, is_in}
use home_lab.Readiness.Health.{Profile, health}
use home_lab.Readiness.Models.{check_models}
use home_lab.Readiness.Replies.{smoke, warmup, tool_call}
use home_lab.Readiness.Renders.{Mapped, check_renders}

-- `len(set(efforts)) != len(efforts)`; the names are standard levels
abbrev pub has_twice : List Effort → Bool
has_twice [] = false
has_twice (e ∷ efforts) = is_in e efforts || has_twice efforts

-- What the command line asks for
pub record Arguments : Type 0 where
  pub profile : Profile
  pub efforts : List Effort
  pub warmup_words : List ℤ

module _ (server : Server) (python : Python) where
  unfoldable pub warm_all : ℤ → List ℤ → Gate (Unit {0})
  warm_all lanes [] = pure tt
  warm_all lanes (words ∷ rest) = warmup server python lanes words >>= λ _. warm_all lanes rest

  -- `if efforts`
  abbrev pub renders_if_any : List Effort → Gate (Option Mapped)
  renders_if_any [] = pure none
  renders_if_any (e ∷ efforts) = check_renders server python (e ∷ efforts)

  unfoldable pub main : Arguments → Gate (Option Mapped)
  main args = do
    raise_if (has_twice args.efforts) usage_error
    health server python args.profile
    models ← fetch server ask_models
    check_models python args.profile args.efforts models
    warm_all args.profile.lanes args.warmup_words
    smoke server python args.profile.lanes
    tool_call server python
    mapped ← renders_if_any args.efforts
    health server python args.profile
    pure mapped
