-- ===== src/Tensorfold/Recipes.antt =====
-- The plugin's part before a launch: `validate_recipe`, `prepare` and `_drafter_repo`.
pub mod Launches
use home_lab.Prelude.{
  String, Bool, true, false, not, ◌&&◌, Option, none, some, List, [], ◌∷◌, ◌++◌, map, if◌then◌else◌,
}
use home_lab.Prelude.Dict.{Dict}
use home_lab.Program.{Io, Outcome, ok, raised}
use home_lab.Json.{Json, null, is_empty}
use home_lab.Tensorfold.{Config, Recipe, Host, config_get}
use home_lab.Tensorfold.Topology.{Issue, topology_issues}
use home_lab.Tensorfold.Snapshot.{dot, is_char, has_slash, parse_hf_snapshot}
use home_lab.Tensorfold.Commands.{lookup}
use home_lab.Tensorfold.Environment.{
  LaunchError, is_absolute, model_path, text_of_value, truthy_text,
}

-- A repository, and a revision if there is one
abbrev pub Spec : Type 0
Spec = String × Option String

-- `recipe_error`: SparkRun's own issues, by their messages, and those of the plugin
pub data RecipeIssue : Type 0 where
  sparkrun : String → RecipeIssue
  shape : Issue → RecipeIssue
  missing_default : String → RecipeIssue
  no_path : LaunchError → RecipeIssue

-- REQUIRED_DEFAULTS
abbrev pub required_defaults : List String
required_defaults = "entrypoint" ∷ "served_model_name" ∷ "context" ∷ []

-- `{}`
abbrev pub no_overrides : Config
no_overrides key = null

abbrev pub default_problem : String → Option Json → List RecipeIssue
default_problem key none = missing_default key ∷ []
default_problem key (some _) = []

unfoldable pub default_problems : Config → List String → List RecipeIssue
default_problems config [] = []
default_problems config (key ∷ keys) =
    default_problem key (config_get config key) ++ default_problems config keys

abbrev pub path_problems : Outcome LaunchError String → List RecipeIssue
path_problems (ok _) = []
path_problems (raised e) = no_path e ∷ []

abbrev pub starts_with_dot : String → Bool
starts_with_dot String.[] = false
starts_with_dot (String.◌∷◌ c _) = is_char c dot

module _ (host : Host) where
  -- `validate_recipe`; `base` is the one of the class above.
  unfoldable pub validate_recipe : (Recipe → List RecipeIssue) → Recipe → List RecipeIssue
  validate_recipe base recipe =
      let config = recipe.build no_overrides in
      base recipe
      ++ map shape (topology_issues host recipe no_overrides)
      ++ default_problems config required_defaults
      ++ path_problems (model_path host recipe config)

  -- A drafter by name: a repository, if it has a slash and is no path
  abbrev pub named_repo : Config → String → Option Spec
  named_repo config drafter =
      if is_absolute drafter
      then none
      else if has_slash drafter && not (starts_with_dot drafter)
      then some (drafter, truthy_text host (config_get config "drafter_revision"))
      else none

  abbrev pub spec_of : Config → String → Option (String × String) → Option Spec
  spec_of config drafter none = named_repo config drafter
  spec_of config drafter (some (repo, revision)) = some (repo, some revision)

  abbrev pub repo_from : Config → Option String → Option Spec
  repo_from config none = none
  repo_from config (some drafter) = spec_of config drafter (parse_hf_snapshot drafter)

  -- `_drafter_repo`
  unfoldable pub drafter_repo : Config → Option Spec
  drafter_repo config = repo_from config (text_of_value host (config_get config "drafter"))

  abbrev pub add_spec : Option Spec → List Spec → List Spec
  add_spec none models = models
  add_spec (some spec) models = models ++ (spec ∷ [])

  -- `prepare`, of the models that the recipe distributes
  unfoldable pub prepare : Recipe → Config → List Spec → List Spec
  prepare recipe overrides models = add_spec (drafter_repo (recipe.build overrides)) models

-- _FABRIC_MASTER, the head's address on the fabric, while a launch runs
abbrev pub Fabric : Type 0
Fabric = Option String

-- `(ib_ip_map or {}).get(hosts[0]) if hosts else None`
abbrev pub head_address : List String → Dict String → Fabric
head_address [] addresses = none
head_address (head ∷ hosts) addresses = lookup head addresses

-- `_run_cluster`: `native` is SparkRun's part, which may raise. The variable has its earlier value
-- again on every way out.
abbrev pub run_cluster : {E A : Type 0} → List String → Dict String → Io E Fabric A → Io E Fabric A
run_cluster hosts addresses native before =
    let (r, after) = native (head_address hosts addresses) in (r, before)
