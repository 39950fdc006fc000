-- ===== src/Tensorfold/Commands.antt =====
-- The commands of a launch: `generate_command`, `generate_node_command`, `_one_node_command` and
-- `_env_command`. A command is kept as its assignments and what follows them.
mod Lookups
pub mod Alone
pub mod Ranked
use home_lab.Prelude.{
  String, Bool, true, false, not, ◌&&◌, ◌||◌, Option, none, some, List, [], ◌∷◌, ◌++◌, str_eq,
  if◌then◌else◌,
}
use home_lab.Prelude.Int.{ℤ, pos}
use home_lab.Prelude.Dict.{Dict, put, contains}
use home_lab.Program.{Outcome, ok, raised}
use home_lab.Json.{Json, int}
use home_lab.Tensorfold.{Config, Recipe, Host, config_get}
use home_lab.Tensorfold.Topology.{Issue, launch_issues, require_launch_topology}
use home_lab.Tensorfold.Environment.{
  LaunchError, bad_topology, no_entrypoint, engine_env, text, put_if, non_empty,
}

-- "env <assignments> <command>"; the values are quoted.
pub record Command : Type 0 where
  pub assignments : Dict String
  pub command : String

-- `ordered`
abbrev pub ordered : List String
ordered =
    "RANK" ∷ "MASTER" ∷ "MASTER_PORT" ∷ "FABRIC_MASTER" ∷ "MODEL_PATH" ∷ "DRAFTER" ∷ "CONTEXT"
    ∷ "SERVED_NAME" ∷ "MAX_TOKENS" ∷ "HOST" ∷ "PORT" ∷ "EXTRA_ARGS" ∷ "MTP_DRAFTS" ∷ "NO_DRAFTS"
    ∷ []

abbrev pub lookup : String → Dict String → Option String
lookup k [] = none
lookup k ((j, v) ∷ d) = if str_eq j k then some v else lookup k d

abbrev pub is_in : String → List String → Bool
is_in k [] = false
is_in k (j ∷ ks) = str_eq j k || is_in k ks

module _ (host : Host) where
  abbrev pub assigned : String → Option String → Dict String → Dict String
  assigned key none rest = rest
  assigned key (some value) rest = (key, host.quote value) ∷ rest

  -- `[_env_assignment(key, env[key]) for key in ordered if key in env]`
  unfoldable pub in_order : List String → Dict String → Dict String
  in_order [] env = []
  in_order (key ∷ keys) env = assigned key (lookup key env) (in_order keys env)

  -- The loop over the keys that are not in `ordered`
  unfoldable pub others : Dict String → Dict String
  others [] = []
  others ((key, value) ∷ env) =
      let rest = others env in if is_in key ordered then rest else (key, host.quote value) ∷ rest

  -- `rendered.strip() if rendered else str(binary)`
  abbrev pub command_or : Option String → Json → String
  command_or none binary = text host binary
  command_or (some rendered) binary = rendered

  abbrev pub env_command_with :
      Recipe → Config → Dict String → Option Json → Outcome LaunchError Command
  env_command_with recipe config env none = raised no_entrypoint
  env_command_with recipe config env (some binary) = ok (record {
    assignments = in_order ordered env ++ others env;
    command = command_or (recipe.render config) binary;
  })

  -- `_env_command`
  unfoldable pub env_command : Recipe → Config → Dict String → Outcome LaunchError Command
  env_command recipe config env =
      env_command_with recipe config env (config_get config "entrypoint")

  abbrev pub command_of :
      Recipe
      → Config
      → (Dict String → Dict String)
      → Outcome LaunchError (Dict String)
      → Outcome LaunchError Command
  command_of recipe config change (raised e) = raised e
  command_of recipe config change (ok env) = env_command recipe config (change env)

  abbrev pub after_issues : List Issue → Outcome LaunchError Command → Outcome LaunchError Command
  after_issues [] made = made
  after_issues (issue ∷ _) made = raised (bad_topology issue)

  -- `_one_node_command`
  unfoldable pub one_node_command : Recipe → Config → List String → Outcome LaunchError Command
  one_node_command recipe overrides skip_keys =
      let config = recipe.build overrides in
      after_issues (launch_issues host recipe overrides (pos 1))
        (command_of recipe config (λ env. env) (engine_env host recipe config skip_keys))

-- The rendezvous of the ranks: the address and port that SparkRun gives, and the head's address on the
-- fabric, if there is one
pub record Rendezvous : Type 0 where
  pub master_addr : String
  pub master_port : String
  pub fabric : Option String

-- What a rank's environment has besides, with the rank as a text
abbrev pub ranked : String → Rendezvous → Dict String → Dict String
ranked rank r env =
    put_if "FABRIC_MASTER" (non_empty r.fabric)
      (put "MASTER_PORT" r.master_port (put "MASTER" r.master_addr (put "RANK" rank env)))

module _ (host : Host) where
  abbrev pub after_topology :
      Outcome Issue (Unit {0}) → Outcome LaunchError Command → Outcome LaunchError Command
  after_topology (ok _) made = made
  after_topology (raised issue) made = raised (bad_topology issue)

  -- `generate_node_command`
  unfoldable pub node_command :
      Recipe → Config → ℤ → ℤ → Rendezvous → List String → Outcome LaunchError Command
  node_command recipe overrides num_nodes node_rank r skip_keys =
      let config = recipe.build overrides in
      after_topology (require_launch_topology host recipe overrides num_nodes node_rank) (
        command_of host recipe config (ranked (text host (int node_rank)) r)
          (engine_env host recipe config skip_keys))

  -- `generate_command`; the rendezvous is the one of rank 0.
  unfoldable pub generate_command :
      Recipe → Config → Bool → ℤ → Rendezvous → List String → Outcome LaunchError Command
  generate_command recipe overrides is_cluster num_nodes r skip_keys =
      if not is_cluster
      then one_node_command host recipe overrides skip_keys
      else node_command recipe overrides num_nodes (pos 0) r skip_keys
