-- ===== src/Tensorfold/Tests.antt =====
-- The plugin at concrete inputs.
use home_lab.Prelude.{◌≡◌, ◌⊎◌, ◌↔◌, refl, some, none, String, [], ◌∷◌, str_eq, if◌then◌else◌}
use home_lab.Prelude.Int.{ℤ, pos}
use home_lab.Prelude.Dict.{Dict, put}
use home_lab.Json.{null, str}
use home_lab.Tensorfold.{Config, Recipe, Host}
use home_lab.Tensorfold.Topology.{
  issues_of, topology_issues, launch_issues, require_launch_topology,
}
use home_lab.Tensorfold.Topology.Accepts.{IsLaunch, launch_issues-empty}
use home_lab.Tensorfold.Environment.{model_path, drafter_path, put_all, remove, without, engine_env}
use home_lab.Tensorfold.Commands.{
  Command, in_order, others, env_command, one_node_command, Rendezvous, node_command,
}
use home_lab.Tensorfold.Commands.Ranked.{NamesRank, node_command-NamesRank}
use home_lab.Tensorfold.Commands.Alone.{NoRendezvous, one_node_command-NoRendezvous}
use home_lab.Tensorfold.Recipes.{default_problems, drafter_repo, prepare, validate_recipe}
use home_lab.Tensorfold.Recipes.Launches.{Starts, validate_recipe-Starts}
use home_lab.Tensorfold.Snapshot.{
  cut, dashed, slashed, forward_slashes, hf_snapshot_path, parse_hf_snapshot,
}

snapshot_path :
    hf_snapshot_path "org/model" "abc" ≡ "/cache/huggingface/hub/models--org--model/snapshots/abc"
unfolding hf_snapshot_path dashed
snapshot_path = refl

snapshot_back :
    parse_hf_snapshot "/cache/huggingface/hub/models--org--model/snapshots/abc"
    ≡ some ("org/model", "abc")
unfolding parse_hf_snapshot cut slashed forward_slashes
snapshot_back = refl

abbrev on_ranks : ℤ → Host
on_ranks ranks = record {
  extract = λ _. record {
    tensor_parallel = ranks;
    pipeline_parallel = pos 1;
    data_parallel = pos 1;
    expert_parallel = pos 1;
    context_parallel = pos 1;
  };
  text_of = λ _. "1";
  lower = λ s. s;
  upper = λ s. s;
  quote = λ s. s;
}

abbrev toy_config : Config
toy_config key =
    if str_eq key "entrypoint"
    then str "serve"
    else if str_eq key "served_model_name"
    then str "toy"
    else if str_eq key "context"
    then str "4096"
    else null

abbrev recipe_for : ℤ → Recipe
recipe_for nodes = record {
  min_nodes = nodes;
  max_nodes = some nodes;
  model = "org/model";
  model_revision = "abc";
  build = λ overrides. overrides;
  render = λ _. none;
}

abbrev toy_rendezvous : Rendezvous
toy_rendezvous = record { master_addr = "10.0.0.1"; master_port = "25000"; fabric = none }

abbrev toy_engine : Dict String
toy_engine =
    ("MODEL_PATH", "/cache/huggingface/hub/models--org--model/snapshots/abc")
    ∷ ("CONTEXT", "4096")
    ∷ ("SERVED_NAME", "toy")
    ∷ ("PORT", "8888")
    ∷ []

-- The key "host" is left out.
abbrev one_node : Command
one_node = record { assignments = toy_engine; command = "serve" }

abbrev rank_one : Command
rank_one = record {
  assignments = ("RANK", "1") ∷ ("MASTER", "10.0.0.1") ∷ ("MASTER_PORT", "25000") ∷ toy_engine;
  command = "serve";
}

launch_issues-empty_example :
    (launch_issues (on_ranks (pos 2)) (recipe_for (pos 2)) toy_config (pos 2) ≡ [])
    ↔ IsLaunch (on_ranks (pos 2)) (recipe_for (pos 2)) toy_config (pos 2)
launch_issues-empty_example =
    launch_issues-empty (on_ranks (pos 2)) (recipe_for (pos 2)) toy_config (pos 2)

one_node_command-NoRendezvous_example :
    IsLaunch (on_ranks (pos 1)) (recipe_for (pos 1)) toy_config (pos 1)
    × NoRendezvous one_node.assignments
unfolding one_node_command env_command in_order others engine_env model_path drafter_path put_all
    without remove launch_issues topology_issues issues_of hf_snapshot_path dashed
one_node_command-NoRendezvous_example =
    one_node_command-NoRendezvous (on_ranks (pos 1)) (recipe_for (pos 1)) toy_config ("host" ∷ [])
      one_node refl

node_command-NamesRank_example :
    (pos 2 ≡ pos 2)
    × ((pos 1 ≡ pos 0) ⊎ (pos 1 ≡ pos 1))
    × IsLaunch (on_ranks (pos 2)) (recipe_for (pos 2)) toy_config (pos 2)
    × NamesRank (on_ranks (pos 2)) "1" toy_rendezvous rank_one.assignments
unfolding node_command require_launch_topology env_command in_order others engine_env model_path
    drafter_path put_all put without remove launch_issues topology_issues issues_of hf_snapshot_path
    dashed
node_command-NamesRank_example =
    node_command-NamesRank (on_ranks (pos 2)) (recipe_for (pos 2)) toy_config (pos 2) (pos 1)
      toy_rendezvous ("host" ∷ []) rank_one refl

abbrev set_recipe : ℤ → Recipe
set_recipe nodes = record {
  min_nodes = nodes;
  max_nodes = none;
  model = "org/model";
  model_revision = "abc";
  build = λ _. toy_config;
  render = λ _. none;
}

-- A drafter by name is distributed after the model.
abbrev with_drafter : Config → Config
with_drafter config key = if str_eq key "drafter" then str "org/drafter" else config key

prepares_drafter :
    prepare
      (on_ranks (pos 1))
      (recipe_for (pos 1))
      (with_drafter toy_config)
      (("org/model", none) ∷ [])
    ≡ ("org/model", none) ∷ ("org/drafter", none) ∷ []
unfolding prepare drafter_repo parse_hf_snapshot cut forward_slashes
prepares_drafter = refl

validate_recipe-Starts_example :
    Starts (on_ranks (pos 2)) (set_recipe (pos 2)) toy_rendezvous ("host" ∷ [])
unfolding validate_recipe topology_issues issues_of default_problems model_path hf_snapshot_path
    dashed
validate_recipe-Starts_example =
    validate_recipe-Starts (on_ranks (pos 2)) (set_recipe (pos 2)) (λ _. []) refl toy_rendezvous
      ("host" ∷ [])
