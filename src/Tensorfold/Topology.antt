-- ===== src/Tensorfold/Topology.antt =====
-- The plugin's checks of a launch: `_launch_issues`, `_topology_issues`, `_parallelism_issues` and
-- `_require_launch_topology`.
pub mod Accepts
use home_lab.Prelude.{
  String, Bool, true, false, not, ◌&&◌, ◌||◌, Option, none, some, List, [], ◌∷◌, ◌++◌,
  if◌then◌else◌,
}
use home_lab.Prelude.Int.{ℤ, pos, negsuc, int_eq}
use home_lab.Program.{Outcome, ok, raised}
use home_lab.Tensorfold.{Config, Parallelism, Recipe, Host}

-- What a message of `_topology_message` is about
pub data Issue : Type 0 where
  other_launch : ℤ → ℤ → Issue
  unknown_nodes : ℤ → Issue
  node_range : ℤ → Option ℤ → Issue
  other_tensor : ℤ → ℤ → Issue
  other_pipeline other_data other_expert other_context : ℤ → Issue
  not_two_nodes other_rank : ℤ → Issue

-- TOPOLOGIES
abbrev pub topologies : ℤ → Option ℤ
topologies nodes =
    if int_eq nodes (pos 1)
    then some (pos 1)
    else if int_eq nodes (pos 2)
    then some (pos 2)
    else none

-- REQUIRED_PP
abbrev pub required_pp : ℤ
required_pp = pos 1

-- `if is_bad: issues.append(issue)`, one after the other
unfoldable pub issues_of : List (Bool × Issue) → List Issue
issues_of [] = []
issues_of ((is_bad, issue) ∷ checks) =
    let rest = issues_of checks in if is_bad then issue ∷ rest else rest

-- `_parallelism_issues`; `tensor` is TOPOLOGIES[nodes].
abbrev pub parallelism_checks : Parallelism → ℤ → ℤ → List (Bool × Issue)
parallelism_checks p nodes tensor =
    (not (int_eq p.tensor_parallel tensor), other_tensor nodes p.tensor_parallel)
    ∷ (not (int_eq p.pipeline_parallel required_pp), other_pipeline p.pipeline_parallel)
    ∷ (not (int_eq p.data_parallel (pos 1)), other_data p.data_parallel)
    ∷ (not (int_eq p.expert_parallel (pos 1)), other_expert p.expert_parallel)
    ∷ (not (int_eq p.context_parallel (pos 1)), other_context p.context_parallel)
    ∷ []

-- `max_nodes is not None and max_nodes != min_nodes`
abbrev pub is_range : ℤ → Option ℤ → Bool
is_range min_nodes none = false
is_range min_nodes (some max_nodes) = not (int_eq max_nodes min_nodes)

module _ (host : Host) (recipe : Recipe) (overrides : Config) where
  abbrev pub known_issues : Option ℤ → List Issue
  known_issues none = unknown_nodes recipe.min_nodes ∷ []
  known_issues (some tensor) = issues_of (
      (is_range recipe.min_nodes recipe.max_nodes, node_range recipe.min_nodes recipe.max_nodes)
      ∷ parallelism_checks (host.extract (recipe.build overrides)) recipe.min_nodes tensor)

  -- `_topology_issues`
  unfoldable pub topology_issues : List Issue
  topology_issues = known_issues (topologies recipe.min_nodes)

  -- `_launch_issues`
  unfoldable pub launch_issues : ℤ → List Issue
  launch_issues nodes =
      if int_eq recipe.min_nodes nodes
      then topology_issues
      else other_launch nodes recipe.min_nodes ∷ []

  -- `raise ValueError(issues[0].message)`
  abbrev pub first_raised : List Issue → Outcome Issue (Unit {0})
  first_raised [] = ok tt
  first_raised (issue ∷ _) = raised issue

  -- `_require_launch_topology`
  unfoldable pub require_launch_topology : ℤ → ℤ → Outcome Issue (Unit {0})
  require_launch_topology num_nodes node_rank =
      if not (int_eq num_nodes (pos 2))
      then raised (not_two_nodes num_nodes)
      else if not (int_eq node_rank (pos 0) || int_eq node_rank (pos 1))
      then raised (other_rank node_rank)
      else first_raised (launch_issues (pos 2))
