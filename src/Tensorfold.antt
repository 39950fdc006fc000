-- ===== src/Tensorfold.antt =====
-- sparks/inference/sparkrun/plugins/tensorfold/__init__.py, the launch of a TensorFold engine: what it
-- is given by SparkRun, and the configuration.
pub mod Topology
pub mod Snapshot
pub mod Environment
pub mod Commands
pub mod Recipes
mod Tests
use home_lab.Prelude.{ℕ, String, Bool, true, false, Option, none, some, List, if◌then◌else◌}
use home_lab.Prelude.Int.{ℤ}
use home_lab.Json.{Json, null, bool, int, real, str, arr, obj, is_empty}

-- A configuration chain, by key; JSON's null is None.
abbrev pub Config : Type 0
Config = String → Json

-- What `extract_parallelism` reads of a configuration
pub record Parallelism : Type 0 where
  pub tensor_parallel : ℤ
  pub pipeline_parallel : ℤ
  pub data_parallel : ℤ
  pub expert_parallel : ℤ
  pub context_parallel : ℤ

-- A recipe; `build` is `build_config_chain` with the launch's overrides, and `render` the command that
-- `render_command` makes, stripped, or none.
pub record Recipe : Type 0 where
  pub min_nodes : ℤ
  pub max_nodes : Option ℤ
  pub model : String
  pub model_revision : String
  pub build : Config → Config
  pub render : Config → Option String

-- SparkRun's and Python's functions: `extract_parallelism`, `str` of a value that is no text, `lower`
-- and `upper`, `shlex.quote`, and the two ends of a snapshot path, `hf_snapshot_path` and whether
-- `parse_hf_snapshot` finds one.
pub record Host : Type 0 where
  pub extract : Config → Parallelism
  pub text_of : Json → String
  pub lower : String → String
  pub upper : String → String
  pub quote : String → String

-- `_config_get(config, key)`, none for None and for the empty text
abbrev pub config_get : Config → String → Option Json
config_get config key = elim (config key) [
  | null ↦ none
  | bool b ↦ some (bool b)
  | int n ↦ some (int n)
  | real z t ↦ some (real z t)
  | str s ↦ if is_empty s then none else some (str s)
  | arr vs ↦ some (arr vs)
  | obj fs ↦ some (obj fs)
]
