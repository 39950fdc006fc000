-- ===== src/Tensorfold/Environment.antt =====
-- The engine's environment: `_engine_env`, `_model_path` and `_drafter_path`.
use home_lab.Prelude.{
  after_start, String, Bool, true, false, ◌||◌, Option, none, some, List, [], ◌∷◌, str_eq,
  if◌then◌else◌,
}
use home_lab.Prelude.Dict.{Dict, put}
use home_lab.Program.{Outcome, ok, raised}
use home_lab.Json.{Json, str, truthy, is_empty}
use home_lab.Tensorfold.{Config, Recipe, Host, config_get}
use home_lab.Tensorfold.Topology.{Issue}
use home_lab.Tensorfold.Snapshot.{hf_snapshot_path, parse_hf_snapshot}

-- ValueError, with its message
pub data LaunchError : Type 0 where
  bad_topology : Issue → LaunchError
  no_model_path no_entrypoint : LaunchError

-- `text.startswith("/")`
abbrev pub is_absolute : String → Bool
is_absolute text = elim (after_start "/" text) [ none ↦ false | some _ ↦ true ]

abbrev pub is_some : {A : Type 0} → Option A → Bool
is_some none = false
is_some (some _) = true

abbrev pub or_text : Option String → String → String
or_text none text = text
or_text (some s) text = s

-- `env.pop(key, None)`
unfoldable pub remove : String → Dict String → Dict String
remove k [] = []
remove k ((j, v) ∷ d) = let rest = remove k d in if str_eq j k then rest else (j, v) ∷ rest

-- `if value: env[key] = value`, also where the value is a text
abbrev pub put_if : String → Option String → Dict String → Dict String
put_if key none env = env
put_if key (some value) env = put key value env

abbrev pub non_empty : Option String → Option String
non_empty none = none
non_empty (some s) = if is_empty s then none else some s

unfoldable pub put_all : List (String × Option String) → Dict String → Dict String
put_all [] env = env
put_all ((key, value) ∷ values) env = put_all values (put_if key value env)

-- `no_drafts` in lower case, `in {"1", "true", "yes", "on"}`
abbrev pub is_yes : String → Bool
is_yes s = str_eq s "1" || str_eq s "true" || str_eq s "yes" || str_eq s "on"

abbrev pub snapshot_or_error : String → String → Outcome LaunchError String
snapshot_or_error model revision =
    if is_empty model || is_empty revision
    then raised no_model_path
    else ok (hf_snapshot_path model revision)

abbrev pub with_revision : String → Option String → String
with_revision drafter none = drafter
with_revision drafter (some revision) = hf_snapshot_path drafter revision

module _ (host : Host) where
  -- `str(value)`
  abbrev pub text : Json → String
  text (str s) = s
  text v = host.text_of v

  abbrev pub text_of_value : Option Json → Option String
  text_of_value none = none
  text_of_value (some v) = some (text v)

  -- `str(_config_get(config, key))`; of None it is "None".
  abbrev pub config_text : Config → String → String
  config_text config key = or_text (text_of_value (config_get config key)) "None"

  abbrev pub config_text_or : Config → String → String → String
  config_text_or config key default = or_text (text_of_value (config_get config key)) default

  -- A value that is there, and true
  abbrev pub truthy_text : Option Json → Option String
  truthy_text none = none
  truthy_text (some v) = if truthy v then some (text v) else none

  -- `str(_config_get(config, "model_revision", default) or "")`
  abbrev pub revision_from : String → Option Json → String
  revision_from default none = default
  revision_from default (some v) = if truthy v then text v else ""

  abbrev pub model_path_from : Recipe → Config → Option String → Outcome LaunchError String
  model_path_from recipe config (some path) = ok path
  model_path_from recipe config none =
      if is_absolute recipe.model
      then ok recipe.model
      else snapshot_or_error recipe.model
          (revision_from recipe.model_revision (config_get config "model_revision"))

  -- `_model_path`
  unfoldable pub model_path : Recipe → Config → Outcome LaunchError String
  model_path recipe config =
      model_path_from recipe config (truthy_text (config_get config "model_path"))

  abbrev pub drafter_from : Config → Option String → Option String
  drafter_from config none = none
  drafter_from config (some drafter) = some (
      if is_absolute drafter || is_some (parse_hf_snapshot drafter)
      then drafter
      else with_revision drafter (truthy_text (config_get config "drafter_revision")))

  -- `_drafter_path`
  unfoldable pub drafter_path : Config → Option String
  drafter_path config = drafter_from config (text_of_value (config_get config "drafter"))

  abbrev pub yes_text : Option String → Option String
  yes_text none = none
  yes_text (some s) = if is_yes (host.lower s) then some "1" else none

  -- `skip_env.get(key, key.upper())`
  abbrev pub skipped_name : String → String
  skipped_name key =
      if str_eq key "served_model_name"
      then "SERVED_NAME"
      else if str_eq key "max_model_len" || str_eq key "context"
      then "CONTEXT"
      else if str_eq key "host"
      then "HOST"
      else if str_eq key "port"
      then "PORT"
      else if str_eq key "model_path"
      then "MODEL_PATH"
      else if str_eq key "drafter"
      then "DRAFTER"
      else if str_eq key "max_tokens"
      then "MAX_TOKENS"
      else if str_eq key "extra_args"
      then "EXTRA_ARGS"
      else host.upper key

  unfoldable pub without : List String → Dict String → Dict String
  without [] env = env
  without (key ∷ keys) env = without keys (remove (skipped_name key) env)

  -- The five names that are always set
  abbrev pub base_env : Config → String → Dict String
  base_env config path =
      ("MODEL_PATH", path)
      ∷ ("CONTEXT", config_text config "context")
      ∷ ("SERVED_NAME", config_text config "served_model_name")
      ∷ ("HOST", config_text_or config "host" "0.0.0.0")
      ∷ ("PORT", config_text_or config "port" "8888")
      ∷ []

  -- The others, in the order in which they are set, if they are
  abbrev pub optional_values : Config → List (String × Option String)
  optional_values config =
      ("DRAFTER", non_empty (drafter_path config))
      ∷ ("MAX_TOKENS", text_of_value (config_get config "max_tokens"))
      ∷ ("EXTRA_ARGS", truthy_text (config_get config "extra_args"))
      ∷ ("MTP_DRAFTS", text_of_value (config_get config "mtp_drafts"))
      ∷ ("NO_DRAFTS", yes_text (text_of_value (config_get config "no_drafts")))
      ∷ []

  abbrev pub full_env : Config → String → Dict String
  full_env config path = put_all (optional_values config) (base_env config path)

  abbrev pub env_from :
      Config → List String → Outcome LaunchError String → Outcome LaunchError (Dict String)
  env_from config skip_keys (raised e) = raised e
  env_from config skip_keys (ok path) = ok (without skip_keys (full_env config path))

  -- `_engine_env`
  unfoldable pub engine_env : Recipe → Config → List String → Outcome LaunchError (Dict String)
  engine_env recipe config skip_keys = env_from config skip_keys (model_path recipe config)
