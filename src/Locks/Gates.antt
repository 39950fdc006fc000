-- ===== src/Locks/Gates.antt =====
-- validate_locks.py: `validate_recipe`, its environment and readiness hook, and the whole of it.
pub mod Served
pub mod Agreement
pub mod Flags
use home_lab.Prelude.{
  ℕ, zero, suc, String, Bool, true, false, not, ◌&&◌, ◌||◌, Option, none, some, List, [], ◌∷◌, ◌==◌,
  length, str_eq, if◌then◌else◌,
}
use home_lab.Prelude.Dict.{Dict}
use home_lab.Program.{pure, raise, ◌>>=◌, ◌>>◌}
use home_lab.Json.{Json, str, arr, obj, Fields, end, field, get, has}
use home_lab.Locks.Checks.{
  invalid, attribute_error, Check, Python, require, run_all, at, is_in, text, positive,
}
use home_lab.Locks.Lock.{with_at}
use home_lab.Locks.Documents.{some_or}
use home_lab.Locks.Engines.{fields_of}
use home_lab.Locks.Recipe.{
  Locked, RecipePath, only_one, some_list, dict_in, owners_of, readiness_of, equal, check_header,
  agreement_checks, check_sources,
}

-- `d.get(k, default)`
abbrev pub get_or : Fields → String → Json → Json
get_or d k v = if has d k then get d k else v

-- `v.items()`, of a field that may be missing
abbrev pub items_in : Json → Check Fields
items_in (obj d) = pure d
items_in _ = raise attribute_error

abbrev pub is_gate : List String → Bool
is_gate (program ∷ script ∷ _) =
    str_eq program "python3" && str_eq script "/opt/tensorfold-readiness/readiness.py"
is_gate _ = false

-- `argv.count(flag)`
abbrev pub count : String → List String → ℕ
count flag [] = zero
count flag (word ∷ argv) = let rest = count flag argv in if str_eq word flag then suc rest else rest

-- `argv[argv.index(flag) + 1]`, where it exists
unfoldable pub value_after : String → List String → Option String
value_after flag [] = none
value_after flag (word ∷ []) = none
value_after flag (word ∷ value ∷ argv) =
    let rest = value_after flag (value ∷ argv) in if str_eq word flag then some value else rest

abbrev pub gates_in : List (List String) → List (List String)
gates_in [] = []
gates_in (argv ∷ argvs) = let rest = gates_in argvs in if is_gate argv then argv ∷ rest else rest

abbrev pub value_or : Option String → Check String
value_or none = raise (invalid "post_exec")
value_or (some value) = pure value

abbrev pub spill_flag : List String → Bool
spill_flag argv = is_in "--require-spill" argv

abbrev pub is_v2 : String → Bool
is_v2 name = str_eq name "tensorfold-readiness-v2"

module _ (python : Python) where
  -- `shlex.split(hook)`, of the hooks that are texts
  unfoldable pub split_hooks : List Json → Check (List (List String))
  split_hooks [] = pure []
  split_hooks (str hook ∷ hooks) = do
    argv ← some_or (python.shlex_split hook)
    argvs ← split_hooks hooks
    pure (argv ∷ argvs)
  split_hooks (_ ∷ hooks) = split_hooks hooks

  -- `equal(env.get(name), value, ...)`, of every item
  unfoldable pub same_env : Fields → Fields → Check (Unit {0})
  same_env env end = pure tt
  same_env env (field name value launcher) =
      equal python (get env name) value "launcher_env" >> same_env env launcher

  -- The environment holds what the lock's launcher_env holds.
  unfoldable pub check_env : Fields → Fields → Check (Unit {0})
  check_env recipe lock = do
    env ← dict_in (get_or recipe "env" (obj end)) "env"
    launcher ← items_in (get_or lock "launcher_env" (obj end))
    same_env env launcher

  abbrev pub default_checks : Fields → List (Check (Unit {0}))
  default_checks defaults =
      equal python (get defaults "entrypoint") (str "/usr/local/bin/tensorfold-entrypoint")
        "defaults"
      ∷ positive (get defaults "context") "defaults.context"
      ∷ text python (get defaults "served_model_name") "defaults.served_model_name"
      ∷ []

  -- A flag stands once, with this value.
  unfoldable pub check_flag : List String → String → Json → Check (Unit {0})
  check_flag argv flag value = do
    require (count flag argv == 1) "post_exec"
    found ← value_or (value_after flag argv)
    equal python (str found) value "post_exec"

  abbrev pub is_durable : Fields → Bool
  is_durable metadata = python.equal (get metadata "serving_profile") (str "durable")

  abbrev pub gate_checks : List String → String → Fields → Fields → List (Check (Unit {0}))
  gate_checks argv readiness_name metadata defaults =
      require (not (spill_flag argv) || is_v2 readiness_name) "post_exec"
      ∷ require (not (is_v2 readiness_name && is_durable metadata) || spill_flag argv) "post_exec"
      ∷ check_flag argv "--context" (str (python.text_of (get defaults "context")))
      ∷ check_flag argv "--model" (get defaults "served_model_name")
      ∷ []

  -- From post_exec to the end
  unfoldable pub check_gate : Fields → String → Fields → Fields → Check (Unit {0})
  check_gate recipe readiness_name metadata defaults = do
    hooks ← some_list (get recipe "post_exec") "post_exec"
    argvs ← split_hooks hooks
    argv ← only_one (gates_in argvs) "post_exec"
    run_all (gate_checks argv readiness_name metadata defaults)

  unfoldable pub check_owned :
      String → Locked → String → Fields → Fields → Fields → Check (Unit {0})
  check_owned stem locked readiness_name recipe metadata defaults = do
    run_all (agreement_checks python stem locked recipe metadata)
    check_sources python locked recipe metadata defaults
    check_env recipe locked.0
    run_all (default_checks defaults)
    check_gate recipe readiness_name metadata defaults

  -- From the metadata to the end
  unfoldable pub check_parts : String → Locked → String → Fields → Check (Unit {0})
  check_parts stem locked readiness_name recipe = do
    metadata ← dict_in (get recipe "metadata") "recipe"
    defaults ← dict_in (get recipe "defaults") "recipe"
    check_owned stem locked readiness_name recipe metadata defaults

  -- From the owners to the end
  unfoldable pub check_mods : RecipePath → Dict Locked → Fields → List Json → Check (Unit {0})
  check_mods path locks recipe mods = do
    owners ← owners_of path locks python mods
    owner ← only_one owners "mods"
    readiness_name ← only_one (readiness_of path mods) "mods"
    check_parts path.stem owner readiness_name recipe

  -- `validate_recipe`; the mods of the recipe
  unfoldable pub validate_recipe : Json → RecipePath → Dict Locked → Check (List Json)
  validate_recipe v path locks = do
    recipe ← check_header python v
    mods ← some_list (get recipe "mods") "mods"
    check_mods path locks recipe mods
    pure mods
