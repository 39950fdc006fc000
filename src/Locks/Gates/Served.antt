-- ===== src/Locks/Gates/Served.antt =====
-- validate_locks.py: the environment and the readiness hook of a recipe.
use home_lab.Prelude.{◌≡◌, ap, String, true, ◌&&◌, some, List, [], ◌∷◌, arith}
use home_lab.Program.{◌>>=◌, pure}
use home_lab.Json.{Json, str, obj, Fields, end, field, as_list, get}
use home_lab.Locks.Checks.{Check, Python, require, run_all}
use home_lab.Locks.Checks.Passes.{Passes, Gives, Gives-bind, Passes-require, Passes-run_all}
use home_lab.Locks.Lock.Shapes.{EachField}
use home_lab.Locks.Recipe.{only_one, some_list, dict_in, equal, is_text_field, check_header}
use home_lab.Locks.Gates.{
  get_or, items_in, gates_in, split_hooks, same_env, check_env, gate_checks, check_gate,
}
use home_lab.Locks.Gates.Flags.{HasFlag, check_flag-HasFlag}

pub only_one-list :
    {A : Type 0} (xs : List A) (place : String) (a : A) → Gives (only_one xs place) a → xs ≡ a ∷ []
only_one-list [] place a p = ground (arith, p)
only_one-list (b ∷ []) place a p = ap (λ c. c ∷ []) (ground (arith, p))
only_one-list (b ∷ c ∷ bs) place a p = ground (arith, p)

pub some_list-list :
    (v : Json) (place : String) (vs : List Json)
    → Gives (some_list v place) vs
    → as_list v ≡ some vs
some_list-list v place vs p = ground (arith, p)

pub dict_in-obj : (v : Json) (place : String) (d : Fields) → Gives (dict_in v place) d → v ≡ obj d
dict_in-obj (obj e) place d p = ground (arith, p)
dict_in-obj _ place d p = ground (arith, p)

pub check_header-obj :
    (python : Python) (v : Json) (recipe : Fields)
    → Gives (check_header python v) recipe
    → v ≡ obj recipe
check_header-obj python (obj d) recipe p =
    let ready =
      is_text_field python d "runtime" "tensorfold"
      && is_text_field python d "recipe_version" "2" in
    let both = Gives-bind (require ready "recipe") (λ _. pure d) recipe p in
    ap obj (ground (arith, both.second))
check_header-obj python _ recipe p = ground (arith, p)

module _ (python : Python) where
  -- The environment of the recipe holds every variable of the lock's launcher_env.
  abbrev pub HasEnv : Fields → Fields → Type 0
  HasEnv recipe lock =
      (env : Fields) × (launcher : Fields) × (get_or recipe "env" (obj end) ≡ obj env)
      × (get_or lock "launcher_env" (obj end) ≡ obj launcher)
      × EachField (λ name value. python.equal (get env name) value ≡ true) launcher

  same_env-EachField :
      (env launcher : Fields)
      → Passes (same_env python env launcher)
      → EachField (λ name value. python.equal (get env name) value ≡ true) launcher
  unfolding same_env
  same_env-EachField env end p = tt
  same_env-EachField env (field name value launcher) p =
      let both =
        Gives-bind (equal python (get env name) value "launcher_env")
          (λ _. same_env python env launcher) tt p in
      (
        Passes-require (python.equal (get env name) value) "launcher_env" both.first,
        same_env-EachField env launcher both.second,
      )

  pub check_env-HasEnv :
      (recipe lock : Fields) → Passes (check_env python recipe lock) → HasEnv recipe lock
  unfolding check_env
  check_env-HasEnv recipe lock p =
      let given = get_or recipe "env" (obj end) in
      let launched = get_or lock "launcher_env" (obj end) in
      let compared : Fields → Check (Unit {0}) = λ env. items_in launched >>= same_env python env in
      let env = Gives-bind (dict_in given "env") compared tt p in
      let launcher = Gives-bind (items_in launched) (same_env python env.value) tt env.second in
      (
        env.value,
        launcher.value,
        dict_in-obj given "env" env.value env.first,
        items launched launcher.value launcher.first,
        same_env-EachField env.value launcher.value launcher.second,
      )
    where
      items : (v : Json) (d : Fields) → Gives (items_in v) d → v ≡ obj d
      items (obj e) d q = ground (arith, q)
      items _ d q = ground (arith, q)

  -- The readiness hook names the context and the model that are served.
  abbrev pub HasGate : Fields → Fields → Type 0
  HasGate recipe defaults =
      (hooks : List Json) × (argvs : List (List String)) × (argv : List String) × (as_list
          (get recipe "post_exec")
        ≡ some hooks)
      × Gives (split_hooks python hooks) argvs
      × (gates_in argvs ≡ argv ∷ [])
      × HasFlag python argv "--context" (str (python.text_of (get defaults "context")))
      × HasFlag python argv "--model" (get defaults "served_model_name")

  pub check_gate-HasGate :
      (recipe : Fields) (name : String) (metadata defaults : Fields)
      → Passes (check_gate python recipe name metadata defaults)
      → HasGate recipe defaults
  unfolding check_gate
  check_gate-HasGate recipe name metadata defaults p =
      let place : String = "post_exec" in
      let last : List String → Check (Unit {0}) =
        λ argv. run_all (gate_checks python argv name metadata defaults) in
      let one : List (List String) → Check (Unit {0}) =
        λ argvs. only_one (gates_in argvs) place >>= last in
      let split : List Json → Check (Unit {0}) = λ hooks. split_hooks python hooks >>= one in
      let hooks = Gives-bind (some_list (get recipe "post_exec") place) split tt p in
      let argvs = Gives-bind (split_hooks python hooks.value) one tt hooks.second in
      let argv = Gives-bind (only_one (gates_in argvs.value) place) last tt argvs.second in
      let checks =
        Passes-run_all (gate_checks python argv.value name metadata defaults) argv.second in
      (
        hooks.value,
        argvs.value,
        argv.value,
        some_list-list (get recipe "post_exec") place hooks.value hooks.first,
        argvs.first,
        only_one-list (gates_in argvs.value) place argv.value argv.first,
        check_flag-HasFlag python argv.value "--context"
            (str (python.text_of (get defaults "context"))) checks.1.1.0,
        check_flag-HasFlag python argv.value "--model" (get defaults "served_model_name")
            checks.1.1.1.0,
      )
