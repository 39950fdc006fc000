-- ===== src/Tensorfold/Commands/Alone.antt =====
-- The command of a launch on one node names no rendezvous.
use home_lab.Prelude.{
  ◌≡◌, refl, sym, ap, subst, ◌∙◌, String, Bool, true, false, Option, none, some, List, [], ◌∷◌,
  ◌++◌, str_eq, str_eq_iff, arith, All, if◌then◌else◌,
}
use home_lab.Prelude.Int.{pos}
use home_lab.Prelude.Dict.{Dict, contains, contains-append}
use home_lab.Json.{Json}
use home_lab.Program.{Outcome, ok, raised}
use home_lab.Tensorfold.{Config, Recipe, Host, config_get}
use home_lab.Tensorfold.Topology.{Issue, launch_issues}
use home_lab.Tensorfold.Topology.Accepts.{IsLaunch, launch_issues-empty}
use home_lab.Tensorfold.Environment.{
  LaunchError, optional_values, remove, skipped_name, without, full_env, base_env, model_path,
  env_from, engine_env,
}
use home_lab.Tensorfold.Commands.{
  Command, ordered, lookup, is_in, assigned, in_order, others, env_command_with, env_command,
  command_of, after_issues, one_node_command,
}
use home_lab.Tensorfold.Commands.Lookups.{contains-remove, contains-put_all, lookup-none}

module _ (host : Host) where
  contains-without :
      (k : String) (keys : List String) (d : Dict String)
      → contains k d ≡ false
      → contains k (without host keys d) ≡ false
  unfolding without
  contains-without k [] d e = e
  contains-without k (key ∷ keys) d e =
      contains-without k keys (remove (skipped_name host key) d)
        (contains-remove k (skipped_name host key) d e)

  contains-in_order :
      (k : String) (keys : List String) (d : Dict String)
      → contains k d ≡ false
      → contains k (in_order host keys d) ≡ false
  unfolding in_order
  contains-in_order k [] d e = refl
  contains-in_order k (key ∷ keys) d e = go (lookup key d) refl (contains-in_order k keys d e)
    where
      go :
          (o : Option String)
          → lookup key d ≡ o
          → contains k (in_order host keys d) ≡ false
          → contains k (assigned host key o (in_order host keys d)) ≡ false
      go none x rest = rest
      go (some v) x rest =
          ground (arith, x, rest, e, str_eq_iff key k, lookup-none k d, lookup-none key d)

  contains-others :
      (k : String) (d : Dict String) → contains k d ≡ false → contains k (others host d) ≡ false
  unfolding others
  contains-others k [] e = refl
  contains-others k ((j, v) ∷ d) e = go (is_in j ordered) (contains-others k d (ground (arith, e)))
    where
      go :
          (b : Bool)
          → contains k (others host d) ≡ false
          → contains k (if b then others host d else (j, host.quote v) ∷ others host d) ≡ false
      go true rest = rest
      go false rest = ground (arith, rest, e)

  -- What is not in an environment is not assigned.
  env_command-contains :
      (recipe : Recipe) (config : Config) (env : Dict String) (k : String) (c : Command)
      → contains k env ≡ false
      → env_command host recipe config env ≡ ok c
      → contains k c.assignments ≡ false
  unfolding env_command
  env_command-contains recipe config env k c e r = go (config_get config "entrypoint") r
    where
      go :
          (o : Option Json)
          → env_command_with host recipe config env o ≡ ok c
          → contains k c.assignments ≡ false
      go none q = ground (arith, q)
      go (some binary) q =
          let all : in_order host ordered env ++ others host env ≡ c.assignments =
            ground (arith, q) in
          ap (contains k) (sym all)
          ∙ contains-append k (in_order host ordered env) (others host env)
          ∙ ground (arith, contains-in_order k ordered env e, contains-others k env e)

-- The names that an engine's environment can have
abbrev engine_names : List String
engine_names =
    "MODEL_PATH" ∷ "CONTEXT" ∷ "SERVED_NAME" ∷ "HOST" ∷ "PORT" ∷ "DRAFTER" ∷ "MAX_TOKENS"
    ∷ "EXTRA_ARGS" ∷ "MTP_DRAFTS" ∷ "NO_DRAFTS" ∷ []

abbrev IsApart : String → Type 0
IsApart k = All (λ key. str_eq key k ≡ false) engine_names

-- No name of a rendezvous stands there.
abbrev pub NoRendezvous : Dict String → Type 0
NoRendezvous d =
    All (λ k. contains k d ≡ false) ("RANK" ∷ "MASTER" ∷ "MASTER_PORT" ∷ "FABRIC_MASTER" ∷ [])

module _ (host : Host) where
  contains-base_env :
      (k : String) (config : Config) (path : String)
      → IsApart k
      → contains k (base_env host config path) ≡ false
  contains-base_env k config path a = ground (arith, a.0, a.1.0, a.1.1.0, a.1.1.1.0, a.1.1.1.1.0)

  contains-full_env :
      (k : String) (config : Config) (path : String)
      → IsApart k
      → contains k (full_env host config path) ≡ false
  contains-full_env k config path a =
      let b = a.1.1.1.1.1 in
      contains-put_all k (optional_values host config) (base_env host config path) b
        (contains-base_env k config path a)

  engine_env-contains :
      (recipe : Recipe) (config : Config) (skip_keys : List String) (k : String) (env : Dict String)
      → IsApart k
      → engine_env host recipe config skip_keys ≡ ok env
      → contains k env ≡ false
  unfolding engine_env
  engine_env-contains recipe config skip_keys k env a r = go (model_path host recipe config) r
    where
      go :
          (o : Outcome LaunchError String)
          → env_from host config skip_keys o ≡ ok env
          → contains k env ≡ false
      go (raised x) q = ground (arith, q)
      go (ok path) q =
          let env_is : without host skip_keys (full_env host config path) ≡ env =
            ground (arith, q) in
          subst (λ d. contains k d ≡ false) env_is
            (contains-without host k skip_keys (full_env host config path)
              (contains-full_env k config path a))

  one_node-contains :
      (recipe : Recipe) (config : Config) (skip_keys : List String) (k : String) (c : Command)
      → IsApart k
      → command_of host recipe config (λ env. env) (engine_env host recipe config skip_keys) ≡ ok c
      → contains k c.assignments ≡ false
  one_node-contains recipe config skip_keys k c a r =
      go (engine_env host recipe config skip_keys) refl r
    where
      go :
          (o : Outcome LaunchError (Dict String))
          → engine_env host recipe config skip_keys ≡ o
          → command_of host recipe config (λ env. env) o ≡ ok c
          → contains k c.assignments ≡ false
      go (raised x) e q = ground (arith, q)
      go (ok env) e q =
          env_command-contains host recipe config env k c
            (engine_env-contains recipe config skip_keys k env a e) q

  -- If `_one_node_command` makes a command, the recipe is one for a launch on one node, and the command
  -- assigns no name of a rendezvous: RANK, MASTER, MASTER_PORT or FABRIC_MASTER.
  pub one_node_command-NoRendezvous :
      (recipe : Recipe) (overrides : Config) (skip_keys : List String) (c : Command)
      → one_node_command host recipe overrides skip_keys ≡ ok c
      → IsLaunch host recipe overrides (pos 1) × NoRendezvous c.assignments
  unfolding one_node_command
  one_node_command-NoRendezvous recipe overrides skip_keys c r =
      go (launch_issues host recipe overrides (pos 1)) refl r
    where
      go :
          (issues : List Issue)
          → launch_issues host recipe overrides (pos 1) ≡ issues
          → after_issues host issues (
              command_of host recipe
                (recipe.build overrides)
                (λ env. env)
                (engine_env host recipe (recipe.build overrides) skip_keys))
            ≡ ok c
          → IsLaunch host recipe overrides (pos 1) × NoRendezvous c.assignments
      go (x ∷ issues) e q = ground (arith, q)
      go [] e q =
          let free = λ (k : String) (a : IsApart k).
            one_node-contains recipe (recipe.build overrides) skip_keys k c a q in
          (
            (launch_issues-empty host recipe overrides (pos 1)).0 e,
            (
              free "RANK" (
                refl,
                (refl, (refl, (refl, (refl, (refl, (refl, (refl, (refl, (refl, tt))))))))),
              ),
              (
                free "MASTER" (
                  refl,
                  (refl, (refl, (refl, (refl, (refl, (refl, (refl, (refl, (refl, tt))))))))),
                ),
                (
                  free "MASTER_PORT" (
                    refl,
                    (refl, (refl, (refl, (refl, (refl, (refl, (refl, (refl, (refl, tt))))))))),
                  ),
                  (
                    free "FABRIC_MASTER" (
                      refl,
                      (refl, (refl, (refl, (refl, (refl, (refl, (refl, (refl, (refl, tt))))))))),
                    ),
                    tt,
                  ),
                ),
              ),
            ),
          )
