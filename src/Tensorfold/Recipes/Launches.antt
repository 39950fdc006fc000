-- ===== src/Tensorfold/Recipes/Launches.antt =====
-- A recipe in which the plugin finds no problem can be launched.
use home_lab.Prelude.{
  ◌≡◌, ◌⊎◌, inl, inr, refl, ap, ◌∙◌, subst, String, false, Option, none, some, List, [], ◌∷◌, ◌++◌,
  map, arith,
}
use home_lab.Prelude.Int.{ℤ, pos}
use home_lab.Prelude.Dict.{Dict}
use home_lab.Program.{Outcome, ok, raised}
use home_lab.Json.{Json, int}
use home_lab.Tensorfold.{Recipe, Host, config_get}
use home_lab.Tensorfold.Topology.{
  Issue, topology_issues, launch_issues, first_raised, require_launch_topology,
}
use home_lab.Tensorfold.Topology.Accepts.{IsLaunch, int_eq_refl, launch_issues-empty}
use home_lab.Tensorfold.Environment.{
  LaunchError, model_path, env_from, engine_env, full_env, without, text,
}
use home_lab.Tensorfold.Commands.{
  Command, Rendezvous, ranked, env_command, env_command_with, command_of, after_issues,
  after_topology, one_node_command, node_command, generate_command,
}
use home_lab.Tensorfold.Recipes.{
  RecipeIssue, shape, no_overrides, default_problem, default_problems, path_problems,
  required_defaults, validate_recipe,
}

append-empty : {A : Type 0} (xs ys : List A) → xs ++ ys ≡ [] → (xs ≡ []) × (ys ≡ [])
append-empty [] ys e = (refl, e)
append-empty (x ∷ xs) ys e = ground (arith, e)

map-empty : (issues : List Issue) → map shape issues ≡ [] → issues ≡ []
map-empty [] e = refl
map-empty (i ∷ issues) e = ground (arith, e)

found_path :
    (r : Outcome LaunchError String) → path_problems r ≡ [] → (path : String) × (r ≡ ok path)
found_path (ok path) e = (path, refl)
found_path (raised x) e = ground (arith, e)

found_default :
    (key : String) (o : Option Json) → default_problem key o ≡ [] → (v : Json) × (o ≡ some v)
found_default key none e = ground (arith, e)
found_default key (some v) e = (v, refl)

module _ (host : Host) (recipe : Recipe) where
  -- The plugin makes a command for the call.
  abbrev pub Makes : Outcome LaunchError Command → Type 0
  Makes made = (c : Command) × (made ≡ ok c)

  -- What a recipe without problems has
  record Ready : Type 0 where
    binary : Json
    entrypoint : config_get (recipe.build no_overrides) "entrypoint" ≡ some binary
    path : String
    found : model_path host recipe (recipe.build no_overrides) ≡ ok path
    no_issues : topology_issues host recipe no_overrides ≡ []

  validate_recipe-Ready :
      (base : Recipe → List RecipeIssue) → validate_recipe host base recipe ≡ [] → Ready
  unfolding validate_recipe default_problems
  validate_recipe-Ready base e =
      let config = recipe.build no_overrides in
      let shapes = map shape (topology_issues host recipe no_overrides) in
      let defaults = default_problems config required_defaults in
      let paths = path_problems (model_path host recipe config) in
      let last = append-empty (base recipe ++ shapes ++ defaults) paths e in
      let middle = append-empty (base recipe ++ shapes) defaults last.0 in
      let first = append-empty (base recipe) shapes middle.0 in
      let entry = config_get config "entrypoint" in
      let rest = default_problems config ("served_model_name" ∷ "context" ∷ []) in
      let set =
        found_default "entrypoint" entry
          (append-empty (default_problem "entrypoint" entry) rest middle.1).0 in
      let path = found_path (model_path host recipe config) last.1 in
      record {
        binary = set.0;
        entrypoint = set.1;
        path = path.0;
        found = path.1;
        no_issues = map-empty (topology_issues host recipe no_overrides) first.1;
      }

  Makes-same : {a b : Outcome LaunchError Command} → a ≡ b → Makes b → Makes a
  Makes-same e (c, f) = (c, e ∙ f)

  Ready-Makes :
      Ready
      → (change : Dict String → Dict String) (skip_keys : List String)
      → Makes (
          command_of host recipe
            (recipe.build no_overrides)
            change
            (engine_env host recipe (recipe.build no_overrides) skip_keys))
  unfolding engine_env env_command
  Ready-Makes ready change skip_keys =
      let config = recipe.build no_overrides in
      let env = without host skip_keys (full_env host config ready.path) in
      Makes-same
        (ap (λ r. command_of host recipe config change (env_from host config skip_keys r))
            ready.found
          ∙ ap (env_command_with host recipe config (change env)) ready.entrypoint)
        (_, refl)

  -- The shape of the launch on the nodes that the recipe declares
  Ready-IsLaunch : Ready → IsLaunch host recipe no_overrides recipe.min_nodes
  unfolding launch_issues
  Ready-IsLaunch ready =
      (launch_issues-empty host recipe no_overrides recipe.min_nodes).0
        (ground (arith, ready.no_issues, int_eq_refl recipe.min_nodes))

  -- What the launch on these nodes makes, for one node or for two ranks
  abbrev pub Starts : Rendezvous → List String → Type 0
  Starts r skip_keys =
      ((recipe.min_nodes ≡ pos 1)
        × Makes (generate_command host recipe no_overrides false (pos 1) r skip_keys))
      ⊎ ((recipe.min_nodes ≡ pos 2)
          × Makes (node_command host recipe no_overrides (pos 2) (pos 0) r skip_keys)
          × Makes (node_command host recipe no_overrides (pos 2) (pos 1) r skip_keys))

  one_node-Makes :
      Ready
      → (r : Rendezvous) (skip_keys : List String)
      → launch_issues host recipe no_overrides (pos 1) ≡ []
      → Makes (generate_command host recipe no_overrides false (pos 1) r skip_keys)
  unfolding generate_command one_node_command
  one_node-Makes ready r skip_keys e =
      let made =
        command_of host recipe (recipe.build no_overrides) (λ env. env)
          (engine_env host recipe (recipe.build no_overrides) skip_keys) in
      Makes-same (ap (λ l. after_issues host l made) e) (Ready-Makes ready (λ env. env) skip_keys)

  rank-Makes :
      Ready
      → (rank : ℤ) (r : Rendezvous) (skip_keys : List String)
      → require_launch_topology host recipe no_overrides (pos 2) rank ≡ ok tt
      → Makes (node_command host recipe no_overrides (pos 2) rank r skip_keys)
  unfolding node_command
  rank-Makes ready rank r skip_keys e =
      let change = ranked (text host (int rank)) r in
      let made =
        command_of host recipe (recipe.build no_overrides) change
          (engine_env host recipe (recipe.build no_overrides) skip_keys) in
      Makes-same (ap (λ t. after_topology host t made) e) (Ready-Makes ready change skip_keys)

  passed_ranks :
      launch_issues host recipe no_overrides (pos 2) ≡ []
      → (require_launch_topology host recipe no_overrides (pos 2) (pos 0) ≡ ok tt)
        × (require_launch_topology host recipe no_overrides (pos 2) (pos 1) ≡ ok tt)
  unfolding require_launch_topology
  passed_ranks e = let passed = ap (first_raised host recipe no_overrides) e in (passed, passed)

  launch_issues-none :
      Ready
      → (nodes : ℤ) → recipe.min_nodes ≡ nodes
      → launch_issues host recipe no_overrides nodes ≡ []
  launch_issues-none ready nodes e =
      subst (λ n. launch_issues host recipe no_overrides n ≡ []) e
        ((launch_issues-empty host recipe no_overrides recipe.min_nodes).1 (Ready-IsLaunch ready))

  Ready-Starts : Ready → (r : Rendezvous) (skip_keys : List String) → Starts r skip_keys
  Ready-Starts ready r skip_keys = go (Ready-IsLaunch ready).0.1
    where
      go : (recipe.min_nodes ≡ pos 1) ⊎ (recipe.min_nodes ≡ pos 2) → Starts r skip_keys
      go (inl one) =
          inl (one, one_node-Makes ready r skip_keys (launch_issues-none ready (pos 1) one))
      go (inr two) =
          let passed = passed_ranks (launch_issues-none ready (pos 2) two) in
          inr (
            two,
            rank-Makes ready (pos 0) r skip_keys passed.0,
            rank-Makes ready (pos 1) r skip_keys passed.1,
          )

  -- If validate_recipe finds no problem in a recipe, then a launch without overrides on the nodes that
  -- the recipe declares gets its commands, whatever the rendezvous and the keys that are skipped: one
  -- command on one node, or one for each rank of two nodes.
  pub validate_recipe-Starts :
      (base : Recipe → List RecipeIssue)
      → validate_recipe host base recipe ≡ []
      → (r : Rendezvous) (skip_keys : List String) → Starts r skip_keys
  validate_recipe-Starts base e r skip_keys =
      Ready-Starts (validate_recipe-Ready base e) r skip_keys
