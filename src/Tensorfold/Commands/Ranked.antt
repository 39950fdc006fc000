-- ===== src/Tensorfold/Commands/Ranked.antt =====
-- The commands of a launch: which of them name a rank and a rendezvous.
use home_lab.Prelude.{
  ◌≡◌, ◌⊎◌, refl, sym, ap, ◌∙◌, String, Option, none, some, List, ◌∷◌, ◌++◌, arith, drop,
}
use home_lab.Prelude.Int.{ℤ, pos}
use home_lab.Prelude.Dict.{Dict, put}
use home_lab.Json.{Json, int}
use home_lab.Program.{Outcome, ok, raised}
use home_lab.Tensorfold.{Config, Recipe, Host, config_get}
use home_lab.Tensorfold.Topology.{Issue, require_launch_topology}
use home_lab.Tensorfold.Topology.Accepts.{IsLaunch, require_launch_topology-Accepts}
use home_lab.Tensorfold.Environment.{text, LaunchError, non_empty, engine_env}
use home_lab.Tensorfold.Commands.{
  Command, ordered, lookup, assigned, in_order, others, env_command_with, env_command, command_of,
  Rendezvous, ranked, after_topology, node_command,
}
use home_lab.Tensorfold.Commands.Lookups.{lookup-put, lookup-put_other, lookup-put_if}

module _ (host : Host) where
  -- The rank and the rendezvous come first.
  abbrev pub NamesRank : String → Rendezvous → Dict String → Type 0
  NamesRank rank r d =
      (rest : Dict String) × (d
        ≡ ("RANK", host.quote rank)
          ∷ ("MASTER", host.quote r.master_addr)
          ∷ ("MASTER_PORT", host.quote r.master_port)
          ∷ rest)

  in_order-NamesRank :
      (rank : String) (r : Rendezvous) (env : Dict String) (keys : List String)
      → NamesRank rank r
          (in_order host ("RANK" ∷ "MASTER" ∷ "MASTER_PORT" ∷ keys) (ranked rank r env))
  unfolding in_order
  in_order-NamesRank rank r env keys =
      let e1 = put "RANK" rank env in
      let e2 = put "MASTER" r.master_addr e1 in
      let e3 = put "MASTER_PORT" r.master_port e2 in
      let rank_is : lookup "RANK" (ranked rank r env) ≡ some rank =
        lookup-put_if "RANK" "FABRIC_MASTER" (non_empty r.fabric) e3 refl
        ∙ lookup-put_other "RANK" "MASTER_PORT" r.master_port e2 refl
        ∙ lookup-put_other "RANK" "MASTER" r.master_addr e1 refl
        ∙ lookup-put "RANK" rank env in
      let addr_is : lookup "MASTER" (ranked rank r env) ≡ some r.master_addr =
        lookup-put_if "MASTER" "FABRIC_MASTER" (non_empty r.fabric) e3 refl
        ∙ lookup-put_other "MASTER" "MASTER_PORT" r.master_port e2 refl
        ∙ lookup-put "MASTER" r.master_addr e1 in
      let port_is : lookup "MASTER_PORT" (ranked rank r env) ≡ some r.master_port =
        lookup-put_if "MASTER_PORT" "FABRIC_MASTER" (non_empty r.fabric) e3 refl
        ∙ lookup-put "MASTER_PORT" r.master_port e2 in
      let rest = in_order host keys (ranked rank r env) in
      (
        rest,
        ap
              (λ o. assigned host "RANK" o (
                assigned host "MASTER" (lookup "MASTER" (ranked rank r env))
                  (assigned host "MASTER_PORT" (lookup "MASTER_PORT" (ranked rank r env)) rest)))
              rank_is
            ∙ ap
                (λ o.
                  ("RANK", host.quote rank)
                  ∷ assigned host "MASTER" o
                      (assigned host "MASTER_PORT" (lookup "MASTER_PORT" (ranked rank r env)) rest))
                addr_is
            ∙ ap
                (λ o.
                  ("RANK", host.quote rank)
                  ∷ ("MASTER", host.quote r.master_addr)
                  ∷ assigned host "MASTER_PORT" o rest)
                port_is,
      )

  env_command-NamesRank :
      (recipe : Recipe) (config : Config) (rank : String) (r : Rendezvous) (env : Dict String)
      (c : Command)
      → env_command host recipe config (ranked rank r env) ≡ ok c
      → NamesRank rank r c.assignments
  unfolding env_command
  env_command-NamesRank recipe config rank r env c e = go (config_get config "entrypoint") e
    where
      go :
          (o : Option Json)
          → env_command_with host recipe config (ranked rank r env) o ≡ ok c
          → NamesRank rank r c.assignments
      go none q = ground (arith, q)
      go (some binary) q =
          let all : in_order host ordered (ranked rank r env) ++ others host (ranked rank r env)
              ≡ c.assignments =
            ground (arith, q) in
          let (rest, begins) = in_order-NamesRank rank r env (drop 3 ordered) in
          (
            rest ++ others host (ranked rank r env),
            sym all ∙ ap (λ d. d ++ others host (ranked rank r env)) begins,
          )

  -- If `generate_node_command` makes a command, it is for one of two nodes, the recipe is one for a
  -- launch on two nodes, and the assignments begin with the rank, the address and the port.
  pub node_command-NamesRank :
      (recipe : Recipe) (overrides : Config) (num_nodes node_rank : ℤ) (r : Rendezvous)
      (skip_keys : List String) (c : Command)
      → node_command host recipe overrides num_nodes node_rank r skip_keys ≡ ok c
      → (num_nodes ≡ pos 2)
        × ((node_rank ≡ pos 0) ⊎ (node_rank ≡ pos 1))
        × IsLaunch host recipe overrides (pos 2)
        × NamesRank (text host (int node_rank)) r c.assignments
  unfolding node_command
  node_command-NamesRank recipe overrides num_nodes node_rank r skip_keys c e =
      go (require_launch_topology host recipe overrides num_nodes node_rank) refl e
    where
      config : Config
      config = recipe.build overrides

      named :
          (o : Outcome LaunchError (Dict String))
          → command_of host recipe config (ranked (text host (int node_rank)) r) o ≡ ok c
          → NamesRank (text host (int node_rank)) r c.assignments
      named (raised x) q = ground (arith, q)
      named (ok env) q = env_command-NamesRank recipe config (text host (int node_rank)) r env c q

      go :
          (o : Outcome Issue (Unit {0}))
          → require_launch_topology host recipe overrides num_nodes node_rank ≡ o
          → after_topology host o (
              command_of host recipe config
                (ranked (text host (int node_rank)) r)
                (engine_env host recipe config skip_keys))
            ≡ ok c
          → (num_nodes ≡ pos 2)
            × ((node_rank ≡ pos 0) ⊎ (node_rank ≡ pos 1))
            × IsLaunch host recipe overrides (pos 2)
            × NamesRank (text host (int node_rank)) r c.assignments
      go (raised x) t q = ground (arith, q)
      go (ok _) t q =
          let a = require_launch_topology-Accepts host recipe overrides num_nodes node_rank t in
          (a.0, a.1, a.2, named (engine_env host recipe config skip_keys) q)
