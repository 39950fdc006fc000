-- ===== src/Tensorfold/Topology/Accepts.antt =====
-- The plugin's checks of a launch: which launches have no issue.
use home_lab.Prelude.{
  ◌≡◌, ◌↔◌, ◌⊎◌, inl, inr, refl, sym, ap, ◌∙◌, subst, Bool, true, false, not, ◌||◌, Option, none,
  some, List, [], ◌∷◌, arith, if◌then◌else◌,
}
use home_lab.Prelude.Int.{ℤ, pos, negsuc, int_eq}
use home_lab.Program.{ok, raised}
use home_lab.Tensorfold.{Config, Parallelism, Recipe, Host}
use home_lab.Tensorfold.Topology.{
  Issue, topologies, required_pp, issues_of, parallelism_checks, is_range, node_range, other_launch,
  known_issues, not_two_nodes, other_rank, topology_issues, launch_issues, first_raised,
  require_launch_topology,
}

-- One GPU per rank, and no other kind of parallelism
abbrev pub IsTensorOnly : ℤ → Parallelism → Type 0
IsTensorOnly nodes p =
    (p.tensor_parallel ≡ nodes)
    × (p.pipeline_parallel ≡ pos 1)
    × (p.data_parallel ≡ pos 1)
    × (p.expert_parallel ≡ pos 1)
    × (p.context_parallel ≡ pos 1)

-- The launch is on as many nodes as the recipe declares, one or two, at least and at most.
abbrev pub IsShaped : ℤ → Recipe → Type 0
IsShaped nodes recipe =
    (recipe.min_nodes ≡ nodes)
    × ((nodes ≡ pos 1) ⊎ (nodes ≡ pos 2))
    × ((recipe.max_nodes ≡ none) ⊎ (recipe.max_nodes ≡ some nodes))

pub int_eq-same : (m n : ℤ) → int_eq m n ≡ true → m ≡ n
int_eq-same (pos m) (pos n) e = ap pos (ground (arith, e))
int_eq-same (negsuc m) (negsuc n) e = ap negsuc (ground (arith, e))
int_eq-same (pos m) (negsuc n) e = ground (arith, e)
int_eq-same (negsuc m) (pos n) e = ground (arith, e)

pub int_eq_refl : (m : ℤ) → int_eq m m ≡ true
int_eq_refl (pos m) = ground arith
int_eq_refl (negsuc m) = ground arith

int_eq_iff : (m n : ℤ) → (not (int_eq m n) ≡ false) ↔ (m ≡ n)
int_eq_iff m n = (
  λ e. int_eq-same m n (ground (arith, e)),
  λ e. subst (λ x. not (int_eq m x) ≡ false) e (ap not (int_eq_refl m)),
)

abbrev pub NoneBad : List (Bool × Issue) → Type 0
NoneBad [] = Unit
NoneBad ((is_bad, issue) ∷ checks) = (is_bad ≡ false) × NoneBad checks

issues_of-empty : (checks : List (Bool × Issue)) → (issues_of checks ≡ []) ↔ NoneBad checks
unfolding issues_of
issues_of-empty [] = (λ _. tt, λ _. refl)
issues_of-empty ((true, issue) ∷ checks) = (λ e. ground (arith, e), λ e. ground (arith, e.0))
issues_of-empty ((false, issue) ∷ checks) =
    let rest = issues_of-empty checks in (λ e. (refl, rest.0 e), λ e. rest.1 e.1)

is_range_iff :
    (nodes : ℤ) (most : Option ℤ)
    → (is_range nodes most ≡ false) ↔ ((most ≡ none) ⊎ (most ≡ some nodes))
is_range_iff nodes none = (λ e. inl refl, λ _. refl)
is_range_iff nodes (some m) = (λ e. inr (ap some ((int_eq_iff m nodes).0 e)), from)
  where
    from : (some m ≡ none) ⊎ (some m ≡ some nodes) → is_range nodes (some m) ≡ false
    from (inl e) = ground (arith, e)
    from (inr e) = (int_eq_iff m nodes).1 (ground (arith, e))

topologies-known : (nodes : ℤ) → (nodes ≡ pos 1) ⊎ (nodes ≡ pos 2) → topologies nodes ≡ some nodes
topologies-known nodes (inl e) = subst (λ n. topologies n ≡ some n) (sym e) refl
topologies-known nodes (inr e) = subst (λ n. topologies n ≡ some n) (sym e) refl

module _ (host : Host) (recipe : Recipe) (overrides : Config) where
  -- The recipe and its parallelism, as a launch on these nodes wants them
  abbrev pub IsLaunch : ℤ → Type 0
  IsLaunch nodes =
      IsShaped nodes recipe × IsTensorOnly nodes (host.extract (recipe.build overrides))

  known_issues-empty :
      (nodes : ℤ)
      → recipe.min_nodes ≡ nodes
      → (known_issues host recipe overrides (some nodes) ≡ []) ↔ (
          ((recipe.max_nodes ≡ none) ⊎ (recipe.max_nodes ≡ some nodes))
          × IsTensorOnly nodes (host.extract (recipe.build overrides)))
  known_issues-empty nodes m =
      let p = host.extract (recipe.build overrides) in
      let all = issues_of-empty (
        (is_range recipe.min_nodes recipe.max_nodes, node_range recipe.min_nodes recipe.max_nodes)
        ∷ parallelism_checks p recipe.min_nodes nodes) in
      (
        λ e.
            let a = all.0 e in
            (
              (is_range_iff nodes recipe.max_nodes).0
                  (ap (λ n. is_range n recipe.max_nodes) (sym m) ∙ a.0),
              (
                (int_eq_iff p.tensor_parallel nodes).0 a.1.0,
                (int_eq_iff p.pipeline_parallel required_pp).0 a.1.1.0,
                (int_eq_iff p.data_parallel (pos 1)).0 a.1.1.1.0,
                (int_eq_iff p.expert_parallel (pos 1)).0 a.1.1.1.1.0,
                (int_eq_iff p.context_parallel (pos 1)).0 a.1.1.1.1.1.0,
              ),
            ),
        λ t. all.1 (
          ap (λ n. is_range n recipe.max_nodes) m ∙ (is_range_iff nodes recipe.max_nodes).1 t.0,
          (
            (int_eq_iff p.tensor_parallel nodes).1 t.1.0,
            (
              (int_eq_iff p.pipeline_parallel required_pp).1 t.1.1,
              (
                (int_eq_iff p.data_parallel (pos 1)).1 t.1.2,
                (
                  (int_eq_iff p.expert_parallel (pos 1)).1 t.1.3,
                  ((int_eq_iff p.context_parallel (pos 1)).1 t.1.4, tt),
                ),
              ),
            ),
          ),
        ),
      )

  unknown :
      (nodes : ℤ)
      → known_issues host recipe overrides (topologies nodes) ≡ []
      → (nodes ≡ pos 1) ⊎ (nodes ≡ pos 2)
  unknown nodes e = go (int_eq nodes (pos 1)) (int_eq nodes (pos 2)) refl refl e
    where
      go :
          (b c : Bool)
          → int_eq nodes (pos 1) ≡ b
          → int_eq nodes (pos 2) ≡ c
          → known_issues host recipe overrides
              (if b then some (pos 1) else if c then some (pos 2) else none)
            ≡ []
          → (nodes ≡ pos 1) ⊎ (nodes ≡ pos 2)
      go true c x y f = inl (int_eq-same nodes (pos 1) x)
      go false true x y f = inr (int_eq-same nodes (pos 2) y)
      go false false x y f = ground (arith, f)

  topology_issues-empty :
      (nodes : ℤ)
      → recipe.min_nodes ≡ nodes
      → (topology_issues host recipe overrides ≡ []) ↔ IsLaunch nodes
  unfolding topology_issues
  topology_issues-empty nodes m =
      let at_nodes = ap (λ n. known_issues host recipe overrides (topologies n)) m in
      (
        λ e.
            let f = sym at_nodes ∙ e in
            let known = unknown nodes f in
            let g =
              ap (λ o. known_issues host recipe overrides o) (sym (topologies-known nodes known))
              ∙ f in
            let c = (known_issues-empty nodes m).0 g in ((m, known, c.0), c.1),
        λ l.
            at_nodes
            ∙ ap (λ o. known_issues host recipe overrides o) (topologies-known nodes l.0.1)
            ∙ (known_issues-empty nodes m).1 (l.0.2, l.1),
      )

  -- `_launch_issues` finds nothing exactly if the recipe declares these nodes and no more, they are one
  -- or two, and its configuration has a tensor rank on each node and no other kind of parallelism.
  pub launch_issues-empty :
      (nodes : ℤ) → (launch_issues host recipe overrides nodes ≡ []) ↔ IsLaunch nodes
  unfolding launch_issues
  launch_issues-empty nodes = (to (int_eq recipe.min_nodes nodes) refl, from)
    where
      to :
          (b : Bool)
          → int_eq recipe.min_nodes nodes ≡ b
          → (if b
              then topology_issues host recipe overrides
              else other_launch nodes recipe.min_nodes ∷ [])
            ≡ []
          → IsLaunch nodes
      to true x e = (topology_issues-empty nodes (int_eq-same recipe.min_nodes nodes x)).0 e
      to false x e = ground (arith, e)

      from :
          IsLaunch nodes
          → (if int_eq recipe.min_nodes nodes
              then topology_issues host recipe overrides
              else other_launch nodes recipe.min_nodes ∷ [])
            ≡ []
      from l =
          let same_nodes = (int_eq_iff recipe.min_nodes nodes).1 l.0.0 in
          let found = (topology_issues-empty nodes l.0.0).1 l in ground (arith, same_nodes, found)

  pub require_launch_topology-Accepts :
      (num_nodes node_rank : ℤ)
      → require_launch_topology host recipe overrides num_nodes node_rank ≡ ok tt
      → (num_nodes ≡ pos 2) × ((node_rank ≡ pos 0) ⊎ (node_rank ≡ pos 1)) × IsLaunch (pos 2)
  unfolding require_launch_topology
  require_launch_topology-Accepts num_nodes node_rank e =
      go (int_eq num_nodes (pos 2)) (int_eq node_rank (pos 0)) (int_eq node_rank (pos 1))
        (launch_issues host recipe overrides (pos 2)) refl refl refl refl e
    where
      go :
          (a b c : Bool) (issues : List Issue)
          → int_eq num_nodes (pos 2) ≡ a
          → int_eq node_rank (pos 0) ≡ b
          → int_eq node_rank (pos 1) ≡ c
          → launch_issues host recipe overrides (pos 2) ≡ issues
          → (if not a
              then raised (not_two_nodes num_nodes)
              else if not (b || c)
              then raised (other_rank node_rank)
              else first_raised host recipe overrides issues)
            ≡ ok tt
          → (num_nodes ≡ pos 2) × ((node_rank ≡ pos 0) ⊎ (node_rank ≡ pos 1)) × IsLaunch (pos 2)
      go false b c issues x y z w q = ground (arith, q)
      go true false false issues x y z w q = ground (arith, q)
      go true true c (i ∷ issues) x y z w q = ground (arith, q)
      go true false true (i ∷ issues) x y z w q = ground (arith, q)
      go true true c [] x y z w q = (
        int_eq-same num_nodes (pos 2) x,
        inl (int_eq-same node_rank (pos 0) y),
        (launch_issues-empty (pos 2)).0 w,
      )
      go true false true [] x y z w q = (
        int_eq-same num_nodes (pos 2) x,
        inr (int_eq-same node_rank (pos 1) z),
        (launch_issues-empty (pos 2)).0 w,
      )
