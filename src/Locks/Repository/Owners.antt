-- ===== src/Locks/Repository/Owners.antt =====
-- validate_locks.py: the recipes that own the locks.
use home_lab.Prelude.{
  ◌≡◌, refl, sym, ap, subst, ◌∙◌, ℕ, String, Bool, true, false, ◌||◌, List, [], ◌∷◌, ◌++◌, All, In,
  inl, inr, str_eq_iff, Bool-cases, if◌then◌else◌, arith,
}
use home_lab.Prelude.Dict.{Dict, contains, contains-put}
use home_lab.Program.{◌>>=◌, pure}
use home_lab.Locks.Checks.{Check, Python, is_in}
use home_lab.Locks.Checks.Passes.{Gives, Gives-bind}
use home_lab.Locks.Recipe.{Locked}
use home_lab.Locks.Repository.{
  Manifest, RecipeFile, Seen, Tree, nothing_seen, caught_of_recipe, catching, is_recipe, recipes_in,
  check_recipe, check_recipes, all_used, add_manifests, validate_repository,
}
use home_lab.Locks.Repository.Loops.{
  Kept, IsAccepted, Gives-catching, add_manifests-All, validate_repository-Run,
}

is_in-append : (k : String) (js ks : List String) → is_in k (js ++ ks) ≡ (is_in k js || is_in k ks)
is_in-append k [] ks = refl
is_in-append k (j ∷ js) ks = ground (arith, is_in-append k js ks)

map-All :
    {A : Type 0} {P Q : A → Type 0} → ((x : A) → P x → Q x) → (xs : List A) → All P xs → All Q xs
map-All f [] h = tt
map-All f (x ∷ xs) h = (f x h.0, map-All f xs h.1)

used_lock :
    (k : String) (locks : Dict Locked) (used : List String)
    → all_used locks used ≡ true
    → contains k locks ≡ true
    → is_in k used ≡ true
used_lock k [] used a e = ground (arith, e)
used_lock k ((j, l) ∷ locks) used a e =
    ground (arith, used_lock k locks used, str_eq_iff j k, ap (λ i. is_in i used))

In-recipes_in :
    (file : RecipeFile) (files : List RecipeFile)
    → In file (recipes_in files)
    → In file files × (is_recipe file ≡ true)
In-recipes_in file [] i = elim i [ ]
In-recipes_in file (f ∷ files) i = go (is_recipe f) refl i (In-recipes_in file files)
  where
    go :
        (b : Bool)
        → is_recipe f ≡ b
        → In file (if b then f ∷ recipes_in files else recipes_in files)
        → (In file (recipes_in files) → In file files × (is_recipe file ≡ true))
        → In file (f ∷ files) × (is_recipe file ≡ true)
    go true e (inl h) ih = (inl h, ap is_recipe h ∙ e)
    go true e (inr j) ih = (inr (ih j).0, (ih j).1)
    go false e j ih = (inr (ih j).0, (ih j).1)

module _ (python : Python) where
  -- A recipe that passes, and uses this directory
  abbrev pub IsUsedBy : Dict Locked → String → RecipeFile → Type 0
  IsUsedBy locks k file =
      (mods : List String) × Gives (check_recipe python locks file) mods × (is_in k mods ≡ true)

  used_by :
      (locks : Dict Locked) (k : String) (files : List RecipeFile) (used : List String)
      → Gives (check_recipes python locks files) used
      → is_in k used ≡ true
      → (file : RecipeFile) × In file files × IsUsedBy locks k file
  unfolding check_recipes
  used_by locks k [] used p e =
      let none_used : [] ≡ used = ground (arith, p) in
      ground (arith, subst (λ u. is_in k u ≡ true) (sym none_used) e)
  used_by locks k (file ∷ files) used p e =
      let rest : List String → Check (List String) =
        λ first. check_recipes python locks files >>= λ more. pure (first ++ more) in
      let checked = catching caught_of_recipe file.path.stem (check_recipe python locks file) in
      let both = Gives-bind checked rest used p in
      let first =
        Gives-catching caught_of_recipe file.path.stem (check_recipe python locks file) both.value
          both.first in
      let last =
        Gives-bind (check_recipes python locks files) (λ more. pure (both.value ++ more)) used
          both.second in
      let whole : both.value ++ last.value ≡ used = ground (arith, last.second) in
      let found : (is_in k both.value || is_in k last.value) ≡ true =
        sym (is_in-append k both.value last.value) ∙ ap (is_in k) whole ∙ e in
      let in_rest : is_in k both.value ≡ false → is_in k last.value ≡ true =
        λ f. ground (arith, found, f) in
      elim (Bool-cases (is_in k both.value)) [
        | inl here ↦ (file, inl refl, (both.value, first, here))
        | inr f ↦ later_file (used_by locks k files last.value last.first (in_rest f))
      ]
    where
      later_file :
          (g : RecipeFile) × In g files × IsUsedBy locks k g
          → (g : RecipeFile) × In g (file ∷ files) × IsUsedBy locks k g
      later_file (g, i, u) = (g, inr i, u)

  -- The lock of each manifest is found under its resolved directory.
  listed_locks : Kept python (λ m l seen. contains m.resolved seen.locks ≡ true)
  listed_locks = record {
    made = λ m seen more turn.
        ap (contains m.resolved) turn.locks
        ∙ ground (
          arith,
          contains-put m.resolved m.resolved turn.locked seen.locks,
          str_eq_iff m.resolved m.resolved,
        );
    kept = λ n seen more turn m l h.
        ap (contains m.resolved) turn.locks
        ∙ ground (arith, contains-put n.resolved m.resolved turn.locked seen.locks, h);
  }

  -- Where `validate_repository` returns: every manifest is accepted with a lock, and there is a file,
  -- a recipe by its place, that passes with the locks that the loop over the manifests found and refers to the directory of
  -- the manifest.
  pub validate_repository-owners :
      (tree : Tree) (counts : ℕ × ℕ)
      → Gives (validate_repository python tree) counts
      → (seen : Seen) × Gives (add_manifests python tree.manifests nothing_seen) seen
        × All
            (λ m.
              ((l : Locked) × IsAccepted python m l)
              × ((file : RecipeFile) × In file tree.files
                  × (is_recipe file ≡ true)
                  × IsUsedBy seen.locks m.resolved file))
            tree.manifests
  validate_repository-owners tree counts p =
      let run = validate_repository-Run python tree counts p in
      let K : Manifest → Locked → Seen → Type 0 = λ m l s. contains m.resolved s.locks ≡ true in
      let all =
        (add_manifests-All python K listed_locks tree.manifests nothing_seen run.seen
          run.added).0 in
      (
        run.seen,
        run.added,
        map-All
            (λ m found.
              let used = used_lock m.resolved run.seen.locks run.used run.owned found.2 in
              let owner =
                used_by run.seen.locks m.resolved (recipes_in tree.files) run.used run.checked
                  used in
              let place = In-recipes_in owner.0 tree.files owner.1 in
              ((found.0, found.1), (owner.0, place.0, place.1, owner.2)))
            tree.manifests all,
      )
