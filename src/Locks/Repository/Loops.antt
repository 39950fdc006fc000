-- ===== src/Locks/Repository/Loops.antt =====
-- validate_locks.py: what the loop over the manifests keeps, whatever it keeps.
use home_lab.Prelude.{
  ℕ, length, ◌≡◌, refl, sym, ap, subst, ◌∙◌, String, true, some, List, [], ◌∷◌, All, In, inl, inr,
  str_eq, str_eq_iff, if◌then◌else◌, arith,
}
use home_lab.Prelude.Dict.{Dict, put}
use home_lab.Program.{Outcome, ok, raised, ◌>>=◌, ◌>>◌, pure}
use home_lab.Json.{Json}
use home_lab.Locks.Checks.{Error, Check, Python, require}
use home_lab.Locks.Checks.Passes.{Passes, Gives, Gives-bind, Passes-require}
use home_lab.Locks.Documents.{read_json}
use home_lab.Locks.Validate.{validate_lock}
use home_lab.Locks.Recipe.{Locked, lookup}
use home_lab.Locks.Repository.{
  Manifest, Seen, Tree, nothing_seen, all_used, recipes_in, check_recipes, check_entries,
  is_nonempty, validate_repository, caught_of_lock, catching, add_image, add_manifest,
  add_manifests,
}

pub lookup-put :
    {V : Type 0} (j k : String) (v : V) (d : Dict V)
    → lookup j (put k v d) ≡ (if str_eq k j then some v else lookup j d)
unfolding lookup put
lookup-put j k v [] = refl
lookup-put j k v ((i, w) ∷ d) =
    ground (arith, lookup-put j k v d, str_eq_iff i k, str_eq_iff i j, str_eq_iff k j)

pub Gives-catching :
    {A : Type 0} (caught : Error → String → Error) (path : String) (m : Check A) (a : A)
    → Gives (catching caught path m) a
    → Gives m a
Gives-catching {A} caught path m a p = go (m tt) refl p
  where
    go :
        (r : Outcome Error A × Unit {0})
        → m tt ≡ r
        → Gives (catching caught path (λ _. r)) a
        → Gives m a
    go (ok b, t) e q = ground (arith, e, q)
    go (raised x, t) e q = ground (arith, q)

pub Gives_once : {A : Type 0} (m : Check A) (a b : A) → Gives m a → Gives m b → a ≡ b
Gives_once m a b p q = let e : (ok a, tt) ≡ (ok b, tt) = sym p ∙ q in ground (arith, e)

pub In-All : {A : Type 0} (P : A → Type 0) (x : A) (xs : List A) → In x xs → All P xs → P x
In-All P x (y ∷ ys) (inl e) h = subst P (sym e) h.0
In-All P x (y ∷ ys) (inr i) h = In-All P x ys i h.1
In-All P x [] i h = elim i [ ]

module _ (python : Python) where
  -- The manifest stands in a directory of mods, its text reads as a document, and this passes as a
  -- lock of a kind.
  abbrev pub IsAccepted : Manifest → Locked → Type 0
  IsAccepted manifest locked =
      (manifest.is_direct ≡ true)
      × (v : Json) × Gives (read_json python manifest.content) v
      × Gives (validate_lock python v manifest.mod_dir) locked

  -- One turn of the loop
  pub record Turn (manifest : Manifest) (seen more : Seen) : Type 0 where
    pub locked : Locked
    pub accepted : IsAccepted manifest locked
    pub images : Gives (add_image python locked seen) more.images
    pub locks : more.locks ≡ put manifest.resolved locked seen.locks

  pub add_manifest-Turn :
      (manifest : Manifest) (seen more : Seen)
      → Gives (add_manifest python manifest seen) more
      → Turn manifest seen more
  unfolding add_manifest
  add_manifest-Turn manifest seen more p =
      let next : Locked → Dict Json → Seen = λ locked images. record {
        locks = put manifest.resolved locked seen.locks;
        images = images;
      } in
      let last : Locked → Check Seen =
        λ l. add_image python l seen >>= λ images. pure (next l images) in
      let lock : Json → Check Seen = λ v. validate_lock python v manifest.mod_dir >>= last in
      let rest : Check Seen = read_json python manifest.content >>= lock in
      let direct = Gives-bind (require manifest.is_direct manifest.path) (λ _. rest) more p in
      let read = Gives-bind (read_json python manifest.content) lock more direct.second in
      let valid =
        Gives-bind (validate_lock python read.value manifest.mod_dir) last more read.second in
      let l = valid.value in
      let images = Gives-bind (add_image python l seen) (λ i. pure (next l i)) more valid.second in
      let e : next l images.value ≡ more = ground (arith, images.second) in
      record {
        locked = l;
        accepted = (
          Passes-require manifest.is_direct manifest.path direct.first,
          read.value,
          read.first,
          valid.first,
        );
        images = subst (λ s. Gives (add_image python l seen) s.images) e images.first;
        locks = sym (ap (λ s. s.locks) e);
      }

  -- What each turn brings about for its manifest, and no later turn undoes
  pub record Kept (K : Manifest → Locked → Seen → Type 0) : Type 0 where
    pub made :
        (manifest : Manifest) (seen more : Seen) (turn : Turn manifest seen more)
        → K manifest turn.locked more
    pub kept :
        (manifest : Manifest) (seen more : Seen)
        → Turn manifest seen more
        → (m : Manifest) (l : Locked) → K m l seen
        → K m l more

  module _ (K : Manifest → Locked → Seen → Type 0) (k : Kept K) where
    -- The loop brings it about for every manifest, and undoes none.
    pub add_manifests-All :
        (manifests : List Manifest) (seen more : Seen)
        → Gives (add_manifests python manifests seen) more
        → All (λ m. (l : Locked) × IsAccepted m l × K m l more) manifests
          × ((m : Manifest) (l : Locked) → K m l seen → K m l more)
    unfolding add_manifests
    add_manifests-All [] seen more p = (tt, λ m l h. subst (K m l) (ground (arith, p)) h)
    add_manifests-All (manifest ∷ manifests) seen more p =
        let turn : Check Seen =
          catching caught_of_lock manifest.path (add_manifest python manifest seen) in
        let both = Gives-bind turn (λ s. add_manifests python manifests s) more p in
        let first =
          Gives-catching caught_of_lock manifest.path (add_manifest python manifest seen) both.value
            both.first in
        let t = add_manifest-Turn manifest seen both.value first in
        let rest = add_manifests-All manifests both.value more both.second in
        (
          (
            (t.locked, t.accepted, rest.1 manifest t.locked (k.made manifest seen both.value t)),
            rest.0,
          ),
          λ m l h. rest.1 m l (k.kept manifest seen both.value t m l h),
        )

  -- Each manifest is accepted with one lock.
  pub IsAccepted-once : (m : Manifest) (l k : Locked) → IsAccepted m l → IsAccepted m k → l ≡ k
  IsAccepted-once m l k a b =
      let read : a.1 ≡ b.1 = Gives_once (read_json python m.content) a.1 b.1 a.2 b.2 in
      Gives_once (validate_lock python b.1 m.mod_dir) l k
        (subst (λ v. Gives (validate_lock python v m.mod_dir) l) read a.3) b.3

  -- What the loops of a run that returns found
  pub record Run (tree : Tree) (counts : ℕ × ℕ) : Type 0 where
    pub seen : Seen
    pub added : Gives (add_manifests python tree.manifests nothing_seen) seen
    pub used : List String
    pub checked : Gives (check_recipes python seen.locks (recipes_in tree.files)) used
    pub owned : all_used seen.locks used ≡ true
    pub entered : Passes (check_entries tree.entries)
    pub counted : (length seen.locks, length (recipes_in tree.files)) ≡ counts

  pub validate_repository-Run :
      (tree : Tree) (counts : ℕ × ℕ)
      → Gives (validate_repository python tree) counts
      → Run tree counts
  unfolding validate_repository
  validate_repository-Run tree counts p =
      let recipes = recipes_in tree.files in
      let result : Seen → Check (ℕ × ℕ) = λ seen. pure (length seen.locks, length recipes) in
      let last : Seen → List String → Check (ℕ × ℕ) =
        λ seen used. require (all_used seen.locks used) "mods" >> result seen in
      let check : Seen → Check (ℕ × ℕ) =
        λ seen. check_recipes python seen.locks recipes >>= last seen in
      let some_recipes : Check (Unit {0}) = require (is_nonempty recipes) "root" in
      let add : Check (ℕ × ℕ) =
        add_manifests python tree.manifests nothing_seen >>= λ seen. some_recipes >> check seen in
      let entries : Check (ℕ × ℕ) = check_entries tree.entries >> add in
      let some_locks : Check (Unit {0}) = require (is_nonempty tree.manifests) "root" in
      let root = Gives-bind (require tree.has_mods "root") (λ _. some_locks >> entries) counts p in
      let locks = Gives-bind some_locks (λ _. entries) counts root.second in
      let entered = Gives-bind (check_entries tree.entries) (λ _. add) counts locks.second in
      let added =
        Gives-bind (add_manifests python tree.manifests nothing_seen)
          (λ seen. some_recipes >> check seen) counts entered.second in
      let seen = added.value in
      let found = Gives-bind some_recipes (λ _. check seen) counts added.second in
      let checked =
        Gives-bind (check_recipes python seen.locks recipes) (last seen) counts found.second in
      let used = checked.value in
      let owned =
        Gives-bind (require (all_used seen.locks used) "mods") (λ _. result seen) counts
          checked.second in
      record {
        seen = seen;
        added = added.first;
        used = used;
        checked = checked.first;
        owned = Passes-require (all_used seen.locks used) "mods" owned.first;
        entered = entered.first;
        counted = ground (arith, owned.second);
      }
