-- ===== src/Locks/Gates/Agreement.antt =====
-- validate_locks.py: what a recipe that `validate_recipe` lets pass has in common with its lock.
use home_lab.Prelude.{◌≡◌, subst, String, true, some, List, [], ◌∷◌, arith}
use home_lab.Prelude.Dict.{Dict}
use home_lab.Program.{◌>>=◌, ◌>>◌, pure}
use home_lab.Json.{Json, str, obj, Fields, as_list, get}
use home_lab.Locks.Checks.{Check, Python, run_all}
use home_lab.Locks.Checks.Passes.{Passes, Gives, Gives-bind, Passes-require, Passes-run_all}
use home_lab.Locks.Checks.Pins.{IsPin, hash_value_iff}
use home_lab.Locks.Lock.Shapes.{with_at-Passes}
use home_lab.Locks.Recipe.{
  Locked, RecipePath, only_one, some_list, dict_in, owners_of, readiness_of, equal, check_header,
  container_field, agreement_checks, check_sources,
}
use home_lab.Locks.Gates.{
  check_env, default_checks, check_gate, check_owned, check_parts, check_mods, validate_recipe,
}
use home_lab.Locks.Gates.Served.{
  only_one-list, some_list-list, dict_in-obj, check_header-obj, HasEnv, check_env-HasEnv, HasGate,
  check_gate-HasGate,
}

module _ (python : Python) where
  -- What the recipe at a path and the lock of its engine have in common
  abbrev pub Agrees : String → Locked → Fields → Fields → Fields → Type 0
  Agrees stem (lock, kind) recipe metadata defaults =
      (python.equal (get metadata "profile") (str stem) ≡ true)
      × (python.equal (get recipe "container") (get lock (container_field kind)) ≡ true)
      × IsPin 40 (get recipe "model_revision")
      × (python.equal (get metadata "target_model_revision") (get recipe "model_revision") ≡ true)
      × HasEnv python recipe lock
      × HasGate python recipe defaults

  check_owned-Agrees :
      (stem : String) (lock : Fields) (kind : _) (name : String) (recipe metadata defaults : Fields)
      → Passes (check_owned python stem (lock, kind) name recipe metadata defaults)
      → Agrees stem (lock, kind) recipe metadata defaults
  unfolding check_owned
  check_owned-Agrees stem lock kind name recipe metadata defaults p =
      let agreement = agreement_checks python stem (lock, kind) recipe metadata in
      let gate : Check (Unit {0}) = check_gate python recipe name metadata defaults in
      let set_defaults : Check (Unit {0}) = run_all (default_checks python defaults) in
      let env : Check (Unit {0}) = check_env python recipe lock in
      let sources : Check (Unit {0}) = check_sources python (lock, kind) recipe metadata defaults in
      let first =
        Gives-bind (run_all agreement) (λ _. sources >> (env >> (set_defaults >> gate))) tt p in
      let second = Gives-bind sources (λ _. env >> (set_defaults >> gate)) tt first.second in
      let third = Gives-bind env (λ _. set_defaults >> gate) tt second.second in
      let fourth = Gives-bind set_defaults (λ _. gate) tt third.second in
      let all = Passes-run_all agreement first.first in
      let target =
        python.equal (get metadata "target_model_revision") (get recipe "model_revision") in
      (
        Passes-require (python.equal (get metadata "profile") (str stem)) "metadata.profile" all.0,
        Passes-require (python.equal (get recipe "container") (get lock (container_field kind)))
            "container"
            (with_at-Passes lock (container_field kind)
              (λ v. equal python (get recipe "container") v "container") all.1.0),
        (hash_value_iff (get recipe "model_revision") 40 "model_revision").0
            all.1.1.1.1.1.1.1.1.1.1.0,
        Passes-require target "metadata" all.1.1.1.1.1.1.1.1.1.1.1.0,
        check_env-HasEnv python recipe lock third.first,
        check_gate-HasGate python recipe name metadata defaults fourth.second,
      )

  -- The parts of the recipe, which agree with this lock
  abbrev pub HasParts : String → Locked → Fields → Type 0
  HasParts stem owner recipe =
      (metadata : Fields) × (defaults : Fields) × (get recipe "metadata" ≡ obj metadata)
      × (get recipe "defaults" ≡ obj defaults)
      × Agrees stem owner recipe metadata defaults

  check_parts-HasParts :
      (stem : String) (owner : Locked) (name : String) (recipe : Fields)
      → Passes (check_parts python stem owner name recipe)
      → HasParts stem owner recipe
  unfolding check_parts
  check_parts-HasParts stem owner name recipe p =
      let owned : Fields → Fields → Check (Unit {0}) = check_owned python stem owner name recipe in
      let rest : Fields → Check (Unit {0}) =
        λ metadata. dict_in (get recipe "defaults") "recipe" >>= owned metadata in
      let metadata = Gives-bind (dict_in (get recipe "metadata") "recipe") rest tt p in
      let defaults =
        Gives-bind (dict_in (get recipe "defaults") "recipe") (owned metadata.value) tt
          metadata.second in
      (
        metadata.value,
        defaults.value,
        dict_in-obj (get recipe "metadata") "recipe" metadata.value metadata.first,
        dict_in-obj (get recipe "defaults") "recipe" defaults.value defaults.first,
        check_owned-Agrees stem owner.0 owner.1 name recipe metadata.value defaults.value
            defaults.second,
      )

  -- Exactly one of the mods has a lock with an engine.
  abbrev pub HasEngineLock : RecipePath → Dict Locked → Fields → List Json → Type 0
  HasEngineLock path locks recipe mods =
      (owner : Locked) × Gives (owners_of path locks python mods) (owner ∷ [])
      × HasParts path.stem owner recipe

  check_mods-HasEngineLock :
      (path : RecipePath) (locks : Dict Locked) (recipe : Fields) (mods : List Json)
      → Passes (check_mods python path locks recipe mods)
      → HasEngineLock path locks recipe mods
  unfolding check_mods
  check_mods-HasEngineLock path locks recipe mods p =
      let found = owners_of path locks python mods in
      let parts : Locked → String → Check (Unit {0}) =
        λ owner name. check_parts python path.stem owner name recipe in
      let named : Locked → Check (Unit {0}) =
        λ owner. only_one (readiness_of path mods) "mods" >>= parts owner in
      let owners = Gives-bind found (λ l. only_one l "mods" >>= named) tt p in
      let owner = Gives-bind (only_one owners.value "mods") named tt owners.second in
      let name =
        Gives-bind (only_one (readiness_of path mods) "mods") (parts owner.value) tt owner.second in
      let one = only_one-list owners.value "mods" owner.value owner.first in
      (
        owner.value,
        subst (λ l. Gives found l) one owners.first,
        check_parts-HasParts path.stem owner.value name.value recipe name.second,
      )

  -- The recipe, its mods, and the one lock among theirs that has an engine
  abbrev pub HasOwner : Json → RecipePath → Dict Locked → List Json → Type 0
  HasOwner v path locks mods =
      (recipe : Fields) × (v ≡ obj recipe)
      × (as_list (get recipe "mods") ≡ some mods)
      × HasEngineLock path locks recipe mods

  -- Where `validate_recipe` returns the mods of a recipe: exactly one of their locks has an engine,
  -- and the recipe agrees with it: its container is the lock's image or image_id, its profile is the
  -- file's stem, its model's revision is a full hash and is also metadata's target revision, its
  -- environment holds the lock's launcher_env, and exactly one of its hooks is the readiness gate,
  -- in which --context and --model stand once each, with the values of its defaults.
  pub validate_recipe-HasOwner :
      (v : Json) (path : RecipePath) (locks : Dict Locked) (mods : List Json)
      → Gives (validate_recipe python v path locks) mods
      → HasOwner v path locks mods
  unfolding validate_recipe
  validate_recipe-HasOwner v path locks mods p =
      let checked : Fields → List Json → Check (List Json) =
        λ recipe refs. check_mods python path locks recipe refs >> pure refs in
      let listed : Fields → Check (List Json) =
        λ recipe. some_list (get recipe "mods") "mods" >>= checked recipe in
      let header = Gives-bind (check_header python v) listed mods p in
      let recipe = header.value in
      let refs =
        Gives-bind (some_list (get recipe "mods") "mods") (checked recipe) mods header.second in
      let both =
        Gives-bind (check_mods python path locks recipe refs.value) (λ _. pure refs.value) mods
          refs.second in
      subst (HasOwner v path locks) (ground (arith, both.second)) (
        recipe,
        check_header-obj python v recipe header.first,
        some_list-list (get recipe "mods") "mods" refs.value refs.first,
        check_mods-HasEngineLock path locks recipe refs.value both.first,
      )
