-- ===== src/Healthchecks/Live/Guards.antt =====
-- healthchecks.py, what it means that `refusals` and `verify` find nothing.
use home_lab.Prelude.{
  ◌≡◌, refl, subst, String, Bool, true, false, Option, none, some, List, [], ◌∷◌, ◌++◌, str_eq,
  str_eq_iff, arith, if◌then◌else◌,
}
use home_lab.Prelude.Dict.{Dict}
use home_lab.Json.{str, Fields, get}
use home_lab.Healthchecks.Declaration.{member}
use home_lab.Healthchecks.Service.{Want, Ending, returned, refused, crashed, Env}
use home_lab.Healthchecks.Values.{◌>>=◌, is_protected, differs}
use home_lab.Healthchecks.Live.{timing_fields, find, protected_problems, refusals}

-- Two lists of findings, joined, are empty: both are.
pub no_more :
    {A : Type 0} (problems more : Ending (List A))
    → (problems >>= λ problems. more >>= λ more. returned (problems ++ more)) ≡ returned []
    → (problems ≡ returned []) × (more ≡ returned [])
no_more (returned []) (returned []) e = (refl, refl)
no_more (returned []) (returned (_ ∷ _)) e = ground (arith, e)
no_more (returned (_ ∷ _)) (returned _) e = ground (arith, e)
no_more (returned _) (refused _) e = ground (arith, e)
no_more (returned _) crashed e = ground (arith, e)
no_more (refused _) more e = ground (arith, e)
no_more crashed more e = ground (arith, e)

module _ (env : Env) where
  -- A protected check is live and up, and each of its timing fields is as declared.
  abbrev pub IsGuarded : Dict Fields → Want → Type 0
  IsGuarded live want =
      is_protected want.slug ≡ true
      → (have : Fields) × (find want.slug live ≡ some have)
        × (env.equal (get have "status") (str "up") ≡ true)
        × ((k : String)
            → member k timing_fields ≡ true
            → env.equal (get have k) (get want.fields k) ≡ true)

  abbrev pub AllGuarded : Dict Fields → List Want → Type 0
  AllGuarded live [] = Unit
  AllGuarded live (want ∷ wants) = IsGuarded live want × AllGuarded live wants

  agrees_under :
      (have want : Fields) (ks : List String) (k : String)
      → differs env have want ks ≡ false
      → member k ks ≡ true
      → env.equal (get have k) (get want k) ≡ true
  agrees_under have want [] k d m = ground arith
  agrees_under have want (j ∷ ks) k d m =
      go (agrees_under have want ks k (ground (arith, d))) (str_eq j k) refl
    where
      go :
          (member k ks ≡ true → env.equal (get have k) (get want k) ≡ true)
          → (same : Bool) → str_eq j k ≡ same
          → env.equal (get have k) (get want k) ≡ true
      go rest true e =
          subst (λ i. env.equal (get have i) (get want i) ≡ true) ((str_eq_iff j k).0 e)
            (ground (arith, d))
      go rest false e = rest (ground (arith, m, e))

  protected-IsGuarded :
      (want : Want) (have : Option Fields)
      → protected_problems env want have ≡ returned []
      → (check : Fields) × (have ≡ some check)
        × (env.equal (get check "status") (str "up") ≡ true)
        × (differs env check want.fields timing_fields ≡ false)
  protected-IsGuarded want none e = ground (arith, e)
  protected-IsGuarded want (some have) e = (have, refl, ground (arith, e), ground (arith, e))

  -- If `refusals` finds nothing, each protected check among the declared ones is live, its status is
  -- "up", and its live timing is the declared one.
  pub refusals-AllGuarded :
      (wants : List Want) (live : Dict Fields)
      → refusals env wants live ≡ returned []
      → AllGuarded live wants
  unfolding refusals
  refusals-AllGuarded [] live e = tt
  refusals-AllGuarded (want ∷ wants) live e =
      go (is_protected want.slug) refl e (refusals-AllGuarded wants live)
    where
      go :
          (protected : Bool)
          → is_protected want.slug ≡ protected
          → (if protected
              then (protected_problems env want (find want.slug live) >>= λ problems.
                  refusals env wants live >>= λ more. returned (problems ++ more))
              else refusals env wants live)
            ≡ returned []
          → (refusals env wants live ≡ returned [] → AllGuarded live wants)
          → AllGuarded live (want ∷ wants)
      go false p e rest = (λ q. ground (arith, p, q), rest e)
      go true p e rest =
          let (here, there) =
            no_more (protected_problems env want (find want.slug live)) (refusals env wants live)
              e in
          let (check, found, up, same) = protected-IsGuarded want (find want.slug live) here in
          (
            λ _. (check, found, up, λ k. agrees_under check want.fields timing_fields k same),
            rest there,
          )
