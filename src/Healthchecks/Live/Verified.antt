-- ===== src/Healthchecks/Live/Verified.antt =====
-- healthchecks.py, what it means that `verify` finds no failure.
use home_lab.Prelude.{
  ◌≡◌, refl, subst, String, true, not, Option, none, some, List, [], ◌∷◌, ◌++◌, arith,
}
use home_lab.Prelude.Dict.{Dict}
use home_lab.Json.{Json, str, Fields, get}
use home_lab.Healthchecks.Service.{Want, Failure, Ending, returned, refused, crashed, Env}
use home_lab.Healthchecks.Values.{◌>>=◌, is_protected, managed, same_dict}
use home_lab.Healthchecks.Live.{find, drift, fall, failures_of, verify, failure_if}
use home_lab.Healthchecks.Live.Guards.{no_more}

module _ (env : Env) where
  -- The field is as it was.
  abbrev pub IsKept : String → Fields → Fields → Type 0
  IsKept k was now = env.equal (get now k) (get was k) ≡ true

  -- The check is live with the declared settings; if it was live before, its ping URL, its UUID and
  -- its status are as they were; and if it is protected, its status is "up".
  abbrev pub IsApplied : Dict Fields → Dict Fields → List Json → Want → Type 0
  IsApplied before after channels want =
      (now : Fields) × (current : Fields) × (find want.slug after ≡ some now)
      × (managed env now channels ≡ returned current)
      × (same_dict env current want.fields ≡ true)
      × ((was : Fields)
          → find want.slug before ≡ some was
          → IsKept "ping_url" was now × IsKept "uuid" was now × IsKept "status" was now)
      × (is_protected want.slug ≡ true → env.equal (get now "status") (str "up") ≡ true)

  abbrev pub AllApplied : Dict Fields → Dict Fields → List Json → List Want → Type 0
  AllApplied before after channels [] = Unit
  AllApplied before after channels (want ∷ wants) =
      IsApplied before after channels want × AllApplied before after channels wants

  drift-IsKept :
      (slug : String) (was now : Fields)
      → drift env slug (some was) now ≡ returned []
      → IsKept "ping_url" was now × IsKept "uuid" was now × IsKept "status" was now
  drift-IsKept slug was now e = (ground (arith, e), ground (arith, e), ground (arith, e))

  fall_up :
      (slug : String) (now : Fields)
      → fall env slug now ≡ returned []
      → is_protected slug ≡ true
      → env.equal (get now "status") (str "up") ≡ true
  fall_up slug now e p = ground (arith, e, p)

  -- The parts of `failures_of` that an empty result needs.
  no_failure :
      (slug : String) (current : Ending Fields) (drifted fallen : Ending (List Failure))
      (want : Fields)
      → (current >>= λ c. drifted >>= λ d. fallen >>= λ f.
          returned (failure_if env (not (same_dict env c want)) (Failure.mismatched slug) (d ++ f)))
        ≡ returned []
      → (c : Fields) × (current ≡ returned c)
        × (same_dict env c want ≡ true)
        × (drifted ≡ returned [])
        × (fallen ≡ returned [])
  no_failure slug (returned c) (returned []) (returned []) want e =
      (c, refl, ground (arith, e), refl, refl)
  no_failure slug (returned c) (returned []) (returned (_ ∷ _)) want e = ground (arith, e)
  no_failure slug (returned c) (returned (_ ∷ _)) (returned f) want e = ground (arith, e)
  no_failure slug (returned c) (returned _) (refused _) want e = ground (arith, e)
  no_failure slug (returned c) (returned _) crashed want e = ground (arith, e)
  no_failure slug (returned c) (refused _) f want e = ground (arith, e)
  no_failure slug (returned c) crashed f want e = ground (arith, e)
  no_failure slug (refused _) d f want e = ground (arith, e)
  no_failure slug crashed d f want e = ground (arith, e)

  failures_of-IsApplied :
      (before after : Dict Fields) (channels : List Json) (want : Want) (now : Option Fields)
      → find want.slug after ≡ now
      → failures_of env want (find want.slug before) now channels ≡ returned []
      → IsApplied before after channels want
  unfolding failures_of
  failures_of-IsApplied before after channels want none f e = ground (arith, e)
  failures_of-IsApplied before after channels want (some now) f e =
      let (current, m, same, d, u) =
        no_failure want.slug (managed env now channels)
          (drift env want.slug (find want.slug before) now) (fall env want.slug now) want.fields
          e in
      (now, current, f, m, same, kept (find want.slug before) d, fall_up want.slug now u)
    where
      kept :
          (old : Option Fields)
          → drift env want.slug old now ≡ returned []
          → (was : Fields) → old ≡ some was
          → IsKept "ping_url" was now × IsKept "uuid" was now × IsKept "status" was now
      kept none d was g = ground (arith, g)
      kept (some old) d was g =
          drift-IsKept want.slug was now (subst (λ w. drift env want.slug w now ≡ returned []) g d)

  -- If `verify` finds no failure, each declared check is live with the declared settings, keeps its
  -- ping URL, UUID and status if it was live before, and is up if it is protected.
  pub verify-AllApplied :
      (wants : List Want) (before after : Dict Fields) (channels : List Json)
      → verify env wants before after channels ≡ returned []
      → AllApplied before after channels wants
  unfolding verify
  verify-AllApplied [] before after channels e = tt
  verify-AllApplied (want ∷ wants) before after channels e =
      let (here, there) =
        no_more (failures_of env want (find want.slug before) (find want.slug after) channels)
          (verify env wants before after channels) e in
      (
        failures_of-IsApplied before after channels want (find want.slug after) refl here,
        verify-AllApplied wants before after channels there,
      )
