-- ===== src/Healthchecks/Live.antt =====
-- healthchecks.py, the live checks: the loops of `survey`, `refusals`, `show_plan`, `verify`.
pub mod Guards
pub mod Verified
use Prim.Native.Char.{code}
use home_lab.Prelude.{
  ℕ, String, Bool, true, false, not, ◌&&◌, ◌||◌, Option, none, some, List, [], ◌∷◌, ◌++◌, length,
  ltb, ◌==◌, str_eq, map, if◌then◌else◌,
}
use home_lab.Prelude.Dict.{Dict, put, contains}
use home_lab.Json.{
  Json, str, Items, nil, cons, arr, obj, Fields, end, field, list_of, keys_of, get, has, as_dict,
  truthy, is_empty,
}
use home_lab.Healthchecks.Declaration.{text_fields, timing_of, member}
use home_lab.Healthchecks.Service.{
  Want, Request, Entry, creates, updates, Problem, missing, not_up, timing_differs, Failure, lost,
  mismatched, url_changed, status_changed, down, Stop, ambiguous, Ending, returned, refused,
  crashed, Env,
}
use home_lab.Healthchecks.Values.{
  add_letter, agrees, assigned_of, at, channel_ids, channels_text, chars_of, checks_of, dicts,
  differs, distinct, each, everything, is_among, is_protected, is_slug_of, is_within, iterate,
  managed, picked, same_dict, split_commas, subscript, ◌>>=◌,
}

-- TIMING
abbrev pub timing_fields : List String
timing_fields = "timeout" ∷ "schedule" ∷ "tz" ∷ "grace" ∷ []

abbrev pub matches : String → List Fields → List Fields
matches slug [] = []
matches slug (check ∷ checks) =
    if is_slug_of slug check then check ∷ matches slug checks else matches slug checks

abbrev pub put_all : String → List Fields → Dict Fields → Dict Fields
put_all slug [] live = live
put_all slug (check ∷ checks) live = put_all slug checks (put slug check live)

-- The loop of `survey`.
unfoldable pub survey_wants : List Fields → List Want → Dict Fields → Ending (Dict Fields)
survey_wants checks [] live = returned live
survey_wants checks (want ∷ wants) live =
    if ltb 1 (length (matches want.slug checks))
    then refused (ambiguous want.slug)
    else survey_wants checks wants (put_all want.slug (matches want.slug checks) live)

-- `live.get(slug)`
abbrev pub find : String → Dict Fields → Option Fields
find slug [] = none
find slug ((k, check) ∷ live) = if str_eq k slug then some check else find slug live

-- `check["slug"] not in live`
abbrev pub is_live : Dict Fields → Fields → Bool
is_live live check = elim (get check "slug") [ str s ↦ contains s live | _ ↦ false ]

-- `[check["slug"] for check in checks]`, which raises on a check with no slug
abbrev pub slugs_of : List Fields → Ending (List Json)
slugs_of [] = returned []
slugs_of (check ∷ checks) =
    at check "slug" >>= λ slug. slugs_of checks >>= λ slugs. returned (slug ∷ slugs)

abbrev pub live_only_of : Dict Fields → List Fields → List Fields
live_only_of live [] = []
live_only_of live (check ∷ checks) =
    if is_live live check then live_only_of live checks else check ∷ live_only_of live checks

-- `body`: `{**want, "unique": ["slug"]}`, where a declared check has no field `unique`
abbrev pub with_unique : Fields → Fields
with_unique end = field "unique" (arr (cons (str "slug") nil)) end
with_unique (field k v d) = field k v (with_unique d)

abbrev pub body : Want → Fields
body want = if is_protected want.slug then want.fields else with_unique want.fields

module _ (env : Env) where
  abbrev pub problem_if : Bool → Problem → List Problem → List Problem
  problem_if b p ps = if b then p ∷ ps else ps

  -- The body of the loop of `refusals`, for a protected check.
  abbrev pub protected_problems : Want → Option Fields → Ending (List Problem)
  protected_problems want none = returned (missing want.slug ∷ [])
  protected_problems want (some have) = at have "status" >>= λ status. returned (
      problem_if (not (env.equal status (str "up"))) (not_up want.slug status)
        (problem_if (differs env have want.fields timing_fields) (timing_differs want.slug) []))

  unfoldable pub refusals : List Want → Dict Fields → Ending (List Problem)
  refusals [] live = returned []
  refusals (want ∷ wants) live =
      let rest = refusals wants live in
      if is_protected want.slug
      then (protected_problems want (find want.slug live) >>= λ problems.
          rest >>= λ more. returned (problems ++ more))
      else rest

  -- The keys, each once, whose values differ; `seen` are those before.
  abbrev pub changed_keys : Fields → Fields → List String → List String → List String
  changed_keys current want seen [] = []
  changed_keys current want seen (k ∷ ks) =
      let rest = changed_keys current want (k ∷ seen) ks in
      if member k seen || env.equal (get current k) (get want k) then rest else k ∷ rest

  abbrev pub entry_of : Want → Option Fields → List Json → Ending Entry
  entry_of want none channels = returned (creates want.slug (body want))
  entry_of want (some have) channels = managed env have channels >>= λ current.
      at have "status" >>= λ status. returned (
        updates want.slug status
          (changed_keys current want.fields [] (keys_of current ++ keys_of want.fields))
          (body want))

  -- What `show_plan` shows of the declared checks.
  unfoldable pub plan_entries : List Want → Dict Fields → List Json → Ending (List Entry)
  plan_entries [] live channels = returned []
  plan_entries (want ∷ wants) live channels =
      let rest = plan_entries wants live channels in
      entry_of want (find want.slug live) channels >>= λ e. rest >>= λ es. returned (e ∷ es)

  abbrev pub names_of : List Fields → Ending (List Json)
  names_of [] = returned []
  names_of (check ∷ checks) =
      at check "name" >>= λ name. names_of checks >>= λ names. returned (name ∷ names)

  abbrev pub failure_if : Bool → Failure → List Failure → List Failure
  failure_if b f fs = if b then f ∷ fs else fs

  -- `now[k] != was[k]`
  abbrev pub is_changed : String → Fields → Fields → Ending Bool
  is_changed k now was = at now k >>= λ v. at was k >>= λ w. returned (not (env.equal v w))

  -- The failures of a check that was live before.
  abbrev pub drift : String → Option Fields → Fields → Ending (List Failure)
  drift slug none now = returned []
  drift slug (some was) now = is_changed "ping_url" now was >>= λ url.
      (if url then returned true else is_changed "uuid" now was) >>= λ moved.
      at now "status" >>= λ status. at was "status" >>= λ old_status. returned (
        failure_if moved (url_changed slug) (
          failure_if (not (env.equal status old_status)) (status_changed slug old_status status)
            []))

  abbrev pub fall : String → Fields → Ending (List Failure)
  fall slug now =
      if is_protected slug
      then (at now "status" >>= λ status.
          returned (failure_if (not (env.equal status (str "up"))) (down slug status) []))
      else returned []

  -- The body of the loop of `verify`.
  unfoldable pub failures_of :
      Want → Option Fields → Option Fields → List Json → Ending (List Failure)
  failures_of want was none channels = returned (lost want.slug ∷ [])
  failures_of want was (some now) channels = managed env now channels >>= λ current.
      drift want.slug was now >>= λ drifted. fall want.slug now >>= λ fallen. returned (
        failure_if (not (same_dict env current want.fields)) (mismatched want.slug)
          (drifted ++ fallen))

  unfoldable pub verify : List Want → Dict Fields → Dict Fields → List Json → Ending (List Failure)
  verify [] before after channels = returned []
  verify (want ∷ wants) before after channels =
      let rest = verify wants before after channels in
      failures_of want (find want.slug before) (find want.slug after) channels >>= λ failures.
      rest >>= λ more. returned (failures ++ more)

-- What `apply` compares of a live check: `(managed(c), c["uuid"], c["ping_url"], c["status"])`.
pub record Setting : Type 0 where
  pub current : Fields
  pub uuid : Json
  pub ping_url : Json
  pub status : Json

module _ (env : Env) where
  abbrev pub settings : Dict Fields → List Json → Ending (List (String × Setting))
  settings [] channels = returned []
  settings ((slug, c) ∷ live) channels = managed env c channels >>= λ m. at c "uuid" >>= λ uuid.
      at c "ping_url" >>= λ url. at c "status" >>= λ status. settings live channels >>= λ rest.
      returned ((slug, record { current = m; uuid = uuid; ping_url = url; status = status }) ∷ rest)

  abbrev pub same_setting : Setting → Setting → Bool
  same_setting a b =
      same_dict env a.current b.current
      && (env.equal a.uuid b.uuid
          && (env.equal a.ping_url b.ping_url && env.equal a.status b.status))

  abbrev pub has_setting : String → Setting → List (String × Setting) → Bool
  has_setting slug a [] = false
  has_setting slug a ((k, b) ∷ bs) =
      if str_eq k slug then same_setting a b else has_setting slug a bs

  abbrev pub settings_within : List (String × Setting) → List (String × Setting) → Bool
  settings_within [] bs = true
  settings_within ((slug, a) ∷ rest) bs = has_setting slug a bs && settings_within rest bs

  abbrev pub same_settings : List (String × Setting) → List (String × Setting) → Bool
  same_settings a b = settings_within a b && settings_within b a

  -- `before[slug]["uuid"]`
  abbrev pub uuid_in : Option Fields → Ending Json
  uuid_in none = crashed
  uuid_in (some check) = at check "uuid"

  -- The request of one declared check: a protected one is addressed by its UUID.
  unfoldable pub request_of : Dict Fields → Want → Ending Request
  request_of before want =
      if is_protected want.slug
      then (uuid_in (find want.slug before) >>= λ uuid. returned (Request.update uuid (body want)))
      else returned (Request.upsert (body want))
