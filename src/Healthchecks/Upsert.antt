-- ===== src/Healthchecks/Upsert.antt =====
-- healthchecks.py, `call`, `fetch`, `survey`, `preview`, `apply` and `inspect`.
pub mod Quiet
pub mod Order
pub mod Sends
use home_lab.Prelude.{
  ℕ, String, Bool, true, false, not, ◌&&◌, Option, none, some, List, [], ◌∷◌, ◌==◌, str_eq,
  if◌then◌else◌,
}
use home_lab.Prelude.Dict.{Dict, contains}
use home_lab.Json.{Json, Fields}
use home_lab.Healthchecks.Service.{
  Want, Request, get_checks, get_channels, Reply, reply, no_reply, Entry, Problem, Failure, Stop,
  request_failed, not_confirmed, changed_since, nothing_sent, wrong_status, unverified, Ending,
  returned, refused, crashed, called, shown, typed, Env, Step, pure, lift, ◌>>=◌, ◌>>◌,
}
use home_lab.Healthchecks.Values.{checks_of, channel_ids, distinct, managed}
use home_lab.Healthchecks.Live.{
  slugs_of, survey_wants, live_only_of, refusals, plan_entries, names_of, verify, Setting, settings,
  same_settings, request_of,
}

-- What `survey` returns.
pub record Survey : Type 0 where
  pub live : Dict Fields
  pub channels : List Json
  pub live_only : List Fields

abbrev pub received : Reply → Ending (ℕ × Json)
received (reply status document) = returned (status, document)
received no_reply = refused request_failed

-- `if problems: raise Refusal`
abbrev pub stop_on : List Problem → Ending (Unit {0})
stop_on [] = returned tt
stop_on (p ∷ ps) = refused (nothing_sent (p ∷ ps))

abbrev pub changed_on : List Problem → Ending (Unit {0})
changed_on [] = returned tt
changed_on (_ ∷ _) = refused changed_since

abbrev pub fail_on : List Failure → Ending (Unit {0})
fail_on [] = returned tt
fail_on (f ∷ fs) = refused (unverified (f ∷ fs))

-- The answer to the prompt; the end of the input raises EOFError.
abbrev pub confirmation : Option String → Ending (Unit {0})
confirmation none = crashed
confirmation (some text) = if str_eq text "apply" then returned tt else refused not_confirmed

module _ (env : Env) where
  unfoldable pub call : Request → Step (ℕ × Json)
  call request h = let answer = env.api request h in (received answer, called request answer ∷ h)

  unfoldable pub fetch : Step (List Fields × List Json)
  fetch = do
    answer ← call get_checks
    checks ← lift (checks_of answer.1)
    channel_answer ← call get_channels
    channels ← lift (channel_ids channel_answer.1)
    pure (checks, distinct env channels)

  unfoldable pub survey : List Want → Step Survey
  survey wants = do
    read ← fetch
    slugs ← lift (slugs_of read.0)
    live ← lift (survey_wants read.0 wants [])
    pure (record { live = live; channels = read.1; live_only = live_only_of live read.0 })

  unfoldable pub show_plan : List Want → Survey → Step (Unit {0})
  show_plan wants found = do
    entries ← lift (plan_entries env wants found.live found.channels)
    names ← lift (names_of env found.live_only)
    λ h. (returned tt, shown entries names ∷ h)

  -- Shows the plan and says what `apply` would refuse.
  unfoldable pub preview : List Want → Step (List Problem)
  preview wants = do
    found ← survey wants
    show_plan wants found
    lift (refusals env wants found.live)

  abbrev managed_all : List Fields → List Json → Ending (List Fields)
  managed_all [] channels = returned []
  managed_all (check ∷ checks) channels = elim (managed env check channels) [
    | refused why ↦ refused why
    | crashed ↦ crashed
    | returned m ↦ elim (managed_all checks channels) [
      | refused why ↦ refused why
      | crashed ↦ crashed
      | returned ms ↦ returned (m ∷ ms)
    ]
  ]

  unfoldable pub inspect : Step (List Fields)
  inspect = do read ← fetch; lift (managed_all read.0 read.1)

  -- `input(...) != "apply"`
  unfoldable pub confirm : Step (Unit {0})
  confirm h = (confirmation (env.input h), typed (env.input h) ∷ h)

  -- Whether what was planned is still so.
  abbrev pub same_or_stop : List (String × Setting) → List (String × Setting) → Ending (Unit {0})
  same_or_stop a b = if same_settings env a b then returned tt else refused changed_since

  unfoldable pub recheck : List Want → Survey → Survey → Step (Unit {0})
  recheck wants planned before = do
    now ← lift (settings env before.live before.channels)
    old ← lift (settings env planned.live planned.channels)
    lift (same_or_stop now old)
    problems ← lift (refusals env wants before.live)
    lift (changed_on problems)

  abbrev pub expected_status : Dict Fields → String → ℕ
  expected_status before slug = if contains slug before then 200 else 201

  abbrev pub status_or_stop : String → ℕ → ℕ → Ending (Unit {0})
  status_or_stop slug expected status =
      if status == expected then returned tt else refused (wrong_status slug expected status)

  unfoldable pub send_one : Dict Fields → Want → Step (Unit {0})
  send_one before want = do
    request ← lift (request_of env before want)
    answer ← call request
    lift (status_or_stop want.slug (expected_status before want.slug) answer.0)

  unfoldable pub send : Dict Fields → List Want → Step (Unit {0})
  send before [] = pure tt
  send before (want ∷ wants) = do send_one before want; send before wants

  unfoldable pub check_after : List Want → Dict Fields → Step (Unit {0})
  check_after wants before = do
    after ← survey wants
    failures ← lift (verify env wants before after.live after.channels)
    lift (fail_on failures)

  -- `apply` from the second survey on
  unfoldable pub carry_out : List Want → Survey → Step (Unit {0})
  carry_out wants planned = do
    before ← survey wants
    recheck wants planned before
    send before.live wants
    check_after wants before.live

  unfoldable pub apply : List Want → Step (Unit {0})
  apply wants = do
    planned ← survey wants
    show_plan wants planned
    problems ← lift (refusals env wants planned.live)
    lift (stop_on problems)
    confirm
    carry_out wants planned
