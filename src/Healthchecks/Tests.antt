-- ===== src/Healthchecks/Tests.antt =====
-- Runs of the healthchecks upsert against a small project, and its theorems at concrete inputs.
use home_lab.Prelude.{◌≡◌, refl, Bool, true, false, some, [], ◌∷◌, ◌==◌, str_eq}
use home_lab.Prelude.Int.{pos}
use home_lab.Prelude.Dict.{put}
use home_lab.Json.{Json, int, str, arr, obj, nil, cons, Fields, end, field}
use home_lab.Healthchecks.Declaration.{ok, check_fields, load_checks, checks_in, load_declaration}
use home_lab.Healthchecks.Declaration.Under.{AllDeclared}
use home_lab.Healthchecks.Declaration.Accepts.{load_declaration-AllDeclared}
use home_lab.Healthchecks.Service.{
  Want, Request, get_checks, get_channels, upsert, update, Reply, reply, returned, Env,
}
use home_lab.Healthchecks.Values.{managed}
use home_lab.Healthchecks.Live.{
  survey_wants, refusals, plan_entries, failures_of, verify, request_of,
}
use home_lab.Healthchecks.Live.Guards.{AllGuarded, refusals-AllGuarded}
use home_lab.Healthchecks.Live.Verified.{AllApplied, verify-AllApplied}
use home_lab.Healthchecks.Upsert.{
  call, fetch, survey, show_plan, confirm, recheck, send_one, send, check_after, carry_out, apply,
}
use home_lab.Healthchecks.Upsert.Sends.{Sends, apply-Sends}

-- The fields before the channels, with what follows.
abbrev watchdog_with : Fields → Fields
watchdog_with more = field "name" (str "k8s-prod Watchdog") (
    field "slug" (str "k8s-prod-watchdog") (
      field "tags" (str "") (
        field "desc" (str "")
          (field "timeout" (int (pos 300)) (field "grace" (int (pos 300)) more)))))

abbrev declared : Fields
declared = watchdog_with (field "channels" (str "*") end)

abbrev live : Fields
live = watchdog_with (
    field "channels" (str "c1")
      (field "status" (str "up") (field "uuid" (str "u") (field "ping_url" (str "p") end))))

abbrev want : Want
want = record { slug = "k8s-prod-watchdog"; fields = declared }

abbrev toy_equal : Json → Json → Bool
toy_equal (str a) (str b) = str_eq a b
toy_equal (int (pos a)) (int (pos b)) = a == b
toy_equal Json.null Json.null = true
toy_equal _ _ = false

abbrev answer : Request → Reply
answer get_checks = reply 200 (obj (field "checks" (arr (cons (obj live) nil)) end))
answer get_channels =
    reply 200 (obj (field "channels" (arr (cons (obj (field "id" (str "c1") end)) nil)) end))
answer (upsert b) = reply 201 (obj end)
answer (update u b) = reply 200 (obj end)

-- A project with the watchdog, up, on its one channel; "apply" is typed.
abbrev toy_env : Env
toy_env = record {
  api = λ request _. answer request;
  input = λ _. some "apply";
  equal = toy_equal;
  partial = λ _ _. "some";
}

apply_runs : (apply toy_env (want ∷ []) []).0 ≡ returned tt
unfolding apply carry_out check_after send send_one recheck confirm show_plan survey fetch call
    request_of verify failures_of plan_entries refusals survey_wants managed put
apply_runs = refl

apply-Sends_example : Sends toy_env (want ∷ []) [] (apply toy_env (want ∷ []) [])
apply-Sends_example = apply-Sends toy_env (want ∷ []) []

no_refusals : refusals toy_env (want ∷ []) (("k8s-prod-watchdog", live) ∷ []) ≡ returned []
unfolding refusals
no_refusals = refl

refusals-AllGuarded_example : AllGuarded toy_env (("k8s-prod-watchdog", live) ∷ []) (want ∷ [])
refusals-AllGuarded_example =
    refusals-AllGuarded toy_env (want ∷ []) (("k8s-prod-watchdog", live) ∷ []) no_refusals

no_failures :
    verify toy_env
      (want ∷ [])
      (("k8s-prod-watchdog", live) ∷ [])
      (("k8s-prod-watchdog", live) ∷ [])
      (str "c1" ∷ [])
    ≡ returned []
unfolding verify failures_of managed
no_failures = refl

verify-AllApplied_example :
    AllApplied toy_env
      (("k8s-prod-watchdog", live) ∷ [])
      (("k8s-prod-watchdog", live) ∷ [])
      (str "c1" ∷ [])
      (want ∷ [])
verify-AllApplied_example =
    verify-AllApplied toy_env (want ∷ []) (("k8s-prod-watchdog", live) ∷ [])
      (("k8s-prod-watchdog", live) ∷ []) (str "c1" ∷ []) no_failures

abbrev document : Json
document = arr (cons (obj declared) nil)

loads : load_declaration (some document) ≡ ok (declared ∷ [])
unfolding load_declaration load_checks check_fields
loads = refl

load_declaration-AllDeclared_example :
    (checks_in document ≡ some (declared ∷ [])) × AllDeclared [] (declared ∷ [])
load_declaration-AllDeclared_example = load_declaration-AllDeclared document (declared ∷ []) loads
