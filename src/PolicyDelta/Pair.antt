-- ===== src/PolicyDelta/Pair.antt =====
-- check-unifi-delta.py: `validate_pair`.
use home_lab.Prelude.{
  String, Bool, true, false, not, ◌&&◌, ◌||◌, Option, none, some, List, [], ◌∷◌, ◌++◌,
  if◌then◌else◌,
}
use home_lab.Program.{pure, raise, ◌>>=◌}
use home_lab.Json.{
  Json, bool, str, arr, obj, nil, cons, Fields, end, field, get, truthy, iterate, is_hashable,
}
use home_lab.PolicyDelta.{
  Reason, not_allow, disabled, other_protocol, other_version, no_response, other_origin,
  other_return_state, other_forward_state, other_schedule, other_address, other_target,
  inverted_match, other_port, wide_scope, inverted_protocol, bad_value, Check, require, Equality,
  fields_of, subscript,
}

-- REMOTE, INTERNAL
abbrev pub remote : Json
remote = str "6a97a4d7a6bd0ee70a238923"

abbrev pub internal : Json
internal = str "677f0352a46263726567a989"

-- `v is True`
abbrev pub is_true : Json → Bool
is_true (bool b) = b
is_true _ = false

abbrev pub all_hashable : List Json → Bool
all_hashable [] = true
all_hashable (v ∷ vs) = is_hashable v && all_hashable vs

-- `set(v)`, as a list with every item of it
abbrev pub set_of : Json → Check (List Json)
set_of v = elim (iterate v) [
  | none ↦ raise bad_value
  | some vs ↦ if all_hashable vs then pure vs else raise bad_value
]

module _ (equal : Equality) where
  abbrev pub is_among : Json → List Json → Bool
  is_among v [] = false
  is_among v (w ∷ ws) = equal v w || is_among v ws

  abbrev pub is_within : List Json → List Json → Bool
  is_within [] ws = true
  is_within (v ∷ vs) ws = is_among v ws && is_within vs ws

  -- Equality of two sets
  abbrev pub same_set : List Json → List Json → Bool
  same_set vs ws = is_within vs ws && is_within ws vs

-- One comparison of a condition: `d[k] == v`, `d[k] == e[j]`, `d[k] is True`, `not d[k]`,
-- `not d.get(k)`, `set(d[k]) == set(vs)`, and `d[k]` on its own, which has to be there.
pub data Rule : Type 0 where
  is : Json → String → Json → Rule
  same : Json → String → Json → String → Rule
  true_at falsy falsy_or_none present : Json → String → Rule
  set_is : Json → String → List Json → Rule

module _ (equal : Equality) where
  unfoldable pub run_rule : Rule → Reason → Check (Unit {0})
  run_rule (is d k v) reason = subscript d k >>= λ w. require (equal w v) reason
  run_rule (same d k e j) reason =
      subscript d k >>= λ v. subscript e j >>= λ w. require (equal v w) reason
  run_rule (true_at d k) reason = subscript d k >>= λ v. require (is_true v) reason
  run_rule (falsy d k) reason = subscript d k >>= λ v. require (not (truthy v)) reason
  run_rule (falsy_or_none d k) reason =
      fields_of d >>= λ fs. require (not (truthy (get fs k))) reason
  run_rule (present d k) reason = subscript d k >>= λ _. pure tt
  run_rule (set_is d k vs) reason =
      subscript d k >>= λ v. set_of v >>= λ ws. require (same_set equal ws vs) reason

  unfoldable pub run_rules : List (Rule × Reason) → Check (Unit {0})
  run_rules [] = pure tt
  run_rules ((rule, reason) ∷ rules) = run_rule rule reason >>= λ _. run_rules rules

abbrev pub port_rules : Json → Option String → List (Rule × Reason)
port_rules endpoint (some port) =
    (is endpoint "port" (str port), other_port)
    ∷ (is endpoint "port_matching_type" (str "SPECIFIC"), other_port)
    ∷ []
port_rules endpoint none =
    (is endpoint "port_matching_type" (str "ANY"), wide_scope)
    ∷ (falsy_or_none endpoint "match_mac", wide_scope)
    ∷ []

-- The body of the loop over the endpoints
abbrev pub endpoint_rules : Json → Json → Json → Option String → List (Rule × Reason)
endpoint_rules endpoint ips zone port =
    (is endpoint "ips" ips, other_address)
    ∷ (is endpoint "zone_id" zone, other_address)
    ∷ (is endpoint "matching_target" (str "IP"), other_target)
    ∷ (is endpoint "matching_target_type" (str "SPECIFIC"), other_target)
    ∷ (falsy endpoint "match_opposite_ips", inverted_match)
    ∷ (falsy endpoint "match_opposite_ports", inverted_match)
    ∷ port_rules endpoint port

-- The conditions before the loop over the endpoints, and its four endpoints
abbrev pub policy_rules : Json → Json → List (Rule × Reason)
policy_rules forward reply =
    (same forward "action" reply "action", not_allow)
    ∷ (is reply "action" (str "ALLOW"), not_allow)
    ∷ (true_at forward "enabled", disabled)
    ∷ (true_at reply "enabled", disabled)
    ∷ (same forward "protocol" reply "protocol", other_protocol)
    ∷ (is reply "protocol" (str "tcp"), other_protocol)
    ∷ (same forward "ip_version" reply "ip_version", other_version)
    ∷ (is reply "ip_version" (str "IPV4"), other_version)
    ∷ (true_at forward "create_allow_respond", no_response)
    ∷ (same reply "origin_id" forward "_id", other_origin)
    ∷ (is reply "connection_state_type" (str "RESPOND_ONLY"), other_return_state)
    ∷ (
      set_is reply "connection_states" (str "RELATED" ∷ str "ESTABLISHED" ∷ []),
      other_return_state,
    )
    ∷ (is forward "connection_state_type" (str "ALL"), other_forward_state)
    ∷ (falsy forward "connection_states", other_forward_state)
    ∷ (is forward "schedule" (obj (field "mode" (str "ALWAYS") end)), other_schedule)
    ∷ (present forward "source", other_address)
    ∷ (present forward "destination", other_address)
    ∷ (present reply "source", other_address)
    ∷ (present reply "destination", other_address)
    ∷ []

-- `[vip]`
abbrev pub only : String → Json
only vip = arr (cons (str vip) nil)

abbrev pub pair_rules : Fields → Fields → String → Json → List (Rule × Reason)
pair_rules forward reply vip sources =
    policy_rules (obj forward) (obj reply)
    ++ endpoint_rules (get forward "source") sources remote none
    ++ endpoint_rules (get forward "destination") (only vip) internal (some "443")
    ++ endpoint_rules (get reply "source") (only vip) internal (some "443")
    ++ endpoint_rules (get reply "destination") sources remote none
    ++ (falsy_or_none (obj forward) "match_opposite_protocol", inverted_protocol)
      ∷ (falsy_or_none (obj reply) "match_opposite_protocol", inverted_protocol)
      ∷ []

-- `validate_pair`
unfoldable pub validate_pair : Equality → Fields → Fields → String → Json → Check (Unit {0})
validate_pair equal forward reply vip sources =
    run_rules equal (pair_rules forward reply vip sources)
