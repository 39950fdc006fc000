-- ===== src/PolicyDelta/Tests.antt =====
-- check-unifi-delta.py at concrete inputs: two forward rules with their replies, and one more policy.
use home_lab.Prelude.{
  ◌≡◌, refl, ap, String, Bool, true, false, ◌&&◌, List, [], ◌∷◌, str_eq, str_eq_iff, arith,
}
use home_lab.Prelude.Int.{pos, int_eq}
use home_lab.Program.{raised}
use home_lab.Program.Returns.{Returns}
use home_lab.Json.{Json, null, bool, int, real, str, arr, obj, Items, nil, cons, Fields, end, field}
use home_lab.PolicyDelta.{Policies, unrelated_changed, rejected, collect, objects, semantic}
use home_lab.PolicyDelta.Pair.{remote, internal, only, run_rule, run_rules, validate_pair}
use home_lab.PolicyDelta.Verify.{
  forwards, old_sources, new_sources, with_new_ips, propose, propose_all, prepare, by_id,
  verify_pair, verify_pairs, verify_other, verify_others, verify,
}
use home_lab.PolicyDelta.Table.{IsExact}
use home_lab.PolicyDelta.Proposed.{AllProposed, prepare-AllProposed}
use home_lab.PolicyDelta.Delta.{IsDelta, verify-IsDelta}

abbrev mutual
  -- `==` of two documents with the same order of keys
  same_json : Json → Json → Bool
  same_json null null = true
  same_json (bool true) (bool true) = true
  same_json (bool false) (bool false) = true
  same_json (int m) (int n) = int_eq m n
  same_json (str s) (str t) = str_eq s t
  same_json (arr xs) (arr ys) = same_items xs ys
  same_json (obj d) (obj e) = same_fields d e
  same_json _ _ = false

  same_items : Items → Items → Bool
  same_items nil nil = true
  same_items (cons x xs) (cons y ys) = same_json x y && same_items xs ys
  same_items _ _ = false

  same_fields : Fields → Fields → Bool
  same_fields end end = true
  same_fields (field k v d) (field j w e) = str_eq k j && (same_json v w && same_fields d e)
  same_fields _ _ = false

same_json-IsExact : IsExact same_json
same_json-IsExact (str t) s e = ap str ((str_eq_iff t s).0 e)
same_json-IsExact null s e = ground (arith, e)
same_json-IsExact (bool true) s e = ground (arith, e)
same_json-IsExact (bool false) s e = ground (arith, e)
same_json-IsExact (int _) s e = ground (arith, e)
same_json-IsExact (real _ _) s e = ground (arith, e)
same_json-IsExact (arr _) s e = ground (arith, e)
same_json-IsExact (obj _) s e = ground (arith, e)

abbrev side : Json → Json → String → Json
side ips zone ports = obj (
    field "ips" ips (
      field "zone_id" zone (
        field "matching_target" (str "IP") (
          field "matching_target_type" (str "SPECIFIC") (
            field "match_opposite_ips" (bool false) (
              field "match_opposite_ports" (bool false)
                (field "port" (str "443") (field "port_matching_type" (str ports) end))))))))

abbrev common : Fields → Fields
common rest = field "action" (str "ALLOW") (
    field "enabled" (bool true)
      (field "protocol" (str "tcp") (field "ip_version" (str "IPV4") (rest))))

-- A forward rule with these sources, and this counter
abbrev forward_of : String → String → Json → Json → Json
forward_of ident vip sources hits = obj (
    common (
      field "_id" (str ident) (
        field "hits" hits (
          field "create_allow_respond" (bool true) (
            field "connection_state_type" (str "ALL") (
              field "connection_states" (arr nil) (
                field "schedule" (obj (field "mode" (str "ALWAYS") end)) (
                  field "source" (side sources remote "ANY")
                    (field "destination" (side (only vip) internal "SPECIFIC") end)))))))))

abbrev return_of : String → String → String → Json → Json
return_of id ident vip sources = obj (
    common (
      field "_id" (str id) (
        field "origin_id" (str ident) (
          field "connection_state_type" (str "RESPOND_ONLY") (
            field "connection_states" (arr (cons (str "RELATED") (cons (str "ESTABLISHED") nil))) (
              field "source" (side (only vip) internal "SPECIFIC")
                (field "destination" (side sources remote "ANY") end)))))))

abbrev other_policy : String → Json
other_policy action = obj (field "_id" (str "other") (field "action" (str action) end))

abbrev snapshot : Json → Json → Json → Json
snapshot sources hits other = arr (
    cons (forward_of "6ab93666519d986cdf987240" "10.32.140.1" sources hits) (
      cons (return_of "r1" "6ab93666519d986cdf987240" "10.32.140.1" sources) (
        cons (forward_of "6ad6c08f519d986cdf2ee284" "10.32.130.1" sources hits) (
          cons (return_of "r2" "6ad6c08f519d986cdf2ee284" "10.32.130.1" sources)
            (cons other nil)))))

abbrev snapshot_before : Json
snapshot_before = snapshot old_sources (int (pos 1)) (other_policy "BLOCK")

abbrev snapshot_after : Json
snapshot_after = snapshot new_sources (int (pos 7)) (other_policy "BLOCK")

-- A policy beside the rules that was changed too is found.
unrelated_change :
    (verify same_json snapshot_before
      (snapshot new_sources (int (pos 7)) (other_policy "ALLOW"))
      tt).0
    ≡ raised (rejected unrelated_changed)
unfolding verify objects collect prepare propose_all propose validate_pair run_rules run_rule
    with_new_ips by_id verify_pairs verify_pair verify_others verify_other semantic
unrelated_change = refl

verify-IsDelta_example :
    (before : Policies) × (after : Policies) × (returns : List Json) × Returns
      (objects same_json snapshot_before)
      tt
      before
      tt
    × Returns (objects same_json snapshot_after) tt after tt
    × IsDelta same_json before after returns
unfolding verify objects collect prepare propose_all propose validate_pair run_rules run_rule
    with_new_ips by_id verify_pairs verify_pair verify_others verify_other semantic
verify-IsDelta_example =
    verify-IsDelta same_json snapshot_before snapshot_after same_json-IsExact refl

abbrev fields : Json → Fields
fields (obj d) = d
fields _ = end

abbrev proposal : String → String → Fields
proposal ident vip = fields (forward_of ident vip new_sources (int (pos 1)))

abbrev proposals : List Fields
proposals =
    proposal "6ab93666519d986cdf987240" "10.32.140.1"
    ∷ proposal "6ad6c08f519d986cdf2ee284" "10.32.130.1"
    ∷ []

prepare-AllProposed_example :
    (before : Policies) × Returns (objects same_json snapshot_before) tt before tt
    × AllProposed same_json before forwards proposals
unfolding objects collect prepare propose_all propose validate_pair run_rules run_rule with_new_ips
prepare-AllProposed_example = prepare-AllProposed same_json snapshot_before proposals refl
