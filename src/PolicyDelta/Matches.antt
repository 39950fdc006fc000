-- ===== src/PolicyDelta/Matches.antt =====
-- check-unifi-delta.py, `validate_pair`: what it says of a pair of policies.
use home_lab.Prelude.{◌≡◌, String, true, false, not, List, [], ◌∷◌, arith}
use home_lab.Program.{◌>>=◌, pure}
use home_lab.Program.Returns.{Returns, bind-Returns}
use home_lab.Json.{Json, obj, Fields, get, truthy}
use home_lab.PolicyDelta.{Reason, require, Equality, subscript, fields_of}
use home_lab.PolicyDelta.Pair.{
  Rule, is, same, true_at, falsy, falsy_or_none, present, set_is, is_true, set_of, same_set,
  run_rule, run_rules, pair_rules, validate_pair,
}
use home_lab.PolicyDelta.Reads.{require-Returns, fields_of-obj, Stands, subscript-Stands}

module _ (equal : Equality) where
  -- What each comparison says of the values that it reads
  abbrev pub Holds : Rule → Type 0
  Holds (is d k v) = (w : Json) × Stands d k w × (equal w v ≡ true)
  Holds (same d k e j) = (v : Json) × (w : Json) × Stands d k v × Stands e j w × (equal v w ≡ true)
  Holds (true_at d k) = (v : Json) × Stands d k v × (is_true v ≡ true)
  Holds (falsy d k) = (v : Json) × Stands d k v × (truthy v ≡ false)
  Holds (falsy_or_none d k) = (fs : Fields) × (d ≡ obj fs) × (truthy (get fs k) ≡ false)
  Holds (present d k) = (v : Json) × Stands d k v
  Holds (set_is d k vs) =
      (v : Json) × (ws : List Json) × Stands d k v × (same_set equal ws vs ≡ true)

  abbrev pub AllHold : List (Rule × Reason) → Type 0
  AllHold [] = Unit
  AllHold ((rule, reason) ∷ rules) = Holds rule × AllHold rules

  -- The pair is one that `validate_pair` is to admit.
  abbrev pub IsPair : Fields → Fields → String → Json → Type 0
  IsPair forward reply vip sources = AllHold (pair_rules forward reply vip sources)

  run_rule-Holds :
      (rule : Rule) (reason : Reason) → Returns (run_rule equal rule reason) tt tt tt → Holds rule
  unfolding run_rule
  run_rule-Holds (is d k v) reason r =
      let a = bind-Returns (subscript d k) (λ w. require (equal w v) reason) tt tt tt r in
      (a.value, subscript-Stands d k a.value a.first, require-Returns _ reason a.second)
  run_rule-Holds (same d k e j) reason r =
      let a =
        bind-Returns (subscript d k) (λ v. subscript e j >>= λ w. require (equal v w) reason) tt tt
          tt r in
      let b =
        bind-Returns (subscript e j) (λ w. require (equal a.value w) reason) tt tt tt a.second in
      (
        a.value,
        b.value,
        subscript-Stands d k a.value a.first,
        subscript-Stands e j b.value b.first,
        require-Returns _ reason b.second,
      )
  run_rule-Holds (true_at d k) reason r =
      let a = bind-Returns (subscript d k) (λ v. require (is_true v) reason) tt tt tt r in
      (a.value, subscript-Stands d k a.value a.first, require-Returns _ reason a.second)
  run_rule-Holds (falsy d k) reason r =
      let a = bind-Returns (subscript d k) (λ v. require (not (truthy v)) reason) tt tt tt r in
      let e = require-Returns (not (truthy a.value)) reason a.second in
      (a.value, subscript-Stands d k a.value a.first, ground (arith, e))
  run_rule-Holds (falsy_or_none d k) reason r =
      let a =
        bind-Returns (fields_of d) (λ fs. require (not (truthy (get fs k))) reason) tt tt tt r in
      let e = require-Returns (not (truthy (get a.value k))) reason a.second in
      (a.value, fields_of-obj d a.value a.first, ground (arith, e))
  run_rule-Holds (present d k) reason r =
      let a = bind-Returns (subscript d k) (λ _. pure tt) tt tt tt r in
      (a.value, subscript-Stands d k a.value a.first)
  run_rule-Holds (set_is d k vs) reason r =
      let a =
        bind-Returns (subscript d k) (λ v. set_of v >>= λ ws. require (same_set equal ws vs) reason)
          tt tt tt r in
      let b =
        bind-Returns (set_of a.value) (λ ws. require (same_set equal ws vs) reason) tt tt tt
          a.second in
      (a.value, b.value, subscript-Stands d k a.value a.first, require-Returns _ reason b.second)

  run_rules-AllHold :
      (rules : List (Rule × Reason)) → Returns (run_rules equal rules) tt tt tt → AllHold rules
  unfolding run_rules
  run_rules-AllHold [] r = tt
  run_rules-AllHold ((rule, reason) ∷ rules) r =
      let a = bind-Returns (run_rule equal rule reason) (λ _. run_rules equal rules) tt tt tt r in
      (run_rule-Holds rule reason a.first, run_rules-AllHold rules a.second)

  pub validate_pair-IsPair :
      (forward reply : Fields) (vip : String) (sources : Json)
      → Returns (validate_pair equal forward reply vip sources) tt tt tt
      → IsPair forward reply vip sources
  unfolding validate_pair
  validate_pair-IsPair forward reply vip sources r =
      run_rules-AllHold (pair_rules forward reply vip sources) r
