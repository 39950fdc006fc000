-- ===== src/PolicyDelta/Delta.antt =====
-- check-unifi-delta.py, `verify`: how the two snapshots differ when it accepts.
use home_lab.Prelude.{◌≡◌, subst, true, ◌&&◌, List, ◌++◌, arith}
use home_lab.Program.{◌>>=◌}
use home_lab.Program.Returns.{Returns, bind-Returns}
use home_lab.Json.{Json}
use home_lab.PolicyDelta.{other_policies, require, Equality, Policies, objects}
use home_lab.PolicyDelta.Verify.{
  propose_all, forwards, prepare, by_id, ids_of, verify_pairs, keys_within, verify_others,
  verify_proposed, verify_tables, verify,
}
use home_lab.PolicyDelta.Reads.{require-Returns}
use home_lab.PolicyDelta.Proposed.{objects-HasIds, AllProposed, propose_all-AllProposed}
use home_lab.PolicyDelta.Table.{IsExact, forward_ids, by_id-TableFor, TableFor-ids}
use home_lab.PolicyDelta.Others.{OthersSame, verify_others-OthersSame}
use home_lab.PolicyDelta.Changed.{PairsChanged, verify_pairs-PairsChanged}

module _ (equal : Equality) where
  -- How the two tables differ: the same IDs, the reviewed change of each forward rule and of its reply,
  -- and no other
  abbrev pub IsDelta : Policies → Policies → List Json → Type 0
  IsDelta before after returns =
      ((keys_within equal before after && keys_within equal after before) ≡ true)
      × PairsChanged equal before after forwards returns
      × OthersSame equal before after (forward_ids forwards ++ returns)

  -- If `==` with a text is true of that text only, and `verify` accepts two snapshots, then their
  -- tables have the same IDs; each forward rule and its only reply have the new addresses, form a pair
  -- as `validate_pair` wants it, and are else as they were; and every other policy is as it was. The
  -- two counters are left aside.
  pub verify-IsDelta :
      (before_snapshot after_snapshot : Json)
      → IsExact equal
      → Returns (verify equal before_snapshot after_snapshot) tt tt tt
      → (before : Policies) × (after : Policies) × (returns : List Json) × Returns
          (objects equal before_snapshot)
          tt
          before
          tt
        × Returns (objects equal after_snapshot) tt after tt
        × IsDelta before after returns
  unfolding verify prepare
  verify-IsDelta before_snapshot after_snapshot exact r =
      let a =
        bind-Returns (objects equal before_snapshot)
          (λ before. objects equal after_snapshot >>= λ after.
            verify_tables equal before_snapshot before after)
          tt tt tt r in
      let b =
        bind-Returns (objects equal after_snapshot)
          (λ after. verify_tables equal before_snapshot a.value after) tt tt tt a.second in
      let c =
        bind-Returns
          (require (keys_within equal a.value b.value && keys_within equal b.value a.value)
            other_policies)
          (λ _. prepare equal before_snapshot >>= λ changes.
            by_id changes >>= λ proposed. verify_proposed equal a.value b.value proposed)
          tt tt tt b.second in
      let d =
        bind-Returns (prepare equal before_snapshot)
          (λ changes. by_id changes >>= λ proposed. verify_proposed equal a.value b.value proposed)
          tt tt tt c.second in
      let e =
        bind-Returns (by_id d.value) (λ proposed. verify_proposed equal a.value b.value proposed) tt
          tt tt d.second in
      let f =
        bind-Returns (verify_pairs equal a.value b.value e.value forwards)
          (λ returns. verify_others equal b.value (ids_of e.value ++ returns) a.value) tt tt tt
          e.second in
      let g =
        bind-Returns (objects equal before_snapshot) (λ before. propose_all equal before forwards)
          tt d.value tt d.first in
      let same_table : g.value ≡ a.value = ground (arith, g.first, a.first) in
      let ids = objects-HasIds equal before_snapshot a.value a.first in
      let table =
        by_id-TableFor equal a.value forwards d.value e.value exact ids
          (subst (λ x. AllProposed equal x forwards d.value) same_table
            (propose_all-AllProposed equal g.value forwards d.value g.second))
          e.first in
      (
        a.value,
        b.value,
        f.value,
        a.first,
        b.first,
        (
          require-Returns _ other_policies c.first,
          verify_pairs-PairsChanged equal a.value b.value e.value forwards forwards f.value exact
              table f.first,
          subst (λ x. OthersSame equal a.value b.value (x ++ f.value))
              (TableFor-ids equal a.value forwards e.value table)
              (verify_others-OthersSame equal a.value b.value (ids_of e.value ++ f.value) f.second),
        ),
      )
