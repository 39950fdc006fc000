-- ===== src/PolicyDelta/Changed.antt =====
-- check-unifi-delta.py, `verify`: its loop over the forward rules.
use home_lab.Prelude.{◌≡◌, sym, ap, subst, ◌∙◌, String, true, some, List, [], ◌∷◌, arith}
use home_lab.Program.{◌>>=◌, pure}
use home_lab.Program.Returns.{Returns, bind-Returns}
use home_lab.Json.{Json, str, Fields, get}
use home_lab.PolicyDelta.{
  forward_changed, return_changed, duplicate_return, require, Equality, at, Policies, find, policy,
}
use home_lab.PolicyDelta.Pair.{validate_pair}
use home_lab.PolicyDelta.Verify.{
  new_sources, with_new_ips, replies_to, only_reply, first_reply, same_policy, compare_both,
  verify_both, verify_reply, verify_return, verify_pair, verify_pairs,
}
use home_lab.PolicyDelta.Reads.{require-Returns, at-Returns, policy-find}
use home_lab.PolicyDelta.Matches.{IsPair, validate_pair-IsPair}
use home_lab.PolicyDelta.Proposed.{IsChange, with_new_ips-IsChange}
use home_lab.PolicyDelta.Table.{IsExact, TableFor, TableFor-find}

module _ (equal : Equality) where
  -- The policy after is the policy before with the new addresses on this side, but for the counters.
  abbrev pub IsChanged : String → Fields → Fields → Type 0
  IsChanged side p q = (c : Fields) × IsChange side p c × (same_policy equal q c ≡ true)

  -- A forward rule and its reply, before and after
  abbrev pub PairChanged : Policies → Policies → String → String → Json → Type 0
  PairChanged before after ident vip id =
      (old : Fields) × (new : Fields) × (old_return : Fields) × (new_return : Fields) × (find equal
          (str ident) before
        ≡ some old)
      × (find equal (str ident) after ≡ some new)
      × (replies_to equal (str ident) before ≡ old_return ∷ [])
      × (get old_return "_id" ≡ id)
      × (find equal id after ≡ some new_return)
      × IsPair equal new new_return vip new_sources
      × IsChanged "source" old new
      × IsChanged "destination" old_return new_return

  abbrev pub PairsChanged : Policies → Policies → List (String × String) → List Json → Type 0
  PairsChanged before after [] [] = Unit
  PairsChanged before after ((ident, vip) ∷ fs) (id ∷ ids) =
      PairChanged before after ident vip id × PairsChanged before after fs ids
  PairsChanged before after _ _ = ⊥

  first_reply-first :
      (ps : List Fields) (p q : Fields) → ps ≡ q ∷ [] → Returns (first_reply ps) tt p tt → q ≡ p
  first_reply-first ps p q e r =
      let found : Returns (first_reply (q ∷ [])) tt p tt =
        subst (λ x. Returns (first_reply x) tt p tt) e r in
      ground (arith, found)

  verify_pair-PairChanged :
      (before after proposed : Policies) (fs : List (String × String)) (ident vip : String)
      (id : Json)
      → IsExact equal
      → TableFor equal before fs proposed
      → Returns (verify_pair equal before after proposed ident vip) tt id tt
      → PairChanged before after ident vip id
  unfolding verify_pair
  verify_pair-PairChanged before after proposed fs ident vip id exact table r =
      let a =
        bind-Returns (first_reply (replies_to equal (str ident) before))
          (λ old. at old "_id" >>= λ i. verify_return equal after proposed ident vip old i) tt id tt
          r in
      let b =
        bind-Returns (at a.value "_id")
          (λ i. verify_return equal after proposed ident vip a.value i) tt id tt a.second in
      let c =
        bind-Returns (policy equal b.value after)
          (λ reply. verify_reply equal after proposed ident vip a.value reply >>= λ _. pure b.value)
          tt id tt b.second in
      let d =
        bind-Returns (verify_reply equal after proposed ident vip a.value c.value)
          (λ _. pure b.value) tt id tt c.second in
      let e =
        bind-Returns (only_reply duplicate_return (replies_to equal (str ident) after))
          (λ _. policy equal (str ident) after >>= λ f.
            verify_both equal proposed ident vip a.value c.value f)
          tt tt tt d.first in
      let f =
        bind-Returns (policy equal (str ident) after)
          (λ f. verify_both equal proposed ident vip a.value c.value f) tt tt tt e.second in
      let g =
        bind-Returns (validate_pair equal f.value c.value vip new_sources)
          (λ _. with_new_ips "destination" a.value >>= λ x.
            policy equal (str ident) proposed >>= λ y. compare_both equal f.value y c.value x)
          tt tt tt f.second in
      let h =
        bind-Returns (with_new_ips "destination" a.value)
          (λ x. policy equal (str ident) proposed >>= λ y. compare_both equal f.value y c.value x)
          tt tt tt g.second in
      let i =
        bind-Returns (policy equal (str ident) proposed)
          (λ y. compare_both equal f.value y c.value h.value) tt tt tt h.second in
      let j =
        bind-Returns (require (same_policy equal f.value i.value) forward_changed)
          (λ _. require (same_policy equal c.value h.value) return_changed) tt tt tt i.second in
      let found =
        TableFor-find equal before fs proposed ident i.value exact table
          (policy-find equal (str ident) proposed i.value i.first) in
      let plan = found.1 in
      let id_is : b.value ≡ id = ground (arith, d.second) in
      let old_is =
        first_reply-first (replies_to equal (str ident) before) a.value plan.1 plan.3 a.first in
      (
        plan.0,
        f.value,
        a.value,
        c.value,
        plan.2,
        policy-find equal (str ident) after f.value f.first,
        plan.3 ∙ ap (λ x. x ∷ []) old_is,
        (at-Returns a.value "_id" b.value b.first).1 ∙ id_is,
        ap (λ x. find equal x after) (sym id_is) ∙ policy-find equal b.value after c.value c.first,
        validate_pair-IsPair equal f.value c.value vip new_sources g.first,
        (i.value, plan.5, require-Returns _ forward_changed j.first),
        (
          h.value,
          with_new_ips-IsChange "destination" a.value h.value h.first,
          require-Returns _ return_changed j.second,
        ),
      )

  pub verify_pairs-PairsChanged :
      (before after proposed : Policies) (gs fs : List (String × String)) (ids : List Json)
      → IsExact equal
      → TableFor equal before gs proposed
      → Returns (verify_pairs equal before after proposed fs) tt ids tt
      → PairsChanged before after fs ids
  unfolding verify_pairs
  verify_pairs-PairsChanged before after proposed gs [] ids exact table r =
      let ids_are : [] ≡ ids = ground (arith, r) in subst (PairsChanged before after []) ids_are tt
  verify_pairs-PairsChanged before after proposed gs ((ident, vip) ∷ fs) ids exact table r =
      let a =
        bind-Returns (verify_pair equal before after proposed ident vip)
          (λ id. verify_pairs equal before after proposed fs >>= λ rest. pure (id ∷ rest)) tt ids tt
          r in
      let b =
        bind-Returns (verify_pairs equal before after proposed fs) (λ rest. pure (a.value ∷ rest))
          tt ids tt a.second in
      let ids_are : a.value ∷ b.value ≡ ids = ground (arith, b.second) in
      subst (PairsChanged before after ((ident, vip) ∷ fs)) ids_are (
        verify_pair-PairChanged before after proposed gs ident vip a.value exact table a.first,
        verify_pairs-PairsChanged before after proposed gs fs b.value exact table b.first,
      )
