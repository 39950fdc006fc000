-- ===== src/PolicyDelta/Others.antt =====
-- check-unifi-delta.py, `verify`: its last loop.
use home_lab.Prelude.{
  ◌≡◌, sym, subst, true, false, some, List, [], ◌∷◌, In, inl, inr, if◌then◌else◌,
}
use home_lab.Program.{pure}
use home_lab.Program.Returns.{Returns, bind-Returns}
use home_lab.Json.{Json, Fields}
use home_lab.PolicyDelta.{unrelated_changed, require, Equality, Policies, find, policy}
use home_lab.PolicyDelta.Verify.{same_policy, is_changed, compare, verify_other, verify_others}
use home_lab.PolicyDelta.Reads.{require-Returns, policy-find}

module _ (equal : Equality) where
  -- No other policy has changed, but for the counters.
  abbrev pub OthersSame : Policies → Policies → List Json → Type 0
  OthersSame before after changed =
      (k : Json) (p : Fields)
      → In (k, p) before
      → is_changed equal changed k ≡ false
      → (q : Fields) × (find equal k after ≡ some q) × (same_policy equal p q ≡ true)

  compare-same :
      (after : Policies) (k : Json) (p : Fields)
      → Returns (compare equal after k p) tt tt tt
      → (q : Fields) × (find equal k after ≡ some q) × (same_policy equal p q ≡ true)
  compare-same after k p r =
      let a =
        bind-Returns (policy equal k after) (λ q. require (same_policy equal p q) unrelated_changed)
          tt tt tt r in
      (
        a.value,
        policy-find equal k after a.value a.first,
        require-Returns _ unrelated_changed a.second,
      )

  verify_other-same :
      (after : Policies) (changed : List Json) (k : Json) (p : Fields)
      → Returns (verify_other equal after changed k p) tt tt tt
      → is_changed equal changed k ≡ false
      → (q : Fields) × (find equal k after ≡ some q) × (same_policy equal p q ≡ true)
  unfolding verify_other
  verify_other-same after changed k p r out =
      compare-same after k p
        (subst (λ b. Returns (if b then pure tt else compare equal after k p) tt tt tt) out r)

  pub verify_others-OthersSame :
      (before after : Policies) (changed : List Json)
      → Returns (verify_others equal after changed before) tt tt tt
      → OthersSame before after changed
  unfolding verify_others
  verify_others-OthersSame [] after changed r k p m out = elim m [ ]
  verify_others-OthersSame ((j, q) ∷ rest) after changed r k p m out =
      let a =
        bind-Returns (verify_other equal after changed j q)
          (λ _. verify_others equal after changed rest) tt tt tt r in
      which m a.first (verify_others-OthersSame rest after changed a.second k p)
    where
      which :
          In (k, p) ((j, q) ∷ rest)
          → Returns (verify_other equal after changed j q) tt tt tt
          → (In (k, p) rest
              → is_changed equal changed k ≡ false
              → (q1 : Fields) × (find equal k after ≡ some q1) × (same_policy equal p q1 ≡ true))
          → (q1 : Fields) × (find equal k after ≡ some q1) × (same_policy equal p q1 ≡ true)
      which (inl e) f others =
          verify_other-same after changed k p
            (subst (λ x. Returns (verify_other equal after changed x.0 x.1) tt tt tt) (sym e) f) out
      which (inr n) f others = others n out
