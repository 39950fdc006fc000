-- ===== src/PolicyDelta/Proposed.antt =====
-- check-unifi-delta.py: the tables of `objects`, and what `prepare` proposes.
use home_lab.Prelude.{
  ◌≡◌, refl, sym, ap, subst, ◌∙◌, String, Bool, true, false, not, some, List, [], ◌∷◌, ◌++◌, arith,
  str_eq, str_eq_iff, if◌then◌else◌,
}
use home_lab.Program.{◌>>=◌, pure, raise_if}
use home_lab.Program.Returns.{Returns, bind-Returns}
use home_lab.Json.{Json, str, obj, Fields, end, field, get, is_hashable}
use home_lab.PolicyDelta.{
  Reason, duplicate_id, not_one_return, bad_value, require, Equality, subscript, at, fields_of,
  Policies, has_id, find, policy, collect, selected, list_or_reject, objects, put,
}
use home_lab.PolicyDelta.Pair.{validate_pair}
use home_lab.PolicyDelta.Verify.{
  old_sources, new_sources, with_new_ips, replies_to, only_reply, propose, propose_all, forwards,
  prepare,
}
use home_lab.PolicyDelta.Reads.{fields_of-obj, at-Returns, Stands, subscript-Stands, policy-find}
use home_lab.PolicyDelta.Matches.{IsPair, validate_pair-IsPair}

-- Each policy stands under its own ID.
abbrev pub HasIds : Policies → Type 0
HasIds [] = Unit
HasIds ((k, p) ∷ ps) = (get p "_id" ≡ k) × HasIds ps

HasIds-append : (ps qs : Policies) → HasIds ps → HasIds qs → HasIds (ps ++ qs)
HasIds-append [] qs h g = g
HasIds-append ((k, p) ∷ ps) qs h g = (h.0, HasIds-append ps qs h.1 g)

abbrev as_fields : Json → Fields
as_fields (obj d) = d
as_fields _ = end

pub Stands-get :
    (v : Json) (k : String) (w : Json) (p : Fields) → Stands v k w → v ≡ obj p → get p k ≡ w
Stands-get v k w p s e =
    let d_is : s.0 ≡ p = ap as_fields (sym s.1 ∙ e) in ap (λ d. get d k) (sym d_is) ∙ s.3

module _ (equal : Equality) where
  collect-HasIds :
      (vs : List Json) (before ps : Policies)
      → HasIds before
      → Returns (collect equal vs before) tt ps tt
      → HasIds ps
  unfolding collect
  collect-HasIds [] before ps h r = subst HasIds (ground (arith, r)) h
  collect-HasIds (v ∷ vs) before ps h r =
      let a =
        bind-Returns (subscript v "_id")
          (λ ident. raise_if (not (is_hashable ident)) bad_value >>= λ _.
            require (not (has_id equal ident before)) duplicate_id >>= λ _.
            fields_of v >>= λ p. collect equal vs (before ++ ((ident, p) ∷ [])))
          tt ps tt r in
      let b =
        bind-Returns (raise_if (not (is_hashable a.value)) bad_value)
          (λ _. require (not (has_id equal a.value before)) duplicate_id >>= λ _.
            fields_of v >>= λ p. collect equal vs (before ++ ((a.value, p) ∷ [])))
          tt ps tt a.second in
      let c =
        bind-Returns (require (not (has_id equal a.value before)) duplicate_id)
          (λ _. fields_of v >>= λ p. collect equal vs (before ++ ((a.value, p) ∷ []))) tt ps tt
          b.second in
      let d =
        bind-Returns (fields_of v) (λ p. collect equal vs (before ++ ((a.value, p) ∷ []))) tt ps tt
          c.second in
      let own =
        Stands-get v "_id" a.value d.value (subscript-Stands v "_id" a.value a.first)
          (fields_of-obj v d.value d.first) in
      collect-HasIds vs (before ++ ((a.value, d.value) ∷ [])) ps
        (HasIds-append before ((a.value, d.value) ∷ []) h (own, tt)) d.second

  pub objects-HasIds :
      (snapshot : Json) (ps : Policies) → Returns (objects equal snapshot) tt ps tt → HasIds ps
  unfolding objects
  objects-HasIds snapshot ps r =
      let a =
        bind-Returns (selected snapshot) (λ v. list_or_reject v >>= λ vs. collect equal vs []) tt ps
          tt r in
      let b = bind-Returns (list_or_reject a.value) (λ vs. collect equal vs []) tt ps tt a.second in
      collect-HasIds b.value [] ps tt b.second

  pub find-HasIds :
      (id : Json) (ps : Policies) (p : Fields)
      → HasIds ps
      → find equal id ps ≡ some p
      → equal (get p "_id") id ≡ true
  find-HasIds id [] p h e = ground (arith, e)
  find-HasIds id ((k, q) ∷ ps) p h e = go (equal k id) refl e (find-HasIds id ps p h.1)
    where
      go :
          (b : Bool)
          → equal k id ≡ b
          → (if b then some q else find equal id ps) ≡ some p
          → (find equal id ps ≡ some p → equal (get p "_id") id ≡ true)
          → equal (get p "_id") id ≡ true
      go true x w rest =
          let p_is : q ≡ p = ground (arith, w) in
          ap (λ y. equal y id) (ap (λ y. get y "_id") (sym p_is) ∙ h.0) ∙ x
      go false x w rest = rest w

-- The policy with the new addresses on this side, and nothing else changed
abbrev pub IsChange : String → Fields → Fields → Type 0
IsChange side p q =
    (endpoint : Fields) × (get p side ≡ obj endpoint)
    × (q ≡ put p side (obj (put endpoint "ips" new_sources)))

pub with_new_ips-IsChange :
    (side : String) (p q : Fields) → Returns (with_new_ips side p) tt q tt → IsChange side p q
unfolding with_new_ips
with_new_ips-IsChange side p q r =
    let a =
      bind-Returns (at p side)
        (λ v. fields_of v >>= λ endpoint. pure (put p side (obj (put endpoint "ips" new_sources))))
        tt q tt r in
    let b =
      bind-Returns (fields_of a.value)
        (λ endpoint. pure (put p side (obj (put endpoint "ips" new_sources)))) tt q tt a.second in
    let q_is : put p side (obj (put b.value "ips" new_sources)) ≡ q = ground (arith, b.second) in
    (
      b.value,
      (at-Returns p side a.value a.first).1 ∙ fields_of-obj a.value b.value b.first,
      sym q_is,
    )

get-put : (p : Fields) (k j : String) (v : Json) → str_eq k j ≡ false → get (put p k v) j ≡ get p j
get-put end k j v ne = ground (arith, ne)
get-put (field i w d) k j v ne =
    ground (arith, ne, get-put d k j v, str_eq_iff i k, str_eq_iff i j, str_eq_iff k j)

pub IsChange-id : (p q : Fields) → IsChange "source" p q → get q "_id" ≡ get p "_id"
IsChange-id p q c =
    ap (λ d. get d "_id") c.2 ∙ get-put p "source" "_id" (obj (put c.0 "ips" new_sources)) refl

module _ (equal : Equality) (before : Policies) where
  -- What is proposed for one forward rule: it and its only reply form a pair, with the old addresses.
  abbrev pub Proposes : String → String → Fields → Type 0
  Proposes ident vip change =
      (forward : Fields) × (reply : Fields) × (find equal (str ident) before ≡ some forward)
      × (replies_to equal (str ident) before ≡ reply ∷ [])
      × IsPair equal forward reply vip old_sources
      × IsChange "source" forward change

  abbrev pub AllProposed : List (String × String) → List Fields → Type 0
  AllProposed [] [] = Unit
  AllProposed ((ident, vip) ∷ rest) (c ∷ cs) = Proposes ident vip c × AllProposed rest cs
  AllProposed _ _ = ⊥

  pub only_reply-only :
      (reason : Reason) (ps : List Fields) (p : Fields)
      → Returns (only_reply reason ps) tt p tt
      → ps ≡ p ∷ []
  only_reply-only reason [] p r = ground (arith, r)
  only_reply-only reason (q ∷ []) p r = ap (λ x. x ∷ []) (ground (arith, r))
  only_reply-only reason (q ∷ y ∷ ps) p r = ground (arith, r)

  propose-Proposes :
      (ident vip : String) (c : Fields)
      → Returns (propose equal before ident vip) tt c tt
      → Proposes ident vip c
  unfolding propose
  propose-Proposes ident vip c r =
      let a =
        bind-Returns (policy equal (str ident) before)
          (λ f. only_reply not_one_return (replies_to equal (str ident) before) >>= λ reply.
            validate_pair equal f reply vip old_sources >>= λ _. with_new_ips "source" f)
          tt c tt r in
      let b =
        bind-Returns (only_reply not_one_return (replies_to equal (str ident) before))
          (λ reply. validate_pair equal a.value reply vip old_sources >>= λ _.
            with_new_ips "source" a.value)
          tt c tt a.second in
      let d =
        bind-Returns (validate_pair equal a.value b.value vip old_sources)
          (λ _. with_new_ips "source" a.value) tt c tt b.second in
      (
        a.value,
        b.value,
        policy-find equal (str ident) before a.value a.first,
        only_reply-only not_one_return _ b.value b.first,
        validate_pair-IsPair equal a.value b.value vip old_sources d.first,
        with_new_ips-IsChange "source" a.value c d.second,
      )

  pub propose_all-AllProposed :
      (fs : List (String × String)) (cs : List Fields)
      → Returns (propose_all equal before fs) tt cs tt
      → AllProposed fs cs
  unfolding propose_all
  propose_all-AllProposed [] [] r = tt
  propose_all-AllProposed [] (c ∷ cs) r = ground (arith, r)
  propose_all-AllProposed ((ident, vip) ∷ fs) cs r =
      let a =
        bind-Returns (propose equal before ident vip)
          (λ c. propose_all equal before fs >>= λ rest. pure (c ∷ rest)) tt cs tt r in
      let b =
        bind-Returns (propose_all equal before fs) (λ rest. pure (a.value ∷ rest)) tt cs tt
          a.second in
      let cs_is : a.value ∷ b.value ≡ cs = ground (arith, b.second) in
      subst (AllProposed ((ident, vip) ∷ fs)) cs_is
        (propose-Proposes ident vip a.value a.first, propose_all-AllProposed fs b.value b.first)

-- If `prepare` returns, then for each forward rule of its list, in order: the rule and its only reply
-- form a pair with the old addresses, and what is proposed is the rule with the new source addresses
-- and nothing else changed.
pub prepare-AllProposed :
    (equal : Equality) (snapshot : Json) (cs : List Fields)
    → Returns (prepare equal snapshot) tt cs tt
    → (before : Policies) × Returns (objects equal snapshot) tt before tt
      × AllProposed equal before forwards cs
unfolding prepare
prepare-AllProposed equal snapshot cs r =
    let a =
      bind-Returns (objects equal snapshot) (λ before. propose_all equal before forwards) tt cs tt
        r in
    (a.value, a.first, propose_all-AllProposed equal a.value forwards cs a.second)
