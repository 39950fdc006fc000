-- ===== src/PolicyDelta/Table.antt =====
-- check-unifi-delta.py, `verify`: the proposals by ID.
use home_lab.Prelude.{
  ◌≡◌, refl, sym, ap, subst, ◌∙◌, String, Bool, true, false, some, List, [], ◌∷◌, arith,
  if◌then◌else◌,
}
use home_lab.Program.{◌>>=◌, pure}
use home_lab.Program.Returns.{Returns, bind-Returns}
use home_lab.Json.{Json, str, Fields, get}
use home_lab.PolicyDelta.{Equality, at, Policies, find}
use home_lab.PolicyDelta.Verify.{by_id, ids_of}
use home_lab.PolicyDelta.Reads.{at-Returns}
use home_lab.PolicyDelta.Proposed.{HasIds, find-HasIds, IsChange-id, Proposes, AllProposed}

-- `==` with a text is true of that text only.
abbrev pub IsExact : Equality → Type 0
IsExact equal = (v : Json) (s : String) → equal v (str s) ≡ true → v ≡ str s

abbrev pub forward_ids : List (String × String) → List Json
forward_ids [] = []
forward_ids ((ident, vip) ∷ fs) = str ident ∷ forward_ids fs

abbrev text_of : Json → String
text_of (str s) = s
text_of _ = ""

module _ (equal : Equality) where
  -- Of the proposals by ID, each is for the forward rule with that ID.
  abbrev pub TableFor : Policies → List (String × String) → Policies → Type 0
  TableFor before [] [] = Unit
  TableFor before ((ident, vip) ∷ fs) ((k, c) ∷ ps) =
      (k ≡ str ident) × Proposes equal before ident vip c × TableFor before fs ps
  TableFor before _ _ = ⊥

  proposed_id :
      (before : Policies) (ident vip : String) (c : Fields)
      → IsExact equal
      → HasIds before
      → Proposes equal before ident vip c
      → get c "_id" ≡ str ident
  proposed_id before ident vip c exact ids p =
      IsChange-id p.0 c p.5
      ∙ exact (get p.0 "_id") ident (find-HasIds equal (str ident) before p.0 ids p.2)

  pub by_id-TableFor :
      (before : Policies) (fs : List (String × String)) (cs : List Fields) (ps : Policies)
      → IsExact equal
      → HasIds before
      → AllProposed equal before fs cs
      → Returns (by_id cs) tt ps tt
      → TableFor before fs ps
  unfolding by_id
  by_id-TableFor before [] [] ps exact ids all r =
      let ps_is : [] ≡ ps = ground (arith, r) in subst (TableFor before []) ps_is tt
  by_id-TableFor before [] (c ∷ cs) ps exact ids all r = elim all [ ]
  by_id-TableFor before (f ∷ fs) [] ps exact ids all r = elim all [ ]
  by_id-TableFor before ((ident, vip) ∷ fs) (c ∷ cs) ps exact ids all r =
      let a =
        bind-Returns (at c "_id") (λ k. by_id cs >>= λ rest. pure ((k, c) ∷ rest)) tt ps tt r in
      let b = bind-Returns (by_id cs) (λ rest. pure ((a.value, c) ∷ rest)) tt ps tt a.second in
      let ps_is : (a.value, c) ∷ b.value ≡ ps = ground (arith, b.second) in
      subst (TableFor before ((ident, vip) ∷ fs)) ps_is (
        sym (at-Returns c "_id" a.value a.first).1 ∙ proposed_id before ident vip c exact ids all.0,
        all.0,
        by_id-TableFor before fs cs b.value exact ids all.1 b.first,
      )

  pub TableFor-ids :
      (before : Policies) (fs : List (String × String)) (ps : Policies)
      → TableFor before fs ps
      → ids_of ps ≡ forward_ids fs
  TableFor-ids before [] [] t = refl
  TableFor-ids before [] (p ∷ ps) t = elim t [ ]
  TableFor-ids before (f ∷ fs) [] t = elim t [ ]
  TableFor-ids before ((ident, vip) ∷ fs) ((k, c) ∷ ps) t =
      ap (λ x. x ∷ ids_of ps) t.0 ∙ ap (λ xs. str ident ∷ xs) (TableFor-ids before fs ps t.2)

  -- What is found under an ID is what was proposed for it.
  pub TableFor-find :
      (before : Policies) (fs : List (String × String)) (ps : Policies) (ident : String)
      (e : Fields)
      → IsExact equal
      → TableFor before fs ps
      → find equal (str ident) ps ≡ some e
      → (vip : String) × Proposes equal before ident vip e
  TableFor-find before [] [] ident e exact t f = ground (arith, f)
  TableFor-find before [] (p ∷ ps) ident e exact t f = elim t [ ]
  TableFor-find before (x ∷ fs) [] ident e exact t f = elim t [ ]
  TableFor-find before ((i, vip) ∷ fs) ((k, c) ∷ ps) ident e exact t f =
      go (equal k (str ident)) refl f (TableFor-find before fs ps ident e exact t.2)
    where
      go :
          (b : Bool)
          → equal k (str ident) ≡ b
          → (if b then some c else find equal (str ident) ps) ≡ some e
          → (find equal (str ident) ps ≡ some e → (v : String) × Proposes equal before ident v e)
          → (v : String) × Proposes equal before ident v e
      go true x w rest =
          let c_is : c ≡ e = ground (arith, w) in
          let i_is : i ≡ ident = ap text_of (sym t.0 ∙ exact k ident x) in
          (
            vip,
            subst (λ j. Proposes equal before j vip e) i_is
                (subst (Proposes equal before i vip) c_is t.1),
          )
      go false x w rest = rest w
