-- ===== src/Flows/Record/Identity.antt =====
-- collector.py, `flow_record`: the flow's id in the stored record.
use text.Mathlib.TextPositions.{eq_refl}
use text.Mathlib.TextLemmas.{cons-append}
use Prim.Native.String.{◌++◌}
use home_lab.Prelude.{
  String, ◌≡◌, refl, sym, subst, ◌∙◌, inl, inr, some, Option-cases, Bool, true, false, List, [],
  ◌∷◌, arith, str_eq, if◌then◌else◌,
}
use home_lab.Json.{Json, Fields, str, get, is_empty}
use home_lab.Flows.Runtime.{Python, Outcome, ok, raised}
use home_lab.Flows.Record.{
  ◌>>=◌, dict_or_empty, policies_of, domains_of, iso_of, start_of, given_id, keep, network_of,
  details, message, flow_id, derived_id, flow_record,
}

abbrev is_text : Json → String → Bool
is_text (str s) t = str_eq s t
is_text _ t = false

-- The record has the field flow.id with this value.
abbrev pub carries : String → List (String × Json) → Bool
carries id [] = false
carries id ((k, v) ∷ rest) = if str_eq k "flow.id" then is_text v id else carries id rest

carries-keep_skip :
    (id k : String) (v : Json) (rest : List (String × Json))
    → str_eq k "flow.id" ≡ false
    → carries id (keep ((k, v) ∷ rest)) ≡ carries id (keep rest)
carries-keep_skip id k v rest h = ground arith

carries-keep_hit :
    (id : String) (rest : List (String × Json))
    → is_empty id ≡ false
    → carries id (keep (("flow.id", str id) ∷ rest)) ≡ true
carries-keep_hit id rest h = rw h (eq_refl id)

is_empty-append : (s t : String) → is_empty s ≡ false → is_empty (s ++ t) ≡ false
is_empty-append String.[] t h = cc
is_empty-append (String.◌∷◌ c s) t h = rw cons-append refl

-- What a call that returned has returned.
abbrev OnOk : {A : Type 0} → (A → Type 0) → Outcome A → Type 0
OnOk P (ok a) = P a
OnOk P (raised e) = Unit

OnOk-bind :
    {A B : Type 0} (P : B → Type 0) (r : Outcome A) (k : A → Outcome B)
    → ((a : A) → r ≡ ok a → OnOk P (k a))
    → OnOk P (r >>= k)
OnOk-bind P (ok a) k h = h a refl
OnOk-bind P (raised e) k h = tt

OnOk-apply : {A : Type 0} (P : A → Type 0) (r : Outcome A) (a : A) → OnOk P r → r ≡ ok a → P a
OnOk-apply P r a h e = rw e at h

given_id_not_empty : (v : Json) (id : String) → given_id v ≡ some id → is_empty id ≡ false
given_id_not_empty v id h = ground arith

id_of_ok : (a b : String) → ◌≡◌ {A = Outcome String} (ok a) (ok b) → a ≡ b
id_of_ok a b h = cc

module _ (python : Python) where
  flow_id_not_empty :
      (row : Fields) (id : String) → flow_id python row ≡ ok id → is_empty id ≡ false
  unfolding flow_id derived_id
  flow_id_not_empty row id h = elim (Option-cases (given_id (get row "id"))) [
    | inl absent ↦
        OnOk-apply (λ i. is_empty i ≡ false) (derived_id python row) id
          (OnOk-bind _ (dict_or_empty (get row "source")) _ (λ source _.
            OnOk-bind _ (dict_or_empty (get row "destination")) _
              (λ destination _. is_empty-append "derived-" _ refl)))
          (cc)
    | inr (i, present) ↦ ground (arith, given_id_not_empty (get row "id") i present)
  ]

  -- The fields before flow.id are passed over, and flow.id is there since the id is not empty.
  keep-carries :
      (id : String) (time : Json) (msg : String) (rest : List (String × Json))
      → is_empty id ≡ false
      → carries id (
          keep (
            ("_time", time)
            ∷ ("_msg", str msg)
            ∷ ("service.name", str "unifi-flows")
            ∷ ("record.type", str "flow")
            ∷ ("flow.id", str id)
            ∷ rest))
        ≡ true
  keep-carries id time msg rest h =
      let r4 = ("flow.id", str id) ∷ rest in
      let r3 = ("record.type", str "flow") ∷ r4 in
      let r2 = ("service.name", str "unifi-flows") ∷ r3 in
      let r1 = ("_msg", str msg) ∷ r2 in
      carries-keep_skip id "_time" time r1 refl
      ∙ (carries-keep_skip id "_msg" (str msg) r2 refl
          ∙ (carries-keep_skip id "service.name" (str "unifi-flows") r3 refl
              ∙ (carries-keep_skip id "record.type" (str "flow") r4 refl
                  ∙ carries-keep_hit id rest h)))

  -- The record of a row carries the row's id.
  pub flow_record-carries :
      (row : Fields) (id : String) (entry : List (String × Json))
      → flow_id python row ≡ ok id
      → flow_record python row ≡ ok entry
      → carries id entry ≡ true
  unfolding flow_record
  flow_record-carries row id entry h e =
      let P : List (String × Json) → Type 0 = λ r. carries id r ≡ true in
      OnOk-apply P (flow_record python row) entry
        (OnOk-bind P (dict_or_empty (get row "source")) _ λ source _.
          OnOk-bind P (dict_or_empty (get row "destination")) _ λ destination _.
            OnOk-bind P (dict_or_empty (get row "traffic_data")) _ λ traffic _.
              OnOk-bind P (dict_or_empty (get row "in")) _ λ incoming _.
                OnOk-bind P (dict_or_empty (get row "out")) _ λ outgoing _.
                  OnOk-bind P (policies_of python (get row "policies")) _ λ policies _.
                    OnOk-bind P (iso_of python (get row "time")) _ λ time _.
                      OnOk-bind P (flow_id python row) _ λ i same.
                        OnOk-bind P (start_of python (get row "flow_start_time")) _ λ start _.
                          OnOk-bind P (domains_of python (get destination "domains")) _ λ domains _.
                            let from = network_of incoming source in
                            let to = network_of outgoing destination in
                            let rest =
                              details python row source destination traffic from to policies start
                                domains in
                            let msg = message python row from to in
                            subst
                              (λ j.
                                carries j (
                                  keep (
                                    ("_time", time)
                                    ∷ ("_msg", str msg)
                                    ∷ ("service.name", str "unifi-flows")
                                    ∷ ("record.type", str "flow")
                                    ∷ ("flow.id", str i)
                                    ∷ rest))
                                ≡ true)
                              (id_of_ok i id (sym same ∙ h))
                              (keep-carries i time msg rest (flow_id_not_empty row i same)))
        e
