-- ===== src/Readiness/Models/Listed.antt =====
-- readiness.py, `check_models`: what a list of models that passes says.
use home_lab.Prelude.{
  ◌≡◌, refl, sym, subst, ap, ◌∙◌, String, true, some, List, [], ◌∷◌, if◌then◌else◌, arith,
}
use home_lab.Program.{pure, ◌>>=◌}
use home_lab.Program.Returns.{Returns, bind-Returns}
use home_lab.Json.{Json, str, arr, obj, nil, end, Fields, get, or_else, iterate}
use home_lab.Readiness.Server.{Python, History, check_all, check_all-NoneBad}
use home_lab.Readiness.Python.{equals_int, equals_str, fields_of, get_or, or_bad_value}
use home_lab.Readiness.Nearest.{Effort}
use home_lab.Readiness.Health.{Profile}
use home_lab.Readiness.Python.Reads.{equals_str-str, fields_of-Returns, or_bad_value-Returns, holds}
use home_lab.Readiness.Models.{
  name_of, are_efforts, with_id, only, entry_checks, reported_by, efforts_checks, check_entry,
  check_reported, check_listed, kept, check_data, check_models,
}

-- The names of these efforts, as JSON
abbrev pub as_names : List Effort → List Json
as_names [] = []
as_names (e ∷ es) = str (name_of e) ∷ as_names es

-- The entries of this name among the objects of a list
abbrev pub listed : String → List Json → List Fields
listed model [] = []
listed model (obj fs ∷ vs) =
    if equals_str (get fs "id") model then fs ∷ listed model vs else listed model vs
listed model (_ ∷ vs) = listed model vs

module _ (python : Python) (p : Profile) (efforts : List Effort) where
  -- The entry as the profile promises it
  abbrev pub IsPromised : Fields → Type 0
  IsPromised entry =
      (get entry "owned_by" ≡ str "tensorfold")
      × (equals_int python (get entry "context_length") p.context ≡ true)
      × (equals_int python (get entry "max_model_len") p.context ≡ true)
      × ((reasoning : Fields) × (or_else (get entry "reasoning") (obj end) ≡ obj reasoning)
          × (iterate (or_else (get reasoning "supported_efforts") (arr nil))
              ≡ some (as_names efforts)))

  -- The document lists it, as the only entry with the name of the model.
  abbrev pub Lists : Json → Fields → Type 0
  Lists v entry =
      (fs : Fields) × (v ≡ obj fs)
      × ((vs : List Json) × (iterate (get_or fs "data" (arr nil)) ≡ some vs)
          × (listed p.model vs ≡ entry ∷ []))

are_efforts-names :
    (vs : List Json) (es : List Effort) → are_efforts vs es ≡ true → vs ≡ as_names es
are_efforts-names [] [] e = refl
are_efforts-names [] (_ ∷ es) e = ground (arith, e)
are_efforts-names (_ ∷ vs) [] e = ground (arith, e)
are_efforts-names (v ∷ vs) (x ∷ es) e =
    ground (arith, e, equals_str-str v (name_of x), are_efforts-names vs es)

only-Returns :
    (es : List Fields) (h : History) (e : Fields) (t : History)
    → Returns (only es) h e t
    → es ≡ e ∷ []
only-Returns [] h e t r = ground (arith, r)
only-Returns (x ∷ []) h e t r = ap (λ y. y ∷ []) (ground (arith, r))
only-Returns (x ∷ y ∷ es) h e t r = ground (arith, r)

with_id-listed :
    (model : String) (vs : List Json) (h : History) (es : List Fields) (t : History)
    → Returns (with_id model vs) h es t
    → es ≡ listed model vs
unfolding with_id
with_id-listed model [] h es t r = ground (arith, r)
with_id-listed model (v ∷ vs) h es t r =
    let a =
      bind-Returns (fields_of v)
        (λ entry. with_id model vs >>= λ rest. pure (kept model entry rest)) h es t r in
    let b =
      bind-Returns (with_id model vs) (λ rest. pure (kept model a.value rest)) a.between es t
        a.second in
    let v_is : v ≡ obj a.value = fields_of-Returns v h a.between a.value a.first in
    let rest_is : b.value ≡ listed model vs =
      with_id-listed model vs a.between b.value b.between b.first in
    let es_is : kept model a.value b.value ≡ es = ground (arith, b.second) in
    subst (λ w. es ≡ listed model (w ∷ vs)) (sym v_is) (sym es_is ∙ ap (kept model a.value) rest_is)

module _ (python : Python) (p : Profile) (efforts : List Effort) where
  check_entry-IsPromised :
      (entry : Fields) (h : History) (e : Fields) (t : History)
      → Returns (check_entry python p efforts entry) h e t
      → IsPromised python p efforts entry × (entry ≡ e)
  unfolding reported_by
  check_entry-IsPromised entry h e t r =
      let a =
        bind-Returns (check_all (entry_checks python p entry)) (λ _. check_reported efforts entry) h
          e t r in
      let b =
        bind-Returns (reported_by entry)
          (λ reported. check_all (efforts_checks reported efforts) >>= λ _. pure entry) a.between e
          t a.second in
      let c =
        bind-Returns (fields_of (or_else (get entry "reasoning") (obj end)))
          (λ reasoning.
            or_bad_value (iterate (or_else (get reasoning "supported_efforts") (arr nil))))
          a.between b.value b.between b.first in
      let d =
        bind-Returns (check_all (efforts_checks b.value efforts)) (λ _. pure entry) b.between e t
          b.second in
      let w = (check_all-NoneBad (entry_checks python p entry) h a.between a.first).0 in
      let same =
        (check_all-NoneBad (efforts_checks b.value efforts) b.between d.between d.first).0 in
      let names : b.value ≡ as_names efforts = are_efforts-names b.value efforts (holds _ same.0) in
      let listed_as =
        or_bad_value-Returns (iterate (or_else (get c.value "supported_efforts") (arr nil)))
          c.between b.value b.between c.second in
      (
        (
          equals_str-str _ _ (holds _ w.0),
          holds _ w.1.0,
          holds _ w.1.1.0,
          (
            c.value,
            fields_of-Returns _ a.between c.between c.value c.first,
            listed_as ∙ ap some names,
          ),
        ),
        ground (arith, d.second),
      )

  -- The entry that `check_models` returns is the only one of the document with the name of the model;
  -- it is owned by "tensorfold", both its lengths are the context that the command line gives, and the
  -- levels it supports are the advertised ones, in their order.
  pub check_models-Lists :
      (v : Json) (h : History) (entry : Fields) (t : History)
      → Returns (check_models python p efforts v) h entry t
      → Lists python p efforts v entry × IsPromised python p efforts entry
  unfolding check_models
  check_models-Lists v h entry t r =
      let a = bind-Returns (fields_of v) (λ fs. check_data python p efforts fs) h entry t r in
      let b =
        bind-Returns (or_bad_value (iterate (get_or a.value "data" (arr nil))))
          (λ vs. check_listed python p efforts vs) a.between entry t a.second in
      let c =
        bind-Returns (with_id p.model b.value)
          (λ entries. only entries >>= λ e. check_entry python p efforts e) b.between entry t
          b.second in
      let d =
        bind-Returns (only c.value) (λ e. check_entry python p efforts e) c.between entry t
          c.second in
      let e = check_entry-IsPromised d.value d.between entry t d.second in
      let vs_are =
        sym (with_id-listed p.model b.value b.between c.value c.between c.first)
        ∙ only-Returns c.value c.between d.value d.between d.first in
      (
        (
          a.value,
          fields_of-Returns v h a.between a.value a.first,
          (
            b.value,
            or_bad_value-Returns _ a.between b.value b.between b.first,
            subst (λ x. listed p.model b.value ≡ x ∷ []) e.1 vs_are,
          ),
        ),
        subst (IsPromised python p efforts) e.1 e.0,
      )
