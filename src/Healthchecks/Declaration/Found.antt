-- ===== src/Healthchecks/Declaration/Found.antt =====
-- healthchecks.py, which fields a check has that `check_fields` does not refuse.
use home_lab.Prelude.{
  ◌≡◌, refl, sym, subst, ◌⊎◌, inl, inr, String, Bool, true, false, not, ◌&&◌, List, [], ◌∷◌, ◌++◌,
  arith, str_eq, str_eq_iff, if◌then◌else◌,
}
use home_lab.Json.{Fields, keys_of, get, has}
use home_lab.Healthchecks.Declaration.{
  text_fields, Refusal, ok, refused, member, subset, expected_fields, numbers_of, present,
  all_values, is_whole, is_in_range, texts_but, is_star, check_fields,
}
use home_lab.Healthchecks.Declaration.Under.{
  Text, Seconds, has-keys_of, member-subset, seconds_in, texts_but-Text,
}

-- What `check_fields` has found when it refuses nothing.
pub check_fields-passes :
    (slug : String) (check : Fields)
    → check_fields slug check ≡ ok tt
    → (subset (keys_of check) (expected_fields check) ≡ true)
      × (subset (expected_fields check) (keys_of check) ≡ true)
      × (all_values is_in_range check (numbers_of check) ≡ true)
      × (texts_but (numbers_of check) check ≡ true)
      × (is_star (get check "channels") ≡ true)
unfolding check_fields
check_fields-passes slug check h =
    go (subset (keys_of check) (expected_fields check))
      (subset (expected_fields check) (keys_of check))
      (all_values is_whole check (numbers_of check))
      (all_values is_in_range check (numbers_of check)) (texts_but (numbers_of check) check)
      (is_star (get check "channels")) h
  where
    go :
        (a b c d e f : Bool)
        → (if not (a && b)
            then refused (Refusal.wrong_fields slug)
            else if not c
            then refused (Refusal.not_whole slug)
            else if not d
            then refused (Refusal.out_of_range slug)
            else if not e
            then refused (Refusal.not_text slug)
            else if not f
            then refused (Refusal.wrong_channels slug)
            else ok tt)
          ≡ ok tt
        → (a ≡ true) × (b ≡ true) × (d ≡ true) × (e ≡ true) × (f ≡ true)
    go a b c d e f h = ground arith

-- An expected field is there, and holds a string unless it is a number's.
expected-Text :
    (k : String) (check : Fields)
    → subset (expected_fields check) (keys_of check) ≡ true
    → texts_but (numbers_of check) check ≡ true
    → member k (expected_fields check) ≡ true
    → member k (numbers_of check) ≡ false
    → Text check k
expected-Text k check b t m n =
    texts_but-Text (numbers_of check) k check n t
      (has-keys_of k check (member-subset k (expected_fields check) (keys_of check) b m))

expected-has :
    (k : String) (check : Fields)
    → subset (expected_fields check) (keys_of check) ≡ true
    → member k (expected_fields check) ≡ true
    → has check k ≡ true
expected-has k check b m =
    has-keys_of k check (member-subset k (expected_fields check) (keys_of check) b m)

-- A number that is present is a number of seconds.
number-Seconds :
    (k : String) (check : Fields) (ks : List String)
    → all_values is_in_range check ks ≡ true
    → member k ks ≡ true
    → Seconds check k
number-Seconds k check [] a m = ground arith
number-Seconds k check (j ∷ ks) a m =
    go (number-Seconds k check ks (ground (arith, a))) (str_eq j k) refl
  where
    go :
        (member k ks ≡ true → Seconds check k) → (same : Bool) → str_eq j k ≡ same → Seconds check k
    go rest true e =
        seconds_in (get check k)
          (subst (λ i. is_in_range (get check i) ≡ true) ((str_eq_iff j k).0 e) (ground (arith, a)))
    go rest false e = rest (ground (arith, m, e))

module _ (check : Fields) (here : subset (expected_fields check) (keys_of check) ≡ true)
    (ranged : all_values is_in_range check (numbers_of check) ≡ true)
    (texts : texts_but (numbers_of check) check ≡ true) where
  -- A text field, whichever timing the check has.
  pub text_field :
      (k : String)
      → member k text_fields ≡ true
      → str_eq "timeout" k ≡ false
      → str_eq "grace" k ≡ false
      → Text check k
  text_field k m a b =
      expected-Text k check here texts (go (has check "timeout"))
        (other (has check "timeout") (has check "grace"))
    where
      go :
          (timed : Bool)
          → member k (
              text_fields
              ++ ((if timed then "timeout" ∷ [] else "schedule" ∷ "tz" ∷ [])
                  ++ "grace" ∷ "channels" ∷ []))
            ≡ true
      go timed = ground (arith, m)

      other :
          (timed graced : Bool)
          → member k
              ((if timed then "timeout" ∷ [] else []) ++ (if graced then "grace" ∷ [] else []))
            ≡ false
      other timed graced = ground (arith, a, b)

  pub grace_field : Seconds check "grace"
  grace_field = number-Seconds "grace" check (numbers_of check) ranged (
      go (has check "timeout") (has check "grace")
        (expected-has "grace" check here (expected (has check "timeout"))))
    where
      go :
          (timed graced : Bool)
          → graced ≡ true
          → member "grace"
              ((if timed then "timeout" ∷ [] else []) ++ (if graced then "grace" ∷ [] else []))
            ≡ true
      go timed graced h = ground (arith, h)

      expected :
          (timed : Bool)
          → member "grace" (
              text_fields
              ++ ((if timed then "timeout" ∷ [] else "schedule" ∷ "tz" ∷ [])
                  ++ "grace" ∷ "channels" ∷ []))
            ≡ true
      expected timed = ground arith

  pub timing_fields : Seconds check "timeout" ⊎ (Text check "schedule" × Text check "tz")
  timing_fields = go (has check "timeout") refl
    where
      go :
          (timed : Bool)
          → has check "timeout" ≡ timed
          → Seconds check "timeout" ⊎ (Text check "schedule" × Text check "tz")
      go true e = inl (
          number-Seconds "timeout" check (numbers_of check) ranged (
            subst
              (λ timed.
                member "timeout" ((if timed then "timeout" ∷ [] else []) ++ present check "grace")
                ≡ true)
              (sym e) refl))
      go false e = inr (scheduled "schedule" refl refl, scheduled "tz" refl refl)
        where
          absent :
              (graced : Bool) (k : String)
              → member k ("timeout" ∷ "grace" ∷ []) ≡ false
              → member k (if graced then "grace" ∷ [] else []) ≡ false
          absent graced k n = ground (arith, n)

          scheduled :
              (k : String)
              → member k ("schedule" ∷ "tz" ∷ []) ≡ true
              → member k ("timeout" ∷ "grace" ∷ []) ≡ false
              → Text check k
          scheduled k m n =
              expected-Text k check here texts
                (subst
                  (λ timed.
                    member k (
                      text_fields
                      ++ ((if timed then "timeout" ∷ [] else "schedule" ∷ "tz" ∷ [])
                          ++ "grace" ∷ "channels" ∷ []))
                    ≡ true)
                  (sym e) (ground (arith, m)))
                (subst
                  (λ timed.
                    member k ((if timed then "timeout" ∷ [] else []) ++ present check "grace")
                    ≡ false)
                  (sym e) (absent (has check "grace") k n))
