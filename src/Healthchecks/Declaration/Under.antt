-- ===== src/Healthchecks/Declaration/Under.antt =====
-- healthchecks.py, what stands under the keys of a declared check, read off the tests that it passed.
use home_lab.Prelude.{
  ℕ, ◌≤◌, ◌≡◌, refl, ap, subst, ◌⊎◌, String, Bool, true, false, some, List, [], ◌∷◌, arith, str_eq,
  str_eq_iff, if◌then◌else◌,
}
use home_lab.Prelude.Int.{pos, negsuc}
use home_lab.Json.{Json, int, str, Fields, end, field, keys_of, get, has}
use home_lab.Healthchecks.Declaration.{
  member, subset, is_slug, slug_in, is_in_range, texts_but, is_text, is_star,
}

-- A string stands under the key.
abbrev pub Text : Fields → String → Type 0
Text check k = (s : String) × (get check k ≡ str s)

-- A whole number of seconds, from a minute to a year, stands under the key.
abbrev pub Seconds : Fields → String → Type 0
Seconds check k = (n : ℕ) × (get check k ≡ int (pos n)) × (60 ≤ n) × (n ≤ 31536000)

-- What the service needs of a declared check: its texts, a period or a schedule with a time zone,
-- a grace time, and every channel.
abbrev pub IsDeclared : String → Fields → Type 0
IsDeclared slug check =
    (get check "slug" ≡ str slug)
    × (is_slug slug ≡ true)
    × Text check "name"
    × Text check "tags"
    × Text check "desc"
    × (Seconds check "timeout" ⊎ (Text check "schedule" × Text check "tz"))
    × Seconds check "grace"
    × (get check "channels" ≡ str "*")

-- Each check is fit, under a slug that no check before it has.
abbrev pub AllDeclared : List String → List Fields → Type 0
AllDeclared seen [] = Unit
AllDeclared seen (check ∷ checks) =
    (slug : String) × IsDeclared slug check
    × (member slug seen ≡ false)
    × AllDeclared (slug ∷ seen) checks

pub has-keys_of :
    (k : String) (check : Fields) → member k (keys_of check) ≡ true → has check k ≡ true
has-keys_of k end h = ground arith
has-keys_of k (field j v check) h = ground (arith, has-keys_of k check)

pub member-subset :
    (k : String) (js ks : List String)
    → subset js ks ≡ true
    → member k js ≡ true
    → member k ks ≡ true
member-subset k [] ks h m = ground arith
member-subset k (j ∷ js) ks h m = go (member-subset k js ks (ground (arith, h))) (str_eq j k) refl
  where
    go :
        (member k js ≡ true → member k ks ≡ true)
        → (same : Bool) → str_eq j k ≡ same
        → member k ks ≡ true
    go rest true e = subst (λ i. member i ks ≡ true) ((str_eq_iff j k).0 e) (ground (arith, h))
    go rest false e = rest (ground (arith, m, e))

pub text_in : (v : Json) → is_text v ≡ true → (s : String) × (v ≡ str s)
text_in (str s) h = (s, refl)
text_in Json.null h = ground arith
text_in (Json.bool _) h = ground arith
text_in (int _) h = ground arith
text_in (Json.real _ _) h = ground arith
text_in (Json.arr _) h = ground arith
text_in (Json.obj _) h = ground arith

pub star_in : (v : Json) → is_star v ≡ true → v ≡ str "*"
star_in (str s) h = ap str ((str_eq_iff s "*").0 h)
star_in Json.null h = ground arith
star_in (Json.bool _) h = ground arith
star_in (int _) h = ground arith
star_in (Json.real _ _) h = ground arith
star_in (Json.arr _) h = ground arith
star_in (Json.obj _) h = ground arith

pub slug_in_text :
    (v : Json) (slug : String) → slug_in v ≡ some slug → (v ≡ str slug) × (is_slug slug ≡ true)
slug_in_text (str s) slug h = ground arith
slug_in_text Json.null slug h = ground arith
slug_in_text (Json.bool _) slug h = ground arith
slug_in_text (int _) slug h = ground arith
slug_in_text (Json.real _ _) slug h = ground arith
slug_in_text (Json.arr _) slug h = ground arith
slug_in_text (Json.obj _) slug h = ground arith

pub seconds_in :
    (v : Json) → is_in_range v ≡ true → (n : ℕ) × (v ≡ int (pos n)) × (60 ≤ n) × (n ≤ 31536000)
seconds_in (int (pos n)) h = (n, refl, ground arith, ground arith)
seconds_in (int (negsuc n)) h = ground arith
seconds_in (str s) h = ground arith
seconds_in Json.null h = ground arith
seconds_in (Json.bool _) h = ground arith
seconds_in (Json.real _ _) h = ground arith
seconds_in (Json.arr _) h = ground arith
seconds_in (Json.obj _) h = ground arith

-- Under a key that is no number's there is a string.
pub texts_but-Text :
    (numbers : List String) (k : String) (check : Fields)
    → member k numbers ≡ false
    → texts_but numbers check ≡ true
    → has check k ≡ true
    → Text check k
texts_but-Text numbers k end n t h = ground arith
texts_but-Text numbers k (field j v check) n t h =
    go (texts_but-Text numbers k check n (ground (arith, t))) (str_eq j k) refl
  where
    go :
        (has check k ≡ true → Text check k)
        → (same : Bool) → str_eq j k ≡ same
        → (s : String) × ((if same then v else get check k) ≡ str s)
    go rest true e = text_in v (
        ground (
          arith,
          t,
          subst (λ i. member i numbers ≡ false)
              ((str_eq_iff k j).0 (ground (arith, str_eq_iff j k, str_eq_iff k j, e))) n,
        ))
    go rest false e = rest (ground (arith, h, e))
