-- ===== src/Healthchecks/Declaration/Accepts.antt =====
-- healthchecks.py, what the checks are that `load_declaration` accepts.
use home_lab.Prelude.{
  ◌≡◌, refl, subst, String, Bool, true, false, Option, none, some, List, [], ◌∷◌, arith,
  if◌then◌else◌,
}
use home_lab.Json.{Json, Fields, get}
use home_lab.Healthchecks.Declaration.{
  Refusal, Outcome, ok, refused, member, slug_of, check_fields, load_checks, checks_in,
  load_declaration,
}
use home_lab.Healthchecks.Declaration.Under.{IsDeclared, AllDeclared, star_in, slug_in_text}
use home_lab.Healthchecks.Declaration.Found.{
  check_fields-passes, text_field, grace_field, timing_fields,
}

-- A check that is not refused is fit.
check_fields-IsDeclared :
    (slug : String) (check : Fields)
    → slug_of check ≡ some slug
    → check_fields slug check ≡ ok tt
    → IsDeclared slug check
check_fields-IsDeclared slug check e h =
    let (extra, here, ranged, texts, star) = check_fields-passes slug check h in
    let (a, b) = slug_in_text (get check "slug") slug e in
    (
      a,
      b,
      text_field check here ranged texts "name" refl refl refl,
      text_field check here ranged texts "tags" refl refl refl,
      text_field check here ranged texts "desc" refl refl refl,
      timing_fields check here ranged texts,
      grace_field check here ranged texts,
      star_in (get check "channels") star,
    )

load_checks-AllDeclared :
    (seen : List String) (checks : List Fields)
    → load_checks seen checks ≡ ok tt
    → AllDeclared seen checks
unfolding load_checks
load_checks-AllDeclared seen [] h = tt
load_checks-AllDeclared seen (check ∷ checks) h =
    slugged (slug_of check) refl h (λ slug. load_checks-AllDeclared (slug ∷ seen) checks)
  where
    fit :
        (slug : String)
        → slug_of check ≡ some slug
        → (known : Bool) → member slug seen ≡ known
        → (r : Outcome (Unit {0})) → check_fields slug check ≡ r
        → (if known
            then refused (Refusal.duplicate_slug slug)
            else elim r [ refused why ↦ refused why | ok _ ↦ load_checks (slug ∷ seen) checks ])
          ≡ ok tt
        → ((load_checks (slug ∷ seen) checks ≡ ok tt) → AllDeclared (slug ∷ seen) checks)
        → AllDeclared seen (check ∷ checks)
    fit slug e true m r c h rest = ground arith
    fit slug e false m (refused why) c h rest = ground arith
    fit slug e false m (ok _) c h rest = (slug, check_fields-IsDeclared slug check e c, m, rest h)

    slugged :
        (slug : Option String)
        → slug_of check ≡ slug
        → elim slug [
          | none ↦ refused Refusal.invalid_slug
          | some slug ↦
              if member slug seen
              then refused (Refusal.duplicate_slug slug)
              else elim (check_fields slug check) [
                | refused r ↦ refused r
                | ok _ ↦ load_checks (slug ∷ seen) checks
              ]
        ]
          ≡ ok tt
        → ((slug : String)
            → (load_checks (slug ∷ seen) checks ≡ ok tt)
            → AllDeclared (slug ∷ seen) checks)
        → AllDeclared seen (check ∷ checks)
    slugged none e h rest = ground arith
    slugged (some slug) e h rest =
        fit slug e (member slug seen) refl (check_fields slug check) refl h (rest slug)

-- If `load_declaration` accepts the file, it returns the file's checks, each of which has its texts,
-- a period or a schedule with a time zone, a grace time, times from a minute to a year, and every
-- channel, under a slug of its own.
pub load_declaration-AllDeclared :
    (document : Json) (checks : List Fields)
    → load_declaration (some document) ≡ ok checks
    → (checks_in document ≡ some checks) × AllDeclared [] checks
unfolding load_declaration
load_declaration-AllDeclared document checks h = found (checks_in document) refl h
  where
    loaded :
        (read : List Fields)
        → checks_in document ≡ some read
        → (r : Outcome (Unit {0})) → load_checks [] read ≡ r
        → elim r [ refused why ↦ refused why | ok _ ↦ ok read ] ≡ ok checks
        → (checks_in document ≡ some checks) × AllDeclared [] checks
    loaded read e (refused why) c h = ground arith
    loaded read e (ok _) c h =
        let same : read ≡ checks = ground arith in
        subst (λ l. (checks_in document ≡ some l) × AllDeclared [] l) same
          (e, load_checks-AllDeclared [] read c)

    found :
        (read : Option (List Fields))
        → checks_in document ≡ read
        → elim read [
          | none ↦ refused Refusal.not_a_list
          | some checks ↦ elim (load_checks [] checks) [ refused r ↦ refused r | ok _ ↦ ok checks ]
        ]
          ≡ ok checks
        → (checks_in document ≡ some checks) × AllDeclared [] checks
    found none e h = ground arith
    found (some read) e h = loaded read e (load_checks [] read) refl h
