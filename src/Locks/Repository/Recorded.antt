-- ===== src/Locks/Repository/Recorded.antt =====
-- validate_locks.py: what the loop over the manifests records of the images.
use home_lab.Prelude.{
  ◌≡◌, refl, sym, ap, subst, ◌∙◌, String, Bool, true, false, not, some, str_eq, str_eq_iff,
  if◌then◌else◌, arith,
}
use home_lab.Prelude.Dict.{Dict, put}
use home_lab.Program.{◌>>=◌, pure}
use home_lab.Json.{Json, str, obj, Fields, get}
use home_lab.Locks.Checks.{Check, Python, at}
use home_lab.Locks.Checks.Passes.{When, Passes, Gives, Gives-bind, Gives-at, Passes-require}
use home_lab.Locks.Checks.Digests.{IsDigest}
use home_lab.Locks.Checks.Pins.{IsPin}
use home_lab.Locks.Lock.{Kind, readiness, is_readiness}
use home_lab.Locks.Recipe.{Locked, lookup}
use home_lab.Locks.Validate.Pinned.{HasImage, validate_lock-IsPinned}
use home_lab.Locks.Repository.{Manifest, Seen, as_key, same_image, add_image}
use home_lab.Locks.Repository.Loops.{IsAccepted, Turn, Kept, lookup-put}

-- `==` of a text and another value: only the same text is equal to it.
abbrev pub EqualTexts : Python → Type 0
EqualTexts python = (s : String) (v : Json) → python.equal (str s) v ≡ true → v ≡ str s

-- The reference of the lock's image leads to the lock's identifier.
abbrev pub Leads : Fields → Dict Json → Type 0
Leads lock images =
    (reference : String) × (get lock "image" ≡ str reference)
    × (lookup reference images ≡ some (get lock "image_id"))

abbrev pub IsRecorded : Locked → Dict Json → Type 0
IsRecorded (lock, kind) images = When (not (is_readiness kind)) (Leads lock images)

as_key-text : (v : Json) (s : String) → Gives (as_key v) s → v ≡ str s
as_key-text (str t) s p = ground (arith, p)
as_key-text _ s p = ground (arith, p)

digest-text : (v : Json) → IsDigest v → (s : String) × (v ≡ str s)
digest-text (str s) h = (s, refl)
digest-text _ h = elim h [ ]

module _ (python : Python) (texts : EqualTexts python) where
  -- What the call for a lock that has an image finds, and leaves
  record Added (lock : Fields) (seen : Seen) (images : Dict Json) : Type 0 where
    reference : String
    named : get lock "image" ≡ str reference
    same : Passes (same_image python (get lock "image_id") (lookup reference seen.images))
    left : images ≡ put reference (get lock "image_id") seen.images

  add_image-Added :
      (lock : Fields) (kind : Kind) (seen : Seen) (images : Dict Json)
      → is_readiness kind ≡ false
      → Gives (add_image python (lock, kind) seen) images
      → Added lock seen images
  add_image-Added lock kind seen images e p =
      let put_image : Json → String → Check (Dict Json) = λ id reference.
        same_image python id (lookup reference seen.images) >>= λ _.
        pure (put reference id seen.images) in
      let with_id : Json → Json → Check (Dict Json) = λ v id. as_key v >>= put_image id in
      let with_image : Json → Check (Dict Json) = λ v. at (obj lock) "image_id" >>= with_id v in
      let q : Gives (at (obj lock) "image" >>= with_image) images =
        subst
          (λ b.
            Gives (if b then pure seen.images else (at (obj lock) "image" >>= with_image)) images)
          e p in
      let image = Gives-bind (at (obj lock) "image") with_image images q in
      let v = image.value in
      let identifier = Gives-bind (at (obj lock) "image_id") (with_id v) images image.second in
      let id = identifier.value in
      let key = Gives-bind (as_key v) (put_image id) images identifier.second in
      let known = lookup key.value seen.images in
      let both =
        Gives-bind (same_image python id known) (λ _. pure (put key.value id seen.images)) images
          key.second in
      let same_id : get lock "image_id" ≡ id = (Gives-at lock "image_id" id identifier.first).1 in
      let left : put key.value id seen.images ≡ images = ground (arith, both.second) in
      record {
        reference = key.value;
        named = (Gives-at lock "image" v image.first).1 ∙ as_key-text v key.value key.first;
        same = subst (λ w. Passes (same_image python w known)) (sym same_id) both.first;
        left = sym left ∙ ap (λ w. put key.value w seen.images) (sym same_id);
      }

  -- The same reference is not recorded with two identifiers.
  same_known :
      (config_id known : Json) (s : String)
      → config_id ≡ str s
      → Passes (same_image python config_id (some known))
      → known ≡ config_id
  same_known config_id known s e p =
      let equal_known =
        Passes-require (python.equal config_id known) "image/image_id relationship" p in
      texts s known (subst (λ v. python.equal v known ≡ true) e equal_known) ∙ sym e

  Added-IsRecorded :
      (lock : Fields) (kind : Kind) (seen : Seen) (images : Dict Json)
      → Added lock seen images
      → IsRecorded (lock, kind) images
  Added-IsRecorded lock kind seen images a = go (is_readiness kind)
    where
      found : lookup a.reference images ≡ some (get lock "image_id")
      found =
          ap (lookup a.reference) a.left
          ∙ ground (
            arith,
            lookup-put a.reference a.reference (get lock "image_id") seen.images,
            str_eq_iff a.reference a.reference,
          )

      go : (b : Bool) → When (not b) (Leads lock images)
      go true = tt
      go false = (a.reference, a.named, found)

  lookup-Added :
      (lock : Fields) (seen : Seen) (images : Dict Json) (reference s : String) (known : Json)
      → get lock "image_id" ≡ str s
      → Added lock seen images
      → lookup reference seen.images ≡ some known
      → lookup reference images ≡ some known
  lookup-Added lock seen images reference s known e a h = go (str_eq a.reference reference) refl
    where
      stored : lookup reference images ≡ (
          if str_eq a.reference reference
          then some (get lock "image_id")
          else lookup reference seen.images)
      stored =
          ap (lookup reference) a.left
          ∙ lookup-put reference a.reference (get lock "image_id") seen.images

      go : (b : Bool) → str_eq a.reference reference ≡ b → lookup reference images ≡ some known
      go false f =
          stored
          ∙ ap (λ c. if c then some (get lock "image_id") else lookup reference seen.images) f
          ∙ h
      go true f =
          let here : lookup a.reference seen.images ≡ some known =
            ap (λ r. lookup r seen.images) ((str_eq_iff a.reference reference).0 f) ∙ h in
          let passed : Passes (same_image python (get lock "image_id") (some known)) =
            subst (λ o. Passes (same_image python (get lock "image_id") o)) here a.same in
          stored
          ∙ ap (λ c. if c then some (get lock "image_id") else lookup reference seen.images) f
          ∙ ap (λ v. some v) (sym (same_known (get lock "image_id") known s e passed))

  -- The identifier of an accepted lock that has an engine is a text.
  accepted_text :
      (manifest : Manifest) (lock : Fields) (kind : Kind)
      → is_readiness kind ≡ false
      → IsAccepted python manifest (lock, kind)
      → (s : String) × (get lock "image_id" ≡ str s)
  accepted_text manifest lock kind e a =
      let engine = (validate_lock-IsPinned python a.1 manifest.mod_dir lock kind a.3).1.1 in
      let Engine : Type 0 =
        IsPin 40 (get lock "engine_revision")
        × IsDigest (get lock "image_id")
        × HasImage kind lock in
      let known : Engine = subst (λ b. When (not b) Engine) e engine in
      digest-text (get lock "image_id") known.1

  add_image_same :
      (lock : Fields) (kind : Kind) (seen : Seen) (images : Dict Json)
      → is_readiness kind ≡ true
      → Gives (add_image python (lock, kind) seen) images
      → images ≡ seen.images
  add_image_same lock readiness seen images e p = ground (arith, p)
  add_image_same lock _ seen images e p = ground (arith, e)

  -- One turn keeps what was recorded.
  kept_turn :
      (manifest : Manifest) (seen more : Seen) (lock : Fields) (kind : Kind)
      → IsAccepted python manifest (lock, kind)
      → Gives (add_image python (lock, kind) seen) more.images
      → (reference : String) (known : Json) → lookup reference seen.images ≡ some known
      → lookup reference more.images ≡ some known
  kept_turn manifest seen more lock kind a p reference known h = go (is_readiness kind) refl
    where
      go : (b : Bool) → is_readiness kind ≡ b → lookup reference more.images ≡ some known
      go true e = ap (lookup reference) (add_image_same lock kind seen more.images e p) ∙ h
      go false e =
          let t = accepted_text manifest lock kind e a in
          lookup-Added lock seen more.images reference t.0 known t.1
            (add_image-Added lock kind seen more.images e p) h

  IsRecorded-made :
      (manifest : Manifest) (seen more : Seen) (turn : Turn python manifest seen more)
      → IsRecorded turn.locked more.images
  IsRecorded-made manifest seen more turn = go turn.locked turn.images
    where
      go : (l : Locked) → Gives (add_image python l seen) more.images → IsRecorded l more.images
      go (lock, kind) p = inner (is_readiness kind) refl
        where
          inner : (b : Bool) → is_readiness kind ≡ b → IsRecorded (lock, kind) more.images
          inner true e = subst (λ b. When (not b) (Leads lock more.images)) (sym e) tt
          inner false e =
              Added-IsRecorded lock kind seen more.images
                (add_image-Added lock kind seen more.images e p)

  IsRecorded-kept :
      (manifest : Manifest) (seen more : Seen)
      → Turn python manifest seen more
      → (l : Locked) → IsRecorded l seen.images
      → IsRecorded l more.images
  IsRecorded-kept manifest seen more turn (lock, kind) = go (is_readiness kind)
    where
      go :
          (b : Bool) → When (not b) (Leads lock seen.images) → When (not b) (Leads lock more.images)
      go true h = tt
      go false (reference, named, h) = (
        reference,
        named,
        kept_turn manifest seen more turn.locked.0 turn.locked.1 turn.accepted turn.images reference
            (get lock "image_id") h,
      )

  -- What the loop over the manifests records, for every lock
  pub recorded : Kept python (λ m l seen. IsRecorded l seen.images)
  recorded = record {
    made = IsRecorded-made;
    kept = λ manifest seen more turn m l h. IsRecorded-kept manifest seen more turn l h;
  }
