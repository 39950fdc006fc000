-- ===== src/Locks/Repository/Images.antt =====
-- validate_locks.py: references of images and their identifiers, over all the locks.
use home_lab.Prelude.{◌≡◌, sym, ap, subst, ◌∙◌, false, not, some, In, ℕ, arith}
use home_lab.Prelude.Dict.{Dict}
use home_lab.Json.{Json, str, Fields, get}
use home_lab.Locks.Checks.{Python}
use home_lab.Locks.Checks.Passes.{When, Gives}
use home_lab.Locks.Lock.{Kind, is_readiness}
use home_lab.Locks.Recipe.{Locked, lookup}
use home_lab.Locks.Repository.{
  Manifest, Seen, Tree, nothing_seen, add_manifests, validate_repository,
}
use home_lab.Locks.Repository.Loops.{
  In-All, IsAccepted-once, validate_repository-Run, IsAccepted, add_manifests-All,
}
use home_lab.Locks.Repository.Recorded.{EqualTexts, Leads, IsRecorded, recorded}

same_identifier :
    (a b : Fields) (images : Dict Json)
    → get a "image" ≡ get b "image"
    → Leads a images
    → Leads b images
    → get a "image_id" ≡ get b "image_id"
same_identifier a b images same (r, named, found) (q, called, stored) =
    let text : str r ≡ str q = sym named ∙ same ∙ called in
    let reference : r ≡ q = ground (arith, text) in
    let both : some (get a "image_id") ≡ some (get b "image_id") =
      sym found ∙ ap (λ t. lookup t images) reference ∙ stored in
    ground (arith, both)

module _ (python : Python) (texts : EqualTexts python) (tree : Tree) (counts : ℕ × ℕ) where
  Leads-recorded :
      (m : Manifest) (lock : Fields) (kind : Kind) (seen : Seen)
      → Gives (add_manifests python tree.manifests nothing_seen) seen
      → In m tree.manifests
      → IsAccepted python m (lock, kind)
      → is_readiness kind ≡ false
      → Leads lock seen.images
  Leads-recorded m lock kind seen p i accepted e =
      let K : Manifest → Locked → Seen → Type 0 = λ _ l s. IsRecorded l s.images in
      let all =
        (add_manifests-All python K (recorded python texts) tree.manifests nothing_seen seen p).0 in
      let found =
        In-All (λ n. (l : Locked) × IsAccepted python n l × K n l seen) m tree.manifests i all in
      let l = IsAccepted-once python m found.0 (lock, kind) found.1 accepted in
      subst (λ b. When (not b) (Leads lock seen.images)) e
        (subst (λ w. IsRecorded w seen.images) l found.2)

  -- Where `validate_repository` returns, with an equality that holds of a text and another value only
  -- if it is the same text: two locks of its manifests that have an engine and the same image have
  -- the same image_id.
  pub validate_repository-images :
      Gives (validate_repository python tree) counts
      → (m n : Manifest) (a b : Fields) (j k : Kind) → In m tree.manifests
      → In n tree.manifests
      → IsAccepted python m (a, j)
      → IsAccepted python n (b, k)
      → is_readiness j ≡ false
      → is_readiness k ≡ false
      → get a "image" ≡ get b "image"
      → get a "image_id" ≡ get b "image_id"
  validate_repository-images p m n a b j k im inn am an e f same =
      let run = validate_repository-Run python tree counts p in
      same_identifier a b run.seen.images same (Leads-recorded m a j run.seen run.added im am e)
        (Leads-recorded n b k run.seen run.added inn an f)
