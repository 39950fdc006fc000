-- ===== src/Locks/Checks/Digests.antt =====
-- validate_locks.py: which values `digest` and `image` let pass.
use home_lab.Prelude.{
  ℕ, zero, suc, ◌≡◌, refl, sym, ap, subst, ◌∙◌, String, Option, none, some, List, [], ◌∷◌, ◌++◌,
  drop_chars, drop, arith,
}
use home_lab.Program.{◌>>=◌, pure, raise}
use home_lab.Json.{Json, str}
use home_lab.Locks.Regex.{seq, word, word_of, codes, times, fullmatch}
use home_lab.Locks.Regex.Describes.{fullmatch_iff}
use home_lab.Locks.Regex.Meaning.{Describes}
use home_lab.Locks.Checks.{
  index_error, Check, pattern, hex, hash_value, digest, image, image_regex, after_last, last_part,
}
use home_lab.Locks.Checks.Passes.{Passes, Gives, Gives-bind, Passes-require}
use home_lab.Locks.Checks.Pins.{IsPin, hash_value_iff}

-- The algorithm, and a pin of 64 digits
abbrev pub IsDigest : Json → Type 0
IsDigest (str s) =
    (codes s ≡ codes "sha256:" ++ codes (drop_chars 7 s)) × IsPin 64 (str (drop_chars 7 s))
IsDigest _ = ⊥

-- A reference that ends with a digest
abbrev pub IsImage : Json → Type 0
IsImage (str s) = (t : String) × (after_last 64 s ≡ some t) × IsDigest (str t)
IsImage _ = ⊥

described_word : (cs xs : List ℕ) → Describes (word_of cs) xs → xs ≡ cs
described_word [] xs d = d
described_word (c ∷ cs) xs d =
    d.2
    ∙ ap (λ l. l ++ d.1) d.3.1
    ∙ ap (λ l. d.3.0 ∷ l) (described_word cs d.1 d.4)
    ∙ ap (λ x. x ∷ cs) (ground (arith, d.3.2))

codes-drop_chars : (n : ℕ) (s : String) → codes (drop_chars n s) ≡ drop n (codes s)
codes-drop_chars zero s = refl
codes-drop_chars (suc n) String.[] = refl
codes-drop_chars (suc n) (String.◌∷◌ c s) = codes-drop_chars n s

-- What a text that starts with this word is made of
start_of_word :
    (s : String) (ys : List ℕ)
    → codes s ≡ codes "sha256:" ++ ys
    → codes s ≡ codes "sha256:" ++ codes (drop_chars 7 s)
start_of_word s ys e =
    e ∙ ap (λ l. codes "sha256:" ++ l) (sym (codes-drop_chars 7 s ∙ ap (drop 7) e))

digest_text : (s place : String) → Passes (digest (str s) place) → IsDigest (str s)
unfolding digest
digest_text s place p =
    let regex = seq (word "sha256:") (times 64 hex) in
    let both =
      Gives-bind (pattern (str s) regex place) (λ _. hash_value (str (drop_chars 7 s)) 64 place) tt
        p in
    let d = (fullmatch_iff regex s).0 (Passes-require (fullmatch regex s) place both.first) in
    (
      start_of_word s d.1 (d.2 ∙ ap (λ l. l ++ d.1) (described_word (codes "sha256:") d.0 d.3)),
      (hash_value_iff (str (drop_chars 7 s)) 64 place).0 both.second,
    )

pub digest-IsDigest : (v : Json) (place : String) → Passes (digest v place) → IsDigest v
unfolding digest
digest-IsDigest (str s) place p = digest_text s place p
digest-IsDigest _ place p = ground (arith, p)

last_part_text :
    (s : String) (v : Json)
    → Gives (last_part 64 (str s)) v
    → (t : String) × (v ≡ str t) × (after_last 64 s ≡ some t)
last_part_text s v p = go (after_last 64 s) refl p
  where
    go :
        (o : Option String)
        → after_last 64 s ≡ o
        → Gives {A = Json} (elim o [ none ↦ raise index_error | some t ↦ pure (str t) ]) v
        → (t : String) × (v ≡ str t) × (after_last 64 s ≡ some t)
    go none e q = ground (arith, q)
    go (some t) e q = (t, ground (arith, q), e)

-- A value that `image` lets pass is a text that ends, after its last "@", with a sha256 digest of 64
-- lowercase hexadecimal digits that are not all zero.
pub image-IsImage : (v : Json) (place : String) → Passes (image v place) → IsImage v
unfolding image
image-IsImage (str s) place p =
    let rest : Check (Unit {0}) = last_part 64 (str s) >>= λ pin. digest pin place in
    let both = Gives-bind (pattern (str s) image_regex place) (λ _. rest) tt p in
    let tail = Gives-bind (last_part 64 (str s)) (λ pin. digest pin place) tt both.second in
    let found = last_part_text s tail.value tail.first in
    (found.0, found.2, subst IsDigest found.1 (digest-IsDigest tail.value place tail.second))
image-IsImage _ place p = ground (arith, p)
