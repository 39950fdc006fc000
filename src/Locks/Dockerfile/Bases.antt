-- ===== src/Locks/Dockerfile/Bases.antt =====
-- validate_locks.py: the bases of a Dockerfile that `validate_dockerfile` lets pass.
use home_lab.Prelude.{
  ◌≡◌, ◌⊎◌, inl, inr, refl, sym, subst, String, Bool, true, false, Option, none, some, List, [],
  ◌∷◌, All, In, IsTail, same, later, In-IsTail, IsTail-trans, str_eq, str_eq_iff, if◌then◌else◌,
  arith,
}
use home_lab.Program.{◌>>=◌, pure}
use home_lab.Json.{Json, str, Fields, has}
use home_lab.Locks.Checks.{Check, Python, require, image}
use home_lab.Locks.Checks.Passes.{When, Passes, Gives, Gives-bind, Passes-require}
use home_lab.Locks.Checks.Digests.{IsImage, image-IsImage}
use home_lab.Locks.Dockerfile.{
  Mod, base_of, base_image, declared_base, resolved, add_base, from_line, arg_line, is_word,
  read_lines, all_equal, is_some_base, agree_with_build, check_bases, check_dockerfile,
  validate_dockerfile,
}

module _ (python : Python) (lock : Fields) where
  -- A base that is neither "scratch" nor mutable: it stands for an image with a digest, and is one
  -- of the bases that were found.
  abbrev pub IsFixed : String → List Json → Type 0
  IsFixed base bases =
      (v : Json) × Gives (resolved python lock base) (some v) × IsImage v × In v bases

  -- A base of the line
  abbrev pub HasBase : List Json → List String → Type 0
  HasBase bases tokens =
      (base : String) × Gives (base_of python lock tokens) base
      × ((base ≡ "scratch") ⊎ IsFixed base bases)

  -- A line that begins with FROM has a base, which is "scratch" or fixed.
  abbrev pub IsBased : List Json → List String → Type 0
  IsBased bases tokens = When (is_word python lock "FROM" tokens) (HasBase bases tokens)

  resolved-scratch : (base : String) → Gives (resolved python lock base) none → base ≡ "scratch"
  resolved-scratch base p = go (str_eq base "scratch") (str_eq base "${BASE_IMAGE}") refl p
    where
      declared : Check (Option Json)
      declared = declared_base python lock >>= λ v. pure (some v)

      go :
          (b c : Bool)
          → str_eq base "scratch" ≡ b
          → Gives {A = Option Json}
              (if b then pure none else if c then declared else pure (some (str base)))
              none
          → base ≡ "scratch"
      go true c e q = (str_eq_iff base "scratch").0 e
      go false true e q =
          let both = Gives-bind (declared_base python lock) (λ v. pure (some v)) none q in
          ground (arith, both.second)
      go false false e q = ground (arith, q)

  add_base-IsFixed :
      (base : String) (o : Option Json) (acc bases : List Json)
      → Gives (resolved python lock base) o
      → Gives (add_base python lock o acc) bases
      → IsTail acc bases × ((base ≡ "scratch") ⊎ IsFixed base bases)
  add_base-IsFixed base none acc bases r p =
      (subst (IsTail acc) (ground (arith, p)) same, inl (resolved-scratch base r))
  add_base-IsFixed base (some v) acc bases r p =
      let place : String = "build/Dockerfile FROM" in
      let both = Gives-bind (image v place) (λ _. pure (v ∷ acc)) bases p in
      let e : v ∷ acc ≡ bases = ground (arith, both.second) in
      (
        subst (IsTail acc) e (later v same),
        inr (v, r, image-IsImage v place both.first, subst (In v) e (inl refl)),
      )

  -- What a line that begins with FROM adds
  from_line-HasBase :
      (tokens : List String) (acc bases : List Json)
      → Gives (from_line python lock tokens acc) bases
      → IsTail acc bases × HasBase bases tokens
  unfolding from_line
  from_line-HasBase tokens acc bases p =
      let rest : String → Check (List Json) =
        λ base. resolved python lock base >>= λ o. add_base python lock o acc in
      let first = Gives-bind (base_of python lock tokens) rest bases p in
      let both =
        Gives-bind (resolved python lock first.value) (λ o. add_base python lock o acc) bases
          first.second in
      let found = add_base-IsFixed first.value both.value acc bases both.first both.second in
      (found.0, (first.value, first.first, found.1))

  IsFixed-later :
      (base : String) {acc bases : List Json}
      → IsTail acc bases
      → IsFixed base acc
      → IsFixed base bases
  IsFixed-later base t h = (h.0, h.1, h.2, In-IsTail h.0 h.3 t)

  HasBase-later :
      (tokens : List String) {acc bases : List Json}
      → IsTail acc bases
      → HasBase acc tokens
      → HasBase bases tokens
  HasBase-later tokens t found =
      (found.0, found.1, elim found.2 [ inl s ↦ inl s | inr f ↦ inr (IsFixed-later found.0 t f) ])

  read_lines-IsBased :
      (lines : List (List String)) (acc bases : List Json)
      → Gives (read_lines python lock lines acc) bases
      → IsTail acc bases × All (IsBased bases) lines
  unfolding read_lines
  read_lines-IsBased [] acc bases p = (subst (IsTail acc) (ground (arith, p)) same, tt)
  read_lines-IsBased (tokens ∷ lines) acc bases p =
      go (is_word python lock "FROM" tokens) (is_word python lock "ARG" tokens) refl
        (λ more. read_lines-IsBased lines more bases) p
    where
      read : List Json → Check (List Json)
      read more = read_lines python lock lines more

      go :
          (b c : Bool)
          → is_word python lock "FROM" tokens ≡ b
          → ((more : List Json)
              → Gives (read more) bases
              → IsTail more bases × All (IsBased bases) lines)
          → Gives {A = List Json}
              (if b
                then (from_line python lock tokens acc >>= λ more. read more)
                else if c
                then (arg_line python lock tokens >>= λ _. read acc)
                else read acc)
              bases
          → IsTail acc bases × All (IsBased bases) (tokens ∷ lines)
      go true c e ih q =
          let both = Gives-bind (from_line python lock tokens acc) read bases q in
          let line = from_line-HasBase tokens acc both.value both.first in
          let rest = ih both.value both.second in
          (
            IsTail-trans line.0 rest.0,
            (
              subst (λ d. When d (HasBase bases tokens)) (sym e)
                  (HasBase-later tokens rest.0 line.1),
              rest.1,
            ),
          )
      go false true e ih q =
          let both = Gives-bind (arg_line python lock tokens) (λ _. read acc) bases q in
          let rest = ih acc both.second in
          (rest.0, (subst (λ d. When d (HasBase bases tokens)) (sym e) tt, rest.1))
      go false false e ih q =
          let rest = ih acc q in
          (rest.0, (subst (λ d. When d (HasBase bases tokens)) (sym e) tt, rest.1))

  -- Every base is equal to `build.base_image`, where the lock has a build.
  abbrev pub AgreesWithBuild : List Json → Type 0
  AgreesWithBuild bases =
      When (has lock "build")
        ((v : Json) × Gives (base_image python lock) v × All (λ b. python.equal b v ≡ true) bases)

  all_equal-All :
      (bases : List Json) (v : Json)
      → all_equal python lock bases v ≡ true
      → All (λ b. python.equal b v ≡ true) bases
  all_equal-All [] v e = tt
  all_equal-All (b ∷ bases) v e = (ground (arith, e), all_equal-All bases v (ground (arith, e)))

  agree_with_build-All :
      (bases : List Json) → Passes (agree_with_build python lock bases) → AgreesWithBuild bases
  agree_with_build-All bases p = go (has lock "build") p
    where
      check : Json → Check (Unit {0})
      check v = require (all_equal python lock bases v) "build/Dockerfile"

      go :
          (b : Bool)
          → Passes (if b then (base_image python lock >>= check) else pure tt)
          → When b (
              (v : Json) × Gives (base_image python lock) v
              × All (λ b. python.equal b v ≡ true) bases)
      go true q =
          let both = Gives-bind (base_image python lock) check tt q in
          let same =
            Passes-require (all_equal python lock bases both.value) "build/Dockerfile"
              both.second in
          (both.value, both.first, all_equal-All bases both.value same)
      go false q = tt

  -- The lines of a Dockerfile, with a list of bases that is not empty
  abbrev pub AreBased : List (List String) → Type 0
  AreBased lines =
      (bases : List Json) × (is_some_base python lock bases ≡ true)
      × All (IsBased bases) lines
      × AgreesWithBuild bases

  -- Where `validate_dockerfile` lets a Dockerfile pass, its text was read, and there is a list of bases, not empty, such
  -- that every line beginning with FROM has the base "scratch" or one that stands for an image with
  -- a sha256 digest in this list; and if the lock has a build, every base in the list is equal to
  -- its base_image.
  pub validate_dockerfile-IsBased :
      (mod_dir : Mod) (content : Check String)
      → mod_dir.dockerfile ≡ some content
      → Passes (validate_dockerfile python lock mod_dir)
      → (text : String) × Gives content text × AreBased (python.words_of_lines text)
  unfolding validate_dockerfile
  validate_dockerfile-IsBased mod_dir content e p =
      let read : String → Check (Unit {0}) = λ text.
        read_lines python lock (python.words_of_lines text) [] >>= check_bases python lock in
      let q : Passes (content >>= read) =
        subst (λ o. Passes (check_dockerfile python lock o)) e p in
      let found = Gives-bind content read tt q in
      let lines = python.words_of_lines found.value in
      let first =
        Gives-bind (read_lines python lock lines []) (check_bases python lock) tt found.second in
      let bases = first.value in
      let place : String = "build/Dockerfile" in
      let some_base = is_some_base python lock bases in
      let both =
        Gives-bind (require some_base place) (λ _. agree_with_build python lock bases) tt
          first.second in
      (
        found.value,
        found.first,
        (
          bases,
          Passes-require some_base place both.first,
          (read_lines-IsBased lines [] bases first.first).1,
          agree_with_build-All bases both.second,
        ),
      )
