-- ===== src/Locks/Checks/Paths.antt =====
-- validate_locks.py: which texts `path_value` takes for a path.
use Prim.Native.Char.{Char, code}
use home_lab.Prelude.{
  ◌≡◌, ◌≢◌, refl, sym, ap, subst, ◌∙◌, String, true, false, List, [], ◌∷◌, All, str_eq, str_eq_iff,
  ◌==◌, joined, arith,
}
use home_lab.Json.{Json, str, is_empty}
use home_lab.Locks.Checks.{
  Python, path_value, require_path, text, is_in, add_char, split_slashes, slash, join_slashes,
  path_parts, path_text, root_of, is_absolute, is_normal_path,
}
use home_lab.Locks.Checks.Passes.{Passes, Gives-bind, Passes-require}

-- No "/" in the text
abbrev pub NoSlash : String → Type 0
NoSlash String.[] = Unit
NoSlash (String.◌∷◌ c s) = ((code c == 47) ≡ false) × NoSlash s

-- A component of a path that stands for itself
abbrev pub IsComponent : String → Type 0
IsComponent s = (is_empty s ≡ false) × (s ≢ ".") × (s ≢ "..")

-- A path below the directory that it starts from: every part between slashes stands for itself, so
-- the path is not absolute and never leads upwards.
abbrev pub IsPlain : Json → Type 0
IsPlain (str s) = All IsComponent (split_slashes s)
IsPlain _ = ⊥

add_char-NoSlash :
    (c : Char) (parts : List String)
    → (code c == 47) ≡ false
    → All NoSlash parts
    → All NoSlash (add_char c parts)
add_char-NoSlash c [] e h = ((e, tt), tt)
add_char-NoSlash c (s ∷ parts) e h = ((e, h.0), h.1)

split_slashes-NoSlash : (s : String) → All NoSlash (split_slashes s)
unfolding split_slashes
split_slashes-NoSlash String.[] = (tt, tt)
split_slashes-NoSlash (String.◌∷◌ c s) =
    ground (arith, split_slashes-NoSlash s, add_char-NoSlash c (split_slashes s))

path_parts-NoSlash : (parts : List String) → All NoSlash parts → All NoSlash (path_parts parts)
unfolding path_parts
path_parts-NoSlash [] h = tt
path_parts-NoSlash (s ∷ parts) h = ground (arith, path_parts-NoSlash parts h.1)

-- Neither empty nor "."
abbrev IsPart : String → Type 0
IsPart s = (is_empty s ≡ false) × (str_eq s "." ≡ false)

path_parts-IsPart : (parts : List String) → All IsPart (path_parts parts)
unfolding path_parts
path_parts-IsPart [] = tt
path_parts-IsPart (s ∷ parts) = ground (arith, path_parts-IsPart parts)

split_joined :
    (s t : String) → NoSlash s → split_slashes (joined s (String.◌∷◌ slash t)) ≡ s ∷ split_slashes t
unfolding split_slashes
split_joined String.[] t h = refl
split_joined (String.◌∷◌ c s) t h = ground (arith, split_joined s t h.1)

split_one : (s : String) → NoSlash s → split_slashes s ≡ s ∷ []
unfolding split_slashes
split_one String.[] h = refl
split_one (String.◌∷◌ c s) h = ground (arith, split_one s h.1)

split_join :
    (s : String) (parts : List String)
    → All NoSlash (s ∷ parts)
    → split_slashes (join_slashes (s ∷ parts)) ≡ s ∷ parts
unfolding join_slashes
split_join s [] h = split_one s h.0
split_join s (t ∷ parts) h =
    split_joined s (join_slashes (t ∷ parts)) h.0 ∙ ap (λ l. s ∷ l) (split_join t parts h.1)

no_root : (s : String) → is_absolute s ≡ false → root_of s ≡ ""
no_root s r = ground (arith, r)

dot_only : (s : String) → is_absolute s ≡ false → path_text s [] ≡ "."
dot_only s r = ground (arith, r)

-- A relative path that is equal to the text of its parts consists of them.
split_normal :
    (s : String) (parts : List String)
    → All NoSlash parts
    → is_absolute s ≡ false
    → str_eq (path_text s parts) s ≡ true
    → str_eq s "." ≡ false
    → split_slashes s ≡ parts
split_normal s [] h r e d =
    let dot : "." ≡ s = sym (dot_only s r) ∙ (str_eq_iff (path_text s []) s).0 e in
    ground (arith, d, str_eq_iff s ".", dot)
split_normal s (t ∷ parts) h r e d =
    let rooted = (str_eq_iff (path_text s (t ∷ parts)) s).0 e in
    let same : join_slashes (t ∷ parts) ≡ s =
      ap (λ root. joined root (join_slashes (t ∷ parts))) (sym (no_root s r)) ∙ rooted in
    ap split_slashes (sym same) ∙ split_join t parts h

IsPart-IsComponent :
    (parts : List String) → All IsPart parts → is_in ".." parts ≡ false → All IsComponent parts
IsPart-IsComponent [] h e = tt
IsPart-IsComponent (s ∷ parts) h e = (
  (h.0.0, ground (arith, h.0.1, str_eq_iff s "."), ground (arith, e, str_eq_iff s "..")),
  IsPart-IsComponent parts h.1 (ground (arith, e)),
)

normal_path : (s : String) → is_normal_path s ≡ true → All IsComponent (split_slashes s)
unfolding is_normal_path
normal_path s e =
    let parts = path_parts (split_slashes s) in
    let whole = path_parts-NoSlash (split_slashes s) (split_slashes-NoSlash s) in
    let same : split_slashes s ≡ parts =
      split_normal s parts whole (ground (arith, e)) (ground (arith, e)) (ground (arith, e)) in
    subst (All IsComponent) (sym same)
      (IsPart-IsComponent parts (path_parts-IsPart (split_slashes s)) (ground (arith, e)))

-- A value that `path_value` lets pass is a text whose parts between slashes are neither empty, nor
-- ".", nor "..".
pub path_value-IsPlain :
    (python : Python) (v : Json) (place : String) → Passes (path_value python v place) → IsPlain v
unfolding path_value
path_value-IsPlain python (str s) place p =
    let both = Gives-bind (text python (str s) place) (λ _. require_path (str s) place) tt p in
    normal_path s (Passes-require (is_normal_path s) place both.second)
path_value-IsPlain python _ place p = ground (arith, p)
