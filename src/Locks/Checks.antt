-- ===== src/Locks/Checks.antt =====
-- validate_locks.py: the checks of single values, from `require` to `image`.
pub mod Passes
pub mod Pins
pub mod Paths
pub mod Digests
use Prim.Native.Char.{Char, code}
use home_lab.Prelude.{
  joined, drop_chars, ℕ, zero, suc, String, Bool, true, false, not, ◌&&◌, ◌||◌, Option, none, some,
  List, [], ◌∷◌, ◌++◌, ◌==◌, str_eq, if◌then◌else◌,
}
use home_lab.Prelude.Int.{ℤ, pos, int_lt}
use home_lab.Program.{Io, pure, raise, raise_if, ◌>>=◌, ◌>>◌}
use home_lab.Json.{Json, str, arr, obj, Fields, get, has, keys_of, is_empty, as_int, as_dict}
use home_lab.Locks.Regex.{Regex, chars, seq, or, many, empty, fullmatch, times, up_to, word}

-- InvalidManifest with its place, the message left out; and the errors of values that are not as
-- expected and of files
pub data Error : Type 0 where
  invalid : String → Error
  key_error type_error attribute_error index_error value_error os_error : Error

abbrev pub Check : Type 0 → Type 0
Check A = Io Error (Unit {0}) A

-- Python's library: `str.strip`, `str.upper`, `==` of JSON values, `str` of a value, `split` of each
-- line of `splitlines`, and `shlex.split`, which may raise ValueError; `json.loads` with every pair of
-- an object kept, and `yaml.safe_load`, where they give a document; the hex digits of `hashlib.sha256`
-- of byte strings one after the other.
pub record Python : Type 0 where
  pub strip : String → String
  pub upper : String → String
  pub equal : Json → Json → Bool
  pub text_of : Json → String
  pub words_of_lines : String → List (List String)
  pub shlex_split : String → Option (List String)
  pub loads : String → Option Json
  pub safe_load : String → Option Json
  pub sha256 : List String → String

-- `require`
abbrev pub require : Bool → String → Check (Unit {0})
require ok place = raise_if (not ok) (invalid place)

-- One check after the other
unfoldable pub run_all : List (Check (Unit {0})) → Check (Unit {0})
run_all [] = pure tt
run_all (check ∷ checks) = check >>= λ _. run_all checks

-- `v[k]` with a text `k`
abbrev pub at : Json → String → Check Json
at (obj d) k = if has d k then pure (get d k) else raise key_error
at _ k = raise type_error

abbrev pub is_in : String → List String → Bool
is_in k [] = false
is_in k (j ∷ ks) = str_eq j k || is_in k ks

abbrev pub all_in : List String → List String → Bool
all_in [] ks = true
all_in (j ∷ js) ks = is_in j ks && all_in js ks

-- Equality of two sets of texts
abbrev pub same_names : List String → List String → Bool
same_names js ks = all_in js ks && all_in ks js

-- `fields`, with the names as a list
abbrev pub fields : Json → List String → String → Check (Unit {0})
fields (obj d) names place = require (same_names (keys_of d) names) place
fields _ names place = raise (invalid place)

-- `text`
abbrev pub text : Python → Json → String → Check (Unit {0})
text python (str s) place = require (not (is_empty (python.strip s))) place
text python _ place = raise (invalid place)

-- `pattern`
abbrev pub pattern : Json → Regex → String → Check (Unit {0})
pattern (str s) regex place = require (fullmatch regex s) place
pattern _ regex place = raise (invalid place)

-- `[0-9a-f]{size}`
abbrev pub hex : Regex
hex = chars ((48, 57) ∷ (97, 102) ∷ [])

abbrev pub zero_char : Char
zero_char = "0"

-- `"0" * size`
abbrev pub zeros : ℕ → String
zeros zero = ""
zeros (suc n) = String.◌∷◌ zero_char (zeros n)

abbrev pub is_str : Json → String → Bool
is_str (str s) t = str_eq s t
is_str _ t = false

-- `hash_value`
unfoldable pub hash_value : Json → ℕ → String → Check (Unit {0})
hash_value v size place = do
  pattern v (times size hex) place
  require (not (is_str v (zeros size))) place

abbrev pub tail_of : ℕ → Json → Json
tail_of n (str s) = str (drop_chars n s)
tail_of n v = v

-- `digest`
unfoldable pub digest : Json → String → Check (Unit {0})
digest v place = do
  pattern v (seq (word "sha256:") (times 64 hex)) place
  hash_value (tail_of 7 v) 64 place

abbrev pub is_positive : Option ℤ → Bool
is_positive none = false
is_positive (some n) = int_lt (pos 0) n

-- `positive`
abbrev pub positive : Json → String → Check (Unit {0})
positive v place = require (is_positive (as_int v)) place

-- `text.split("/")`
abbrev pub add_char : Char → List String → List String
add_char c [] = String.◌∷◌ c "" ∷ []
add_char c (s ∷ parts) = String.◌∷◌ c s ∷ parts

unfoldable pub split_slashes : String → List String
split_slashes String.[] = "" ∷ []
split_slashes (String.◌∷◌ c s) =
    let rest = split_slashes s in if code c == 47 then "" ∷ rest else add_char c rest

abbrev pub slash : Char
slash = "/"

-- `"/".join(parts)`
unfoldable pub join_slashes : List String → String
join_slashes [] = ""
join_slashes (s ∷ []) = s
join_slashes (s ∷ t ∷ parts) = joined s (String.◌∷◌ slash (join_slashes (t ∷ parts)))

-- The parts of a PurePosixPath: without the empty ones and "."
unfoldable pub path_parts : List String → List String
path_parts [] = []
path_parts (s ∷ parts) =
    let rest = path_parts parts in if is_empty s || str_eq s "." then rest else s ∷ rest

abbrev pub is_absolute : String → Bool
is_absolute String.[] = false
is_absolute (String.◌∷◌ c s) = code c == 47

abbrev leading_slashes : String → ℕ
leading_slashes String.[] = 0
leading_slashes (String.◌∷◌ c s) =
    let rest = leading_slashes s in if code c == 47 then suc rest else 0

-- The root of a PurePosixPath: exactly two slashes at the start are kept, more of them are one.
abbrev pub root_of : String → String
root_of s = if is_absolute s then (if leading_slashes s == 2 then "//" else "/") else ""

-- `str` of the PurePosixPath of a text with these parts
abbrev pub path_text : String → List String → String
path_text s [] = if is_absolute s then root_of s else "."
path_text s (part ∷ parts) = joined (root_of s) (join_slashes (part ∷ parts))

unfoldable pub is_normal_path : String → Bool
is_normal_path s =
    let parts = path_parts (split_slashes s) in
    not (is_absolute s)
    && not (is_in ".." parts)
    && str_eq (path_text s parts) s
    && not (str_eq s ".")

-- `path_value`
abbrev pub require_path : Json → String → Check (Unit {0})
require_path (str s) place = require (is_normal_path s) place
require_path _ place = raise type_error

unfoldable pub path_value : Python → Json → String → Check (Unit {0})
path_value python v place = do text python v place; require_path v place

abbrev pub digit_ranges : List (ℕ × ℕ)
digit_ranges = (48, 57) ∷ []

abbrev pub lower_digits : List (ℕ × ℕ)
lower_digits = (97, 122) ∷ digit_ranges

abbrev pub letters_digits : List (ℕ × ℕ)
letters_digits = (65, 90) ∷ lower_digits

-- `[A-Za-z0-9_.-]`
abbrev pub name_chars : Regex
name_chars = chars ((95, 95) ∷ (45, 46) ∷ letters_digits)

abbrev pub owner_name : Regex
owner_name = seq (chars letters_digits) (many name_chars)

-- REPOSITORY
abbrev pub repository_regex : Regex
repository_regex = seq owner_name (seq (word "/") owner_name)

-- `[a-z0-9]+(?:[._-][a-z0-9]+)*`
abbrev pub image_part : Regex
image_part =
    let piece = seq (chars lower_digits) (many (chars lower_digits)) in
    seq piece (many (seq (chars ((95, 95) ∷ (45, 46) ∷ [])) piece))

abbrev pub digits : Regex
digits = seq (chars digit_ranges) (many (chars digit_ranges))

-- IMAGE_NAME
abbrev pub image_name : Regex
image_name =
    seq image_part (seq (or empty (seq (word ":") digits)) (many (seq (word "/") image_part)))

-- TAG
abbrev pub tag_regex : Regex
tag_regex = seq (chars ((95, 95) ∷ letters_digits)) (up_to 127 name_chars)

abbrev pub image_regex : Regex
image_regex =
    seq image_name
      (seq (or empty (seq (word ":") tag_regex)) (seq (word "@sha256:") (times 64 hex)))

-- `repository`
abbrev pub repository : Json → String → Check (Unit {0})
repository v place = pattern v repository_regex place

-- `source`, with the extra names
unfoldable pub source : Json → String → List String → Check (Unit {0})
source v place extra = do
  fields v ("repository" ∷ "revision" ∷ extra) place
  name ← at v "repository"
  repository name (joined place ".repository")
  revision ← at v "revision"
  hash_value revision 40 (joined place ".revision")

abbrev pub later_or : Bool → String → Option String → Option String
later_or here s (some t) = some t
later_or here s none = if here then some s else none

-- What stands after the last character with this code
unfoldable pub after_last : ℕ → String → Option String
after_last n String.[] = none
after_last n (String.◌∷◌ c s) = later_or (code c == n) s (after_last n s)

-- `value.rsplit("@", 1)[1]`, of a text
abbrev pub last_part : ℕ → Json → Check Json
last_part n (str s) = elim (after_last n s) [ none ↦ raise index_error | some t ↦ pure (str t) ]
last_part n _ = raise attribute_error

-- `image`
unfoldable pub image : Json → String → Check (Unit {0})
image v place = do pattern v image_regex place; pin ← last_part 64 v; digest pin place
