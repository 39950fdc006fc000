-- ===== src/Tensorfold/Snapshot.antt =====
-- `hf_snapshot_path` and `parse_hf_snapshot`.
use Prim.Native.Char.{Char, code}
use home_lab.Prelude.{
  after_start, String, Bool, false, ◌&&◌, ◌||◌, Option, none, some, ◌==◌, if◌then◌else◌,
}
use home_lab.Json.{is_empty}
use Prim.Native.String.{◌++◌}

abbrev pub slash : Char
slash = "/"

abbrev pub dash : Char
dash = "-"

abbrev pub dot : Char
dot = "."

abbrev pub backslash : Char
backslash = "\\"

abbrev pub is_char : Char → Char → Bool
is_char c d = code c == code d

abbrev pub put_before : Char → Option (String × String) → Option (String × String)
put_before c none = none
put_before c (some (a, b)) = some (String.◌∷◌ c a, b)

abbrev pub cut_here : Option String → Option (String × String) → Option (String × String)
cut_here none further = further
cut_here (some rest) further = some ("", rest)

-- What stands before and after the first place of a part, which is not empty
unfoldable pub cut : String → String → Option (String × String)
cut part String.[] = none
cut part (String.◌∷◌ c text) =
    let further = cut part text in
    cut_here (after_start part (String.◌∷◌ c text)) (put_before c further)

-- `text.replace("/", "--")`
unfoldable pub dashed : String → String
dashed String.[] = ""
dashed (String.◌∷◌ c text) =
    let rest = dashed text in
    if is_char c slash then String.◌∷◌ dash (String.◌∷◌ dash rest) else String.◌∷◌ c rest

-- `text.replace("--", "/")`
unfoldable pub slashed : String → String
slashed String.[] = ""
slashed (String.◌∷◌ c String.[]) = String.◌∷◌ c ""
slashed (String.◌∷◌ c (String.◌∷◌ d text)) =
    let both = slashed text in
    let one = slashed (String.◌∷◌ d text) in
    if is_char c dash && is_char d dash then String.◌∷◌ slash both else String.◌∷◌ c one

-- `text.replace("\\", "/")`
unfoldable pub forward_slashes : String → String
forward_slashes String.[] = ""
forward_slashes (String.◌∷◌ c text) =
    let rest = forward_slashes text in
    if is_char c backslash then String.◌∷◌ slash rest else String.◌∷◌ c rest

abbrev pub lstrip : String → String
lstrip String.[] = ""
lstrip (String.◌∷◌ c text) =
    let rest = lstrip text in if is_char c slash then rest else String.◌∷◌ c text

abbrev pub rstrip : String → String
rstrip String.[] = ""
rstrip (String.◌∷◌ c text) =
    let rest = rstrip text in if is_char c slash && is_empty rest then "" else String.◌∷◌ c rest

-- `"/" in text`
abbrev pub has_slash : String → Bool
has_slash String.[] = false
has_slash (String.◌∷◌ c text) = is_char c slash || has_slash text

-- `hf_snapshot_path`
unfoldable pub hf_snapshot_path : String → String → String
hf_snapshot_path repo_id revision =
    "/cache/huggingface/hub/models--" ++ (dashed repo_id ++ ("/snapshots/" ++ revision))

-- What follows "models--", at the start of the text or after a slash
abbrev pub rest_of : String → Option (String × String) → Option String
rest_of text none = after_start "models--" text
rest_of text (some (before, rest)) = some rest

-- The repository and the revision, unless one is missing or the revision goes on with a slash
abbrev pub checked : String → String → Option (String × String)
checked repo revision =
    if is_empty repo || is_empty revision || has_slash revision then none else some (repo, revision)

abbrev pub parts_of : Option (String × String) → Option (String × String)
parts_of none = none
parts_of (some (repo, revision)) = checked (slashed repo) (rstrip (lstrip revision))

abbrev pub snapshot_in : Option String → Option (String × String)
snapshot_in none = none
snapshot_in (some rest) = parts_of (cut "/snapshots/" rest)

-- `parse_hf_snapshot`
unfoldable pub parse_hf_snapshot : String → Option (String × String)
parse_hf_snapshot path =
    let text = forward_slashes path in snapshot_in (rest_of text (cut "/models--" text))
