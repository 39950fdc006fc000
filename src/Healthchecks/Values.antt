-- ===== src/Healthchecks/Values.antt =====
-- healthchecks.py, values: subscripts and loops over JSON, `split`, sets, `managed`, and equality of dicts.
use Prim.Native.Char.{code}
use home_lab.Prelude.{
  String, Bool, true, false, not, ◌&&◌, ◌||◌, none, some, List, [], ◌∷◌, ◌++◌, length, ◌==◌, str_eq,
  map, if◌then◌else◌,
}
use home_lab.Json.{
  Json, str, arr, obj, Fields, end, field, list_of, keys_of, get, has, as_dict, is_empty,
}
use home_lab.Healthchecks.Declaration.{text_fields, timing_of, member}
use home_lab.Healthchecks.Service.{Ending, returned, refused, crashed, Env}

infixl 5 ◌>>=◌
abbrev pub ◌>>=◌ : {A B : Type 0} → Ending A → (A → Ending B) → Ending B
returned a >>= f = f a
refused why >>= f = refused why
crashed >>= f = crashed

-- `d[k]`
abbrev pub at : Fields → String → Ending Json
at d k = if has d k then returned (get d k) else crashed

-- `v[k]`
abbrev pub subscript : Json → String → Ending Json
subscript v k = elim (as_dict v) [ none ↦ crashed | some d ↦ at d k ]

abbrev pub chars_of : String → List Json
chars_of String.[] = []
chars_of (String.◌∷◌ c s) = str (String.◌∷◌ c String.[]) ∷ chars_of s

-- What `for x in v` goes through.
abbrev pub iterate : Json → Ending (List Json)
iterate (arr items) = returned (list_of items)
iterate (obj d) = returned (map str (keys_of d))
iterate (str s) = returned (chars_of s)
iterate _ = crashed

-- The dicts among which a method `get` is called.
abbrev pub dicts : List Json → Ending (List Fields)
dicts [] = returned []
dicts (v ∷ vs) = elim (as_dict v) [ none ↦ crashed | some d ↦ dicts vs >>= λ ds. returned (d ∷ ds) ]

-- `[v[k] for v in vs]`
abbrev pub each : String → List Json → Ending (List Json)
each k [] = returned []
each k (v ∷ vs) = subscript v k >>= λ x. each k vs >>= λ xs. returned (x ∷ xs)

-- `fetch`, of the answer to GET checks/
abbrev pub checks_of : Json → Ending (List Fields)
checks_of document = subscript document "checks" >>= λ checks. iterate checks >>= dicts

-- `fetch`, of the answer to GET channels/
abbrev pub channel_ids : Json → Ending (List Json)
channel_ids document = subscript document "channels" >>= λ channels. iterate channels >>= each "id"

-- `check["slug"] == slug`
abbrev pub is_slug_of : String → Fields → Bool
is_slug_of slug check = elim (get check "slug") [ str s ↦ str_eq s slug | _ ↦ false ]

-- PROTECTED
abbrev pub is_protected : String → Bool
is_protected slug = str_eq slug "k8s-prod-watchdog"

abbrev pub add_letter : String → List String → List String
add_letter c [] = c ∷ []
add_letter (String.◌∷◌ c _) (s ∷ parts) = String.◌∷◌ c s ∷ parts
add_letter String.[] parts = parts

-- `s.split(",")`
abbrev pub split_commas : String → List String
split_commas String.[] = "" ∷ []
split_commas (String.◌∷◌ c s) =
    if code c == 44
    then "" ∷ split_commas s
    else add_letter (String.◌∷◌ c String.[]) (split_commas s)

-- `set(filter(None, parts))`
abbrev pub assigned_of : List String → List String
assigned_of [] = []
assigned_of (s ∷ parts) =
    if is_empty s || member s parts then assigned_of parts else s ∷ assigned_of parts

module _ (env : Env) where
  abbrev pub is_among : Json → List Json → Bool
  is_among v [] = false
  is_among v (w ∷ ws) = env.equal v w || is_among v ws

  -- `set(vs) <= set(ws)`
  abbrev pub is_within : List Json → List Json → Bool
  is_within [] ws = true
  is_within (v ∷ vs) ws = is_among v ws && is_within vs ws

  -- `{v for v in vs}`
  abbrev pub distinct : List Json → List Json
  distinct [] = []
  distinct (v ∷ vs) = if is_among v vs then distinct vs else v ∷ distinct vs

  abbrev pub everything : List String → List Json → Json
  everything assigned channels =
      let given = map str assigned in
      str (
        if is_within given channels && is_within channels given
        then "*"
        else env.partial (length assigned) (length channels))

  -- `{k: check[k] for k in ks}`, then the channels
  abbrev pub picked : Fields → List String → Json → Ending Fields
  picked check [] channels = returned (field "channels" channels end)
  picked check (k ∷ ks) channels =
      at check k >>= λ v. picked check ks channels >>= λ rest. returned (field k v rest)

  abbrev pub channels_text : Json → Ending String
  channels_text (str s) = returned s
  channels_text _ = crashed

  -- `managed`
  unfoldable pub managed : Fields → List Json → Ending Fields
  managed check channels = at check "channels" >>= λ v. channels_text v >>= λ text.
      picked check (text_fields ++ (timing_of check ++ "grace" ∷ []))
        (everything (assigned_of (split_commas text)) channels)

  -- `d == e`
  abbrev pub agrees : Fields → Fields → Bool
  agrees end e = true
  agrees (field k v d) e = (has e k && env.equal v (get e k)) && agrees d e

  abbrev pub same_dict : Fields → Fields → Bool
  same_dict d e = agrees d e && agrees e d

  -- `any(have.get(k) != want.get(k) for k in ks)`
  abbrev pub differs : Fields → Fields → List String → Bool
  differs have want [] = false
  differs have want (k ∷ ks) = not (env.equal (get have k) (get want k)) || differs have want ks
