-- ===== src/PolicyDelta.antt =====
-- proxmox/guests/netbird-router-2/check-unifi-delta.py: the values it compares, `objects` and
-- `semantic`.
pub mod Pair
pub mod Verify
pub mod Reads
pub mod Matches
pub mod Proposed
pub mod Table
pub mod Others
pub mod Changed
pub mod Delta
mod Tests
use home_lab.Prelude.{
  String, Bool, true, false, not, ◌&&◌, ◌||◌, Option, none, some, List, [], ◌∷◌, ◌++◌, str_eq,
  if◌then◌else◌,
}
use home_lab.Program.{Io, pure, raise, raise_if, ◌>>=◌, ◌>>◌}
use home_lab.Json.{
  Json, str, arr, obj, Items, nil, cons, Fields, end, field, list_of, get, has, as_dict,
  is_hashable,
}

-- The messages of `require`, in the order of the source
pub data Reason : Type 0 where
  not_policies duplicate_id not_allow disabled other_protocol other_version no_response : Reason
  other_origin other_return_state other_forward_state other_schedule other_address other_target :
      Reason
  inverted_match other_port wide_scope inverted_protocol : Reason
  not_one_return other_policies duplicate_return forward_changed return_changed unrelated_changed :
      Reason

-- ValueError with a message; or TypeError, AttributeError or KeyError of a value that is not as expected.
pub data Error : Type 0 where
  rejected : Reason → Error
  bad_value : Error

abbrev pub Check : Type 0 → Type 0
Check A = Io Error (Unit {0}) A

-- `require`
abbrev pub require : Bool → Reason → Check (Unit {0})
require condition reason = raise_if (not condition) (rejected reason)

-- Python's `==` of two JSON values
abbrev pub Equality : Type 0
Equality = Json → Json → Bool

abbrev pub at : Fields → String → Check Json
at d k = if has d k then pure (get d k) else raise bad_value

-- `v[k]` with a text `k`
abbrev pub subscript : Json → String → Check Json
subscript (obj d) k = at d k
subscript _ k = raise bad_value

-- `v` as the dict that it is
abbrev pub fields_of : Json → Check Fields
fields_of (obj d) = pure d
fields_of _ = raise bad_value

-- Policies by ID, in the order of the snapshot
abbrev pub Policies : Type 0
Policies = List (Json × Fields)

-- `if isinstance(snapshot, dict)`
abbrev pub selected : Json → Check Json
selected (obj d) = at d "netbird_policies"
selected v = pure v

abbrev pub list_or_reject : Json → Check (List Json)
list_or_reject (arr vs) = pure (list_of vs)
list_or_reject _ = raise (rejected not_policies)

-- KeyError for none
abbrev pub or_missing : Option Fields → Check Fields
or_missing none = raise bad_value
or_missing (some p) = pure p

module _ (equal : Equality) where
  -- `ident in result`
  abbrev pub has_id : Json → Policies → Bool
  has_id ident [] = false
  has_id ident ((k, p) ∷ ps) = equal k ident || has_id ident ps

  -- `result[ident]`
  abbrev pub find : Json → Policies → Option Fields
  find ident [] = none
  find ident ((k, p) ∷ ps) = if equal k ident then some p else find ident ps

  abbrev pub policy : Json → Policies → Check Fields
  policy ident ps = or_missing (find ident ps)

  -- The loop of `objects`, with what it has found before; an ID has to be hashable.
  unfoldable pub collect : List Json → Policies → Check Policies
  collect [] before = pure before
  collect (v ∷ vs) before = do
    ident ← subscript v "_id"
    raise_if (not (is_hashable ident)) bad_value
    require (not (has_id ident before)) duplicate_id
    p ← fields_of v
    collect vs (before ++ ((ident, p) ∷ []))

  -- `objects`
  unfoldable pub objects : Json → Check Policies
  objects snapshot = do v ← selected snapshot; vs ← list_or_reject v; collect vs []

-- `semantic`
unfoldable pub semantic : Fields → Fields
semantic end = end
semantic (field k v d) =
    let rest = semantic d in if str_eq k "hits" || str_eq k "last_hit" then rest else field k v rest

-- `d[k] = v`
abbrev pub put : Fields → String → Json → Fields
put end k v = field k v end
put (field j w d) k v = if str_eq j k then field j v d else field j w (put d k v)
