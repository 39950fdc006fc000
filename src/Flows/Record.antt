-- ===== src/Flows/Record.antt =====
-- collector.py, `flow_id`, `flow_scope` and `flow_record`: a Flow View row becomes the stored record.
pub mod Total
pub mod Identity
use Prim.Native.String.{◌++◌}
use home_lab.Prelude.{
  String, Bool, true, false, not, ◌&&◌, Option, none, some, List, [], ◌∷◌, map, str_eq,
  if◌then◌else◌,
}
use home_lab.Json.{
  Json, null, bool, int, real, str, arr, obj, Fields, end, get, truthy, or_else, list_of, keys_of,
  is_empty,
}
use home_lab.Flows.Runtime.{
  Python, Outcome, ok, raised, unexpected, overflow, stamp, value_error, overflow_error,
}

infixl 5 ◌>>=◌
abbrev pub ◌>>=◌ : {A B : Type 0} → Outcome A → (A → Outcome B) → Outcome B
ok a >>= f = f a
raised e >>= f = raised e

abbrev dict_of : Json → Outcome Fields
dict_of (obj fs) = ok fs
dict_of _ = raised unexpected

-- `v or {}`, whose `.get` raises AttributeError unless it is a dict
abbrev pub dict_or_empty : Json → Outcome Fields
dict_or_empty v = if truthy v then dict_of v else ok end

-- `','.join(parts)`
abbrev pub join_commas : List String → String
join_commas [] = ""
join_commas (s ∷ []) = s
join_commas (s ∷ t ∷ rest) = s ++ ("," ++ join_commas (t ∷ rest))

abbrev chars : String → List String
chars String.[] = []
chars (String.◌∷◌ c s) = String.◌∷◌ c String.[] ∷ chars s

-- `v not in (None, '')`
abbrev pub is_kept : Json → Bool
is_kept null = false
is_kept (str s) = not (is_empty s)
is_kept _ = true

abbrev pub keep : List (String × Json) → List (String × Json)
keep [] = []
keep ((k, v) ∷ rest) = if is_kept v then (k, v) ∷ keep rest else keep rest

abbrev name_of : Fields → Json
name_of end_point =
    or_else (or_else (get end_point "client_name") (get end_point "device_name"))
      (get end_point "host_name")

-- `x.get('network_name') or end.get('network_name') or zone or 'unknown'`
abbrev network_of : Fields → Fields → Json
network_of interface end_point =
    or_else
      (or_else (or_else (get interface "network_name") (get end_point "network_name"))
        (get end_point "zone_name"))
      (str "unknown")

abbrev pub given_id : Json → Option String
given_id (str s) = if is_empty s then none else some s
given_id _ = none

abbrev is_str : Json → String → Bool
is_str (str s) t = str_eq s t
is_str _ t = false

module _ (python : Python) where
  unfoldable pub derived_id : Fields → Outcome String
  derived_id row = do
    source ← dict_or_empty (get row "source")
    destination ← dict_or_empty (get row "destination")
    ok (
        "derived-"
        ++ python.digest (
            get row "time"
            ∷ get row "protocol"
            ∷ get source "ip"
            ∷ get source "port"
            ∷ get destination "ip"
            ∷ get destination "port"
            ∷ []))

  unfoldable pub flow_id : Fields → Outcome String
  flow_id row = elim (given_id (get row "id")) [ none ↦ derived_id row | some id ↦ ok id ]

  unfoldable pub flow_scope : Json → Json → Json → String
  flow_scope source_network destination_network destination_zone =
      if is_str destination_zone "External"
      then "internet"
      else if is_str destination_zone "Gateway"
      then "gateway"
      else if python.equal source_network destination_network
      then "same_network"
      else "inter_network"

  -- `str(p.get('name') or p.get('internal_type'))` of each dict among the policies
  abbrev policy_names : List Json → List String
  policy_names [] = []
  policy_names (obj p ∷ rest) =
      python.str_of (or_else (get p "name") (get p "internal_type")) ∷ policy_names rest
  policy_names (_ ∷ rest) = policy_names rest

  -- Iterating over a number raises TypeError; a text or a dict yields texts, which are no policies.
  abbrev policies_of : Json → Outcome (List String)
  policies_of (arr xs) = ok (policy_names (list_of xs))
  policies_of (obj _) = ok []
  policies_of (str _) = ok []
  policies_of v = if truthy v then raised unexpected else ok []

  abbrev domains_of : Json → Outcome (List String)
  domains_of (arr xs) = ok (map python.str_of (list_of xs))
  domains_of (obj fs) = ok (keys_of fs)
  domains_of (str s) = ok (chars s)
  domains_of v = if truthy v then raised unexpected else ok []

  abbrev iso_of : Json → Outcome Json
  iso_of v = elim (python.iso v) [
    | stamp s ↦ ok (str s)
    | value_error ↦ raised unexpected
    | overflow_error ↦ raised overflow
  ]

  -- `iso(start) if isinstance(start, (int, float)) else None`
  abbrev start_of : Json → Outcome Json
  start_of (int n) = iso_of (int n)
  start_of (real z t) = iso_of (real z t)
  start_of (bool b) = iso_of (bool b)
  start_of _ = ok null

  unfoldable pub transport_of : Fields → String
  transport_of row = python.lower (python.str_of (or_else (get row "protocol") (str "unknown")))

  -- `f'{action} {transport} {source_network} to {destination_network}'`
  unfoldable pub message : Fields → Json → Json → String
  message row source_network destination_network =
      python.str_of (get row "action")
      ++ (" "
          ++ (transport_of row
              ++ (" "
                  ++ (python.str_of source_network
                      ++ (" to " ++ python.str_of destination_network)))))

  -- The fields of the record after flow.id.
  unfoldable pub details :
      Fields
      → Fields
      → Fields
      → Fields
      → Json
      → Json
      → List String
      → Json
      → List String
      → List (String × Json)
  details row source destination traffic source_network destination_network policies start domains =
      (
        "flow.scope",
        str (flow_scope source_network destination_network (get destination "zone_name")),
      )
      ∷ ("flow.action", get row "action")
      ∷ ("flow.risk", get row "risk")
      ∷ ("flow.direction", get row "direction")
      ∷ ("flow.service", get row "service")
      ∷ ("flow.count", get row "count")
      ∷ ("flow.start", start)
      ∷ ("flow.duration_ms", get row "duration_milliseconds")
      ∷ ("flow.policies", str (join_commas (python.sort_unique policies)))
      ∷ ("network.transport", str (transport_of row))
      ∷ ("source.network", source_network)
      ∷ ("source.zone", get source "zone_name")
      ∷ ("source.address", get source "ip")
      ∷ ("source.port", get source "port")
      ∷ ("source.name", name_of source)
      ∷ ("destination.network", destination_network)
      ∷ ("destination.zone", get destination "zone_name")
      ∷ ("destination.address", get destination "ip")
      ∷ ("destination.port", get destination "port")
      ∷ ("destination.name", name_of destination)
      ∷ ("destination.domain", str (join_commas domains))
      ∷ ("network.bytes", get traffic "bytes_total")
      ∷ ("network.bytes_sent", get traffic "bytes_tx")
      ∷ ("network.bytes_received", get traffic "bytes_rx")
      ∷ ("network.packets", get traffic "packets_total")
      ∷ []

  unfoldable pub flow_record : Fields → Outcome (List (String × Json))
  flow_record row = do
    source ← dict_or_empty (get row "source")
    destination ← dict_or_empty (get row "destination")
    traffic ← dict_or_empty (get row "traffic_data")
    incoming ← dict_or_empty (get row "in")
    outgoing ← dict_or_empty (get row "out")
    policies ← policies_of (get row "policies")
    time ← iso_of (get row "time")
    id ← flow_id row
    start ← start_of (get row "flow_start_time")
    domains ← domains_of (get destination "domains")
    let source_network = network_of incoming source
    let destination_network = network_of outgoing destination
    ok (
        keep (
          ("_time", time)
          ∷ ("_msg", str (message row source_network destination_network))
          ∷ ("service.name", str "unifi-flows")
          ∷ ("record.type", str "flow")
          ∷ ("flow.id", str id)
          ∷ details row source destination traffic source_network destination_network policies start
              domains))
