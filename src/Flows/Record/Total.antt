-- ===== src/Flows/Record/Total.antt =====
-- collector.py, `flow_record`: what it raises.
use home_lab.Prelude.{arith}
use home_lab.Json.{Json, Fields, get}
use home_lab.Flows.Runtime.{Python, Outcome, ok, raised}
use home_lab.Flows.Io.Ends.{Sat, Any}
use home_lab.Flows.Record.{
  ◌>>=◌, dict_or_empty, policies_of, domains_of, iso_of, start_of, flow_id, derived_id, flow_record,
}

Sat-bind :
    {A B : Type 0} (r : Outcome A) (k : A → Outcome B)
    → Sat Any r
    → ((a : A) → Sat Any (k a))
    → Sat Any (r >>= k)
Sat-bind (ok a) k h hk = hk a
Sat-bind (raised e) k h hk = h

dict_or_empty-Sat : (v : Json) → Sat Any (dict_or_empty v)
dict_or_empty-Sat v = ground arith

module _ (python : Python) where
  policies_of-Sat : (v : Json) → Sat Any (policies_of python v)
  policies_of-Sat v = ground arith

  domains_of-Sat : (v : Json) → Sat Any (domains_of python v)
  domains_of-Sat v = ground arith

  iso_of-Sat : (v : Json) → Sat Any (iso_of python v)
  iso_of-Sat v = ground arith

  start_of-Sat : (v : Json) → Sat Any (start_of python v)
  start_of-Sat v = ground arith

  flow_id-Any : (row : Fields) → Sat Any (flow_id python row)
  unfolding flow_id derived_id
  flow_id-Any row = ground arith

  pub flow_record-Sat : (row : Fields) → Sat Any (flow_record python row)
  unfolding flow_record
  flow_record-Sat row =
      Sat-bind (dict_or_empty (get row "source")) _ (dict_or_empty-Sat (get row "source")) λ source.
        Sat-bind (dict_or_empty (get row "destination")) _
          (dict_or_empty-Sat (get row "destination"))
          λ destination.
            Sat-bind (dict_or_empty (get row "traffic_data")) _
              (dict_or_empty-Sat (get row "traffic_data"))
              λ traffic.
                Sat-bind (dict_or_empty (get row "in")) _ (dict_or_empty-Sat (get row "in"))
                  λ incoming.
                    Sat-bind (dict_or_empty (get row "out")) _ (dict_or_empty-Sat (get row "out"))
                      λ outgoing.
                        Sat-bind (policies_of python (get row "policies")) _
                          (policies_of-Sat (get row "policies"))
                          λ policies.
                            Sat-bind (iso_of python (get row "time")) _
                              (iso_of-Sat (get row "time"))
                              λ time. Sat-bind (flow_id python row) _ (flow_id-Any row) λ id.
                                Sat-bind (start_of python (get row "flow_start_time")) _
                                  (start_of-Sat (get row "flow_start_time"))
                                  λ start.
                                    Sat-bind (domains_of python (get destination "domains")) _
                                      (domains_of-Sat (get destination "domains")) λ domains. tt
