-- ===== src/Flows/Store/Delivered.antt =====
-- What is delivered: the rows that VictoriaLogs has accepted, and those that wait in a batch.
use home_lab.Prelude.{◌≡◌, refl, String, Bool, true, false, ◌&&◌, ◌||◌, List, [], ◌∷◌, ◌++◌, arith}
use home_lab.Prelude.Dict.{contains}
use home_lab.Flows.Runtime.{Outcome, ok, raised, Line, flow, Delivery}
use home_lab.Flows.Console.Quiet.{sent}
use home_lab.Flows.Sink.{is_accepted}
use home_lab.Flows.Record.Identity.{carries}
use home_lab.Flows.State.{Collector}
use home_lab.Flows.Store.{Batch}

abbrev pub carried_by : String → Line → Bool
carried_by id (flow entry) = carries id entry
carried_by id _ = false

abbrev pub has_flow : String → List Line → Bool
has_flow id [] = false
has_flow id (line ∷ lines) = carried_by id line || has_flow id lines

-- Some request that VictoriaLogs accepted held a record with this flow id.
abbrev pub delivered : String → List (List Line × Delivery) → Bool
delivered id [] = false
delivered id ((lines, answer) ∷ earlier) =
    (is_accepted answer && has_flow id lines) || delivered id earlier

pub has_flow-append :
    (id : String) (xs ys : List Line) → has_flow id (xs ++ ys) ≡ (has_flow id xs || has_flow id ys)
has_flow-append id [] ys = refl
has_flow-append id (x ∷ xs) ys = ground (arith, has_flow-append id xs ys)

-- Every id that counts as seen has been delivered.
abbrev pub SeenDelivered : Collector → Type 0
SeenDelivered s = (id : String) → contains id s.seen ≡ true → delivered id (sent s.link) ≡ true

-- Every id of the batch stands in one of its lines.
abbrev pub IsFilled : Batch → Type 0
IsFilled b = (id : String) → contains id b.fresh ≡ true → has_flow id b.lines ≡ true

-- The id is delivered, or waits in the batch.
abbrev pub safe : Collector → Batch → String → Bool
safe s b id = delivered id (sent s.link) || contains id b.fresh

-- How a call may end that began at `s` with the batch `b`.
abbrev pub Flushes : Collector → Batch → Outcome (Unit {0}) × Collector → Type 0
Flushes s b (ok _, s') =
    SeenDelivered s' × ((id : String) → safe s b id ≡ true → delivered id (sent s'.link) ≡ true)
Flushes s b (raised _, s') = SeenDelivered s'

abbrev pub Fills : Collector → Batch → Outcome Batch × Collector → Type 0
Fills s b (ok b', s') =
    SeenDelivered s' × IsFilled b' × ((id : String) → safe s b id ≡ true → safe s' b' id ≡ true)
Fills s b (raised _, s') = SeenDelivered s'

-- If the call returns, the id is delivered or waits.
abbrev pub NowSafe : String → Outcome Batch × Collector → Type 0
NowSafe id (ok b', s') = safe s' b' id ≡ true
NowSafe id (raised _, s') = Unit
