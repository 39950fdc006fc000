-- ===== src/Flows/Tests.antt =====
-- Runs of the flow collector against a small console, and the theorems at concrete inputs.
use home_lab.Prelude.{
  ℕ, ◌≡◌, ◌≢◌, refl, String, true, false, ◌&&◌, none, some, List, [], ◌∷◌, leb, if◌then◌else◌,
}
use home_lab.Prelude.Int.{pos}
use home_lab.Json.{Json, int, str, bool, arr, obj, nil, cons, Fields, end, field}
use home_lab.Flows.Runtime.{
  default_config, Python, ok, raised, Result, stamp, Headers, Request, login, flows, Reply,
  response, status, found, Env, recursion,
}
use home_lab.Flows.Console.{read_clock, fetch, fetch_depth, begin_cycle, Link, new_console}
use home_lab.Flows.Console.Session.{Spends, fetch-Spends}
use home_lab.Flows.Console.Depth.{fetch_depth-eq-fetch}
use home_lab.Flows.Io.Ends.{Sat}
use home_lab.Flows.Record.Identity.{carries, flow_record-carries}
use home_lab.Flows.Window.Ending.{Outlasts, read_window-Ends}
use home_lab.Flows.Window.Quiet.{kept, read_window-kept}
use home_lab.Flows.Store.Delivery.{Stored, store-Stored}
use home_lab.Flows.Store.Delivered.{SeenDelivered}
use home_lab.Flows.Cycle.Safety.{MovesSafely, round_safe}
use home_lab.Flows.Times.{times_shown}
use home_lab.Flows.Sink.{write, last_watermark}
use home_lab.Flows.Record.{
  flow_id, derived_id, flow_scope, transport_of, message, details, flow_record,
}
use home_lab.Flows.Window.PageCheck.{
  is_inconsistent, parse_page, check_row, check_rows, is_repeated,
}
use home_lab.Flows.Window.{
  Window, new_window, finish, advance_page, absorb, judge_page, judge, is_over, load, delay, follow,
  read_one, read_pages, read_window,
}
use home_lab.Prelude.Dict.{put, update}
use home_lab.Flows.State.{Collector, new_collector}
use home_lab.Flows.Store.{
  flush, note_late, batch_entry, add_row, store_row, store_rows, store, write_gap,
}
use home_lab.Flows.Cycle.{
  handled, guarded, write_checkpoint, persist, finish_cycle, log_cycle, conclude, cycle,
}
use home_lab.Flows.Advance.{
  record_cap, move, settle, take_window, handle_window, round_at, round, take_turn, round_from,
  rounds, catch_up, advance, restore,
}

abbrev toy_python : Python
toy_python = record {
  str_of = λ v. elim v [ str s ↦ s | _ ↦ "other" ];
  lower = λ s. s;
  equal = λ _ _. false;
  sort_unique = λ texts. texts;
  int_of = λ _. none;
  digest = λ _. "digest";
  iso = λ _. stamp "2026-01-01T00:00:00.000Z";
  dumped_len = λ _. 400;
}

abbrev row_time : ℕ
row_time = 99_200_000

abbrev toy_row : Fields
toy_row =
    field "id" (str "a") (field "time" (int (pos row_time)) (field "action" (str "allow") end))

-- A page with these rows, of so many.
abbrev page_of : ℕ → Json → Json
page_of total rows = obj (
    field "data" rows (
      field "total_element_count" (int (pos total)) (
        field "total_page_count" (int (pos total)) (
          field "page_number" (int (pos 0))
            (field "has_next" (bool false) (field "or_more" (bool false) end))))))

abbrev token_headers : Headers
token_headers = record { updated_csrf_token = none; csrf_token = some "token"; retry_after = none }

abbrev answer : Request → Reply
answer login = response 200 token_headers 0 none
answer (flows start_ms end_ms page token) = response 200 token_headers 500 (
    some (
      if leb start_ms row_time && leb row_time end_ms
      then page_of 1 (arr (cons (obj toy_row) nil))
      else page_of 0 (arr nil)))

-- A console with one flow; the clock stands still, and every write is accepted.
abbrev toy_env : Env
toy_env = record {
  clock = λ _. 100_000_000;
  stop = λ _. false;
  password = λ _. true;
  console = λ request _. answer request;
  ingest = λ _ _. status 204;
  query = λ _. found 200 [];
}

abbrev start_state : Collector
start_state = new_collector toy_env default_config

cycle_runs : (cycle toy_python toy_env default_config start_state).0 ≡ ok Result.ok
unfolding times_shown write_gap log_cycle cycle new_collector begin_cycle read_clock guarded handled
    restore last_watermark advance catch_up rounds round_from take_turn round round_at handle_window
    take_window settle move record_cap store store_rows store_row add_row note_late batch_entry
    flush write read_window read_pages read_one follow delay load is_over fetch judge judge_page
    absorb advance_page finish update put is_repeated check_rows check_row parse_page
    is_inconsistent flow_record flow_id derived_id flow_scope transport_of message details conclude
    persist write_checkpoint finish_cycle
cycle_runs = refl

-- No id is seen at the start.
start-SeenDelivered : SeenDelivered start_state
unfolding new_collector
start-SeenDelivered id m = cc

round_safe_example :
    SeenDelivered
      (round toy_python toy_env default_config 100_240_000 99_970_000 99_100_000 200 start_state).1
    × MovesSafely toy_python toy_env default_config 100_240_000 99_970_000 99_100_000 200
        start_state
        (round toy_python toy_env default_config 100_240_000 99_970_000 99_100_000 200 start_state)
round_safe_example =
    round_safe toy_python toy_env default_config 100_240_000 99_970_000 99_100_000 200 start_state
      start-SeenDelivered

abbrev toy_window : Window
toy_window = record {
  rows = ("a", record { time = row_time; fields = toy_row }) ∷ [];
  problem = none;
  capped = false;
  shifted = false;
}

toy_row_id : flow_id toy_python toy_row ≡ ok "a"
unfolding flow_id
toy_row_id = refl

store-Stored_example :
    Stored toy_python toy_env default_config toy_window
      (store toy_python toy_env default_config 99_100_000 toy_window start_state)
store-Stored_example =
    store-Stored toy_python toy_env default_config 99_100_000 toy_window start_state
      (toy_row_id, tt) start-SeenDelivered

read_window-Ends_example :
    Sat
      (Outlasts toy_python toy_env default_config 100_240_000 98_980_000 99_700_000 false 200
        new_window)
      (read_window toy_python toy_env default_config 100_240_000 98_980_000 99_700_000 false 200
        start_state).0
read_window-Ends_example =
    read_window-Ends toy_python toy_env default_config 100_240_000 98_980_000 99_700_000 false 200
      start_state

read_window-kept_example :
    kept
      (read_window toy_python toy_env default_config 100_240_000 98_980_000 99_700_000 false 200
        start_state).1
    ≡ kept start_state
read_window-kept_example =
    read_window-kept toy_python toy_env default_config 100_240_000 98_980_000 99_700_000 false 200
      start_state

abbrev start_link : Link
start_link = record { console = new_console; history = [] }

fetch-Spends_example :
    Spends start_link (fetch toy_python toy_env default_config 98_980_000 99_700_000 0 start_link)
fetch-Spends_example =
    fetch-Spends toy_python toy_env default_config 98_980_000 99_700_000 0 start_link (λ e. cc)

fetch_depth-eq-fetch_example :
    (fetch_depth toy_python toy_env default_config 5 98_980_000 99_700_000 0 start_link
      ≡ fetch toy_python toy_env default_config 98_980_000 99_700_000 0 start_link)
    × ((fetch toy_python toy_env default_config 98_980_000 99_700_000 0 start_link).0
        ≢ raised recursion)
fetch_depth-eq-fetch_example =
    fetch_depth-eq-fetch toy_python toy_env default_config 3 98_980_000 99_700_000 0 start_link

abbrev toy_entry : List (String × Json)
toy_entry =
    ("_time", str "2026-01-01T00:00:00.000Z")
    ∷ ("_msg", str "allow unknown unknown to unknown")
    ∷ ("service.name", str "unifi-flows")
    ∷ ("record.type", str "flow")
    ∷ ("flow.id", str "a")
    ∷ ("flow.scope", str "inter_network")
    ∷ ("flow.action", str "allow")
    ∷ ("network.transport", str "unknown")
    ∷ ("source.network", str "unknown")
    ∷ ("destination.network", str "unknown")
    ∷ []

toy_row_record : flow_record toy_python toy_row ≡ ok toy_entry
unfolding flow_record flow_id flow_scope transport_of message details
toy_row_record = refl

flow_record-carries_example : carries "a" toy_entry ≡ true
flow_record-carries_example =
    flow_record-carries toy_python toy_row "a" toy_entry toy_row_id toy_row_record
