-- ===== src/Renovate.antt =====
-- scripts/ci/check-renovate-problems.py: the problems of the Renovate Dashboard, the annotations and
-- the exit code. The regular expressions and the command `gh` are parameters.
pub mod Lines
pub mod Problems
pub mod Counts
mod Tests
use Prim.Native.Char.{Char, code}
use home_lab.Prelude.{
  joined, ℕ, String, Bool, true, false, not, ◌&&◌, Option, none, some, List, [], ◌∷◌, ◌++◌, ◌==◌,
  str_eq, map, if◌then◌else◌,
}
use home_lab.Program.{Outcome, ok, raised}
use home_lab.Json.{Json, str, obj, end, field, Fields, get, has}

-- How `subprocess.run` of gh ends: OSError or a time-out, UnicodeDecodeError of what gh wrote, an exit
-- code other than 0, or its output
pub data Ran : Type 0 where
  not_run not_decoded : Ran
  exited : ℕ → Ran
  printed : String → Ran

-- How `DRILL_BODY.read_text()` ends: with the text, OSError or UnicodeDecodeError
pub data Drill : Type 0 where
  contents : String → Drill
  no_file no_text : Drill

-- The regular expressions DASHBOARD_ANCHOR, PROBLEMS and the one of an item, and `json.loads`, which
-- gives a document or raises ValueError
pub record Outside : Type 0 where
  pub run_gh : Ran
  pub loads : String → Option Json
  pub has_anchor : String → Bool
  pub sections : String → List String
  pub items : String → List String
  pub drill_body : Drill

-- Unreadable, with what its messages say
pub data Unreadable : Type 0 where
  could_not_run request_failed invalid_json unexpected_response no_anchor : Unreadable
  dashboard_is : Json → Unreadable

-- What the `try` of `main` raises; it catches Unreadable only.
pub data Error : Type 0 where
  unreadable : Unreadable → Error
  os_error decode_error : Error

-- `text.replace(c, part)`
unfoldable pub replace_char : ℕ → String → String → String
replace_char c part String.[] = ""
replace_char c part (String.◌∷◌ d text) =
    let rest = replace_char c part text in
    if code d == c then joined part rest else String.◌∷◌ d rest

-- `text.replace("\r\n", "\n")`
unfoldable pub unix_lines : String → String
unix_lines String.[] = ""
unix_lines (String.◌∷◌ c String.[]) = String.◌∷◌ c ""
unix_lines (String.◌∷◌ c (String.◌∷◌ d text)) =
    let after = unix_lines text in
    let next = unix_lines (String.◌∷◌ d text) in
    if (code c == 13) && (code d == 10) then String.◌∷◌ d after else String.◌∷◌ c next

-- The message of `annotate`
unfoldable pub escaped : String → String
escaped message = replace_char 10 "%0A" (replace_char 13 "%0D" (replace_char 37 "%25" message))

-- `state == "open"`
abbrev pub is_open : Json → Bool
is_open (str s) = str_eq s "open"
is_open _ = false

module _ (out : Outside) where
  abbrev pub parsed : Option Json → Outcome Error Json
  parsed none = raised (unreadable invalid_json)
  parsed (some v) = ok v

  abbrev pub output_of : Ran → Outcome Error Json
  output_of not_run = raised (unreadable could_not_run)
  output_of not_decoded = raised decode_error
  output_of (exited n) = raised (unreadable request_failed)
  output_of (printed text) = parsed (out.loads text)

  -- `fetch`
  unfoldable pub fetch : Outcome Error Json
  fetch = output_of out.run_gh

  abbrev pub or_default : List String → List String
  or_default [] = "section has no listed problems" ∷ []
  or_default (item ∷ items) = item ∷ items

  -- The loop over the sections
  unfoldable pub gathered : List String → List String
  gathered [] = []
  gathered (section ∷ rest) = or_default (out.items section) ++ gathered rest

  abbrev pub problems_of : Json → String → Outcome Error (List String)
  problems_of state body =
      if not (is_open state)
      then raised (unreadable (dashboard_is state))
      else if not (out.has_anchor body)
      then raised (unreadable no_anchor)
      else ok (gathered (out.sections body))

  -- `issue["body"].replace`, which only a text has
  abbrev pub with_body : Json → Json → Outcome Error (List String)
  with_body state (str body) = problems_of state (unix_lines body)
  with_body state _ = raised (unreadable unexpected_response)

  -- `problems_in`
  unfoldable pub problems_in : Json → Outcome Error (List String)
  problems_in (obj issue) =
      if has issue "state" && has issue "body"
      then with_body (get issue "state") (get issue "body")
      else raised (unreadable unexpected_response)
  problems_in _ = raised (unreadable unexpected_response)

  -- `{"state": "open", "body": DRILL_BODY.read_text()}`
  abbrev pub drill_issue : Drill → Outcome Error Json
  drill_issue no_file = raised os_error
  drill_issue no_text = raised decode_error
  drill_issue (contents text) = ok (obj (field "state" (str "open") (field "body" (str text) end)))

  abbrev pub problems_of_issue : Outcome Error Json → Outcome Error (List String)
  problems_of_issue (raised e) = raised e
  problems_of_issue (ok issue) = problems_in issue

  -- The `try` of `main`
  unfoldable pub read : Bool → Outcome Error (List String)
  read drill = problems_of_issue (if drill then drill_issue out.drill_body else fetch)

-- What `main` prints as errors, and its exit code; an error that it does not catch ends the run.
pub record Ended : Type 0 where
  pub annotations : List String
  pub exit_code : ℕ

module _ (out : Outside) (message_of : Unreadable → String) where
  abbrev pub ended : Outcome Error (List String) → Outcome Error Ended
  ended (raised (unreadable e)) =
      ok (record { annotations = escaped (message_of e) ∷ []; exit_code = 2 })
  ended (raised os_error) = raised os_error
  ended (raised decode_error) = raised decode_error
  ended (ok []) = ok (record { annotations = []; exit_code = 0 })
  ended (ok (p ∷ problems)) =
      ok (record { annotations = map escaped (p ∷ problems); exit_code = 1 })

  -- `main`, with or without "--drill"
  unfoldable pub main : Bool → Outcome Error Ended
  main drill = ended (read out drill)
