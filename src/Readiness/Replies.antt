-- ===== src/Readiness/Replies.antt =====
-- readiness.py: `chat`, `smoke`, `warmup` and `tool_call`. The seconds that a smoke reply takes are
-- left out.
pub mod Smoked
use home_lab.Prelude.{
  ℕ, zero, suc, String, Bool, true, false, Option, none, some, List, [], ◌∷◌, ◌++◌, not, ◌||◌,
  if◌then◌else◌, map, str_eq,
}
use home_lab.Prelude.Int.{ℤ, pos, negsuc}
use home_lab.Program.{Outcome, ok, raised, pure, raise, raise_if, ◌>>=◌, ◌>>◌}
use home_lab.Json.{
  Json, str, arr, obj, nil, cons, end, field, Fields, get, has, truthy, or_else, iterate,
}
use home_lab.Readiness.Server.{
  Server, Python, Gate, Check, Request, Reply, Event, asked, History, ask_smoke, ask_warmup,
  ask_weather, received, fetch, check_all, refused, bad_value, chat_error, no_choices, bad_smoke,
  no_usage, bad_warmup, bad_tool_call, bad_arguments,
}
use home_lab.Readiness.Python.{equals_int, equals_str, fields_of, get_or, or_bad_value}

-- `choices[0]`, of a value that is not empty
abbrev pub first_of : Json → Gate Json
first_of (arr (cons v _)) = pure v
first_of _ = raise bad_value

abbrev pub error_checks : Fields → List (Bool × Check)
error_checks result = (truthy (get result "error"), chat_error) ∷ []

abbrev pub choices_checks : Fields → List (Bool × Check)
choices_checks result = (not (truthy (get_or result "choices" (arr nil))), no_choices) ∷ []

abbrev pub pick_choice : Fields → Gate (Fields × Fields)
pick_choice result = do
  first ← first_of (get_or result "choices" (arr nil))
  choice ← fields_of first
  pure (result, choice)

abbrev pub pick_first : Fields → Gate (Fields × Fields)
pick_first result = check_all (choices_checks result) >>= λ _. pick_choice result

abbrev pub pick : Fields → Gate (Fields × Fields)
pick result = check_all (error_checks result) >>= λ _. pick_first result

-- `chat`, once there is a reply: the result and its first choice. A choice that is no dict fails at its
-- first use, which comes next.
unfoldable pub chosen : Json → Gate (Fields × Fields)
chosen v = fields_of v >>= λ result. pick result

-- `(v or "").strip()`, which only a text has
abbrev pub stripped : Python → Json → Gate String
stripped python (str s) = pure (python.strip s)
stripped python v = if truthy v then raise bad_value else pure ""

-- `choice.get("message", {})`
abbrev pub message_of : Fields → Gate Fields
message_of choice = fields_of (get_or choice "message" (obj end))

abbrev pub says_323 : Python → Fields → Gate Bool
says_323 python choice = do
  message ← message_of choice
  content ← stripped python (get message "content")
  pure (str_eq content "323")

-- `choice.get("finish_reason") != "stop" or (...).strip() != "323"`, negated
unfoldable pub is_right : Python → Fields → Gate Bool
is_right python choice =
    if equals_str (get choice "finish_reason") "stop" then says_323 python choice else pure false

abbrev pub usage_checks : Fields → List (Bool × Check)
usage_checks usage =
    (
      not (truthy (get usage "prompt_tokens")) || not (truthy (get usage "completion_tokens")),
      no_usage,
    )
    ∷ []

abbrev pub counted : Fields → Gate Json
counted result = do
  usage ← fields_of (get_or result "usage" (obj end))
  check_all (usage_checks usage)
  pure (obj usage)

abbrev pub rightly : Fields → Bool → Gate Json
rightly result right = raise_if (not right) (refused bad_smoke) >>= λ _. counted result

abbrev pub judged : Python → Fields × Fields → Gate Json
judged python c = is_right python c.1 >>= λ right. rightly c.0 right

-- `smoke`, once there is a reply: the usage that is returned
unfoldable pub smoke_usage : Python → Json → Gate Json
smoke_usage python v = chosen v >>= λ c. judged python c

-- `v[k]` of a dict
abbrev pub item : Fields → String → Gate Json
item fs k = if has fs k then pure (get fs k) else raise bad_value

-- `len(calls) != 1`, and `calls[0]` of a value with one item
abbrev pub only_call : Json → Gate Json
only_call (arr (cons v nil)) = pure v
only_call (arr _) = raise (refused bad_tool_call)
only_call (obj (field _ _ end)) = raise bad_value
only_call (obj _) = raise (refused bad_tool_call)
only_call (str (String.◌∷◌ c String.[])) = raise bad_value
only_call (str _) = raise (refused bad_tool_call)
only_call _ = raise bad_value

abbrev pub finish_checks : Fields → List (Bool × Check)
finish_checks choice =
    (not (equals_str (get choice "finish_reason") "tool_calls"), bad_tool_call) ∷ []

abbrev pub name_checks : Json → List (Bool × Check)
name_checks name = (not (equals_str name "get_weather"), bad_tool_call) ∷ []

abbrev pub text : Json → Gate String
text (str s) = pure s
text _ = raise bad_value

module _ (python : Python) where
  -- `"oslo" not in str(arguments.get("city", "")).lower()`
  abbrev pub city_checks : Fields → List (Bool × Check)
  city_checks arguments =
      (
        not (
            python.is_within "oslo"
              (python.lower (python.text_of (get_or arguments "city" (str ""))))),
        bad_arguments,
      )
      ∷ []

  unfoldable pub check_call : Fields → Gate (Unit {0})
  check_call called = do
    name ← item called "name"
    check_all (name_checks name)
    written ← item called "arguments"
    document ← text written
    parsed ← or_bad_value (python.loads document)
    arguments ← fields_of parsed
    check_all (city_checks arguments)

  -- `tool_call`, once there is a reply: the calls that are returned
  unfoldable pub tool_calls : Json → Gate Json
  tool_calls v = do
    (result, choice) ← chosen v
    message ← message_of choice
    check_all (finish_checks choice)
    call ← only_call (or_else (get message "tool_calls") (arr nil))
    fields ← fields_of call
    function ← item fields "function"
    called ← fields_of function
    check_call called
    pure (or_else (get message "tool_calls") (arr nil))

  -- `one` of `warmup`, once there is a reply
  unfoldable pub warmed : Json → Gate (Unit {0})
  warmed v = do
    (result, choice) ← chosen v
    right ← is_right python choice
    raise_if (not right) (refused bad_warmup)

-- `range(lanes)`, as the requests of the lanes
abbrev pub requests : (ℕ → Request) → ℕ → List Request
requests f zero = []
requests f (suc n) = requests f n ++ (f n ∷ [])

abbrev pub logged : List (Request × Reply) → History → History
logged [] h = h
logged ((r, a) ∷ rest) h = logged rest (asked r a ∷ h)

-- The results in the order of the lanes; the first failure among them is raised.
unfoldable pub results : {A : Type 0} → (Json → Gate A) → List (Request × Reply) → Gate (List A)
results handle [] = pure []
results handle ((r, a) ∷ rest) = do
  v ← received a
  x ← handle v
  xs ← results handle rest
  pure (x ∷ xs)

module _ (server : Server) where
  abbrev pub answers : ℕ → List Request → History → List (Request × Reply)
  answers workers rs h = map (λ r. (r, server.in_pool workers rs h r)) rs

  -- `ThreadPoolExecutor(max_workers=lanes)`, which wants one worker at least, and `pool.map`
  unfoldable pub pool : {A : Type 0} → (ℕ → Request) → (Json → Gate A) → ℤ → Gate (List A)
  pool f handle (pos zero) = raise bad_value
  pool f handle (negsuc _) = raise bad_value
  pool f handle (pos (suc n)) =
      let rs = requests f (suc n) in
      λ h. results handle (answers (suc n) rs h) (logged (answers (suc n) rs h) h)

  -- `smoke` on every lane
  unfoldable pub smoke : Python → ℤ → Gate (List Json)
  smoke python = pool ask_smoke (smoke_usage python)

  -- `warmup`
  unfoldable pub warmup : Python → ℤ → ℤ → Gate (List (Unit {0}))
  warmup python lanes words = pool (ask_warmup words) (warmed python) lanes

  -- `tool_call`
  unfoldable pub tool_call : Python → Gate Json
  tool_call python = fetch server ask_weather >>= λ v. tool_calls python v
