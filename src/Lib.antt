-- ===== src/Lib.antt =====
-- The home lab repository runs a Talos Kubernetes cluster, Proxmox guests, model servers and the
-- scripts that keep them in order. This library models some of its Python programs.
--
-- The UniFi flow collector, kubernetes/apps/observability/unifi-flows/app/collector.py, polls a
-- UniFi console for network flows and sends them to VictoriaLogs. `Flows` has a module per part:
--
--   Flows.Runtime   Config, RESULTS, the errors, and the outside: clock, stop flag, password file,
--                   console, VictoriaLogs
--   Flows.Io        methods: they change an object and return or raise
--   Flows.Console   class Console: login, back-off, one page of flows
--   Flows.Sink      class Sink: write and last_watermark
--   Flows.Record    flow_id, flow_scope, flow_record
--   Flows.State     the attributes of Collector
--   Flows.Window    Window, Budget, read_window (Window.PageCheck: the checks on one page)
--   Flows.Store     store with its flush, and gap
--   Flows.Times     iso of times in milliseconds, for whether it raises
--   Flows.Advance   advance, restore
--   Flows.Cycle     cycle, healthy
--
-- A cycle restores the watermark from VictoriaLogs once, then reads windows of time page by page,
-- stores the rows it has not seen, and moves the watermark past a window that was read in full. The
-- watermark is sent as a checkpoint with the gaps that are pending.
--
-- The healthchecks upsert, scripts/healthchecks.py, brings the project at healthchecks.io to what
-- healthchecks/checks.json declares. `Healthchecks` has a module per part:
--
--   Healthchecks.Declaration  load_declaration
--   Healthchecks.Service      the service, the terminal, requests and refusals
--   Healthchecks.Values       JSON, split, sets, managed, equality of dicts
--   Healthchecks.Live         refusals, verify, the loops of survey and show_plan
--   Healthchecks.Upsert       call, fetch, survey, preview, apply, inspect
--
-- `apply` surveys the live checks, shows a plan, stops if a protected check is not as it must be,
-- asks for confirmation, surveys again and stops if anything changed, sends one request for each
-- declared check, and verifies the result with a third survey.
--
-- The readiness gate, sparks/inference/sparkrun/mods/tensorfold-readiness-v2/readiness.py, decides
-- whether a model server may take requests. `Readiness` has a module per part:
--
--   Readiness.Server   the requests, the server's replies, the conditions that fail, fetch
--   Readiness.Python   Python's operations on JSON values
--   Readiness.Health   check_health and health
--   Readiness.Models   check_models
--   Readiness.Replies  chat, smoke, warmup and tool_call, and the pool of lanes
--   Readiness.Nearest  nearest, the choice of a level of reasoning
--   Readiness.Renders  render and check_renders
--   Readiness.Main     main, after the arguments are parsed
--
-- The keyboard gadget of the KVM, devices/glkvm/hid_input.py, and the programs hid-type.py,
-- kvm-switch.py and hid-hold-key.py that use it. `Hid` has a module per part:
--
--   Hid.Gadget     the clock, the lock file, the device, signals, and the errors
--   Hid.Attributes the attributes of class HidKeyboard
--   Hid.Opening    its methods on the lock file and the device: __enter__ and _close
--   Hid.Keyboard   its other methods
--   Hid.Keys       the tables of keys of hid-type.py
--   Hid.Typing     tap and main of hid-type.py, and the exit codes of run
--   Hid.Switching  main of kvm-switch.py and of hid-hold-key.py
--
-- A program opens the lock file and the device, submits reports one by one under deadlines, and on
-- every way out submits a neutral report, closes both files and lets the exception go on.
--
-- The policy check, proxmox/guests/netbird-router-2/check-unifi-delta.py, proposes a change of two
-- firewall rules of the UniFi console, and accepts a second snapshot only if it holds that change.
-- `PolicyDelta` has the values and `objects`, PolicyDelta.Pair `validate_pair`, with its conditions as
-- a list of rules, and PolicyDelta.Verify `prepare` and `verify`.
--
-- The plugin that starts TensorFold, sparks/inference/sparkrun/plugins/tensorfold/__init__.py.
-- `Tensorfold` has a module per part:
--
--   Tensorfold.Topology     _launch_issues, _topology_issues, _require_launch_topology
--   Tensorfold.Snapshot     hf_snapshot_path and parse_hf_snapshot
--   Tensorfold.Environment  _engine_env, _model_path, _drafter_path
--   Tensorfold.Commands     generate_command, generate_node_command, _one_node_command, _env_command
--   Tensorfold.Recipes      validate_recipe, prepare, _drafter_repo, _run_cluster
--
-- A launch is checked for its shape, one node or two ranks, and becomes a command with the engine's
-- environment in front. SparkRun's own functions are parameters, its validate_recipe, its cluster run
-- and build_config_chain among them.
--
-- The validation of the locks of model servers, sparks/inference/sparkrun/validate_locks.py, checks
-- that each mod pins what it is built from, and that each recipe agrees with the lock of its engine.
-- `Locks` has a module per part:
--
--   Locks.Regex       regular expressions, with a matcher for `re.fullmatch`
--   Locks.Checks      the checks of single values, from require to image
--   Locks.Dockerfile  validate_dockerfile
--   Locks.Lock        the kinds of locks and shape
--   Locks.Documents   read_json
--   Locks.Engines, Locks.Qwen, Locks.Deepseek   the parts of validate_lock for a kind
--   Locks.Validate    validate_lock
--   Locks.Recipe, Locks.Gates   validate_recipe
--   Locks.Repository  validate_repository and main
--
-- A check returns or raises. A run of checks in a row is a list, in the order of the code; the loops
-- over manifests and recipes pass on what they have seen.
--
-- The check of the Renovate Dashboard, scripts/ci/check-renovate-problems.py, in `Renovate`: it reads
-- the dashboard, lists its problems, and ends with an exit code.
--
-- How the code is modelled:
--   - A method is a function of the object to an outcome and the object after it, so what was
--     changed before a raise stays changed. One function has the name of the method; the parts of a
--     long method are named for what they do, with its clauses in the order of the code.
--   - The outside answers as functions of the whole history of what the program asked, so a
--     statement about every `Env` is about every behaviour of the console, of VictoriaLogs, of the
--     clock and of a signal.
--   - Python's library (`str`, `sorted`, `sha256`, `isoformat`, the length of a dump) is the record
--     `Python` of functions. Nothing is assumed of them. The policy check's `==` is a parameter too;
--     that a value equal to a text is that text is the hypothesis `IsExact`.
--   - The requests of a pool of lanes are answered by one function of the pool's workers and of all the
--     requests; the scheduling of the threads is the server's part.
--   - Times are natural numbers of milliseconds; subtraction stops at 0, as the source's `max(.., 0)`
--     does for the start of a window. Elsewhere the source's difference could be negative only with
--     a clock less than the settle, look-back and catch-up times after 1970.
--   - A JSON document is the data type `Json`; a missing key or a wrong type raises, as in Python.
--   - A stored watermark is a natural number: the collector itself writes no other, and a negative
--     one, which only another writer of its stream could leave, is left out.
--   - `read_pages` recurs on the pages that the budget has left. `rounds` has one round more than
--     there are pages, and `flows` may call itself once. The loops of `HidKeyboard` have a round for
--     each microsecond to their deadline, and end in `no_end` if they use them up; what is documented
--     of the clock, of `time.sleep`, of `poll` and of `os.write` is the hypothesis `IsTimed`, by which
--     every round ends the loop or takes a microsecond at least.
--   - A signal's handler raises KeyboardInterrupt at one of the calls to the outside that `HidKeyboard`
--     makes; a signal between two of them is taken to strike at the next one.
--
-- Not modelled: of the readiness gate, the parsing of its arguments and its texts; of the upsert,
-- reading the API key, the HTTP request, the redaction of output and the command line; of the
-- collector, the metrics text, the HTTP handler, logging but for the times it shows, `Config.from_env`, and the loop that calls
-- `cycle` and waits. Two threads touch a collector; one of them only reads. Of the plugin,
-- the methods that return a constant; of the validation of locks, the messages, with the index
-- or the key of an item in their place, and a text that is no JSON and has a field twice, which is a
-- ValueError either way; of the policy check and the dashboard check, the reading
-- of files and the printing. The other programs of the repository are not modelled: the benchmarks, the generators of dashboards, the logging tools, the deployment scripts
-- and the tests.
pub mod Locks
pub mod Renovate
pub mod Tensorfold
pub mod PolicyDelta
pub mod Prelude
pub mod Json
pub mod Program
pub mod Hid
pub mod Flows
pub mod Healthchecks
pub mod Readiness
