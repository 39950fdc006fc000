-- ===== src/Hid/Attributes.antt =====
-- devices/glkvm/hid_input.py: the attributes of `class HidKeyboard`, and what its methods compute.
use home_lab.Prelude.{
  ℕ, ◌+◌, ◌/◌, min, Bool, true, false, not, ◌||◌, List, [], ◌∷◌, leb, if◌then◌else◌,
}
use home_lab.Program.{Outcome, ok, raised, Io}
use home_lab.Hid.Gadget.{
  start_timeout, report_timeout, io_budget, report_allowance, Report, Handle, device, lock, Ready,
  Closed, closed, no_close, close_signal, Event, History, unclean, Error, hid_error, os_error,
  interrupt,
}

-- The attributes, and what has happened. `fd` and `lock_fd` are open, or None.
pub record Keyboard : Type 0 where
  pub start_deadline : ℕ
  pub deadline : ℕ
  pub fd : Bool
  pub lock_fd : Bool
  pub started : Bool
  pub failed : Bool
  pub history : History

-- `__init__`
abbrev pub new_keyboard : ℕ → History → Keyboard
new_keyboard requested_at h = record {
  start_deadline = requested_at + start_timeout;
  deadline = requested_at + io_budget;
  fd = false;
  lock_fd = false;
  started = false;
  failed = false;
  history = h;
}

abbrev pub Act : Type 0 → Type 0
Act A = Io Error Keyboard A

abbrev pub log : Event → Keyboard → Keyboard
log e s = record s { history = e ∷ s.history }

abbrev pub fail : Keyboard → Keyboard
fail s = record s { failed = true }

-- `math.ceil(seconds * 1000)`
abbrev pub ceil_ms : ℕ → ℕ
ceil_ms us = (us + 999) / 1000

-- What the loop over the events of `poll` comes to.
pub data Scan : Type 0 where
  broken writable nothing : Scan

abbrev pub scan : List Ready → Scan
scan [] = nothing
scan (r ∷ rs) =
    let rest = scan rs in
    if not r.is_device
    then rest
    else if r.is_broken
    then broken
    else if r.is_writable
    then writable
    else rest

-- `bytes([modifier, 0, key, 0, 0, 0, 0, 0])`
abbrev pub report_of : ℕ → ℕ → Report
report_of modifier key = modifier ∷ 0 ∷ key ∷ 0 ∷ 0 ∷ 0 ∷ 0 ∷ 0 ∷ []

abbrev pub opened_as : Handle → Keyboard → Keyboard
opened_as device s = record s { fd = true }
opened_as lock s = record s { lock_fd = true }

-- The errors of `_close`, as the files that could not be closed. A signal's KeyboardInterrupt is not
-- caught.
abbrev pub after_close : Handle → Closed → Outcome Error (List Handle)
after_close f closed = ok []
after_close f no_close = ok (f ∷ [])
after_close f close_signal = raised interrupt

-- The deadline of one report.
abbrev pub report_deadline : ℕ → Keyboard → ℕ
report_deadline now s =
    let total = min s.deadline (now + report_timeout) in
    if s.started then total else min total s.start_deadline

-- `bytes` raises ValueError for a number above 255.
abbrev pub is_byte : ℕ → Bool
is_byte n = leb n 255

abbrev pub completed : Keyboard → Keyboard
completed s = record s { started = true; deadline = s.deadline + report_allowance }

-- The `try` of `__exit__`, which catches OSError and HidError: whether the release is confirmed.
abbrev pub caught : Outcome Error (Unit {0}) → Outcome Error Bool
caught (ok _) = ok true
caught (raised os_error) = ok false
caught (raised (hid_error _)) = ok false
caught (raised e) = raised e

-- `raise HidError(detail)` if there are errors and no exception is on its way
abbrev pub exit_outcome : Outcome Error Bool → Bool → Bool → Outcome Error (Unit {0})
exit_outcome (raised e) unclosed pending = raised e
exit_outcome (ok confirmed) unclosed pending =
    if (not confirmed || unclosed)
    then (if pending then ok tt else raised (hid_error unclean))
    else ok tt
