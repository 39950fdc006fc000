-- ===== src/Hid/Keyboard/Rounds.antt =====
-- hid_input.py: the rounds of the loops, and the time that they take.
use home_lab.Prelude.{
  ℕ, suc, ◌+◌, ◌*◌, min, ◌≡◌, ◌≤◌, ◌<◌, ◌≢◌, ap, true, ◌||◌, List, [], ◌∷◌, arith,
}
use home_lab.Program.{Outcome, ok, raised, lift, ◌>>=◌}
use home_lab.Hid.Gadget.{
  retry_interval, Report, sleeps, Slept, slept, sleep_signal, Ready, ready, poll_interrupted,
  write_interrupted, Event, clock_read, polls, History, Env, Error, interrupt, no_end,
}
use home_lab.Hid.Opening.{remaining, rest_for, back_off}
use home_lab.Hid.Attributes.{Keyboard, Act, log}

-- What is documented of the clock, of `time.sleep`, of `poll` and of `os.write`: the clock never goes
-- back; a sleep takes its time at least; a poll without events has waited for its time; its events
-- are of the device, the only file registered, and of the kinds that are asked for or always told;
-- and since a signal's handler raises here, an interrupted poll or write is tried again (PEP 475).
pub record IsTimed (env : Env) : Type 0 where
  pub forward : (e : Event) (h : History) → env.clock h ≤ env.clock (e ∷ h)
  pub slept_for : (us : ℕ) (h : History) → env.clock h + us ≤ env.clock (sleeps us slept ∷ h)
  pub waited_for :
      (ms : ℕ) (h : History)
      → env.poll ms h ≡ ready []
      → env.clock h + ms * 1000 ≤ env.clock (polls ms (ready []) ∷ h)
  pub told :
      (ms : ℕ) (h : History) (event : Ready) (events : List Ready)
      → env.poll ms h ≡ ready (event ∷ events)
      → (event.is_device ≡ true) × ((event.is_broken || event.is_writable) ≡ true)
  pub poll_retried : (ms : ℕ) (h : History) → env.poll ms h ≢ poll_interrupted
  pub write_retried : (report : Report) (h : History) → env.write report h ≢ write_interrupted

-- The call ends, and time has not gone back.
abbrev pub Moves : {A : Type 0} → Env → Keyboard → Outcome Error A × Keyboard → Type 0
Moves env s (r, s') = (r ≢ raised no_end) × (env.clock s.history ≤ env.clock s'.history)

-- The call ends, and if it returns, time has gone on.
abbrev pub Gains : {A : Type 0} → Env → Keyboard → Outcome Error A × Keyboard → Type 0
Gains env s (ok _, s') = env.clock s.history < env.clock s'.history
Gains env s (raised e, s') = (e ≢ no_end) × (env.clock s.history ≤ env.clock s'.history)

module _ (env : Env) (timed : IsTimed env) where
  -- A look at the clock that passes was before the deadline; what is returned is so.
  abbrev pub Passes :
      {A : Type 0} → (A → Type 0) → ℕ → Keyboard → Outcome Error A × Keyboard → Type 0
  Passes Q until s (ok a, s') =
      Q a × (env.clock s.history < until) × (env.clock s.history ≤ env.clock s'.history)
  Passes Q until s (raised e, s') = (e ≢ no_end) × (env.clock s.history ≤ env.clock s'.history)

  remaining-Passes :
      (until : ℕ) (s : Keyboard) → Passes (λ left. 0 < left) until s (remaining env until s)
  unfolding remaining
  remaining-Passes until s =
      ground (arith, timed.forward (clock_read (env.clock s.history)) s.history)

  -- From a time on
  abbrev pub MovesFrom : {A : Type 0} → ℕ → Act A → Type 0
  MovesFrom t m = (s : Keyboard) → t ≤ env.clock s.history → Moves env s (m s)

  -- What follows a look at the clock before the deadline
  pub Passes-then :
      {A B : Type 0} (Q : A → Type 0) (until : ℕ) (m : Act A) (k : A → Act B) (s : Keyboard)
      → Passes Q until s (m s)
      → ((a : A) → Q a → env.clock s.history < until → MovesFrom (env.clock s.history) (k a))
      → Moves env s ((m >>= k) s)
  Passes-then {A} {B} Q until m k s hm hk = go (m s) hm
    where
      go :
          (r : Outcome Error A × Keyboard)
          → Passes Q until s r
          → Moves {A = B} env s ((lift r.0 >>= k) r.1)
      go (ok a, s1) (q, b, t) =
          let (ends, later) = hk a q b s1 t in (ends, ground (arith, t, later))
      go (raised e, s1) (n, t) = (λ x. n (ground (arith, x)), t)

  pub remaining-then :
      {B : Type 0} (until : ℕ) (k : ℕ → Act B) (s : Keyboard)
      → ((left : ℕ)
          → 0 < left
          → env.clock s.history < until
          → MovesFrom (env.clock s.history) (k left))
      → Moves env s ((remaining env until >>= k) s)
  remaining-then until k s =
      Passes-then (λ left. 0 < left) until (remaining env until) k s (remaining-Passes until s)

  -- One call after another
  pub Moves-then :
      {A B : Type 0} (m : Act A) (k : A → Act B) (s : Keyboard)
      → Moves env s (m s)
      → ((a : A) → MovesFrom (env.clock s.history) (k a))
      → Moves env s ((m >>= k) s)
  Moves-then {A} {B} m k s hm hk = go (m s) hm
    where
      go :
          (r : Outcome Error A × Keyboard)
          → Moves env s r
          → Moves {A = B} env s ((lift r.0 >>= k) r.1)
      go (ok a, s1) (n, t) = let (ends, later) = hk a s1 t in (ends, ground (arith, t, later))
      go (raised e, s1) (n, t) = (λ x. n (ground (arith, x)), t)

  -- After a call that has gained time, the rest begins later.
  pub Gains-then :
      {A B : Type 0} (m : Act A) (k : A → Act B) (s : Keyboard)
      → Gains env s (m s)
      → ((a : A) → MovesFrom (suc (env.clock s.history)) (k a))
      → Moves env s ((m >>= k) s)
  Gains-then {A} {B} m k s hm hk = go (m s) hm
    where
      go :
          (r : Outcome Error A × Keyboard)
          → Gains env s r
          → Moves {A = B} env s ((lift r.0 >>= k) r.1)
      go (ok a, s1) t =
          let (ends, later) = hk a s1 (ground (arith, t)) in (ends, ground (arith, t, later))
      go (raised e, s1) (n, t) = (λ x. n (ground (arith, x)), t)

  -- A call before one that gains time, or after one
  pub Moves-Gains :
      {A B : Type 0} (m : Act A) (k : A → Act B) (s : Keyboard)
      → Moves env s (m s)
      → ((a : A) (s1 : Keyboard) → Gains env s1 (k a s1))
      → Gains env s ((m >>= k) s)
  Moves-Gains {A} {B} m k s hm hk = go (m s) hm
    where
      later :
          (s1 : Keyboard) (r : Outcome Error B × Keyboard)
          → env.clock s.history ≤ env.clock s1.history
          → Gains env s1 r
          → Gains env s r
      later s1 (ok _, s2) t g = ground (arith, t, g)
      later s1 (raised e, s2) t (n, g) = (n, ground (arith, t, g))

      go :
          (r : Outcome Error A × Keyboard)
          → Moves env s r
          → Gains {A = B} env s ((lift r.0 >>= k) r.1)
      go (ok a, s1) (n, t) = later s1 (k a s1) t (hk a s1)
      go (raised e, s1) (n, t) = (λ x. n (ap raised x), t)

  pub Gains-Moves :
      {A B : Type 0} (m : Act A) (k : A → Act B) (s : Keyboard)
      → Gains env s (m s)
      → ((a : A) (s1 : Keyboard) → Moves env s1 (k a s1))
      → Gains env s ((m >>= k) s)
  Gains-Moves {A} {B} m k s hm hk = go (m s) hm
    where
      later :
          (s1 : Keyboard) (r : Outcome Error B × Keyboard)
          → env.clock s.history < env.clock s1.history
          → Moves env s1 r
          → Gains env s r
      later s1 (ok _, s2) t (n, g) = ground (arith, t, g)
      later s1 (raised e, s2) t (n, g) = (λ x. n (ap raised x), ground (arith, t, g))

      go :
          (r : Outcome Error A × Keyboard)
          → Gains env s r
          → Gains {A = B} env s ((lift r.0 >>= k) r.1)
      go (ok a, s1) t = later s1 (k a s1) t (hk a s1)
      go (raised e, s1) (n, t) = (n, t)

  pub rest_for-Moves : (us : ℕ) (s : Keyboard) → Moves env s (rest_for env us s)
  rest_for-Moves us s = ground (arith, timed.forward (sleeps us (env.sleep us s.history)) s.history)

  pub rest_for-Gains : (us : ℕ) (s : Keyboard) → 0 < us → Gains env s (rest_for env us s)
  rest_for-Gains us s l = go (env.sleep us s.history)
    where
      go :
          (answer : Slept)
          → Gains {A = Unit {0}} env s (
            elim answer [ slept ↦ ok tt | sleep_signal ↦ raised interrupt ],
            log (sleeps us answer) s,
          )
      go slept = ground (arith, timed.slept_for us s.history, l)
      go sleep_signal = (λ x. ground (arith, x), timed.forward (sleeps us sleep_signal) s.history)

  pub back_off-Gains : (until : ℕ) (s : Keyboard) → Gains env s (back_off env until s)
  unfolding back_off
  back_off-Gains until s = go (remaining env until s) (remaining-Passes until s)
    where
      later :
          (s1 : Keyboard) (r : Outcome Error (Unit {0}) × Keyboard)
          → env.clock s.history ≤ env.clock s1.history
          → Gains env s1 r
          → Gains env s r
      later s1 (ok _, s2) t g = ground (arith, t, g)
      later s1 (raised e, s2) t (n, g) = (n, ground (arith, t, g))

      go :
          (r : Outcome Error ℕ × Keyboard)
          → Passes (λ left. 0 < left) until s r
          → Gains env s ((lift r.0 >>= λ left. rest_for env (min retry_interval left)) r.1)
      go (ok left, s1) (l, b, t) =
          later s1 (rest_for env (min retry_interval left) s1) t
            (rest_for-Gains (min retry_interval left) s1 (ground (arith, l)))
      go (raised e, s1) (n, t) = (n, t)
