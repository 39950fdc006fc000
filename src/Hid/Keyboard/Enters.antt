-- ===== src/Hid/Keyboard/Enters.antt =====
-- hid_input.py, `__enter__` and `_close`: the files, and what was submitted.
use home_lab.Prelude.{
  ℕ, zero, suc, ◌≡◌, ◌⊎◌, inl, inr, refl, ap, ◌∙◌, Bool, true, false, not, List, [], ◌∷◌, ◌+◌, ◌==◌,
  length, if◌then◌else◌, arith,
}
use home_lab.Program.{Outcome, ok, raised, pure, raise, lift, ◌>>=◌}
use home_lab.Program.Keeps.{Keeps, Keeps-bind}
use home_lab.Hid.Gadget.{
  Handle, device, lock, Locked, locked, busy, no_lock, lock_signal, Env, Error, interrupt, closes,
  Closed, closed, no_close, close_signal, History,
}
use home_lab.Hid.Opening.{
  remaining, back_off, ask_lock, after_flock, lock_loop, take_lock, open_file, enter_body, close_fd,
  close_lock_fd, close_all, closed_after, enter, rounds_until,
}
use home_lab.Hid.Attributes.{Keyboard, Act, after_close}
use home_lab.Hid.Keyboard.Core.{taken, remaining-core, back_off-core}

-- `fd` is None, and so is `lock_fd`; the latter may be left only by KeyboardInterrupt, when a signal
-- has just struck in the closing of the device.
abbrev pub IsShut : {A : Type 0} → Outcome Error A × Keyboard → Type 0
IsShut (r, s) =
    (s.fd ≡ false)
    × ((s.lock_fd ≡ false)
        ⊎ ((r ≡ raised interrupt) × ((t : History) × (s.history ≡ closes device close_signal ∷ t))))

pub IsShut-then :
    {A B : Type 0} (x : Outcome Error A × Keyboard) (k : A → Outcome Error B)
    → IsShut x
    → IsShut {A = B} ((lift x.0 >>= λ a. lift (k a)) x.1)
IsShut-then (ok a, s) k (f, inl l) = (f, inl l)
IsShut-then (ok a, s) k (f, inr (e, t)) = ground (arith, e)
IsShut-then (raised x, s) k (f, inl l) = (f, inl l)
IsShut-then (raised x, s) k (f, inr (e, t)) = (f, inr (ap raised (ground (arith, e)), t))

-- Another outcome takes the place of one that is not KeyboardInterrupt.
pub IsShut-ok :
    {A B : Type 0} (a : A) (r : Outcome Error B) (s : Keyboard)
    → IsShut {A = A} (ok a, s)
    → IsShut (r, s)
IsShut-ok a r s (f, inl l) = (f, inl l)
IsShut-ok a r s (f, inr (e, t)) = ground (arith, e)

pub IsShut-raised :
    {A B : Type 0} (e : Error) (s : Keyboard)
    → IsShut {A = A} (raised e, s)
    → IsShut {A = B} (raised e, s)
IsShut-raised e s (f, inl l) = (f, inl l)
IsShut-raised e s (f, inr (i, t)) = (f, inr (ap raised (ground (arith, i)), t))

module _ (env : Env) where
  -- How the closing of the device ends
  abbrev Frees : Keyboard → Outcome Error (List Handle) × Keyboard → Type 0
  Frees s (ok _, s') = (s'.fd ≡ false) × (taken s'.history ≡ taken s.history)
  Frees s (raised e, s') =
      (s'.fd ≡ false)
      × (taken s'.history ≡ taken s.history)
      × (e ≡ interrupt)
      × (s'.history ≡ closes device close_signal ∷ s.history)

  close_fd-Frees : (s : Keyboard) → Frees s (close_fd env s)
  unfolding close_fd
  close_fd-Frees s = go s.fd (env.close device s.history) refl
    where
      go :
          (held : Bool) (answer : Closed)
          → s.fd ≡ held
          → Frees s (
              if◌then◌else◌ {A = Outcome Error (List Handle) × Keyboard} held
                (
                  after_close device answer,
                  record s { fd = false; history = closes device answer ∷ s.history },
                )
                (ok [], s))
      go false answer e = (e, refl)
      go true closed e = (refl, refl)
      go true no_close e = (refl, refl)
      go true close_signal e = (refl, refl, refl, refl)

  -- Nothing is left open after it, and nothing else is changed.
  close_lock_fd-Frees :
      (s : Keyboard)
      → ((close_lock_fd env s).1.lock_fd ≡ false)
        × ((close_lock_fd env s).1.fd ≡ s.fd)
        × (taken (close_lock_fd env s).1.history ≡ taken s.history)
  unfolding close_lock_fd
  close_lock_fd-Frees s = ground arith

  pub close_all-IsShut :
      (s : Keyboard)
      → IsShut (close_all env s) × (taken (close_all env s).1.history ≡ taken s.history)
  unfolding close_all
  close_all-IsShut s = go (close_fd env s) (close_fd-Frees s)
    where
      unclosed : List Handle → List Handle → Outcome Error Bool
      unclosed a b = ok (not (length a + length b == 0))

      then_lock :
          (a : List Handle) (s1 : Keyboard) (x : Outcome Error (List Handle) × Keyboard)
          → (x.1.lock_fd ≡ false) × (x.1.fd ≡ false) × (taken x.1.history ≡ taken s.history)
          → IsShut ((lift x.0 >>= λ b. lift (unclosed a b)) x.1)
            × (taken ((lift x.0 >>= λ b. lift (unclosed a b)) x.1).1.history ≡ taken s.history)
      then_lock a s1 (ok b, s2) (l, f, t) = ((f, inl l), t)
      then_lock a s1 (raised e, s2) (l, f, t) = ((f, inl l), t)

      go :
          (x : Outcome Error (List Handle) × Keyboard)
          → Frees s x
          → IsShut ((lift x.0 >>= λ a. close_lock_fd env >>= λ b. lift (unclosed a b)) x.1)
            × (taken
                  ((lift x.0 >>= λ a. close_lock_fd env >>= λ b. lift (unclosed a b)) x.1).1.history
                ≡ taken s.history)
      go (ok a, s1) (f, t) =
          let (l, same, kept) = close_lock_fd-Frees s1 in
          then_lock a s1 (close_lock_fd env s1) (l, same ∙ f, kept ∙ t)
      go (raised e, s1) (f, t, i, h) = ((f, inr (ap raised i, (s.history, h))), t)

  open_file-taken : (f : Handle) → Keeps (λ (s : Keyboard). taken s.history) (open_file env f)
  unfolding open_file
  open_file-taken f s = ground arith

  remaining-taken : (until : ℕ) → Keeps (λ (s : Keyboard). taken s.history) (remaining env until)
  remaining-taken until s = ap (λ c. c.1) (remaining-core env until until s)

  after_flock-taken :
      (until : ℕ) (again : Act (Unit {0})) (answer : Locked)
      → Keeps (λ (s : Keyboard). taken s.history) again
      → Keeps (λ (s : Keyboard). taken s.history) (after_flock env until again answer)
  after_flock-taken until again locked h = λ s. refl
  after_flock-taken until again busy h =
      Keeps-bind (λ (s : Keyboard). taken s.history) (back_off env until) (λ _. again)
        (λ s. ap (λ c. c.1) (back_off-core env until until s)) (λ _. h)
  after_flock-taken until again no_lock h = λ s. refl
  after_flock-taken until again lock_signal h = λ s. refl

  lock_loop-taken :
      (rounds until : ℕ) → Keeps (λ (s : Keyboard). taken s.history) (lock_loop env rounds until)
  unfolding lock_loop
  lock_loop-taken zero until = λ s. refl
  lock_loop-taken (suc rounds) until =
      let again = lock_loop env rounds until in
      let h = lock_loop-taken rounds until in
      Keeps-bind (λ (s : Keyboard). taken s.history) (remaining env until)
        (λ _. ask_lock env >>= after_flock env until again) (remaining-taken until)
        (λ _.
          Keeps-bind (λ (s : Keyboard). taken s.history) (ask_lock env)
            (after_flock env until again) (λ s. refl)
            (λ answer. after_flock-taken until again answer h))

  take_lock-taken : Keeps (λ (s : Keyboard). taken s.history) (take_lock env)
  unfolding take_lock
  take_lock-taken s = lock_loop-taken (rounds_until env s.start_deadline s) s.start_deadline s

  -- How `__enter__` ends: nothing was submitted, and the device is open or, if it raised, the files
  -- are shut.
  abbrev pub Enters : Keyboard → Outcome Error (Unit {0}) × Keyboard → Type 0
  Enters s (ok _, s') = (taken s'.history ≡ taken s.history) × (s'.fd ≡ true)
  Enters s (raised e, s') =
      (taken s'.history ≡ taken s.history) × IsShut {A = Unit {0}} (raised e, s')

  -- The same before the files are closed.
  abbrev Opens : Keyboard → Outcome Error (Unit {0}) × Keyboard → Type 0
  Opens s (ok _, s') = (taken s'.history ≡ taken s.history) × (s'.fd ≡ true)
  Opens s (raised e, s') = taken s'.history ≡ taken s.history

  device-Opens :
      (until : ℕ) (s : Keyboard)
      → Opens s ((open_file env device >>= λ _. remaining env until >>= λ _. pure tt) s)
  unfolding open_file remaining
  device-Opens until s = ground arith

  before-Opens :
      {A : Type 0} (m : Act A) (k : A → Act (Unit {0}))
      → Keeps (λ (s : Keyboard). taken s.history) m
      → ((a : A) (s : Keyboard) → Opens s (k a s))
      → (s : Keyboard) → Opens s ((m >>= k) s)
  before-Opens {A} m k hm hk s = go (m s) (hm s)
    where
      later :
          (s1 : Keyboard) (r : Outcome Error (Unit {0}) × Keyboard)
          → taken s1.history ≡ taken s.history
          → Opens s1 r
          → Opens s r
      later s1 (ok _, s2) e (t, f) = (t ∙ e, f)
      later s1 (raised x, s2) e t = t ∙ e

      go :
          (r : Outcome Error A × Keyboard)
          → taken r.1.history ≡ taken s.history
          → Opens s ((lift r.0 >>= k) r.1)
      go (ok a, s1) e = later s1 (k a s1) e (hk a s1)
      go (raised x, s1) e = e

  enter_body-Opens : (s : Keyboard) → Opens s (enter_body env s)
  unfolding enter_body
  enter_body-Opens s =
      let until = s.start_deadline in
      before-Opens (remaining env until)
        (λ _. open_file env lock >>= λ _. take_lock env >>= λ _. remaining env until >>= λ _.
          open_file env device >>= λ _. remaining env until >>= λ _. pure tt)
        (remaining-taken until)
        (λ _.
          before-Opens (open_file env lock)
            (λ _. take_lock env >>= λ _. remaining env until >>= λ _.
              open_file env device >>= λ _. remaining env until >>= λ _. pure tt)
            (open_file-taken lock)
            (λ _.
              before-Opens (take_lock env)
                (λ _. remaining env until >>= λ _.
                  open_file env device >>= λ _. remaining env until >>= λ _. pure tt)
                take_lock-taken
                (λ _.
                  before-Opens (remaining env until)
                    (λ _. open_file env device >>= λ _. remaining env until >>= λ _. pure tt)
                    (remaining-taken until) (λ _. device-Opens until))))
        s

  pub enter-Enters : (s : Keyboard) → Enters s (enter env s)
  unfolding enter
  enter-Enters s = go (enter_body env s) (enter_body-Opens s)
    where
      after :
          (e : Error) (s1 : Keyboard) (x : Outcome Error Bool × Keyboard)
          → taken s1.history ≡ taken s.history
          → IsShut x
          → taken x.1.history ≡ taken s1.history
          → Enters s ((lift x.0 >>= λ _. raise e) x.1)
      after e s1 (ok b, s2) h c t = (t ∙ h, IsShut-then (Outcome.ok b, s2) (λ _. raised e) c)
      after e s1 (raised x, s2) h c t = (t ∙ h, IsShut-then (raised x, s2) (λ _. raised e) c)

      go :
          (r : Outcome Error (Unit {0}) × Keyboard)
          → Opens s r
          → Enters s (closed_after env r.0 r.1)
      go (ok _, s1) h = h
      go (raised e, s1) h = let (c, t) = close_all-IsShut s1 in after e s1 (close_all env s1) h c t
