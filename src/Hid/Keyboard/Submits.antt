-- ===== src/Hid/Keyboard/Submits.antt =====
-- hid_input.py, `_write` and `write_report`: what the gadget has taken of a report, and when.
use home_lab.Prelude.{
  ℕ, zero, suc, ◌≡◌, ◌≢◌, refl, ap, ◌∙◌, ◌⊎◌, inl, inr, Bool, true, false, ◌∷◌, length, ◌==◌, arith,
  if◌then◌else◌,
}
use home_lab.Program.{Outcome, ok, raised, raise, lift, ◌>>=◌, ◌>>◌}
use home_lab.Program.Keeps.{Keeps}
use home_lab.Hid.Gadget.{
  Report, Written, count, write_interrupted, full, no_write, write_signal, Env, short, Error,
  hid_error,
}
use home_lab.Hid.Keyboard.{await_ready, after_write, try_write, write_loop, submit}
use home_lab.Hid.Opening.{remaining, back_off, rounds_until}
use home_lab.Hid.Attributes.{Keyboard, Act}
use home_lab.Hid.Keyboard.Core.{
  is_taken, taken, late, attributes, core, back_off-core, await_ready-core,
}

-- How a submission ends: the attributes stay, no write was late, and the gadget took the report
-- once, or it did not, and then the call has raised.
abbrev pub Submits : Report → ℕ → Keyboard → Outcome Error (Unit {0}) × Keyboard → Type 0
Submits report until s (r, s') =
    (attributes s' ≡ attributes s)
    × (late until s'.history ≡ late until s.history)
    × (((taken s'.history ≡ taken s.history) × (r ≢ ok tt))
        ⊎ (taken s'.history ≡ report ∷ taken s.history))

-- One attempt
abbrev Tries : Report → ℕ → Keyboard → Outcome Error Written × Keyboard → Type 0
Tries report until s (ok answer, s') =
    (attributes s' ≡ attributes s)
    × (late until s'.history ≡ late until s.history)
    × (taken s'.history
        ≡ (if is_taken report answer then report ∷ taken s.history else taken s.history))
Tries report until s (raised e, s') = core until s' ≡ core until s

Submits-from :
    (report : Report) (until : ℕ) (s s1 : Keyboard) (r : Outcome Error (Unit {0}) × Keyboard)
    → attributes s1 ≡ attributes s
    → late until s1.history ≡ late until s.history
    → taken s1.history ≡ taken s.history
    → Submits report until s1 r
    → Submits report until s r
Submits-from report until s s1 r a l t (b, m, inl (u, e)) = (b ∙ a, m ∙ l, inl (u ∙ t, e))
Submits-from report until s s1 r a l t (b, m, inr u) =
    (b ∙ a, m ∙ l, inr (u ∙ ap (λ x. report ∷ x) t))

-- A call that keeps the core, before a submission.
Submits-after :
    {A : Type 0} (report : Report) (until : ℕ) (m : Act A) (k : A → Act (Unit {0}))
    → Keeps (core until) m
    → ((a : A) (s : Keyboard) → Submits report until s (k a s))
    → (s : Keyboard) → Submits report until s ((m >>= k) s)
Submits-after {A} report until m k hm hk s = go (m s) (hm s)
  where
    go :
        (r : Outcome Error A × Keyboard)
        → core until r.1 ≡ core until s
        → Submits report until s ((lift r.0 >>= k) r.1)
    go (ok a, s1) e =
        Submits-from report until s s1 (k a s1) (ap (λ c. c.0) e) (ap (λ c. c.2) e)
          (ap (λ c. c.1) e) (hk a s1)
    go (raised x, s1) e =
        (ap (λ c. c.0) e, ap (λ c. c.2) e, inl (ap (λ c. c.1) e, λ h. ground (arith, h)))

module _ (env : Env) (report : Report) (until : ℕ) where
  try_write-Tries : (s : Keyboard) → Tries report until s (try_write env report until s)
  unfolding try_write remaining
  try_write-Tries s = ground arith

  -- A whole record was taken: the wait for the slot leaves it at that.
  taken-Submits :
      (s s1 : Keyboard)
      → attributes s1 ≡ attributes s
      → late until s1.history ≡ late until s.history
      → taken s1.history ≡ report ∷ taken s.history
      → Submits report until s (await_ready env until s1)
  taken-Submits s s1 a l t =
      let e = await_ready-core env until until s1 in
      (ap (λ c. c.0) e ∙ a, ap (λ c. c.2) e ∙ l, inr (ap (λ c. c.1) e ∙ t))

  after_write-Submits :
      (again : Act (Unit {0})) (answer : Written) (s s1 : Keyboard)
      → ((s : Keyboard) → Submits report until s (again s))
      → Tries report until s (ok answer, s1)
      → Submits report until s (after_write env report until again answer s1)
  after_write-Submits again (count n) s s1 h t = go (n == length report) t
    where
      go :
          (whole : Bool)
          → (attributes s1 ≡ attributes s)
            × (late until s1.history ≡ late until s.history)
            × (taken s1.history ≡ (if whole then report ∷ taken s.history else taken s.history))
          → Submits report until s
              ((if whole then await_ready env until else raise (hid_error (short n))) s1)
      go true (a, l, t) = taken-Submits s s1 a l t
      go false (a, l, t) = (a, l, inl (t, λ e. ground (arith, e)))
  after_write-Submits again write_interrupted s s1 h (a, l, t) =
      Submits-from report until s s1 (again s1) a l t (h s1)
  after_write-Submits again full s s1 h (a, l, t) =
      Submits-from report until s s1 ((back_off env until >> again) s1) a l t (
        Submits-after report until (back_off env until) (λ _. again) (back_off-core env until until)
          (λ _. h) s1)
  after_write-Submits again no_write s s1 h (a, l, t) = (a, l, inl (t, λ e. ground (arith, e)))
  after_write-Submits again write_signal s s1 h (a, l, t) = (a, l, inl (t, λ e. ground (arith, e)))

  attempt-Submits :
      (again : Act (Unit {0}))
      → ((s : Keyboard) → Submits report until s (again s))
      → (s : Keyboard)
      → Submits report until s
          ((try_write env report until >>= after_write env report until again) s)
  attempt-Submits again h s = go (try_write env report until s) (try_write-Tries s)
    where
      go :
          (r : Outcome Error Written × Keyboard)
          → Tries report until s r
          → Submits report until s ((lift r.0 >>= after_write env report until again) r.1)
      go (ok answer, s1) t = after_write-Submits again answer s s1 h t
      go (raised x, s1) e =
          (ap (λ c. c.0) e, ap (λ c. c.2) e, inl (ap (λ c. c.1) e, λ h. ground (arith, h)))

  write_loop-Submits :
      (rounds : ℕ) (s : Keyboard) → Submits report until s (write_loop env rounds report until s)
  unfolding write_loop
  write_loop-Submits zero s = (refl, refl, inl (refl, λ e. ground (arith, e)))
  write_loop-Submits (suc rounds) s =
      let again = write_loop env rounds report until in
      Submits-after report until (await_ready env until)
        (λ _. try_write env report until >>= after_write env report until again)
        (await_ready-core env until until) (λ _. attempt-Submits again (write_loop-Submits rounds))
        s

  -- However often `_write` tries again: the gadget takes the report at most once, no part of it is
  -- sent alone after a refusal, each write follows at once on a look at the clock before the
  -- deadline, and if the call returns, the gadget has taken the report.
  pub submit-Submits : (s : Keyboard) → Submits report until s (submit env report until s)
  unfolding submit
  submit-Submits s = write_loop-Submits (rounds_until env until s) s
