-- ===== src/Hid/Keyboard/Takes.antt =====
-- hid_input.py, sequences of reports: what the gadget has taken of them when a sequence ends.
use home_lab.Prelude.{
  ℕ, ◌≡◌, refl, sym, ap, ◌∙◌, subst, inl, inr, Bool, true, false, not, ◌||◌, Option, none, some,
  List, [], ◌∷◌, ◌++◌, arith, onto, onto-append, IsPrefix, IsPrefix-longer, IsPrefix-after,
  if◌then◌else◌,
}
use home_lab.Program.{
  Outcome, ok, raised, is_raised, pure, raise, lift, raise_if, modify, on_raise, ◌>>=◌, ◌>>◌,
}
use home_lab.Hid.Gadget.{Report, Env, stopped, Error, hid_error, value_error, clock_read}
use home_lab.Hid.Keyboard.{submit, write_body, write_report, pause_body, pause}
use home_lab.Hid.Opening.{remaining}
use home_lab.Hid.Attributes.{
  Keyboard, Act, log, fail, report_of, completed, report_deadline, is_byte,
}
use home_lab.Hid.Keyboard.Core.{taken, Attributes}
use home_lab.Hid.Keyboard.Submits.{Submits, submit-Submits}

-- How a sequence of reports ends: the gadget has taken the first of them, in order, each once, and
-- all of them if the call returns; and the device is open if it was.
abbrev pub Took : {A : Type 0} → List Report → Keyboard → Outcome Error A × Keyboard → Type 0
Took rs s (r, s') =
    (qs : List Report) × IsPrefix qs rs
    × (taken s'.history ≡ onto qs (taken s.history))
    × (is_raised r ≡ false → qs ≡ rs)
    × (s'.fd ≡ s.fd)

abbrev pub Takes : {A : Type 0} → List Report → Act A → Type 0
Takes rs m = (s : Keyboard) → Took rs s (m s)

pub Takes-pure : {A : Type 0} (a : A) → Takes [] (pure {E = Error} {S = Keyboard} a)
Takes-pure a s = ([], tt, refl, λ _. refl, refl)

pub Takes-raise : (A : Type 0) (rs : List Report) (e : Error) → Takes {A = A} rs (raise e)
Takes-raise A rs e s = ([], tt, refl, λ h. ground (arith, h), refl)

module _ {B : Type 0} (rs ts : List Report) where
  Took-then :
      (s s1 : Keyboard) (r : Outcome Error B × Keyboard)
      → taken s1.history ≡ onto rs (taken s.history)
      → s1.fd ≡ s.fd
      → Took ts s1 r
      → Took (rs ++ ts) s r
  Took-then s s1 r t f (qs, p, u, all, g) = (
    rs ++ qs,
    IsPrefix-after rs qs ts p,
    u ∙ (ap (onto qs) t ∙ sym (onto-append rs qs (taken s.history))),
    λ h. ap (λ l. rs ++ l) (all h),
    g ∙ f,
  )

module _ {A B : Type 0} (rs ts : List Report) where
  pub Takes-bind :
      (m : Act A) (k : A → Act B)
      → Takes rs m
      → ((a : A) → Takes ts (k a))
      → Takes (rs ++ ts) (m >>= k)
  Takes-bind m k hm hk s = go (m s) (hm s)
    where
      go : (r : Outcome Error A × Keyboard) → Took rs s r → Took (rs ++ ts) s ((lift r.0 >>= k) r.1)
      go (ok a, s1) (qs, p, t, all, f) =
          Took-then rs ts s s1 (k a s1)
            (subst (λ l. taken s1.history ≡ onto l (taken s.history)) (all refl) t) f (hk a s1)
      go (raised x, s1) (qs, p, t, all, f) =
          (qs, IsPrefix-longer qs rs ts p, t, λ h. ground (arith, h), f)

module _ (env : Env) where
  submit-Takes : (report : Report) (until : ℕ) → Takes (report ∷ []) (submit env report until)
  submit-Takes report until s = go (submit env report until s) (submit-Submits env report until s)
    where
      go :
          (r : Outcome Error (Unit {0}) × Keyboard)
          → Submits report until s r
          → Took (report ∷ []) s r
      go (r, s1) (a, l, inl (t, x)) =
          ([], tt, t, λ h. ground (arith, h, x), ap (λ (b : Attributes). b.fd) a)
      go (r, s1) (a, l, inr t) =
          (report ∷ [], (refl, tt), t, λ _. refl, ap (λ (b : Attributes). b.fd) a)

  -- After a submission, what changes neither the device nor what it took.
  Took-and :
      (rs : List Report) (s : Keyboard) (r : Outcome Error (Unit {0}) × Keyboard)
      → Took rs s r
      → Took rs s ((lift r.0 >> modify completed) r.1)
  Took-and rs s (ok _, s1) t = t
  Took-and rs s (raised e, s1) t = t

  write_body-Takes :
      (modifier key : ℕ) → Takes (report_of modifier key ∷ []) (write_body env modifier key)
  unfolding write_body
  write_body-Takes modifier key s =
      go (not (is_byte modifier) || not (is_byte key)) (log (clock_read (env.clock s.history)) s)
        (report_deadline (env.clock s.history) s) (submit-Takes (report_of modifier key))
    where
      go :
          (bad : Bool) (s1 : Keyboard) (until : ℕ)
          → ((until : ℕ)
              → Takes (report_of modifier key ∷ []) (submit env (report_of modifier key) until))
          → Took (report_of modifier key ∷ []) s1 (
              (raise_if bad value_error
                  >> (submit env (report_of modifier key) until >> modify completed))
                s1)
      go true s1 until h = ([], tt, refl, λ k. ground (arith, k), refl)
      go false s1 until h =
          Took-and (report_of modifier key ∷ []) s1 (submit env (report_of modifier key) until s1)
            (h until s1)

  on_raise-Takes : (rs : List Report) (m : Act (Unit {0})) → Takes rs m → Takes rs (on_raise m fail)
  on_raise-Takes rs m h s = go (m s) (h s)
    where
      go :
          (r : Outcome Error (Unit {0}) × Keyboard)
          → Took rs s r
          → Took rs s (on_raise {S = Keyboard} (λ _. r) fail s)
      go (ok _, s1) t = t
      go (raised e, s1) t = t

  -- `write_report` submits one report, or nothing.
  pub write_report-Takes :
      (modifier key : ℕ) → Takes (report_of modifier key ∷ []) (write_report env modifier key)
  unfolding write_report
  write_report-Takes modifier key s = go (s.failed || not s.fd)
    where
      go :
          (off : Bool)
          → Took (report_of modifier key ∷ []) s (
              (if off
                  then raise (hid_error stopped)
                  else on_raise (write_body env modifier key) fail)
                s)
      go true = ([], tt, refl, λ k. ground (arith, k), refl)
      go false =
          on_raise-Takes (report_of modifier key ∷ []) (write_body env modifier key)
            (write_body-Takes modifier key) s

  -- `pause` submits nothing.
  pub pause-Takes : (time : Option ℕ) → Takes [] (pause env time)
  unfolding pause pause_body remaining
  pause-Takes none s = ([], tt, refl, λ _. refl, refl)
  pause-Takes (some us) s = ([], tt, ground arith, λ _. refl, ground arith)
