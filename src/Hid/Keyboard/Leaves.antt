-- ===== src/Hid/Keyboard/Leaves.antt =====
-- hid_input.py, `with HidKeyboard(...)`: how the files and the gadget are left.
use home_lab.Prelude.{
  ◌+◌, ◌≡◌, refl, ap, ◌∙◌, ◌⊎◌, inl, inr, Bool, true, false, List, [], ◌∷◌, arith, onto, IsPrefix,
  if◌then◌else◌,
}
use home_lab.Program.{Outcome, ok, raised, is_raised, lift, ◌>>=◌}
use home_lab.Hid.Gadget.{Report, neutral, cleanup_timeout, Env, Error, clock_read}
use home_lab.Hid.Keyboard.{
  submit, release_body, release, exit, settled, leave, entered, with_keyboard,
}
use home_lab.Hid.Opening.{close_all, enter}
use home_lab.Hid.Attributes.{Keyboard, Act, log, fail, caught, exit_outcome}
use home_lab.Hid.Keyboard.Core.{taken}
use home_lab.Hid.Keyboard.Submits.{Submits, submit-Submits}
use home_lab.Hid.Keyboard.Takes.{Took, Takes}
use home_lab.Hid.Keyboard.Enters.{
  IsShut, IsShut-then, IsShut-ok, IsShut-raised, close_all-IsShut, Enters, enter-Enters,
}

-- The neutral report was taken once more, or nothing was.
abbrev pub Released : Keyboard → Keyboard → Type 0
Released s s' =
    (taken s'.history ≡ taken s.history) ⊎ (taken s'.history ≡ neutral ∷ taken s.history)

-- How the attempt to release the keys ends: if it is confirmed, the neutral report was taken.
abbrev Releases : Keyboard → Outcome Error Bool × Keyboard → Type 0
Releases s (r, s') = Released s s' × (r ≡ ok true → taken s'.history ≡ neutral ∷ taken s.history)

-- How `__exit__` ends: the files are shut, and if it raises nothing with nothing pending, the neutral
-- report was taken.
abbrev Exits : Bool → Keyboard → Outcome Error (Unit {0}) × Keyboard → Type 0
Exits pending s (r, s') =
    IsShut (r, s')
    × Released s s'
    × (is_raised r ≡ false → pending ≡ false → taken s'.history ≡ neutral ∷ taken s.history)

-- How a `with` statement ends whose body submits these reports: the files are shut; the gadget has taken the first of the reports, in order, each once, and after them at most one neutral
-- report; and if nothing is raised, it has taken all of them, and the neutral report after them.
abbrev pub Leaves : {A : Type 0} → List Report → Keyboard → Outcome Error A × Keyboard → Type 0
Leaves rs s (r, s') =
    IsShut (r, s')
    × ((qs : List Report) × IsPrefix qs rs
        × ((taken s'.history ≡ onto qs (taken s.history))
            ⊎ (taken s'.history ≡ neutral ∷ onto qs (taken s.history)))
        × (is_raised r ≡ false
            → (qs ≡ rs) × (taken s'.history ≡ neutral ∷ onto qs (taken s.history))))

module _ (env : Env) where
  release_body-Releases :
      (s : Keyboard) → Releases s (caught (release_body env s).0, (release_body env s).1)
  unfolding release_body
  release_body-Releases s =
      go
        (submit env neutral (env.clock s.history + cleanup_timeout)
          (log (clock_read (env.clock s.history)) s))
        (submit-Submits env neutral (env.clock s.history + cleanup_timeout)
          (log (clock_read (env.clock s.history)) s))
    where
      go :
          (r : Outcome Error (Unit {0}) × Keyboard)
          → Submits neutral
              (env.clock s.history + cleanup_timeout)
              (log (clock_read (env.clock s.history)) s)
              r
          → Releases s (caught r.0, r.1)
      go (ok _, s1) (a, l, inl (t, x)) = (inl t, λ e. ground (arith, x))
      go (ok _, s1) (a, l, inr t) = (inr t, λ e. t)
      go (raised x, s1) (a, l, inl (t, y)) = (inl t, λ e. ground (arith, e))
      go (raised x, s1) (a, l, inr t) = (inr t, λ e. ground (arith, e))

  release-Releases : (s : Keyboard) → s.fd ≡ true → Releases s (release env s)
  unfolding release
  release-Releases s f = go s.fd f (release_body-Releases s)
    where
      go :
          (held : Bool)
          → held ≡ true
          → Releases s (caught (release_body env s).0, (release_body env s).1)
          → Releases s
              (if held then (let (r, s') = release_body env s in (caught r, s')) else (ok true, s))
      go true f h = h
      go false f h = ground (arith, f)

  exit-Exits : (pending : Bool) (s : Keyboard) → s.fd ≡ true → Exits pending s (exit env pending s)
  unfolding exit
  exit-Exits pending s f = go (release env s) (release-Releases s f)
    where
      confirmed :
          (r : Outcome Error Bool) (unclosed : Bool)
          → is_raised (exit_outcome r unclosed pending) ≡ false
          → pending ≡ false
          → r ≡ ok true
      confirmed r unclosed h p = ground arith

      closing :
          (s1 s2 : Keyboard) → taken s2.history ≡ taken s1.history → Released s s1 → Released s s2
      closing s1 s2 e (inl t) = inl (e ∙ t)
      closing s1 s2 e (inr t) = inr (e ∙ t)

      shut :
          (r : Outcome Error Bool) (s1 : Keyboard) (x : Outcome Error Bool × Keyboard)
          → Releases s (r, s1)
          → IsShut x
          → taken x.1.history ≡ taken s1.history
          → Exits pending s ((lift x.0 >>= λ unclosed. lift (exit_outcome r unclosed pending)) x.1)
      shut r s1 (ok unclosed, s2) (k, t) c e = (
        IsShut-then (ok unclosed, s2) (λ u. exit_outcome r u pending) c,
        closing s1 s2 e k,
        λ h p. e ∙ t (confirmed r unclosed h p),
      )
      shut r s1 (raised x, s2) (k, t) c e = (
        IsShut-then (raised x, s2) (λ u. exit_outcome r u pending) c,
        closing s1 s2 e k,
        λ h p. ground (arith, h),
      )

      go :
          (r : Outcome Error Bool × Keyboard)
          → Releases s r
          → Exits pending s
              ((close_all env >>= λ unclosed. lift (exit_outcome r.0 unclosed pending)) (fail r.1))
      go (r, s1) k =
          let (c, e) = close_all-IsShut env (fail s1) in shut r s1 (close_all env (fail s1)) k c e

  leave-Leaves :
      {A : Type 0} (rs : List Report) (s s1 : Keyboard) (r : Outcome Error A)
      → s1.fd ≡ true
      → Took rs s (r, s1)
      → Leaves rs s (leave env r s1)
  leave-Leaves {A} rs s s1 r f (qs, p, t, all, g) =
      go (exit env (is_raised r) s1) (exit-Exits (is_raised r) s1 f)
    where
      after :
          (s2 : Keyboard)
          → Released s1 s2
          → (taken s2.history ≡ onto qs (taken s.history))
            ⊎ (taken s2.history ≡ neutral ∷ onto qs (taken s.history))
      after s2 (inl e) = inl (e ∙ t)
      after s2 (inr e) = inr (e ∙ ap (λ l. neutral ∷ l) t)

      go :
          (x : Outcome Error (Unit {0}) × Keyboard)
          → Exits (is_raised r) s1 x
          → Leaves {A = A} rs s (settled env r x)
      go (ok a, s2) (c, k, u) = (
        IsShut-ok a r s2 c,
        (qs, p, after s2 k, λ h. (all h, u refl h ∙ ap (λ l. neutral ∷ l) t)),
      )
      go (raised e, s2) (c, k, u) =
          (IsShut-raised e s2 c, (qs, p, after s2 k, λ h. ground (arith, h)))

  -- Whatever the clock, the lock file, the gadget and signals do, if the body submits these reports:
  -- afterwards `fd` is None, and so is `lock_fd`, unless a signal struck in the closing of the device
  -- and KeyboardInterrupt is raised; and the gadget has taken the first of the reports, in order,
  -- each once, and after them at most one neutral report. If nothing is raised, it has taken all
  -- the reports, and the neutral report after them.
  pub with_keyboard-Leaves :
      {A : Type 0} (rs : List Report) (body : Act A) (s : Keyboard)
      → Takes rs body
      → Leaves rs s (with_keyboard env body s)
  unfolding with_keyboard
  with_keyboard-Leaves {A} rs body s h = go (enter env s) (enter-Enters env s)
    where
      from :
          (s1 : Keyboard) (r : Outcome Error A × Keyboard)
          → taken s1.history ≡ taken s.history
          → Leaves rs s1 r
          → Leaves rs s r
      from s1 (r, s2) e (c, (qs, p, inl t, all)) = (
        c,
        (
          qs,
          p,
          inl (t ∙ ap (onto qs) e),
          λ k. ((all k).0, (all k).1 ∙ ap (λ l. neutral ∷ onto qs l) e),
        ),
      )
      from s1 (r, s2) e (c, (qs, p, inr t, all)) = (
        c,
        (
          qs,
          p,
          inr (t ∙ ap (λ l. neutral ∷ onto qs l) e),
          λ k. ((all k).0, (all k).1 ∙ ap (λ l. neutral ∷ onto qs l) e),
        ),
      )

      go :
          (r : Outcome Error (Unit {0}) × Keyboard)
          → Enters env s r
          → Leaves {A = A} rs s (entered env body r)
      go (raised e, s1) (t, c) = (IsShut-raised e s1 c, ([], tt, inl t, λ k. ground (arith, k)))
      go (ok _, s1) (t, f) =
          from s1 (leave env (body s1).0 (body s1).1) t
            (leave-Leaves rs s1 (body s1).1 (body s1).0 (device_open (body s1) (h s1)) (h s1))
        where
          device_open : (r : Outcome Error A × Keyboard) → Took rs s1 r → r.1.fd ≡ true
          device_open (b, s2) (qs, p, u, all, g) = g ∙ f
