-- ===== src/Healthchecks/Upsert/Sends.antt =====
-- healthchecks.py, `apply`: what it posts, and when.
use home_lab.Prelude.{
  ◌≢◌, ◌≡◌, refl, ap, ◌∙◌, ◌⊎◌, inl, inr, String, Bool, true, false, Option, none, some, List, [],
  ◌∷◌, length, str_eq, arith, if◌then◌else◌,
}
use home_lab.Prelude.Dict.{Dict}
use home_lab.Json.{Fields}
use home_lab.Healthchecks.Service.{
  Want, Request, Problem, Stop, Ending, returned, refused, crashed, typed, History, Env, lift,
  ◌>>=◌,
}
use home_lab.Healthchecks.Live.{refusals}
use home_lab.Healthchecks.Upsert.{
  Survey, stop_on, confirmation, survey, show_plan, confirm, recheck, send, check_after, carry_out,
  apply,
}
use home_lab.Healthchecks.Upsert.Quiet.{
  posts, approved, survey-Quiet, show_plan-Quiet, check_after-Quiet, recheck-Quiet,
}
use home_lab.Healthchecks.Upsert.Order.{IsRun, onto, Sent, send-Sent}

module _ (env : Env) where
  -- A check of the plan that passes has found nothing to refuse.
  recheck-passes :
      (wants : List Want) (planned before : Survey) (h : History)
      → (recheck env wants planned before h).0 ≡ returned tt
      → refusals env wants before.live ≡ returned []
  unfolding recheck
  recheck-passes wants planned before h e = ground (arith, e)

  -- After "apply" was typed and before anything was posted, a survey found these live checks, and
  -- nothing to refuse in them.
  abbrev pub Basis : List Want → History → Dict Fields → Type 0
  Basis wants h before =
      (h2 : History) × (found : Survey) × (approved h2 ≡ true)
      × (posts h2 ≡ posts h)
      × ((survey env wants h2).0 ≡ returned found)
      × (found.live ≡ before)
      × (refusals env wants before ≡ returned [])

  -- What a call may have posted on the way to the end `r`: nothing, and then it has not returned;
  -- or, on such a basis, the requests of the checks in order, up to some check, and all of them if
  -- it returns.
  abbrev pub Sends : List Want → History → Ending (Unit {0}) × History → Type 0
  Sends wants h r =
      ((posts r.1 ≡ posts h) × (r.0 ≢ returned tt))
      ⊎ ((before : Dict Fields) × (qs : List Request) × Basis wants h before
          × IsRun env before wants qs
          × (posts r.1 ≡ onto env qs (posts h))
          × (r.0 ≡ returned tt → length qs ≡ length wants))

  -- After the sending, the last survey posts nothing.
  check_after-Sends :
      (wants : List Want) (before : Dict Fields) (h h1 : History)
      → posts h1 ≡ posts h
      → Basis wants h before
      → (r : Ending (Unit {0}) × History) → Sent env before wants h1 r
      → Sends wants h ((lift r.0 >>= λ _. check_after env wants before) r.1)
  check_after-Sends wants before h h1 p n (returned _, h2) (qs, run, sent, kept, all) =
      let (quiet, still) = check_after-Quiet env wants before h2 in
      inr (before, qs, n, run, quiet ∙ (sent ∙ ap (onto env qs) p), λ _. all refl)
  check_after-Sends wants before h h1 p n (refused why, h2) (qs, run, sent, kept, all) =
      inr (before, qs, n, run, sent ∙ ap (onto env qs) p, all)
  check_after-Sends wants before h h1 p n (crashed, h2) (qs, run, sent, kept, all) =
      inr (before, qs, n, run, sent ∙ ap (onto env qs) p, all)

  -- From the second look at the plan on.
  recheck-Sends :
      (wants : List Want) (planned before : Survey) (h h1 : History)
      → posts h1 ≡ posts h
      → (refusals env wants before.live ≡ returned [] → Basis wants h before.live)
      → Sends wants h (
          (recheck env wants planned before >>= λ _.
          send env before.live wants >>= λ _. check_after env wants before.live)
            h1)
  recheck-Sends wants planned before h h1 p a =
      go (recheck env wants planned before h1) (recheck-Quiet env wants planned before h1)
        (recheck-passes wants planned before h1)
    where
      go :
          (r : Ending (Unit {0}) × History)
          → (posts r.1 ≡ posts h1) × (approved h1 ≡ true → approved r.1 ≡ true)
          → (r.0 ≡ returned tt → refusals env wants before.live ≡ returned [])
          → Sends wants h (
              (lift r.0 >>= λ _.
              send env before.live wants >>= λ _. check_after env wants before.live)
                r.1)
      go (returned _, h2) q n =
          check_after-Sends wants before.live h h2 (q.0 ∙ p) (a (n refl))
            (send env before.live wants h2) (send-Sent env before.live wants h2)
      go (refused why, h2) q n = inl (q.0 ∙ p, λ e. ground (arith, e))
      go (crashed, h2) q n = inl (q.0 ∙ p, λ e. ground (arith, e))

  carry_out-Sends :
      (wants : List Want) (planned : Survey) (h h1 : History)
      → posts h1 ≡ posts h
      → approved h1 ≡ true
      → Sends wants h (carry_out env wants planned h1)
  unfolding carry_out
  carry_out-Sends wants planned h h1 p a = go (survey env wants h1) refl (survey-Quiet env wants h1)
    where
      go :
          (r : Ending Survey × History)
          → survey env wants h1 ≡ r
          → (posts r.1 ≡ posts h1) × (approved h1 ≡ true → approved r.1 ≡ true)
          → Sends wants h (
              (lift r.0 >>= λ before. recheck env wants planned before >>= λ _.
              send env before.live wants >>= λ _. check_after env wants before.live)
                r.1)
      go (returned before, h2) e q =
          recheck-Sends wants planned before h h2 (q.0 ∙ p)
            (λ n. (h1, before, a, p, ap (λ r. r.0) e, refl, n))
      go (refused why, h2) e q = inl (q.0 ∙ p, λ k. ground (arith, k))
      go (crashed, h2) e q = inl (q.0 ∙ p, λ k. ground (arith, k))

  -- From the prompt on.
  confirm-Sends :
      (wants : List Want) (planned : Survey) (h h1 : History)
      → posts h1 ≡ posts h
      → Sends wants h ((confirm env >>= λ _. carry_out env wants planned) h1)
  unfolding confirm
  confirm-Sends wants planned h h1 p = read (env.input h1)
    where
      told :
          (text : String) (is_apply : Bool)
          → str_eq text "apply" ≡ is_apply
          → Sends wants h (
              (lift (if is_apply then returned tt else refused Stop.not_confirmed) >>= λ _.
              carry_out env wants planned)
                (typed (some text) ∷ h1))
      told text true e =
          carry_out-Sends wants planned h (typed (some text) ∷ h1) p (ground (arith, e))
      told text false e = inl (p, λ k. ground (arith, k))

      read :
          (text : Option String)
          → Sends wants h
              ((lift (confirmation text) >>= λ _. carry_out env wants planned) (typed text ∷ h1))
      read none = inl (p, λ k. ground (arith, k))
      read (some text) = told text (str_eq text "apply") refl

  -- From what the plan shows on.
  plan-Sends :
      (wants : List Want) (planned : Survey) (h h1 : History)
      → posts h1 ≡ posts h
      → Sends wants h (
          (show_plan env wants planned >>= λ _.
          lift (refusals env wants planned.live) >>= λ problems.
          lift (stop_on problems) >>= λ _. confirm env >>= λ _. carry_out env wants planned)
            h1)
  plan-Sends wants planned h h1 p =
      go (show_plan env wants planned h1) (show_plan-Quiet env wants planned h1)
    where
      stopped :
          (problems : List Problem) (h2 : History)
          → posts h2 ≡ posts h
          → Sends wants h (
              (lift (stop_on problems) >>= λ _. confirm env >>= λ _. carry_out env wants planned)
                h2)
      stopped [] h2 q = confirm-Sends wants planned h h2 q
      stopped (_ ∷ _) h2 q = inl (q, λ k. ground (arith, k))

      found :
          (problems : Ending (List Problem)) (h2 : History)
          → posts h2 ≡ posts h
          → Sends wants h (
              (lift problems >>= λ problems.
              lift (stop_on problems) >>= λ _. confirm env >>= λ _. carry_out env wants planned)
                h2)
      found (returned problems) h2 q = stopped problems h2 q
      found (refused why) h2 q = inl (q, λ k. ground (arith, k))
      found crashed h2 q = inl (q, λ k. ground (arith, k))

      go :
          (r : Ending (Unit {0}) × History)
          → (posts r.1 ≡ posts h1) × (approved h1 ≡ true → approved r.1 ≡ true)
          → Sends wants h (
              (lift r.0 >>= λ _. lift (refusals env wants planned.live) >>= λ problems.
              lift (stop_on problems) >>= λ _. confirm env >>= λ _. carry_out env wants planned)
                r.1)
      go (returned _, h2) q = found (refusals env wants planned.live) h2 (q.0 ∙ p)
      go (refused why, h2) q = inl (q.0 ∙ p, λ k. ground (arith, k))
      go (crashed, h2) q = inl (q.0 ∙ p, λ k. ground (arith, k))

  -- Whatever the service and the terminal answer: `apply` posts nothing, and does not return; or
  -- "apply" was typed, a survey after that left nothing to refuse, and what was posted are the
  -- requests of the declared checks for that survey, in their order, up to some check, and all of
  -- them if `apply` returns.
  pub apply-Sends : (wants : List Want) (h : History) → Sends wants h (apply env wants h)
  unfolding apply
  apply-Sends wants h = go (survey env wants h) (survey-Quiet env wants h)
    where
      go :
          (r : Ending Survey × History)
          → (posts r.1 ≡ posts h) × (approved h ≡ true → approved r.1 ≡ true)
          → Sends wants h (
              (lift r.0 >>= λ planned. show_plan env wants planned >>= λ _.
              lift (refusals env wants planned.live) >>= λ problems.
              lift (stop_on problems) >>= λ _. confirm env >>= λ _. carry_out env wants planned)
                r.1)
      go (returned planned, h1) q = plan-Sends wants planned h h1 q.0
      go (refused why, h1) q = inl (q.0, λ k. ground (arith, k))
      go (crashed, h1) q = inl (q.0, λ k. ground (arith, k))
