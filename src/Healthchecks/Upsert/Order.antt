-- ===== src/Healthchecks/Upsert/Order.antt =====
-- healthchecks.py, `send`: the requests of the declared checks, in their order.
use home_lab.Prelude.{suc, ◌≡◌, refl, ap, ◌∙◌, true, List, [], ◌∷◌, length, arith}
use home_lab.Prelude.Dict.{Dict}
use home_lab.Json.{Fields}
use home_lab.Healthchecks.Service.{
  Want, Request, get_checks, get_channels, upsert, update, Reply, reply, no_reply, Stop, Ending,
  returned, refused, crashed, called, History, Env, lift, ◌>>=◌,
}
use home_lab.Healthchecks.Live.{request_of}
use home_lab.Healthchecks.Upsert.{received, call, expected_status, status_or_stop, send_one, send}
use home_lab.Healthchecks.Upsert.Quiet.{posts, approved}

module _ (env : Env) where
  -- The requests of the first of these checks, in their order.
  abbrev pub IsRun : Dict Fields → List Want → List Request → Type 0
  IsRun before wants [] = Unit
  IsRun before [] (q ∷ qs) = ⊥
  IsRun before (want ∷ wants) (q ∷ qs) =
      (request_of env before want ≡ returned q) × IsRun before wants qs

  -- A list with these put before it, one after the other.
  abbrev pub onto : List Request → List Request → List Request
  onto [] acc = acc
  onto (q ∷ qs) acc = onto qs (q ∷ acc)

  -- The requests of the checks were posted in order, up to some check, and all of them if the
  -- call returns.
  abbrev pub Sent : Dict Fields → List Want → History → Ending (Unit {0}) × History → Type 0
  Sent before wants h r =
      (qs : List Request) × IsRun before wants qs
      × (posts r.1 ≡ onto qs (posts h))
      × (approved h ≡ true → approved r.1 ≡ true)
      × (r.0 ≡ returned tt → length qs ≡ length wants)

  posts-request_of :
      (before : Dict Fields) (want : Want) (q : Request) (a : Reply) (h : History)
      → request_of env before want ≡ returned q
      → posts (called q a ∷ h) ≡ q ∷ posts h
  unfolding request_of
  posts-request_of before want (upsert b) a h e = refl
  posts-request_of before want (update u b) a h e = refl
  posts-request_of before want get_checks a h e = ground (arith, e)
  posts-request_of before want get_channels a h e = ground (arith, e)

  pub send-Sent :
      (before : Dict Fields) (wants : List Want) (h : History)
      → Sent before wants h (send env before wants h)
  unfolding send send_one call
  send-Sent before [] h = ([], tt, refl, λ a. a, λ e. refl)
  send-Sent before (want ∷ wants) h =
      asked (request_of env before want) refl (send-Sent before wants)
    where
      told :
          (q : Request)
          → request_of env before want ≡ returned q
          → (r : Ending (Unit {0})) (a : Reply)
          → ((h' : History) → Sent before wants h' (send env before wants h'))
          → Sent before (want ∷ wants) h ((lift r >>= λ _. send env before wants) (called q a ∷ h))
      told q e (returned _) a rest =
          let (qs, run, sent, kept, all) = rest (called q a ∷ h) in
          (
            q ∷ qs,
            (e, run),
            sent ∙ ap (onto qs) (posts-request_of before want q a h e),
            kept,
            λ k. ap suc (all k),
          )
      told q e (refused why) a rest =
          (q ∷ [], (e, tt), posts-request_of before want q a h e, λ x. x, λ k. ground (arith, k))
      told q e crashed a rest =
          (q ∷ [], (e, tt), posts-request_of before want q a h e, λ x. x, λ k. ground (arith, k))

      answered :
          (q : Request)
          → request_of env before want ≡ returned q
          → (answer : Reply) → ((h' : History) → Sent before wants h' (send env before wants h'))
          → Sent before (want ∷ wants) h (
              ((lift (received answer) >>= λ a.
              lift (status_or_stop env want.slug (expected_status env before want.slug) a.0))
                  >>= λ _. send env before wants)
                (called q answer ∷ h))
      answered q e (reply status document) rest =
          told q e (status_or_stop env want.slug (expected_status env before want.slug) status)
            (reply status document) rest
      answered q e no_reply rest = told q e (refused Stop.request_failed) no_reply rest

      asked :
          (request : Ending Request)
          → request_of env before want ≡ request
          → ((h' : History) → Sent before wants h' (send env before wants h'))
          → Sent before (want ∷ wants) h (
              ((lift request >>= λ q. call env q >>= λ a.
              lift (status_or_stop env want.slug (expected_status env before want.slug) a.0))
                  >>= λ _. send env before wants)
                h)
      asked (returned q) e rest = answered q e (env.api q h) rest
      asked (refused why) e rest = ([], tt, refl, λ a. a, λ k. ground (arith, k))
      asked crashed e rest = ([], tt, refl, λ a. a, λ k. ground (arith, k))
