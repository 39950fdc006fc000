-- ===== src/Renovate/Counts.antt =====
-- check-renovate-problems.py: what the annotations report of the text that was read.
use home_lab.Prelude.{
  ◌≡◌, ◌≢◌, ◌⊎◌, inl, inr, not, ◌&&◌, refl, String, Bool, true, false, Option, none, some, List, [],
  ◌∷◌, length, if◌then◌else◌, arith, All, map,
}
use home_lab.Program.{Outcome, ok, raised}
use home_lab.Json.{Json, null, bool, int, real, str, arr, obj, get, has}
use home_lab.Renovate.{
  dashboard_is, no_anchor, unexpected_response, is_open, problems_of, with_body, problems_in,
  problems_of_issue, drill_issue, fetch, Outside, Unreadable, escaped, gathered, Ended, ended, main,
  read, unix_lines, Error, unreadable, os_error, decode_error, Drill, contents, no_file, no_text,
  Ran, not_run, not_decoded, exited, printed, output_of, parsed,
}
use home_lab.Renovate.Lines.{IsOneLine, escaped-IsOneLine, map-IsOneLine}
use home_lab.Renovate.Problems.{Lists, problems_in-Lists}

module _ (out : Outside) where
  -- The issue that the run is about: the one of the drill, or the one that gh printed
  abbrev pub issue_of : Bool → Outcome Error Json
  issue_of drill = if drill then drill_issue out out.drill_body else fetch out

  -- Why the run ends with an error that `main` does not catch
  abbrev pub IsUncaught : Bool → Error → Type 0
  IsUncaught true e =
      ((out.drill_body ≡ no_file) × (e ≡ os_error))
      ⊎ ((out.drill_body ≡ no_text) × (e ≡ decode_error))
  IsUncaught false e = (out.run_gh ≡ not_decoded) × (e ≡ decode_error)

  -- How the problems are read: those of the issue, or an error
  abbrev pub Reads : Bool → Outcome Error (List String) → Type 0
  Reads drill (ok ps) = (v : Json) × (issue_of drill ≡ ok v) × Lists out v ps
  Reads drill (raised (unreadable _)) = Unit
  Reads drill (raised e) = IsUncaught drill e

  drill_issue-Uncaught :
      (d : Drill) (e : Error)
      → out.drill_body ≡ d
      → drill_issue out d ≡ raised e
      → IsUncaught true e
  drill_issue-Uncaught (contents text) e d r = ground (arith, r)
  drill_issue-Uncaught no_file e d r = inl (d, ground (arith, r))
  drill_issue-Uncaught no_text e d r = inr (d, ground (arith, r))

  parsed-Reads : (o : Option Json) (e : Error) → parsed out o ≡ raised e → Reads false (raised e)
  parsed-Reads o (unreadable _) r = tt
  parsed-Reads none os_error r = ground (arith, r)
  parsed-Reads none decode_error r = ground (arith, r)
  parsed-Reads (some v) os_error r = ground (arith, r)
  parsed-Reads (some v) decode_error r = ground (arith, r)

  -- An error of `fetch` that is not Unreadable
  fetch-Uncaught :
      (ran : Ran) (e : Error)
      → out.run_gh ≡ ran
      → output_of out ran ≡ raised e
      → Reads false (raised e)
  fetch-Uncaught ran (unreadable _) g r = tt
  fetch-Uncaught not_decoded os_error g r = ground (arith, r)
  fetch-Uncaught not_decoded decode_error g r = (g, refl)
  fetch-Uncaught not_run os_error g r = ground (arith, r)
  fetch-Uncaught not_run decode_error g r = ground (arith, r)
  fetch-Uncaught (exited n) os_error g r = ground (arith, r)
  fetch-Uncaught (exited n) decode_error g r = ground (arith, r)
  fetch-Uncaught (printed text) os_error g r = parsed-Reads (out.loads text) os_error r
  fetch-Uncaught (printed text) decode_error g r = parsed-Reads (out.loads text) decode_error r

  -- Nothing but Unreadable is raised.
  abbrev IsCaught : Outcome Error (List String) → Type 0
  IsCaught (ok _) = Unit
  IsCaught (raised (unreadable _)) = Unit
  IsCaught (raised _) = ⊥

  problems_of-IsCaught : (state : Json) (body : String) → IsCaught (problems_of out state body)
  problems_of-IsCaught state body = go (is_open state) (out.has_anchor body)
    where
      go :
          (a b : Bool)
          → IsCaught (
              if not a
              then raised (unreadable (dashboard_is state))
              else if not b
              then raised (unreadable no_anchor)
              else ok (gathered out (out.sections body)))
      go false b = tt
      go true false = tt
      go true true = tt

  with_body-IsCaught : (state v : Json) → IsCaught (with_body out state v)
  with_body-IsCaught state (str body) = problems_of-IsCaught state (unix_lines body)
  with_body-IsCaught state null = tt
  with_body-IsCaught state (bool _) = tt
  with_body-IsCaught state (int _) = tt
  with_body-IsCaught state (real _ _) = tt
  with_body-IsCaught state (arr _) = tt
  with_body-IsCaught state (obj _) = tt

  problems_in-IsCaught : (v : Json) → IsCaught (problems_in out v)
  unfolding problems_in
  problems_in-IsCaught (obj issue) = go (has issue "state" && has issue "body")
    where
      go :
          (b : Bool)
          → IsCaught (
              if b
              then with_body out (get issue "state") (get issue "body")
              else raised (unreadable unexpected_response))
      go true = with_body-IsCaught (get issue "state") (get issue "body")
      go false = tt
  problems_in-IsCaught null = tt
  problems_in-IsCaught (bool _) = tt
  problems_in-IsCaught (int _) = tt
  problems_in-IsCaught (real _ _) = tt
  problems_in-IsCaught (str _) = tt
  problems_in-IsCaught (arr _) = tt

  problems_of_issue-Reads :
      (drill : Bool) (o : Outcome Error Json)
      → issue_of drill ≡ o
      → ((e : Error) → o ≡ raised e → Reads drill (raised e))
      → Reads drill (problems_of_issue out o)
  problems_of_issue-Reads drill (raised e) is_o known = known e refl
  problems_of_issue-Reads drill (ok v) is_o known =
      go (problems_in out v) refl (problems_in-IsCaught v)
    where
      go : (r : Outcome Error (List String)) → problems_in out v ≡ r → IsCaught r → Reads drill r
      go (ok ps) q c = (v, is_o, problems_in-Lists out v ps q)
      go (raised (unreadable _)) q c = tt
      go (raised os_error) q c = elim c [ ]
      go (raised decode_error) q c = elim c [ ]

  read-Reads : (drill : Bool) → Reads drill (read out drill)
  unfolding read fetch
  read-Reads true =
      problems_of_issue-Reads true (drill_issue out out.drill_body) refl
        (λ e r. uncaught e (drill_issue-Uncaught out.drill_body e refl r))
    where
      uncaught : (e : Error) → IsUncaught true e → Reads true (raised e)
      uncaught (unreadable _) u = tt
      uncaught os_error u = u
      uncaught decode_error u = u
  read-Reads false = problems_of_issue-Reads false (fetch out) refl (λ e r. raised_by e r)
    where
      raised_by : (e : Error) → fetch out ≡ raised e → Reads false (raised e)
      raised_by e r = fetch-Uncaught out.run_gh e refl r

  module _ (message_of : Unreadable → String) where
    -- How the run ends: with 2, with an error, or with the problems of the text that was read
    abbrev pub Reports : Bool → Outcome Error Ended → Type 0
    Reports drill (raised e) = IsUncaught drill e
    Reports drill (ok e) =
        All IsOneLine e.annotations
        × (((e.exit_code ≡ 2) × (length e.annotations ≡ 1))
            ⊎ ((v : Json) × (ps : List String) × (issue_of drill ≡ ok v)
                × Lists out v ps
                × (e.annotations ≡ map escaped ps)
                × (((e.exit_code ≡ 0) × (ps ≡ [])) ⊎ ((e.exit_code ≡ 1) × (ps ≢ [])))))

    -- `main` ends in one of four ways. With 2 and one annotation. With an error, if the drill's file
    -- could not be read or decoded, or what gh wrote could not be decoded. Otherwise it has read the
    -- text of an open issue with the anchor, the drill's or the one that gh printed; the annotations
    -- are those of a list with exactly the items of the text's sections, and one more for a section
    -- without items, at least as many as sections; and it ends with 0 if there are none, else with 1.
    -- Each annotation is one line.
    pub main-Reports : (drill : Bool) → Reports drill (main out message_of drill)
    unfolding main
    main-Reports drill = go (read out drill) (read-Reads drill)
      where
        go :
            (o : Outcome Error (List String))
            → Reads drill o
            → Reports drill (ended out message_of o)
        go (raised (unreadable e)) known =
            ((escaped-IsOneLine (message_of e), tt), inl (refl, refl))
        go (raised os_error) known = known
        go (raised decode_error) known = known
        go (ok []) (v, i, l) = (tt, inr (v, [], i, l, refl, inl (refl, refl)))
        go (ok (p ∷ ps)) (v, i, l) = (
          map-IsOneLine (p ∷ ps),
          inr (v, p ∷ ps, i, l, refl, inr (refl, λ e. ground (arith, e))),
        )
