-- ===== src/Renovate/Tests.antt =====
-- The check of the dashboard at concrete inputs.
use home_lab.Prelude.{◌≡◌, refl, true, false, some, [], ◌∷◌}
use home_lab.Program.{ok}
use home_lab.Json.{str, obj, end, field}
use home_lab.Renovate.{
  Outside, printed, contents, gathered, problems_in, fetch, read, replace_char, unix_lines, escaped,
  main,
}
use home_lab.Renovate.Counts.{Reports, main-Reports}

-- A dashboard with one section, of two problems
abbrev toy_outside : Outside
toy_outside = record {
  run_gh = printed "out";
  loads = λ _. some (obj (field "state" (str "open") (field "body" (str "text") end)));
  has_anchor = λ _. true;
  sections = λ _. "section" ∷ [];
  items = λ _. "50% off" ∷ "other" ∷ [];
  drill_body = contents "drill";
}

two_problems :
    main toy_outside (λ _. "unreadable") false
    ≡ ok (record { annotations = "50%25 off" ∷ "other" ∷ []; exit_code = 1 })
unfolding main read fetch problems_in unix_lines gathered escaped replace_char
two_problems = refl

main-Reports_example :
    Reports toy_outside (λ _. "unreadable") false (main toy_outside (λ _. "unreadable") false)
main-Reports_example = main-Reports toy_outside (λ _. "unreadable") false
