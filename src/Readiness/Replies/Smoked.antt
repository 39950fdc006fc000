-- ===== src/Readiness/Replies/Smoked.antt =====
-- readiness.py, `smoke`: what the server has answered when every lane's reply passes.
use home_lab.Prelude.{
  ℕ, zero, suc, ◌≡◌, ◌<◌, refl, ap, sym, ◌∙◌, subst, inl, inr, String, Bool, true, false, List, [],
  ◌∷◌, ◌++◌, ◌==◌, not, map, if◌then◌else◌, arith, In, All, str_eq, str_eq_iff,
}
use home_lab.Prelude.Int.{pos}
use home_lab.Program.{pure, raise, raise_if, ◌>>=◌}
use home_lab.Program.Returns.{Returns, bind-Returns, raise_if-Returns}
use home_lab.Json.{
  Json, Items, null, bool, int, real, str, arr, obj, nil, cons, end, Fields, get, truthy,
}
use home_lab.Readiness.Server.{
  Server, Python, Gate, History, Request, Reply, body, http_error, failed, ask_smoke, received,
  check_all, check_all-NoneBad, refused, bad_smoke, bad_value,
}
use home_lab.Readiness.Python.{equals_str, fields_of, get_or}
use home_lab.Readiness.Python.Reads.{fields_of-Returns, equals_str-str, holds, both}
use home_lab.Readiness.Replies.{
  pick, pick_first, pick_choice, judged, rightly, counted, chosen, error_checks, choices_checks,
  first_of, message_of, stripped, says_323, is_right, usage_checks, smoke_usage, requests, logged,
  results, answers, pool, smoke,
}

-- The result has no error, and this is its first choice.
abbrev pub Chooses : Json → Fields → Fields → Type 0
Chooses v result choice =
    (v ≡ obj result)
    × (truthy (get result "error") ≡ false)
    × ((others : Items) × (get_or result "choices" (arr nil) ≡ arr (cons (obj choice) others)))

-- What `is_right` wants of a choice: it is finished, and its text, stripped, is 323
abbrev pub IsFinished : Python → Fields → Type 0
IsFinished python choice =
    (get choice "finish_reason" ≡ str "stop")
    × ((message : Fields) × (s : String) × (get_or choice "message" (obj end) ≡ obj message)
        × (get message "content" ≡ str s)
        × (python.strip s ≡ "323"))

-- Such a reply, with the tokens of the prompt and of the completion counted
abbrev pub IsRight : Python → Json → Type 0
IsRight python v =
    (result : Fields) × (choice : Fields) × Chooses v result choice
    × IsFinished python choice
    × ((usage : Fields) × (get_or result "usage" (obj end) ≡ obj usage)
        × (truthy (get usage "prompt_tokens") ≡ true)
        × (truthy (get usage "completion_tokens") ≡ true))

-- Each reply is a document that the handler has let pass.
abbrev pub AllHandled : {A : Type 0} → (Json → Gate A) → List (Request × Reply) → Type 0
AllHandled handle = All (λ p.
    (v : Json) × (p.1 ≡ body v)
    × ((h : History) × (a : _) × (t : History) × Returns (handle v) h a t))

received-body :
    (a : Reply) (h : History) (v : Json) (t : History) → Returns (received a) h v t → a ≡ body v
received-body (body w) h v t r = ap body (ground (arith, r))
received-body (http_error c d) h v t r = ground (arith, r)
received-body failed h v t r = ground (arith, r)

results-AllHandled :
    {A : Type 0} (handle : Json → Gate A) (as_asked : List (Request × Reply)) (h : History)
    (xs : List A) (t : History)
    → Returns (results handle as_asked) h xs t
    → AllHandled handle as_asked
unfolding results
results-AllHandled handle [] h xs t r = tt
results-AllHandled handle ((q, a) ∷ rest) h xs t r =
    let b =
      bind-Returns (received a)
        (λ v. handle v >>= λ x. results handle rest >>= λ others. pure (x ∷ others)) h xs t r in
    let c =
      bind-Returns (handle b.value) (λ x. results handle rest >>= λ others. pure (x ∷ others))
        b.between xs t b.second in
    let d =
      bind-Returns (results handle rest) (λ others. pure (c.value ∷ others)) c.between xs t
        c.second in
    (
      (
        b.value,
        received-body a h b.value b.between b.first,
        (b.between, c.value, c.between, c.first),
      ),
      results-AllHandled handle rest c.between d.value d.between d.first,
    )

In-append-right : {A : Type 0} (x : A) (xs : List A) → In x (xs ++ (x ∷ []))
In-append-right x [] = inl refl
In-append-right x (y ∷ xs) = inr (In-append-right x xs)

In-append-left : {A : Type 0} (x : A) (xs ys : List A) → In x xs → In x (xs ++ ys)
In-append-left x (y ∷ xs) ys m = ground (arith, m, In-append-left x xs ys)
In-append-left x [] ys m = elim m [ ]

requests-In : (f : ℕ → Request) (i n : ℕ) → i < n → In (f i) (requests f n)
requests-In f i zero l = ground (arith, l)
requests-In f i (suc n) l = which (i == n) refl (λ m. requests-In f i n m)
  where
    which :
        (b : Bool)
        → (i == n) ≡ b
        → (i < n → In (f i) (requests f n))
        → In (f i) (requests f n ++ (f n ∷ []))
    which true e before =
        let i_is : i ≡ n = ground (arith, e) in
        subst (λ k. In (f k) (requests f n ++ (f n ∷ []))) (sym i_is)
          (In-append-right (f n) (requests f n))
    which false e before =
        In-append-left (f i) (requests f n) (f n ∷ []) (before (ground (arith, e, l)))

not_empty :
    (b : Bool) (h t : History) (s : String)
    → str_eq s "323" ≡ true
    → Returns (if b then raise bad_value else pure "") h s t
    → ⊥
not_empty true h t s e r = ground (arith, r)
not_empty false h t s e r =
    let s_is : "" ≡ s = ground (arith, r) in
    let none_of_it : str_eq "" "323" ≡ true = subst (λ w. str_eq w "323" ≡ true) (sym s_is) e in
    ground (arith, none_of_it)

stripped-str :
    (python : Python) (v : Json) (h : History) (t : History) (s : String)
    → str_eq s "323" ≡ true
    → Returns (stripped python v) h s t
    → (w : String) × (v ≡ str w) × (python.strip w ≡ s)
stripped-str python (str w) h t s e r = (w, refl, ground (arith, r))
stripped-str python null h t s e r = elim (not_empty (truthy null) h t s e r) [ ]
stripped-str python (bool b) h t s e r = elim (not_empty (truthy (bool b)) h t s e r) [ ]
stripped-str python (int n) h t s e r = elim (not_empty (truthy (int n)) h t s e r) [ ]
stripped-str python (real z n) h t s e r = elim (not_empty (truthy (real z n)) h t s e r) [ ]
stripped-str python (arr n) h t s e r = elim (not_empty (truthy (arr n)) h t s e r) [ ]
stripped-str python (obj n) h t s e r = elim (not_empty (truthy (obj n)) h t s e r) [ ]

is_right-IsFinished :
    (python : Python) (choice : Fields) (h t : History)
    → Returns (is_right python choice) h true t
    → IsFinished python choice
unfolding is_right
is_right-IsFinished python choice h t r = go (equals_str (get choice "finish_reason") "stop") refl r
  where
    go :
        (b : Bool)
        → equals_str (get choice "finish_reason") "stop" ≡ b
        → Returns (if b then says_323 python choice else pure false) h true t
        → IsFinished python choice
    go false e q = ground (arith, q)
    go true e q =
        let a =
          bind-Returns (message_of choice)
            (λ message.
              stripped python (get message "content") >>= λ content. pure (str_eq content "323"))
            h true t q in
        let b =
          bind-Returns (stripped python (get a.value "content"))
            (λ content. pure (str_eq content "323")) a.between true t a.second in
        let says : str_eq b.value "323" ≡ true = ground (arith, b.second) in
        let w =
          stripped-str python (get a.value "content") a.between b.between b.value says b.first in
        (
          equals_str-str _ _ e,
          (
            a.value,
            w.0,
            fields_of-Returns _ h a.between a.value a.first,
            w.1,
            w.2 ∙ (str_eq_iff b.value "323").0 says,
          ),
        )

first_of-Returns :
    (w : Json) (h : History) (v : Json) (t : History)
    → Returns (first_of w) h v t
    → (others : Items) × (w ≡ arr (cons v others))
first_of-Returns (arr (cons v others)) h w t r =
    (others, ap (λ x. arr (cons x others)) (ground (arith, r)))
first_of-Returns (arr nil) h v t r = ground (arith, r)
first_of-Returns null h v t r = ground (arith, r)
first_of-Returns (bool _) h v t r = ground (arith, r)
first_of-Returns (int _) h v t r = ground (arith, r)
first_of-Returns (real _ _) h v t r = ground (arith, r)
first_of-Returns (str _) h v t r = ground (arith, r)
first_of-Returns (obj _) h v t r = ground (arith, r)

chosen-Chooses :
    (v : Json) (h : History) (c : Fields × Fields) (t : History)
    → Returns (chosen v) h c t
    → Chooses v c.0 c.1
unfolding chosen
chosen-Chooses v h c t r =
    let a = bind-Returns (fields_of v) (λ result. pick result) h c t r in
    let b =
      bind-Returns (check_all (error_checks a.value)) (λ _. pick_first a.value) a.between c t
        a.second in
    let d =
      bind-Returns (check_all (choices_checks a.value)) (λ _. pick_choice a.value) b.between c t
        b.second in
    let e =
      bind-Returns (first_of (get_or a.value "choices" (arr nil)))
        (λ first. fields_of first >>= λ choice. pure (a.value, choice)) d.between c t d.second in
    let f =
      bind-Returns (fields_of e.value) (λ choice. pure (a.value, choice)) e.between c t e.second in
    let g =
      first_of-Returns (get_or a.value "choices" (arr nil)) d.between e.value e.between e.first in
    let e_is = fields_of-Returns e.value e.between f.between f.value f.first in
    let c_is : (a.value, f.value) ≡ c = ground (arith, f.second) in
    subst (λ x. Chooses v x.0 x.1) c_is
      (
        fields_of-Returns v h a.between a.value a.first,
        (check_all-NoneBad (error_checks a.value) a.between b.between b.first).0.0,
        (g.0, g.1 ∙ ap (λ x. arr (cons x g.0)) e_is),
      )

smoke_usage-IsRight :
    (python : Python) (v : Json) (h : History) (u : Json) (t : History)
    → Returns (smoke_usage python v) h u t
    → IsRight python v
unfolding smoke_usage
smoke_usage-IsRight python v h u t r =
    let a = bind-Returns (chosen v) (λ c. judged python c) h u t r in
    let b =
      bind-Returns (is_right python a.value.1) (λ right. rightly a.value.0 right) a.between u t
        a.second in
    let c =
      bind-Returns (raise_if (not b.value) (refused bad_smoke)) (λ _. counted a.value.0) b.between u
        t b.second in
    let d =
      bind-Returns (fields_of (get_or a.value.0 "usage" (obj end)))
        (λ usage. check_all (usage_checks usage) >>= λ _. pure (obj usage)) c.between u t
        c.second in
    let e =
      bind-Returns (check_all (usage_checks d.value)) (λ _. pure (obj d.value)) d.between u t
        d.second in
    let right : b.value ≡ true =
      holds _ (raise_if-Returns (not b.value) (refused bad_smoke) b.between c.between c.first).0 in
    let used =
      both _ _ (check_all-NoneBad (usage_checks d.value) d.between e.between e.first).0.0 in
    (
      a.value.0,
      a.value.1,
      chosen-Chooses v h a.value a.between a.first,
      is_right-IsFinished python a.value.1 a.between b.between
          (subst (λ x. Returns (is_right python a.value.1) a.between x b.between) right b.first),
      (d.value, fields_of-Returns _ c.between d.between d.value d.first, used.0, used.1),
    )

All-map-In :
    {A B : Type 0} (P : A × B → Type 0) (f : A → B) (xs : List A) (x : A)
    → All P (map (λ y. (y, f y)) xs)
    → In x xs
    → P (x, f x)
All-map-In P f (y ∷ xs) x all (inl e) = subst (λ z. P (z, f z)) (sym e) all.0
All-map-In P f (y ∷ xs) x all (inr m) = All-map-In P f xs x all.1 m
All-map-In P f [] x all m = elim m [ ]

-- If `smoke` returns for so many lanes, a pool with a worker for each lane was given the requests of
-- all of them, and the reply to each is finished and right, reports no error, and counts the tokens
-- of the prompt and of the completion.
pub smoke-IsRight :
    (server : Server) (python : Python) (n : ℕ) (h : History) (us : List Json) (t : History)
    → Returns (smoke server python (pos (suc n))) h us t
    → (lane : ℕ) → lane < suc n
    → (v : Json) × (server.in_pool (suc n) (requests ask_smoke (suc n)) h (ask_smoke lane) ≡ body v)
      × IsRight python v
unfolding smoke pool
smoke-IsRight server python n h us t r lane l =
    let rs = requests ask_smoke (suc n) in
    let found =
      All-map-In
        (λ p.
          (v : Json) × (p.1 ≡ body v)
          × ((g : History) × (a : Json) × (u : History) × Returns (smoke_usage python v) g a u))
        (server.in_pool (suc n) rs h) rs (ask_smoke lane)
        (results-AllHandled (smoke_usage python) (answers server (suc n) rs h)
          (logged (answers server (suc n) rs h) h) us t r)
        (requests-In ask_smoke lane (suc n) l) in
    let last = found.2 in
    (found.0, found.1, smoke_usage-IsRight python found.0 last.0 last.1 last.2 last.3)
