-- ===== src/Flows/Window/PageCheck.antt =====
-- collector.py, the checks that `read_window` makes on one page: its shape, its pagination fields
-- and its rows.
use home_lab.Prelude.{
  ℕ, zero, suc, ◌+◌, ◌-◌, ◌*◌, ◌/◌, min, String, Bool, true, false, not, ◌&&◌, ◌||◌, Option, none,
  some, List, [], ◌∷◌, length, ltb, leb, ◌==◌, bool_eq, str_eq, if◌then◌else◌,
}
use home_lab.Prelude.Int.{ℤ, pos, negsuc}
use home_lab.Prelude.Dict.{Dict, contains}
use home_lab.Json.{Json, Fields, get, as_int, as_bool, as_list, as_dict}
use home_lab.Flows.Runtime.{page_size, Config, Python, Outcome, ok, raised}
use home_lab.Flows.Record.{flow_id}

pub data Problem : Type 0 where
  cycle_budget unexpected_shape invalid_pagination ignored_page changing_total : Problem
  unexpected_row window_ignored repeated_page empty_page short_count : Problem

-- A check passes with a value, or names the problem.
pub data Checked (A : Type 0) : Type 0 where
  pass : A → Checked A
  fail : Problem → Checked A

infixl 5 ◌>>=◌ ◌>>◌
abbrev pub ◌>>=◌ : {A B : Type 0} → Checked A → (A → Checked B) → Checked B
pass a >>= f = f a
fail p >>= f = fail p

abbrev pub ◌>>◌ : {B : Type 0} → Checked (Unit {0}) → Checked B → Checked B
m >> k = m >>= λ _. k

abbrev pub or_fail : {A : Type 0} → Option A → Problem → Checked A
or_fail none p = fail p
or_fail (some a) p = pass a

abbrev pub fail_if : Bool → Problem → Checked (Unit {0})
fail_if true p = fail p
fail_if false p = pass tt

pub record Page : Type 0 where
  pub rows : List Json
  pub total : ℕ
  pub has_next : Bool
  pub or_more : Bool

abbrev pub is_nil : List Json → Bool
is_nil [] = true
is_nil (_ ∷ _) = false

-- `total < 0 or pages < 0`
abbrev pub natural : ℤ → Checked ℕ
natural (pos n) = pass n
natural (negsuc _) = fail invalid_pagination

-- `document.get('data') if isinstance(document, dict) else None`, if it is a list
abbrev pub data_of : Json → Option (Fields × List Json)
data_of document = elim (as_dict document) [
  | none ↦ none
  | some fields ↦ elim (as_list (get fields "data")) [
    | none ↦ none
    | some rows ↦ some (fields, rows)
  ]
]

-- Whether the totals contradict the rows of the page or one another.
unfoldable pub is_inconsistent : Config → ℕ → Page → ℕ → Bool
is_inconsistent config page p pages =
    ((p.total == 0)
      && (not (is_nil p.rows)
          || (not (page == 0) || (not (leb pages 1) || (p.has_next || p.or_more)))))
    || ((ltb 0 p.total
          && (not (pages == (p.total + page_size - 1) / page_size)
              || (leb pages page
                  || (not (bool_eq p.has_next (ltb (page + 1) pages))
                      || not (length p.rows == min page_size (p.total - page * page_size))))))
        || (p.or_more && ltb p.total config.query_cap_rows))

-- `document.get('page_number') != page`
abbrev pub is_page : ℤ → ℕ → Bool
is_page (pos n) page = n == page
is_page (negsuc _) page = false

unfoldable pub parse_page : Config → ℕ → Json → Checked Page
parse_page config page document = do
  found ← or_fail (data_of document) unexpected_shape
  total ← or_fail (as_int (get found.0 "total_element_count")) invalid_pagination
  pages ← or_fail (as_int (get found.0 "total_page_count")) invalid_pagination
  number ← or_fail (as_int (get found.0 "page_number")) invalid_pagination
  has_next ← or_fail (as_bool (get found.0 "has_next")) invalid_pagination
  or_more ← or_fail (as_bool (get found.0 "or_more")) invalid_pagination
  fail_if (not (is_page number page)) ignored_page
  total_rows ← natural total
  total_pages ← natural pages
  let p : Page = record {
    rows = found.1;
    total = total_rows;
    has_next = has_next;
    or_more = or_more;
  }
  fail_if (is_inconsistent config page p total_pages) invalid_pagination
  pass p

-- A row that has passed the checks, with its time.
pub record Row : Type 0 where
  pub time : ℕ
  pub fields : Fields

abbrev pub in_range : ℕ → ℕ → ℤ → Checked ℕ
in_range start_ms end_ms (negsuc _) = fail window_ignored
in_range start_ms end_ms (pos t) =
    if leb start_ms t && leb t end_ms then pass t else fail window_ignored

-- `isinstance(row, dict)`, an integer time, and inside the window
unfoldable pub check_row : ℕ → ℕ → Json → Checked Row
check_row start_ms end_ms v = do
  fields ← or_fail (as_dict v) unexpected_row
  time ← or_fail (as_int (get fields "time")) unexpected_row
  t ← in_range start_ms end_ms time
  pass (record { time = t; fields = fields })

-- The rows of a page with their ids, or the first problem. `flow_id` may raise.
unfoldable pub check_rows : Python → ℕ → ℕ → List Json → Outcome (Checked (List (String × Row)))
check_rows python start_ms end_ms [] = ok (pass [])
check_rows python start_ms end_ms (v ∷ rest) =
    let later = check_rows python start_ms end_ms rest in
    elim (check_row start_ms end_ms v) [
      | fail p ↦ ok (fail p)
      | pass row ↦ elim (flow_id python row.fields) [
        | raised e ↦ raised e
        | ok id ↦ elim later [
          | raised e ↦ raised e
          | ok (fail p) ↦ ok (fail p)
          | ok (pass rows) ↦ ok (pass ((id, row) ∷ rows))
        ]
      ]
    ]

-- The rows by id.
abbrev pub Rows : Type 0
Rows = Dict Row

abbrev pub same_ids : Rows → Rows → Bool
same_ids [] [] = true
same_ids ((j, _) ∷ rows) ((k, _) ∷ rest) = str_eq j k && same_ids rows rest
same_ids _ _ = false

abbrev pub all_known : Rows → Rows → Bool
all_known [] rows = true
all_known ((k, _) ∷ rest) rows = contains k rows && all_known rest rows

-- `page > 0 and ids and (ids == previous or not set(ids) - set(window.rows))`
unfoldable pub is_repeated : ℕ → Rows → Rows → Rows → Bool
is_repeated zero fresh previous rows = false
is_repeated (suc _) [] previous rows = false
is_repeated (suc _) (f ∷ fresh) previous rows =
    same_ids (f ∷ fresh) previous || all_known (f ∷ fresh) rows
