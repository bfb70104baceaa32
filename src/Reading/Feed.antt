-- ===== src/Reading/Feed.antt =====
-- storage/read_model.py, `events`: the feed, page by page. A row holds its parameters as columns.
pub mod Pages
use vpn_pulse.Prelude.{
  ℕ, suc, ◌+◌, String, Bool, true, false, ◌&&◌, ◌||◌, Option, none, some, List, if◌then◌else◌, ◌==◌,
  string_eq, ltb,
}
use vpn_pulse.Prelude.Lists.{select, take, drop, length}
use vpn_pulse.Prelude.Sorting.{sort}
use vpn_pulse.Prelude.Texts.{text_leb}
use vpn_pulse.Clock.{text_lt}
use vpn_pulse.Store.Tables.{EventRow, Database}

-- `str(n)`, and `int(text)` where the text is not empty and `text.isdigit()`.
pub record Numerals : Type 0 where
  pub print : ℕ → String
  pub read : String → Option ℕ

pub record Page : Type 0 where
  pub items : List EventRow
  pub next_cursor : Option String

abbrev pub is_visible : String → EventRow → Bool
is_visible role e = e.visible_to == "member" || (role == "admin" && e.visible_to == "admin")

abbrev pub passes : String → EventRow → Bool
passes filter e =
    if filter == "problems"
    then e.severity == "warning" || e.severity == "critical"
    else if filter == "notes"
    then e.kind == "note"
    else true

-- ORDER BY occurred_at DESC, id
unfoldable pub goes_before : EventRow → EventRow → Bool
goes_before a b =
    if text_lt b.occurred_at a.occurred_at
    then true
    else if text_lt a.occurred_at b.occurred_at
    then false
    else text_leb a.id b.id

unfoldable pub feed : Database → String → String → List EventRow
unfolding select sort goes_before
feed db filter role =
    sort goes_before (select (λ e. is_visible role e && passes filter e) db.events)

unfoldable pub offset_of : Numerals → Option String → ℕ
offset_of numerals none = 0
offset_of numerals (some cursor) = elim (numerals.read cursor) [ none ↦ 0 | some n ↦ n ]

-- LIMIT limit + 1 OFFSET offset, on any list of rows.
unfoldable pub page_of : Numerals → List EventRow → ℕ → ℕ → Page
page_of numerals all limit offset =
    let rows = take (suc limit) (drop offset all) in
    record {
      items = take limit rows;
      next_cursor =
          if ltb limit (length rows) then some (numerals.print (offset + limit)) else none;
    }

unfoldable pub events : Numerals → Database → String → Option String → ℕ → String → Page
unfolding feed offset_of page_of
events numerals db filter cursor limit role =
    page_of numerals (feed db filter role) limit (offset_of numerals cursor)
