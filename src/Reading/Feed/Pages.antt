-- ===== src/Reading/Feed/Pages.antt =====
-- The pages of the feed, one after the other.
use vpn_pulse.Prelude.{
  ℕ, zero, suc, ◌+◌, ◌≤◌, ◌<◌, String, ◌≡◌, sym, ◌∙◌, Option, none, some, List, [], ◌++◌, ltb,
  arith, Bool-cases, inl, inr,
}
use mathlib.Core.List.{append-nil}
use vpn_pulse.Prelude.Lists.{
  take, drop, length, take-drop, take-take-suc, take_all, drop-drop, length-drop, length-take,
}
use vpn_pulse.Store.Tables.{EventRow, Database}
use vpn_pulse.Reading.Feed.{Numerals, feed, offset_of, page_of, events}

module _ (numerals : Numerals) (db : Database) (filter : String) (limit : ℕ) (role : String) where
  -- What a client reads that asks for pages until there is no next one, `fuel` pages at most.
  unfoldable pub read_pages : ℕ → Option String → List EventRow
  read_pages zero cursor = []
  read_pages (suc fuel) cursor =
      let page = events numerals db filter cursor limit role in
      page.items ++ elim page.next_cursor [ none ↦ [] | some next ↦ read_pages fuel (some next) ]

  module _ (positive : 0 < limit)
      (read_print : (n : ℕ) → numerals.read (numerals.print n) ≡ some n) where
    abbrev all_events : List EventRow
    all_events = feed db filter role

    offset_of-print : (n : ℕ) → offset_of numerals (some (numerals.print n)) ≡ n
    unfolding offset_of
    offset_of-print n = ground (arith, read_print n)

    read_pages_from :
        (fuel : ℕ) (cursor : Option String)
        → length (drop (offset_of numerals cursor) all_events) < fuel
        → read_pages fuel cursor ≡ drop (offset_of numerals cursor) all_events
    unfolding read_pages events page_of
    read_pages_from zero cursor h = absurd (omega (arith, h))
    read_pages_from (suc fuel) cursor h =
        let offset = offset_of numerals cursor in
        let rest = drop offset all_events in
        let page : take limit (take (suc limit) rest) ≡ take limit rest =
          take-take-suc limit rest in
        elim (Bool-cases (ltb limit (length (take (suc limit) rest)))) [
          | inr last ↦
              let short : length rest ≤ limit =
                ground (arith, length-take (suc limit) rest, last) in
              rw (last, page) (append-nil (take limit rest) ∙ take_all limit rest short)
          | inl more ↦
              let long : limit < length rest = ground (arith, length-take (suc limit) rest, more) in
              let next = some (numerals.print (offset + limit)) in
              let at_next : offset_of numerals next ≡ offset + limit =
                offset_of-print (offset + limit) in
              let after : drop (offset_of numerals next) all_events ≡ drop limit rest =
                rw at_next (sym (drop-drop limit offset all_events)) in
              let shorter : length (drop limit rest) < fuel =
                omega (arith, length-drop limit rest, h, long) in
              let tail = read_pages_from fuel next (rw after shorter) ∙ after in
              rw (more, page, tail) (take-drop limit rest)
        ]

    -- A client that asks for the first page and then for the page of every cursor it is given reads
    -- every event that its role and its filter let it see, each once and in the order of the feed,
    -- and is done after one page for each event at most. A page holds one event at least, and `int`
    -- reads what `str` prints.
    pub read_pages-feed :
        (fuel : ℕ)
        → length (feed db filter role) < fuel
        → read_pages fuel none ≡ feed db filter role
    unfolding offset_of
    read_pages-feed fuel h = read_pages_from fuel none h
