-- ===== src/Reading/Evidence/Shown.antt =====
-- What a server's card shows of the newest observations.
use vpn_pulse.Prelude.{
  ℕ, String, false, ◌≡◌, refl, ◌∙◌, Option, none, some, List, [], ◌∷◌, map, contains, ◌==◌,
  string_eq, arith,
}
use vpn_pulse.Prelude.Lists.{select, any}
use vpn_pulse.Prelude.Sorting.{by_key, any-sort}
use vpn_pulse.Store.Tables.{ObservationRow, Database}
use vpn_pulse.Reading.Evidence.{
  Evidence, evidence_sources, is_shown, with_row, latest_of, rows_of, latest_by_source, evidence_of,
  evidence, place_of,
}

-- A source that is not looked up shows nowhere.
any-with_row :
    (now : ℕ) (name source : String) (row : Option ObservationRow)
    (rows : List (String × ObservationRow))
    → (source == name) ≡ false
    → any
        (λ (e : Evidence). e.source == name)
        (map (evidence_of now) (select (λ (s, _). is_shown s) (with_row source row rows)))
      ≡ any
          (λ (e : Evidence). e.source == name)
          (map (evidence_of now) (select (λ (s, _). is_shown s) rows))
unfolding any select
any-with_row now name source none rows h = refl
any-with_row now name source (some row) rows h = ground (arith, h)

any-rows_of :
    (now : ℕ) (name : String) (db : Database) (server_id : String) (sources : List String)
    → contains sources name ≡ false
    → any
        (λ (e : Evidence). e.source == name)
        (map (evidence_of now) (select (λ (s, _). is_shown s) (rows_of db server_id sources)))
      ≡ false
unfolding any select rows_of
any-rows_of now name db server_id [] h = refl
any-rows_of now name db server_id (source ∷ sources) h =
    any-with_row now name source (latest_of db server_id source) (rows_of db server_id sources)
      (ground (arith, h))
    ∙ any-rows_of now name db server_id sources (ground (arith, h))

not_looked_up : contains evidence_sources "mobile" ≡ false
unfolding string_eq
not_looked_up = refl

-- The evidence of a server never has an entry of the source "mobile", whatever the phones reported:
-- the sources that are looked up name it "android".
pub evidence_without_mobile :
    (db : Database) (server_id : String) (now : ℕ)
    → any (λ (e : Evidence). e.source == "mobile") (evidence db server_id now) ≡ false
unfolding evidence latest_by_source
evidence_without_mobile db server_id now =
    any-sort (by_key (λ (e : Evidence). place_of e.source)) (λ (e : Evidence). e.source == "mobile")
      _
    ∙ any-rows_of now "mobile" db server_id evidence_sources not_looked_up
