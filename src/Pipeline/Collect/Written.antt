-- ===== src/Pipeline/Collect/Written.antt =====
-- What a collection writes.
use vpn_pulse.Prelude.{
  ℕ, ◌+◌, ◌<>◌, ◌==◌, String, Bool, true, false, ◌≡◌, refl, sym, ◌∙◌, ap, ◌↔◌, Option, none, some,
  List, [], ◌∷◌, ◌++◌, string_eq, arith, Bool-cases, inl, inr,
}
use vpn_pulse.Prelude.Lists.{length, length-append, select, select-append, nonempty}
use vpn_pulse.Clock.{seconds}
use vpn_pulse.Store.Tables.{ObservationRow, Database}
use vpn_pulse.Pipeline.Tables.{Collected, Outcome, items, raised, ok, error, State}
use vpn_pulse.Pipeline.Collect.{
  Ids, see_probe_of, probe_kind_of_source, observation_of, write_observation, write_items,
  run_collectors, is_server, run_result, collect,
}
use mathlib.Core.Path.{subst}
use mathlib.Core.List.{append_assoc, append-nil}

-- What an item should be written as, by its number in the run.
abbrev pub IsRowOf : Ids → ℕ → String → ℕ → ℕ → Collected → ObservationRow → Type 0
IsRowOf ids freshness run_id now index item row =
    (row.id ≡ ids.uuid5 (run_id <> ":" <> ids.decimal index))
    × (row.server_id ≡ item.server_id)
    × (row.source_kind ≡ item.source)
    × (row.network_scope ≡ item.network_scope)
    × (row.result ≡ item.result)
    × (row.observed_at ≡ item.observed_at)
    × (row.received_at ≡ now)
    × (row.fresh_until ≡ item.observed_at + seconds freshness)
    × (row.metrics.connections ≡ item.metrics.connections)
    × (row.error_code ≡ item.error_code)
    × (row.collection_run_id ≡ some run_id)

-- Each row is that of the item at its place, numbered from an index on.
abbrev pub AreRowsOf : Ids → ℕ → String → ℕ → ℕ → List Collected → List ObservationRow → Type 0
AreRowsOf ids freshness run_id now index [] [] = Unit
AreRowsOf ids freshness run_id now index [] (row ∷ rows) = ¬ Unit
AreRowsOf ids freshness run_id now index (item ∷ given) [] = ¬ Unit
AreRowsOf ids freshness run_id now index (item ∷ given) (row ∷ rows) =
    IsRowOf ids freshness run_id now index item row
    × AreRowsOf ids freshness run_id now (index + 1) given rows

-- The items of the collectors that did not fail, one collector after the other.
abbrev pub items_given : List (String × Outcome) → List Collected
items_given [] = []
items_given ((name, raised) ∷ rest) = items_given rest
items_given ((name, items given) ∷ rest) = given ++ items_given rest

abbrev pub names_of_failed : List (String × Outcome) → List String
names_of_failed [] = []
names_of_failed ((name, raised) ∷ rest) = name ∷ names_of_failed rest
names_of_failed ((name, items _) ∷ rest) = names_of_failed rest

observations-see_probe_of :
    (db : Database) (id kind : Option String) (at now : ℕ)
    → (see_probe_of db id kind at now).observations ≡ db.observations
unfolding see_probe_of
observations-see_probe_of db none kind at now = refl
observations-see_probe_of db (some id) none at now = refl
observations-see_probe_of db (some id) (some kind) at now = ground arith

module _ (ids : Ids) (freshness : ℕ) (run_id : String) (now : ℕ) (known : String → Bool) where
  observations-write_observation :
      (item : Collected) (index : ℕ) (db : Database)
      → (write_observation ids freshness run_id now item index db).observations
        ≡ db.observations ++ observation_of ids freshness run_id now item index ∷ []
  unfolding write_observation
  observations-write_observation item index db =
      observations-see_probe_of _ item.probe_id (probe_kind_of_source item.source) item.observed_at
        now

  -- The items of servers that are known.
  abbrev of_known : List Collected → List Collected
  of_known = select (λ (c : Collected). known c.server_id)

  -- What was written for a list of items: the rows at the end, and the next index.
  abbrev Wrote : List Collected → ℕ → Database → Database × ℕ → Type 0
  Wrote given n db (db', m) =
      (new : List ObservationRow) × (db'.observations ≡ db.observations ++ new)
      × AreRowsOf ids freshness run_id now n given new
      × (m ≡ n + length given)

  connections_kept :
      (item : Collected) (n : ℕ)
      → (observation_of ids freshness run_id now item n).metrics.connections
        ≡ item.metrics.connections
  connections_kept item n = elim (Bool-cases (item.source == "collector")) [
    | inl e ↦ rw e refl
    | inr e ↦ rw e refl
  ]

  written_first :
      (item : Collected) (given : List Collected) (n : ℕ) (db : Database) (r : Database × ℕ)
      → Wrote given (n + 1) (write_observation ids freshness run_id now item n db) r
      → Wrote (item ∷ given) n db r
  written_first item given n db r (new, at_end, rows, count) = (
    observation_of ids freshness run_id now item n ∷ new,
    at_end
        ∙ ap (λ (l : List ObservationRow). l ++ new) (observations-write_observation item n db)
        ∙ append_assoc db.observations (observation_of ids freshness run_id now item n ∷ []) new,
    ((refl, refl, refl, refl, refl, refl, refl, refl, connections_kept item n, refl, refl), rows),
    omega (arith, count),
  )

  write_items-Wrote :
      (xs : List Collected) (n : ℕ) (db : Database)
      → Wrote (of_known xs) n db (write_items ids freshness run_id now known xs n db)
  unfolding write_items select
  write_items-Wrote [] n db = ([], sym (append-nil db.observations), tt, omega arith)
  write_items-Wrote (item ∷ xs) n db = elim (Bool-cases (known item.server_id)) [
    | inl e ↦ rw e (
        written_first item (of_known xs) n db
          (write_items ids freshness run_id now known xs (n + 1)
            (write_observation ids freshness run_id now item n db))
          (write_items-Wrote xs (n + 1) (write_observation ids freshness run_id now item n db)))
    | inr e ↦ rw e (write_items-Wrote xs n db)
  ]

  AreRowsOf-append :
      (given more : List Collected) (new rows : List ObservationRow) (n k : ℕ)
      → AreRowsOf ids freshness run_id now n given new
      → k ≡ n + length given
      → AreRowsOf ids freshness run_id now k more rows
      → AreRowsOf ids freshness run_id now n (given ++ more) (new ++ rows)
  AreRowsOf-append [] more [] rows n k a h b =
      subst (λ i. AreRowsOf ids freshness run_id now i more rows) (omega (arith, h)) b
  AreRowsOf-append [] more (row ∷ new) rows n k a h b = absurd (a tt)
  AreRowsOf-append (item ∷ given) more [] rows n k a h b = absurd (a tt)
  AreRowsOf-append (item ∷ given) more (row ∷ new) rows n k a h b =
      (a.0, AreRowsOf-append given more new rows (n + 1) k a.1 (omega (arith, h)) b)

  Wrote-append :
      (given more : List Collected) (n n1 : ℕ) (db db1 : Database) (r : Database × ℕ)
      → Wrote given n db (db1, n1)
      → Wrote more n1 db1 r
      → Wrote (given ++ more) n db r
  Wrote-append given more n n1 db db1 r (new, at_end, rows, count) (new', at_end', rows', count') =
      (
        new ++ new',
        at_end'
            ∙ ap (λ (l : List ObservationRow). l ++ new') at_end
            ∙ append_assoc db.observations new new',
        AreRowsOf-append given more new new' n n1 rows count rows',
        omega (arith, count, count', length-append given more),
      )

  run_collectors-Wrote :
      (cs : List (String × Outcome)) (n : ℕ) (db : Database)
      → let (db', m, failed) = run_collectors ids freshness run_id now known cs n db in
        Wrote (of_known (items_given cs)) n db (db', m) × (failed ≡ names_of_failed cs)
  unfolding run_collectors select
  run_collectors-Wrote [] n db = (([], sym (append-nil db.observations), tt, omega arith), refl)
  run_collectors-Wrote ((name, raised) ∷ cs) n db =
      let (wrote, failed) = run_collectors-Wrote cs n db in (wrote, ap (λ l. name ∷ l) failed)
  run_collectors-Wrote ((name, items xs) ∷ cs) n db =
      let (db1, n1) = write_items ids freshness run_id now known xs n db in
      let (db', m, failed) = run_collectors ids freshness run_id now known cs n1 db1 in
      let (more, names) = run_collectors-Wrote cs n1 db1 in
      (
        subst (λ given. Wrote given n db (db', m))
            (sym (select-append (λ (c : Collected). known c.server_id) xs (items_given cs)))
            (Wrote-append (of_known xs) (of_known (items_given cs)) n n1 db db1 (db', m)
              (write_items-Wrote xs n db) more),
        names,
      )

-- A collection writes at the end of the table one observation for each item of a known server that
-- a collector which did not fail gave, in their order: with the item's server, source, network,
-- result, time, connections and error code, received now and fresh for the freshness, under an id
-- made of the run and the number in it. It reports how many these are. Collectors that fail are
-- reported by name; the result is `ok` exactly when none failed, and `error` exactly when one failed
-- and nothing was written.
pub collect-observations :
    (ids : Ids) (freshness : ℕ) (run_id trace_id : String) (duration now : ℕ)
    (collectors : List (String × Outcome)) (st : State)
    → let (st', summary) = collect ids freshness run_id trace_id duration now collectors st in
      let given =
        select (λ (c : Collected). is_server st.db c.server_id) (items_given collectors) in
      ((new : List ObservationRow) × (st'.db.observations ≡ st.db.observations ++ new)
        × AreRowsOf ids freshness run_id now 0 given new)
      × (summary.observations ≡ length given)
      × (summary.failed_collectors ≡ names_of_failed collectors)
      × ((summary.result ≡ ok) ↔ (nonempty (names_of_failed collectors) ≡ false))
      × ((summary.result ≡ error)
          ↔ ((nonempty (names_of_failed collectors) ≡ true) × (length given ≡ 0)))
unfolding collect run_result
collect-observations ids freshness run_id trace_id duration now collectors st =
    let ((new, at_end, rows, count), failed) =
      run_collectors-Wrote ids freshness run_id now (is_server st.db) collectors 0 st.db in
    (
      (new, at_end, rows),
      omega (arith, count),
      failed,
      ground (arith, failed),
      ground (arith, failed, count),
    )
