-- ===== src/Pipeline/Collect.antt =====
-- `Pipeline.collect`. The run id, the trace id and the duration are made by the caller.
pub mod Written
use vpn_pulse.Prelude.{
  ℕ, zero, ◌+◌, ◌*◌, String, ◌<>◌, Bool, true, false, not, ◌&&◌, Option, none, some, List, [], ◌∷◌,
  ◌++◌, ltb, if◌then◌else◌, ◌==◌, string_eq,
}
use vpn_pulse.Prelude.Lists.{any, nonempty}
use vpn_pulse.Prelude.Tables.{update_where, upsert}
use vpn_pulse.Clock.{seconds, text_le}
use vpn_pulse.Store.Tables.{Probe, Metrics, ObservationRow, Server, Database}
use vpn_pulse.Pipeline.Tables.{
  Collected, Outcome, items, raised, RunResult, ok, partial, error, CollectionRun, State,
}

-- `uuid5(NAMESPACE, …)`, and `str` of a number inside an f-string.
pub record Ids : Type 0 where
  pub uuid5 : String → String
  pub decimal : ℕ → String

-- PROBE_KIND_OF_SOURCE
unfoldable pub probe_kind_of_source : String → Option String
probe_kind_of_source source =
    if source == "pc"
    then some "pc"
    else if source == "mobile"
    then some "android"
    else if source == "abroad"
    then some "abroad"
    else none

-- PROBE_CAPABILITIES
unfoldable pub probe_capabilities : String → List String
probe_capabilities kind =
    if kind == "pc"
    then "control_internet" ∷ "handshake" ∷ "https" ∷ []
    else if kind == "android"
    then "dns" ∷ "tcp" ∷ []
    else if kind == "abroad"
    then "handshake" ∷ []
    else []

-- `MAX(COALESCE(last_seen_at, ''), excluded.last_seen_at)`, between texts.
unfoldable pub later_seen : Option ℕ → ℕ → ℕ
later_seen none at = at
later_seen (some seen) at = if text_le at seen then seen else at

unfoldable pub see_probe : Database → String → String → ℕ → ℕ → Database
unfolding upsert later_seen probe_capabilities
see_probe db id kind observed_at now = record db {
  probes =
      upsert (λ (p : Probe). p.id == id)
        (λ p. record p { last_seen_at = some (later_seen p.last_seen_at observed_at) })
        (record {
          id = id;
          public_id = id;
          kind = kind;
          status = "active";
          capabilities = probe_capabilities kind;
          token_hash = "00";
          token_prefix = "script";
          schema_major = 1;
          agent_version = "scripted";
          enrolled_at = now;
          last_seen_at = some observed_at;
          revoked_at = none;
          via_server_id = none;
        })
        db.probes;
}

unfoldable pub see_probe_of : Database → Option String → Option String → ℕ → ℕ → Database
unfolding see_probe
see_probe_of db (some id) (some kind) observed_at now =
    if id == "" then db else see_probe db id kind observed_at now
see_probe_of db _ _ observed_at now = db

module _ (ids : Ids) (freshness_seconds : ℕ) (run_id : String) (now : ℕ) where
  abbrev pub observation_of : Collected → ℕ → ObservationRow
  observation_of item index = record {
    id = ids.uuid5 (run_id <> ":" <> ids.decimal index);
    server_id = item.server_id;
    source_kind = item.source;
    network_scope = item.network_scope;
    observed_at = item.observed_at;
    received_at = now;
    result = item.result;
    fresh_until = item.observed_at + seconds freshness_seconds;
    confidence = "sufficient";
    metrics = if item.source == "collector" then item.metrics else record item.metrics {
      full_vpn_test = some item.full_vpn_test;
      control_internet_ok = item.control_internet_ok;
    };
    error_code = item.error_code;
    collection_run_id = some run_id;
    probe_report_id = none;
  }

  unfoldable pub write_observation : Collected → ℕ → Database → Database
  unfolding see_probe_of probe_kind_of_source
  write_observation item index db =
      see_probe_of (record db { observations = db.observations ++ observation_of item index ∷ [] })
        item.probe_id (probe_kind_of_source item.source) item.observed_at now

  -- The loop over the items of one collector: `known` was read before, and the number written so
  -- far is the index of the next observation.
  unfoldable pub write_items : (String → Bool) → List Collected → ℕ → Database → Database × ℕ
  write_items known [] written db = (db, written)
  write_items known (item ∷ rest) written db =
      let skipped = write_items known rest written db in
      let stored = write_items known rest (written + 1) (write_observation item written db) in
      if known item.server_id then stored else skipped

  -- The loop over the collectors: the names of those that failed come back too.
  unfoldable pub run_collectors :
      (String → Bool) → List (String × Outcome) → ℕ → Database → Database × ℕ × List String
  run_collectors known [] written db = (db, written, [])
  run_collectors known ((name, raised) ∷ rest) written db =
      let (db', n, failed) = run_collectors known rest written db in (db', n, name ∷ failed)
  run_collectors known ((name, items xs) ∷ rest) written db =
      let (db', n) = write_items known xs written db in run_collectors known rest n db'

abbrev pub is_server : Database → String → Bool
is_server db id = any (λ (s : Server). s.id == id) db.servers

unfoldable pub run_result : List String → ℕ → RunResult
run_result failed written =
    if not (nonempty failed) then ok else if ltb 0 written then partial else error

pub record Summary : Type 0 where
  pub run_id : String
  pub observations : ℕ
  pub failed_collectors : List String
  pub result : RunResult

unfoldable pub collect :
    Ids
    → ℕ
    → (run_id trace_id : String) → (duration now : ℕ) → List (String × Outcome)
    → State
    → State × Summary
unfolding update_where run_result
collect ids freshness_seconds run_id trace_id duration now collectors st =
    let (db, written, failed) =
      run_collectors ids freshness_seconds run_id now (is_server st.db) collectors 0 st.db in
    let result = run_result failed written in
    let opened : CollectionRun = record {
      id = run_id;
      started_at = now;
      finished_at = none;
      result = none;
      trace_id = trace_id;
      duration_ms = none;
      error_code = none;
    } in
    (
      record st {
        db = db;
        runs =
            update_where (λ (r : CollectionRun). r.id == run_id)
              (λ r. record r {
                finished_at = some now;
                result = some result;
                duration_ms = some duration;
                error_code = if nonempty failed then some "COLLECTOR_FAILED" else none;
              })
              (st.runs ++ opened ∷ []);
      },
      record {
        run_id = run_id;
        observations = written;
        failed_collectors = failed;
        result = result;
      },
    )
