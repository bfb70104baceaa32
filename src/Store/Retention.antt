-- ===== src/Store/Retention.antt =====
-- SqliteStore, "audit" and "retention", with SqliteAnalyticsRepository.delete_expired of
-- vpnpulse/analytics.py, and `sync_servers`.
pub mod Kept
pub mod Servers
use vpn_pulse.Prelude.{
  ℕ, zero, suc, ◌+◌, ◌-◌, String, ◌<>◌, Bool, true, false, not, ◌&&◌, ◌||◌, Option, none, some,
  List, [], ◌∷◌, ◌++◌, leb, is_some, if◌then◌else◌, ◌==◌, string_eq, option_eq, map, contains,
}
use vpn_pulse.Prelude.Lists.{length, select, any}
use vpn_pulse.Prelude.Tables.{delete_where, count_where, update_where, upsert}
use vpn_pulse.Clock.{days, text_le, text_lt}
use vpn_pulse.Store.Tables.{
  Settings, WebSession, ProbeEnrollment, ProbeReport, ObservationRow, EventRow, AuditEntry,
  ProductEvent, Server, Protocol, Database,
}
use vpn_pulse.Store.Probes.{ServerConfig}

-- `audit`: the ids are random, the details are a JSON text.
unfoldable pub audit :
    Settings
    → Database
    → (actor role action target_type target_id result details id trace_id : String) → ℕ
    → Database
audit s db actor role action target_type target_id result details id trace_id now = record db {
  audit =
      db.audit
      ++ record {
        id = id;
        actor_hash = s.sha (s.pepper <> ":" <> actor);
        actor_role = role;
        action = action;
        target_type = target_type;
        target_public_id = target_id;
        result = result;
        occurred_at = now;
        trace_id = trace_id;
        details = details;
      }
        ∷ [];
}

abbrev pub dead_session : ℕ → WebSession → Bool
dead_session now r = text_le r.expires_at now || is_some r.revoked_at

abbrev pub dead_enrollment : ℕ → ProbeEnrollment → Bool
dead_enrollment now r = text_le r.expires_at now || is_some r.used_at

abbrev pub old_observation : ℕ → ObservationRow → Bool
old_observation horizon r = text_lt r.observed_at horizon

-- `report_id NOT IN (SELECT probe_report_id FROM observations …)`
unfoldable pub is_referenced : List ObservationRow → String → Bool
unfolding any
is_referenced observations id =
    any (λ (o : ObservationRow). o.probe_report_id == some id) observations

abbrev pub old_report : ℕ → List ObservationRow → ProbeReport → Bool
old_report horizon observations r =
    text_lt r.observed_at horizon && not (is_referenced observations r.report_id)

-- The first `n` rows that pass are deleted: the subquery with LIMIT. Its texts are all of the form
-- "+00:00" and sort as the instants do.
unfoldable pub delete_first {ℓ} : {A : Type ℓ} → (A → Bool) → ℕ → List A → List A
delete_first p n [] = []
delete_first p zero (x ∷ xs) = x ∷ xs
delete_first p (suc n) (x ∷ xs) =
    let taken = delete_first p n xs in
    let passed = x ∷ delete_first p (suc n) xs in if p x then taken else passed

abbrev pub expired_event : ℕ → ProductEvent → Bool
expired_event now e = leb e.expires_at now

pub record Swept : Type 0 where
  pub sessions : ℕ
  pub enrollments : ℕ
  pub observations : ℕ
  pub reports : ℕ
  pub events : ℕ
  pub audit : ℕ
  pub analytics : ℕ

-- The statements in their order: the reports are tested against the observations that are left.
unfoldable pub sweep : Settings → Database → ℕ → Database × Swept
sweep s db now =
    let horizon = now - days s.observations_days in
    let observations = delete_where (old_observation horizon) db.observations in
    let old_event : EventRow → Bool = λ r. text_lt r.occurred_at (now - days s.events_days) in
    let old_entry : AuditEntry → Bool = λ r. text_lt r.occurred_at (now - days s.audit_days) in
    let product_events = delete_first (expired_event now) 500 db.product_events in
    (
      record db {
        sessions = delete_where (dead_session now) db.sessions;
        enrollments = delete_where (dead_enrollment now) db.enrollments;
        observations = observations;
        reports = delete_where (old_report horizon observations) db.reports;
        events = delete_where old_event db.events;
        audit = delete_where old_entry db.audit;
        product_events = product_events;
      },
      record {
        sessions = count_where (dead_session now) db.sessions;
        enrollments = count_where (dead_enrollment now) db.enrollments;
        observations = count_where (old_observation horizon) db.observations;
        reports = count_where (old_report horizon observations) db.reports;
        events = count_where old_event db.events;
        audit = count_where old_entry db.audit;
        analytics = length db.product_events - length product_events;
      },
    )

-- PROTOCOL_OF_TYPE, with the default of `sync_servers`.
unfoldable pub protocol_of_type : String → String
protocol_of_type type = if type == "hiddify" then "xray_reality" else "amneziawg"

-- One turn of the loop over the configured servers, with its place in the configuration.
unfoldable pub sync_server : ℕ → ℕ → ServerConfig → Database → Database
unfolding upsert protocol_of_type
sync_server now order c db =
    let kind = protocol_of_type c.type in
    record db {
      servers =
          upsert (λ (s : Server). s.id == c.id)
            (λ s. record s {
              type = c.type;
              enabled = c.enabled;
              display_order = order + 1;
              updated_at = now;
            })
            (record {
              id = c.id;
              public_id = c.id;
              type = c.type;
              enabled = c.enabled;
              display_order = order + 1;
              created_at = now;
              updated_at = now;
            })
            db.servers;
      protocols =
          upsert (λ (p : Protocol). p.id == c.id <> ":" <> kind)
            (λ p. record p { enabled = true; updated_at = now })
            (record {
              id = c.id <> ":" <> kind;
              server_id = c.id;
              kind = kind;
              label_key = "server.protocol." <> kind;
              enabled = true;
              coverage_state = "complete";
              created_at = now;
              updated_at = now;
            })
            db.protocols;
    }

unfoldable pub sync_from : ℕ → ℕ → List ServerConfig → Database → Database
unfolding sync_server
sync_from now order [] db = db
sync_from now order (c ∷ cs) db = sync_from now (order + 1) cs (sync_server now order c db)

-- The second loop: an enabled server that the configuration does not name is disabled.
unfoldable pub sync_servers : ℕ → List ServerConfig → Database → Database
sync_servers now configured db =
    let db' = sync_from now 0 configured db in
    record db' {
      servers =
          update_where
            (λ (s : Server).
              s.enabled && not (contains (map (λ (c : ServerConfig). c.id) configured) s.id))
            (λ s. record s { enabled = false; updated_at = now }) db'.servers;
    }
