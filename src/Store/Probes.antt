-- ===== src/Store/Probes.antt =====
-- SqliteStore, "probes".
pub mod Tokens
use vpn_pulse.Prelude.{
  ℕ, String, ◌<>◌, Bool, true, false, not, ◌&&◌, Option, none, some, List, [], ◌∷◌, ◌++◌,
  if◌then◌else◌, ltb, ◌==◌, string_eq, option_eq, map,
}
use vpn_pulse.Prelude.Lists.{find, select}
use vpn_pulse.Prelude.Sorting.{sort, by_key}
use vpn_pulse.Prelude.Tables.{update_where, count_where}
use vpn_pulse.Clock.{text_le}
use vpn_pulse.Store.Tables.{Settings, Probe, ProbeReport, Database}

-- The dict of `probe_summary`; `queued_reports` is always null.
pub record ProbeSummary : Type 0 where
  pub id : String
  pub kind : String
  pub status : String
  pub last_seen_at : Option ℕ
  pub capabilities : List String
  pub agent_version : String
  pub route_verified : Option Bool
  pub network_type : Option String
  pub via_server_id : Option String
  pub internal_id : String

-- ORDER BY received_at DESC LIMIT 1, by the texts; of equal texts SQLite may take any row, and
-- the model takes the first.
unfoldable pub latest_report : Option ProbeReport → List ProbeReport → Option ProbeReport
latest_report best [] = best
latest_report none (r ∷ rs) = latest_report (some r) rs
latest_report (some b) (r ∷ rs) =
    latest_report (some (if text_le r.received_at b.received_at then b else r)) rs

abbrev pub route_of : Option ProbeReport → Option Bool
route_of none = none
route_of (some r) = some r.route_verified

abbrev pub network_of : Option ProbeReport → Option String
network_of none = none
network_of (some r) = some r.network_type

abbrev pub has_public_id : String → Probe → Bool
has_public_id id p = p.public_id == id

unfoldable pub summary_of : List ProbeReport → Option Probe → Option ProbeSummary
unfolding latest_report select
summary_of reports none = none
summary_of reports (some p) =
    let report = latest_report none (select (λ (r : ProbeReport). r.probe_id == p.id) reports) in
    some (record {
      id = p.public_id;
      kind = p.kind;
      status = p.status;
      last_seen_at = p.last_seen_at;
      capabilities = p.capabilities;
      agent_version = p.agent_version;
      route_verified = route_of report;
      network_type = network_of report;
      via_server_id = p.via_server_id;
      internal_id = p.id;
    })

unfoldable pub probe_summary : Database → String → Option ProbeSummary
probe_summary db public_id = summary_of db.reports (find (has_public_id public_id) db.probes)

abbrev pub has_token : String → Probe → Bool
has_token h p = p.token_hash == h

module _ (s : Settings) where
  -- `public_id` is the kind and twelve digits of a random UUID, `prefix` is `token[:6]`.
  abbrev pub new_probe :
      String → List String → String → Option String → String → String → String → ℕ → Probe
  new_probe kind capabilities agent_version via public_id token prefix now = record {
    id = public_id;
    public_id = public_id;
    kind = kind;
    status = "active";
    capabilities = capabilities;
    token_hash = s.sha token;
    token_prefix = prefix;
    schema_major = 1;
    agent_version = agent_version;
    enrolled_at = now;
    last_seen_at = none;
    revoked_at = none;
    via_server_id = via;
  }

  unfoldable pub register_probe :
      Database
      → String
      → List String
      → String
      → Option String
      → String
      → String
      → String
      → ℕ
      → Database × String × Option ProbeSummary
  register_probe db kind capabilities agent_version via public_id token prefix now =
      let db' = record db {
        probes =
            db.probes
            ++ new_probe kind capabilities agent_version via public_id token prefix now ∷ [];
      } in
      (db', token, probe_summary db' public_id)

  unfoldable pub summary_unless_revoked : Database → Option Probe → Option ProbeSummary
  summary_unless_revoked db none = none
  summary_unless_revoked db (some p) =
      if p.status == "revoked" then none else probe_summary db p.public_id

  unfoldable pub probe_by_token : Database → String → Option ProbeSummary
  unfolding summary_unless_revoked
  probe_by_token db token = summary_unless_revoked db (find (has_token (s.sha token)) db.probes)

-- `list_probes`: the summaries by `enrolled_at`, whose texts sort with `text_le`.
unfoldable pub list_probes : Database → List (Option ProbeSummary)
unfolding sort
list_probes db =
    map (λ (p : Probe). probe_summary db p.public_id)
      (sort (λ (a b : Probe). text_le a.enrolled_at b.enrolled_at) db.probes)

abbrev pub revocable : String → Probe → Bool
revocable public_id p = has_public_id public_id p && not (p.status == "revoked")

unfoldable pub revoke_probe : Database → String → ℕ → Database × Bool
revoke_probe db public_id now = (
  record db {
    probes =
        update_where (revocable public_id)
          (λ p. record p { status = "revoked"; revoked_at = some now }) db.probes;
  },
  ltb 0 (count_where (revocable public_id) db.probes),
)

-- The configuration entry of a server, as far as the store reads it.
pub record ServerConfig : Type 0 where
  pub id : String
  pub type : String
  pub enabled : Bool

-- PROBE_CHECKS, with `[]` for an unknown kind.
unfoldable pub probe_checks : String → List String
probe_checks kind =
    if kind == "pc"
    then "control_internet" ∷ "handshake" ∷ "https" ∷ []
    else if kind == "android"
    then "dns" ∷ "tcp" ∷ []
    else if kind == "abroad"
    then "handshake" ∷ []
    else []

-- The targets of `probe_config`; its interval is a value of the configuration.
unfoldable pub probe_targets :
    List ServerConfig → String → Option String → List (String × List String)
unfolding select probe_checks
probe_targets servers kind via =
    map (λ (c : ServerConfig). (c.id, probe_checks kind))
      (select (λ (c : ServerConfig). c.enabled && not (some c.id == via)) servers)
