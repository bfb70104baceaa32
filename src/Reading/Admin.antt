-- ===== src/Reading/Admin.antt =====
-- storage/read_model.py, `admin_probes`.
use vpn_pulse.Prelude.{
  ℕ, ◌+◌, String, Bool, true, ◌&&◌, ◌||◌, Option, none, some, List, [], ◌∷◌, map, ltb,
  if◌then◌else◌, ◌==◌, string_eq, nat_eq,
}
use vpn_pulse.Prelude.Lists.{select, any}
use vpn_pulse.Prelude.Sorting.{sort}
use vpn_pulse.Clock.{text_le}
use vpn_pulse.Store.Tables.{Probe, ProbeReport, Database}
use vpn_pulse.Store.Probes.{latest_report, route_of, network_of}
use vpn_pulse.Alerts.Tables.{queue_state_eq}

pub record AdminProbe : Type 0 where
  pub id : String
  pub kind : String
  pub status : String
  pub last_seen_at : Option ℕ
  pub capabilities : List String
  pub agent_version : String
  pub route_verified : Option Bool
  pub network_type : Option String

-- PROBE_CAPABILITIES and PROBE_NETWORK, with the code's defaults.
unfoldable pub default_capabilities : String → List String
default_capabilities kind =
    if kind == "pc"
    then "control_internet" ∷ "handshake" ∷ "https" ∷ []
    else if kind == "android"
    then "dns" ∷ "tcp" ∷ []
    else if kind == "abroad"
    then "handshake" ∷ []
    else if kind == "watchdog"
    then "heartbeat" ∷ []
    else []

unfoldable pub default_network : String → Option String
default_network kind =
    if kind == "pc"
    then some "home"
    else if kind == "android"
    then some "cellular"
    else if kind == "abroad"
    then some "abroad"
    else if kind == "watchdog"
    then some "unknown"
    else none

abbrev pub or_default : List String → List String → List String
or_default [] names = names
or_default (n ∷ own) names = n ∷ own

abbrev pub network_or : Option String → Option String → Option String
network_or none other = other
network_or (some n) other =
    if n == "home" || n == "cellular" || n == "abroad" || n == "unknown" then some n else other

abbrev pub is_silent : ℕ → ℕ → Option ℕ → Bool
is_silent silent_after now none = true
is_silent silent_after now (some seen) = ltb (seen + silent_after) now

-- The JOIN of the reports with the probes of a public id.
abbrev pub is_report_of : List Probe → String → ProbeReport → Bool
is_report_of probes public_id r =
    any (λ (p : Probe). p.id == r.probe_id && p.public_id == public_id) probes

unfoldable pub admin_probe : ℕ → Database → ℕ → Probe → AdminProbe
unfolding latest_report select any default_capabilities default_network
admin_probe silent_after db now p =
    let report = latest_report none (select (is_report_of db.probes p.public_id) db.reports) in
    record {
      id = p.public_id;
      kind = p.kind;
      status =
          if p.status == "active" && is_silent silent_after now p.last_seen_at
          then "stale"
          else p.status;
      last_seen_at = p.last_seen_at;
      capabilities = or_default p.capabilities (default_capabilities p.kind);
      agent_version = p.agent_version;
      route_verified = route_of report;
      network_type = network_or (network_of report) (default_network p.kind);
    }

unfoldable pub admin_probes : ℕ → Database → ℕ → List AdminProbe
unfolding sort admin_probe
admin_probes silent_after db now =
    map (admin_probe silent_after db now)
      (sort (λ (a b : Probe). text_le a.enrolled_at b.enrolled_at) db.probes)
