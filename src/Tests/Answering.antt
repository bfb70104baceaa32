-- ===== src/Tests/Answering.antt =====
-- The answer of a server's helper.
use vpn_pulse.Collectors.Registry.{entry_of}
use vpn_pulse.Prelude.{
  refl, String, List, refl, ◌≡◌, ◌||◌, ◌==◌, string_eq, ℕ, true, false, none, some, [], ◌∷◌, arith,
}
use vpn_pulse.Prelude.Lists.{All, any}
use vpn_pulse.Collectors.Registry.{Configured, Entry, Built, build_collectors, unreferenced}
use vpn_pulse.Collectors.Registry.Missing.{is_enabled_as, unreferenced-build_collectors}
use vpn_pulse.Collectors.Helper.{Value, null, boolean, number, text, Peers, System, Payload, exited}
use vpn_pulse.Collectors.Facts.{metrics_from}
use vpn_pulse.Collectors.Facts.Counts.{IsAtMost, metrics_from-counts}
use vpn_pulse.Collectors.Ssh.{collect}
use vpn_pulse.Collectors.Ssh.Near.{IsNearItem, given_by, collect-IsNearItem}

abbrev whole : ℕ → Value
whole n = number (record { negative = false; value = record { num = n; den = 1 }; is_int = true })

abbrev peers : Peers
peers = record {
  handshake_ages = whole 20 ∷ whole 4000 ∷ whole 90000 ∷ [];
  count = whole 5;
  rx_bytes = whole 1000;
  tx_bytes = whole 2000;
}

abbrev system : System
system = record {
  cpu_percent = whole 5;
  memory_percent = whole 40;
  swap_percent = whole 0;
  disk_percent = whole 90;
  uptime_s = whole 100;
  kernel = text "5.15.0-91-generic";
  congestion_control = text "bbr";
  awg_version = null;
  dkms_module = null;
  kernels_installed = text "5.15.0-91-generic" ∷ text "5.15.0-101-generic" ∷ [];
  dkms_built_for = [];
}

abbrev answer : Payload
answer = record {
  schema = whole 1;
  peers = some peers;
  system = some system;
  engine_ok = boolean true;
  engine_listening = boolean true;
  dns = none;
  errors = [];
  observed_at = whole 1000;
  kind = text "awg-host";
}

metrics_from-counts_example :
    IsAtMost
      (metrics_from 180 none peers system answer 9000000000).0.connections
      (metrics_from 180 none peers system answer 9000000000).0.profiles.active_24h
    × IsAtMost
        (metrics_from 180 none peers system answer 9000000000).0.profiles.active_24h
        (metrics_from 180 none peers system answer 9000000000).0.profiles.ever_connected
metrics_from-counts_example =
    metrics_from-counts 180 9000000000 none peers system answer (omega arith)

collect-IsNearItem_example :
    All
      (IsNearItem "de" 9000000000)
      (given_by (collect (λ t. t) (λ t. some answer) "de" 180 none 9000000000 (exited 0 "{}" "")).0)
collect-IsNearItem_example =
    collect-IsNearItem "de" 180 none 9000000000 (λ t. t) (λ t. some answer) (exited 0 "{}" "")

abbrev entries : List (String × Entry)
entries =
    (
      "helper-de",
      record {
        host = "h";
        key_file = "k";
        known_hosts_file = "n";
        user = "vpnpulse";
        port = 22;
        timeout_seconds = 20;
        enabled = true;
      },
    )
    ∷ []

abbrev servers : List Configured
servers =
    record { id = "de"; enabled = true; collector_ref = some "helper-de" }
    ∷ record { id = "fi"; enabled = true; collector_ref = none }
    ∷ []

unreferenced-build_collectors_example : any (is_enabled_as "fi") servers ≡ (
    any (λ (b : Built). b.server_id == "fi") (build_collectors (λ p. p) 180 entries servers)
    || any (λ name. name == "fi") (unreferenced entries servers).0)
unfolding entry_of string_eq
unreferenced-build_collectors_example =
    unreferenced-build_collectors (λ p. p) 180 entries servers "fi" refl
