-- ===== src/Tests/Diagnosing.antt =====
-- The doctor at concrete inputs: vpnpulse/cli/doctor.py.
use vpn_pulse.Prelude.{String, true, none, some, [], ◌∷◌, if◌then◌else◌, ◌==◌, string_eq}
use vpn_pulse.Doctor.{DoctorTexts, FileStatus, in_order, missing, map_of, certified}
use vpn_pulse.Doctor.Summary.{Surroundings, Summary, opened, command_doctor}
use vpn_pulse.Doctor.Summary.First.{IsLedBy, command_doctor-first}
use vpn_pulse.Tests.Showing.{texts, state, config}

abbrev wording : DoctorTexts
wording = record {
  t = λ key. key;
  missing_servers = λ ids. "no helper";
  of_collector = λ key ref. ref;
  expiring = λ days. "soon";
}

abbrev status : String → FileStatus
status file = if file == "token" then missing else in_order

-- No token, a certificate that ends in eight days, and a server without a collector.
abbrev around : Surroundings
around = record {
  token_file = some "token";
  endpoint = certified 691200000000;
  servers = record { id = "fi"; enabled = true; collector_ref = none } ∷ [];
  collectors_map = map_of [];
}

abbrev https_summary : Summary
https_summary =
    (command_doctor wording status (λ f. f) texts 900 60 config 100 around (opened state)
      (some "https")).1

command_doctor-first_example :
    IsLedBy https_summary.result https_summary.next_command https_summary.items
command_doctor-first_example =
    command_doctor-first wording status (λ f. f) texts 900 60 config 100 around (opened state)
      (some "https")
