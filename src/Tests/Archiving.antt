-- ===== src/Tests/Archiving.antt =====
-- A backup and its verification at a concrete input: vpnpulse/cli/backup.py.
use vpn_pulse.Prelude.{nat_eq}
use vpn_pulse.Prelude.{List, none, some, [], ◌∷◌, ◌≡◌, refl, if◌then◌else◌, ◌==◌, string_eq, arith}
use vpn_pulse.Prelude.Sorting.{sort}
use vpn_pulse.Prelude.Lists.{any}
use vpn_pulse.Prelude.Texts.{text_leb}
use vpn_pulse.Backup.{
  parts, parts_leb, path_leb, last_of, is_unsafe, File, Manifest, verified, Formats, verify_archive,
  archive_of,
}
use vpn_pulse.Backup.RoundTrip.{verify_archive-archive_of}

abbrev staged : List File
staged =
    record { path = "run.env"; content = "TZ=UTC" }
    ∷ record { path = "data/vpnpulse.sqlite3"; content = "SQLite" }
    ∷ record { path = "config.yaml"; content = "servers: []" }
    ∷ []

abbrev manifest : Manifest
manifest = record {
  schema_version = 5;
  files =
      record { path = "config.yaml"; sha256 = "servers: []"; size = 1 }
      ∷ record { path = "data/vpnpulse.sqlite3"; sha256 = "SQLite"; size = 1 }
      ∷ record { path = "run.env"; sha256 = "TZ=UTC"; size = 1 }
      ∷ [];
}

-- Of one manifest the text is known.
abbrev formats : Formats
formats = record {
  sha = λ content. content;
  size = λ content. 1;
  print = λ m. "{}";
  read = λ text. if text == "{}" then some manifest else none;
}

verify_archive-archive_of_example :
    verify_archive formats 6 (some (archive_of formats 5 staged)) ≡ verified manifest
unfolding sort path_leb parts_leb parts text_leb any is_unsafe last_of string_eq nat_eq
verify_archive-archive_of_example =
    verify_archive-archive_of formats 6 5 staged (refl, (refl, (refl, tt))) refl refl refl refl refl
      (omega arith)
