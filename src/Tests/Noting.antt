-- ===== src/Tests/Noting.antt =====
-- A note of the command line at a concrete input: vpnpulse/cli/note.py.
use vpn_pulse.Clock.{text_le}
use vpn_pulse.Note.{characters}
use vpn_pulse.Prelude.{nat_eq}
use vpn_pulse.Note.{strip_start}
use vpn_pulse.Note.{strip_end}
use vpn_pulse.Prelude.{string_eq}
use vpn_pulse.Prelude.{◌+◌, ◌-◌, ◌≤◌, ◌≡◌, refl, some, none, [], arith}
use vpn_pulse.Clock.{days}
use vpn_pulse.Store.Notes.{active, new_note, view}
use vpn_pulse.Note.{Zone, Ids, of_day, command_set}
use vpn_pulse.Note.Published.{shown_after, command_set-of_day}
use vpn_pulse.Tests.Rows.{settings, empty}

-- Five hours behind UTC.
abbrev new_york : Zone
new_york = record { to_wall = λ t. t - 18000000000; from_wall = λ t. t + 18000000000 }

abbrev ids : Ids
ids = record { note_id = "n-1"; audit_id = "a-1"; trace_id = "t-1" }

-- At one o'clock there, until half past two.
command_set-of_day_example :
    (21600000000 + 1 ≤ 27000000000)
    × (27000000000 ≤ 21600000000 + days 1)
    × (shown_after
          (command_set settings new_york ids [] " Works tonight " none "{}"
            (of_day 2 30)
            empty
            21600000000)
          25200000000
        ≡ some (
            active
              (view (new_note "n-1" "Works tonight" (some 27000000000) none "admin" 21600000000))))
unfolding string_eq strip_end strip_start nat_eq characters text_le
command_set-of_day_example =
    command_set-of_day settings new_york ids [] "{}" empty 21600000000 " Works tonight " 2 30 0
      18000000000 25200000000 refl (omega arith) (omega arith) (omega arith) refl refl refl
      (omega arith)
