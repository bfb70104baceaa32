-- ===== src/Note/Published.antt =====
-- When the notes of the command line are shown: vpnpulse/cli/note.py.
use vpn_pulse.Prelude.{
  ℕ, ◌+◌, ◌*◌, ◌≤◌, String, true, false, ◌≡◌, ap, ◌∙◌, Option, none, some, List, ◌==◌, string_eq,
  arith,
}
use vpn_pulse.Clock.{second, days, text_le}
use vpn_pulse.Store.Tables.{Settings, Database}
use vpn_pulse.Store.Notes.{NoteState, active, note_state, new_note, view, put_note}
use vpn_pulse.Store.Notes.Current.{note_state-put_note_shown}
use vpn_pulse.Store.Probes.{ServerConfig}
use vpn_pulse.Store.Retention.{audit}
use vpn_pulse.Note.{
  next_at, Zone, Ids, Expires, of_day, until, publish_until, Outcome, published, refused, crashed,
  strip, characters, parse_expiry, command_set,
}

next_at_within :
    (wall since_midnight : ℕ)
    → since_midnight + 1 ≤ days 1
    → (wall + 1 ≤ next_at wall since_midnight) × (next_at wall since_midnight ≤ wall + days 1)
next_at_within wall since_midnight h = ground (arith, h)

abbrev pub time_of_day : ℕ → ℕ → ℕ
time_of_day hour minute = (hour * 60 + minute) * 60 * second

time_of_day-bound :
    (hour minute : ℕ) → hour + 1 ≤ 24 → minute + 1 ≤ 60 → time_of_day hour minute + 1 ≤ days 1
time_of_day-bound hour minute h m = omega (arith, h, m)

-- What the status screen shows after the command.
unfoldable pub shown_after : Outcome → ℕ → Option NoteState
unfolding note_state
shown_after (published db note) later = some (note_state db later)
shown_after (refused reason) later = none
shown_after crashed later = none

module _ (s : Settings) (zone : Zone) (ids : Ids) (servers : List ServerConfig) (details : String)
    (db : Database) (now : ℕ) where
  -- A time of day of which the command makes the end of a note.
  abbrev pub end_at : ℕ → ℕ → ℕ
  end_at hour minute = zone.from_wall (next_at (zone.to_wall now) (time_of_day hour minute))

  parse_expiry-of_day :
      (hour minute : ℕ)
      → hour + 1 ≤ 24
      → minute + 1 ≤ 60
      → parse_expiry zone now (of_day hour minute) ≡ until (some (end_at hour minute))
  unfolding parse_expiry
  parse_expiry-of_day hour minute h m = ground (arith, h, m)

  command_set-valid :
      (raw : String) (expires : Expires)
      → (strip raw == "") ≡ false
      → characters (strip raw) ≤ 500
      → command_set s zone ids servers raw none details expires db now
        ≡ publish_until s zone ids servers
            (strip raw)
            none
            details
            db
            now
            (parse_expiry zone now expires)
  unfolding command_set
  command_set-valid raw expires given short = ground (arith, given, short)

  -- A note without a server of 1 to 500 characters, published until a time of day, ends within a day
  -- and not before now, in a zone that keeps its offset until then; and from now until a second before
  -- its end it is the note that is shown, with the spaces around its text taken off.
  pub command_set-of_day :
      (raw : String) (hour minute east west later : ℕ)
      → (strip raw == "") ≡ false
      → characters (strip raw) ≤ 500
      → hour + 1 ≤ 24
      → minute + 1 ≤ 60
      → zone.to_wall now + west ≡ now + east
      → end_at hour minute + east ≡ next_at (zone.to_wall now) (time_of_day hour minute) + west
      → text_le now later ≡ true
      → later + second ≤ end_at hour minute
      → (now + 1 ≤ end_at hour minute)
        × (end_at hour minute ≤ now + days 1)
        × (shown_after
              (command_set s zone ids servers raw none details (of_day hour minute) db now)
              later
            ≡ some (
                active (
                  view (
                    new_note ids.note_id
                      (strip raw)
                      (some (end_at hour minute))
                      none
                      "admin"
                      now))))
  unfolding shown_after put_note audit
  command_set-of_day raw hour minute east west later given short h m wall back from early =
      let bound = time_of_day-bound hour minute h m in
      let within = next_at_within (zone.to_wall now) (time_of_day hour minute) bound in
      (
        omega (arith, within.0, wall, back),
        omega (arith, within.1, wall, back),
        ap (λ o. shown_after o later)
              (command_set-valid raw (of_day hour minute) given short
                ∙ ap (publish_until s zone ids servers (strip raw) none details db now)
                    (parse_expiry-of_day hour minute h m))
            ∙ ap some (
                note_state-put_note_shown db ids.note_id (strip raw) "admin" (end_at hour minute)
                  none now later from early),
      )
