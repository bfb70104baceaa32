-- ===== src/Note.antt =====
-- vpnpulse/cli/note.py: `parse_expiry`, `command_set` and `command_clear`. The time zone, the random
-- ids and the parsed forms of `--expires` are arguments, and the clock is read once; what is printed
-- is left out.
pub mod Published
use Prim.Native.Char.{Char, code}
use vpn_pulse.Prelude.{
  ℕ, suc, ◌+◌, ◌*◌, ◌/◌, String, Bool, true, false, not, ◌&&◌, ◌||◌, Option, none, some, List, ltb,
  leb, if◌then◌else◌, ◌==◌, string_eq, nat_eq,
}
use vpn_pulse.Prelude.Lists.{any}
use vpn_pulse.Clock.{second, days}
use vpn_pulse.Store.Tables.{Settings, Database}
use vpn_pulse.Store.Notes.{NoteView, put_note, delete_note}
use vpn_pulse.Store.Probes.{ServerConfig}
use vpn_pulse.Store.Retention.{audit, sync_servers}

-- `--expires`: not given or empty, `HH:MM`, a time with an offset or without one (as the clock on the
-- wall shows it), or a text that is none of these.
pub data Expires : Type 0 where
  without : Expires
  of_day : ℕ → ℕ → Expires
  instant : ℕ → Expires
  on_wall : ℕ → Expires
  illegible : Expires

-- An end or none, a `CliError`, or the ValueError of `replace`.
pub data Expiry : Type 0 where
  until : Option ℕ → Expiry
  denied : String → Expiry
  raised : Expiry

-- `isspace`, of the characters that `strip` takes off.
abbrev pub is_space : Char → Bool
is_space c =
    (leb 9 (code c) && leb (code c) 13)
    || (leb 28 (code c) && leb (code c) 32)
    || code c == 133
    || code c == 160
    || code c == 5760
    || (leb 8192 (code c) && leb (code c) 8202)
    || code c == 8232
    || code c == 8233
    || code c == 8239
    || code c == 8287
    || code c == 12288

unfoldable pub strip_start : String → String
strip_start String.[] = ""
strip_start (String.◌∷◌ c t) =
    let rest = strip_start t in if is_space c then rest else String.◌∷◌ c t

unfoldable pub strip_end : String → String
strip_end String.[] = ""
strip_end (String.◌∷◌ c t) =
    let rest = strip_end t in if is_space c && rest == "" then "" else String.◌∷◌ c rest

abbrev pub strip : String → String
strip t = strip_end (strip_start t)

unfoldable pub characters : String → ℕ
characters String.[] = 0
characters (String.◌∷◌ c t) = suc (characters t)

-- The clock on the wall of the app's zone at an instant, and the instant at which it shows a time.
pub record Zone : Type 0 where
  pub to_wall : ℕ → ℕ
  pub from_wall : ℕ → ℕ

-- `local`, of a time of day: today, or tomorrow where it is past.
abbrev pub next_at : ℕ → ℕ → ℕ
next_at wall since_midnight =
    let today = wall / days 1 * days 1 + since_midnight in
    if leb today wall then today + days 1 else today

abbrev pub to_come : ℕ → ℕ → Expiry
to_come now t = if leb t now then denied "already in the past" else until (some t)

unfoldable pub parse_expiry : Zone → ℕ → Expires → Expiry
parse_expiry zone now without = until none
parse_expiry zone now (of_day hour minute) =
    if ltb hour 24 && ltb minute 60
    then until
        (some (zone.from_wall (next_at (zone.to_wall now) ((hour * 60 + minute) * 60 * second))))
    else raised
parse_expiry zone now (instant t) = to_come now t
parse_expiry zone now (on_wall t) = to_come now (zone.from_wall t)
parse_expiry zone now illegible = denied "must be HH:MM or an ISO 8601 time"

pub data Outcome : Type 0 where
  published : Database → NoteView → Outcome
  refused : String → Outcome
  crashed : Outcome

-- The random ids of a command.
pub record Ids : Type 0 where
  pub note_id : String
  pub audit_id : String
  pub trace_id : String

module _ (s : Settings) (zone : Zone) (ids : Ids) (servers : List ServerConfig) where
  abbrev pub is_configured : Option String → Bool
  is_configured none = true
  is_configured (some id) = id == "" || any (λ (c : ServerConfig). c.id == id) servers

  -- An empty id names no server, but the row holds it.
  abbrev pub synced : Option String → ℕ → Database → Database
  synced none now db = db
  synced (some id) now db = if id == "" then db else sync_servers now servers db

  abbrev pub publish : String → Option String → String → Database → ℕ → Option ℕ → Outcome
  publish text server_id details db now expires =
      let (db', note) = put_note db ids.note_id text expires server_id "admin" now in
      published
        (audit s db' "cli" "admin" "note.put" "note" note.id "ok" details ids.audit_id ids.trace_id
          now)
        note

  abbrev pub publish_until : String → Option String → String → Database → ℕ → Expiry → Outcome
  publish_until text server_id details db now (denied reason) = refused reason
  publish_until text server_id details db now raised = crashed
  publish_until text server_id details db now (until expires) =
      publish text server_id details (synced server_id now db) now expires

  unfoldable pub command_set : String → Option String → String → Expires → Database → ℕ → Outcome
  unfolding parse_expiry strip_start strip_end characters any put_note audit sync_servers
  command_set raw server_id details expires db now =
      let text = strip raw in
      if text == "" || ltb 500 (characters text)
      then refused "the note must be 1-500 characters"
      else if not (is_configured server_id)
      then refused "not in the configuration"
      else publish_until text server_id details db now (parse_expiry zone now expires)

  unfoldable pub command_clear : Database → ℕ → Database × Bool
  unfolding delete_note audit
  command_clear db now =
      let (db', cleared) = delete_note db now in
      (
        audit s db' "cli" "admin" "note.delete" "note" "active" (if cleared then "ok" else "noop")
            "{}" ids.audit_id ids.trace_id now,
        cleared,
      )
