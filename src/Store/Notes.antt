-- ===== src/Store/Notes.antt =====
-- SqliteStore, "administrator note". `id` is a random UUID.
pub mod Current
use vpn_pulse.Prelude.{
  ℕ, String, Bool, true, false, not, ◌&&◌, ◌||◌, Option, none, some, List, [], ◌∷◌, ◌++◌, ltb,
  if◌then◌else◌, ◌==◌, string_eq,
}
use vpn_pulse.Prelude.Lists.{select, nonempty}
use vpn_pulse.Prelude.Tables.{update_where, count_where}
use vpn_pulse.Clock.{text_le, text_lt}
use vpn_pulse.Store.Tables.{AdminNote, Database}

pub record NoteView : Type 0 where
  pub id : String
  pub server_id : Option String
  pub text : String
  pub expires_at : Option ℕ
  pub created_at : ℕ

pub data NoteState : Type 0 where
  never : NoteState
  active : NoteView → NoteState
  cleared : NoteState

abbrev pub is_active : AdminNote → Bool
is_active n = n.status == "active"

abbrev pub new_note : String → String → Option ℕ → Option String → String → ℕ → AdminNote
new_note id text expires_at server_id role now = record {
  id = id;
  server_id = server_id;
  text = text;
  status = "active";
  starts_at = now;
  expires_at = expires_at;
  created_by_role = role;
  created_at = now;
  updated_at = now;
}

unfoldable pub set_status : String → ℕ → List AdminNote → List AdminNote
unfolding update_where
set_status status now = update_where is_active (λ n. record n { status = status; updated_at = now })

abbrev pub view : AdminNote → NoteView
view n = record {
  id = n.id;
  server_id = n.server_id;
  text = n.text;
  expires_at = n.expires_at;
  created_at = n.created_at;
}

unfoldable pub put_note :
    Database → String → String → Option ℕ → Option String → String → ℕ → Database × NoteView
put_note db id text expires_at server_id role now =
    let note = new_note id text expires_at server_id role now in
    (record db { notes = set_status "replaced" now db.notes ++ note ∷ [] }, view note)

unfoldable pub delete_note : Database → ℕ → Database × Bool
delete_note db now = (
  record db { notes = set_status "deleted" now db.notes },
  ltb 0 (count_where is_active db.notes),
)

-- `expires_at IS NULL OR expires_at > ?`, between texts.
unfoldable pub outlives : ℕ → Option ℕ → Bool
outlives now none = true
outlives now (some t) = text_lt now t

unfoldable pub is_current : ℕ → AdminNote → Bool
unfolding outlives
is_current now n = is_active n && text_le n.starts_at now && outlives now n.expires_at

-- ORDER BY created_at DESC LIMIT 1; of equal texts the model takes the last.
unfoldable pub newest_note : Option AdminNote → List AdminNote → Option AdminNote
newest_note best [] = best
newest_note none (n ∷ ns) = newest_note (some n) ns
newest_note (some b) (n ∷ ns) =
    newest_note (some (if text_le b.created_at n.created_at then n else b)) ns

abbrev pub shown : Option AdminNote → NoteState
shown none = cleared
shown (some n) = active (view n)

unfoldable pub note_state : Database → ℕ → NoteState
note_state db now =
    if nonempty db.notes then shown (newest_note none (select (is_current now) db.notes)) else never
