-- ===== src/Store/Notes/Current.antt =====
-- Which note is shown.
use vpn_pulse.Prelude.{
  ℕ, ◌+◌, ◌≤◌, String, true, ◌≡◌, ◌≢◌, refl, Option, some, List, [], ◌∷◌, ◌++◌, if◌then◌else◌,
  ==-refl, string_eq, arith,
}
use vpn_pulse.Prelude.Lists.{select, select-append, nonempty}
use vpn_pulse.Prelude.Tables.{count_where}
use vpn_pulse.Clock.{second, text_le, text_lt_of_second, text_lt-bound}
use vpn_pulse.Store.Tables.{AdminNote, Database}
use vpn_pulse.Store.Notes.{
  never, active, cleared, is_active, new_note, set_status, put_note, delete_note, outlives,
  is_current, newest_note, note_state,
}
use text.Mathlib.TextEquality.{eq_iff}

-- The active notes after a change of status.
select-set_status :
    (status : String) (now : ℕ) (notes : List AdminNote)
    → status ≢ "active"
    → select is_active (set_status status now notes) ≡ []
unfolding select set_status
select-set_status status now [] h = refl
select-set_status status now (n ∷ ns) h = ground (arith, select-set_status status now ns h)

current-set_status :
    (status : String) (now later : ℕ) (notes : List AdminNote)
    → status ≢ "active"
    → select (is_current later) (set_status status now notes) ≡ []
unfolding select set_status is_current
current-set_status status now later [] h = refl
current-set_status status now later (n ∷ ns) h =
    ground (arith, current-set_status status now later ns h)

replaced_ne_active : ◌≢◌ {A = String} "replaced" "active"
replaced_ne_active = ground (arith, eq_iff "replaced" "active")

deleted_ne_active : ◌≢◌ {A = String} "deleted" "active"
deleted_ne_active = ground (arith, eq_iff "deleted" "active")

nonempty-append : (notes : List AdminNote) (n : AdminNote) → nonempty (notes ++ n ∷ []) ≡ true
nonempty-append [] n = refl
nonempty-append (m ∷ ms) n = refl

nonempty-set_status :
    (status : String) (now : ℕ) (notes : List AdminNote)
    → nonempty (set_status status now notes) ≡ nonempty notes
unfolding set_status
nonempty-set_status status now [] = refl
nonempty-set_status status now (n ∷ ns) = refl

-- However many notes were active before, one is after a note is put.
pub put_note-one_active :
    (db : Database) (id text role : String) (expires_at : Option ℕ) (server_id : Option String)
    (now : ℕ)
    → count_where is_active (put_note db id text expires_at server_id role now).0.notes ≡ 1
unfolding put_note count_where select
put_note-one_active db id text role expires_at server_id now =
    let note = new_note id text expires_at server_id role now in
    rw
      (
        select-append is_active (set_status "replaced" now db.notes) (note ∷ []),
        select-set_status "replaced" now db.notes replaced_ne_active,
      )
      (ground (arith, ==-refl {A = String} "active"))

-- A note that was just put is the one that is shown, from the instant it was put until a second
-- before it expires, whatever notes there were; and it is no longer shown a second after.
pub note_state-put_note :
    (db : Database) (id text role : String) (expires_at : ℕ) (server_id : Option String)
    (now later : ℕ)
    → (text_le now later ≡ true
        → later + second ≤ expires_at
        → note_state (put_note db id text (some expires_at) server_id role now).0 later
          ≡ active (put_note db id text (some expires_at) server_id role now).1)
      × (expires_at + second ≤ later
          → note_state (put_note db id text (some expires_at) server_id role now).0 later ≡ cleared)
unfolding put_note note_state is_current outlives select newest_note
note_state-put_note db id text role expires_at server_id now later =
    let note = new_note id text (some expires_at) server_id role now in
    let kept = set_status "replaced" now db.notes in
    rw
      (
        nonempty-append kept note,
        select-append (is_current later) kept (note ∷ []),
        current-set_status "replaced" now later db.notes replaced_ne_active,
      )
      (
        λ begun h.
            ground (arith, ==-refl {A = String} "active", text_lt_of_second later expires_at h),
        λ h. ground (arith, text_lt-bound later expires_at),
      )

-- After a deletion no note is shown at any instant.
pub note_state-delete_note :
    (db : Database) (now later : ℕ)
    → note_state (delete_note db now).0 later ≡ (if nonempty db.notes then cleared else never)
unfolding note_state delete_note newest_note
note_state-delete_note db now later = rw (
  current-set_status "deleted" now later db.notes deleted_ne_active,
  nonempty-set_status "deleted" now db.notes,
)

-- A note that was just put is the one that is shown, from the instant it was put until a second
-- before it expires, whatever notes there were.
pub note_state-put_note_shown :
    (db : Database) (id text role : String) (expires_at : ℕ) (server_id : Option String)
    (now later : ℕ)
    → text_le now later ≡ true
    → later + second ≤ expires_at
    → note_state (put_note db id text (some expires_at) server_id role now).0 later
      ≡ active (put_note db id text (some expires_at) server_id role now).1
note_state-put_note_shown db id text role expires_at server_id now later from until =
    (note_state-put_note db id text role expires_at server_id now later).0 from until
