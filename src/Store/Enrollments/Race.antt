-- ===== src/Store/Enrollments/Race.antt =====
-- Two requests with one code, as the worker threads of the API make them: `consume_enrollment`
-- reads the row in one statement and marks it in a later one, and only each statement is serialised.
use vpn_pulse.Prelude.{ℕ, String, ◌≡◌, refl, sym, ap, ◌∙◌, Option, none, some}
use vpn_pulse.Prelude.Lists.{find}
use vpn_pulse.Store.Tables.{Settings, Database}
use vpn_pulse.Store.Enrollments.{Enrollment, has_code, usable, consumed, consume_enrollment}

-- Where a request stands: before the SELECT, between the statements with what it read, or at the
-- end with what it returns.
pub data Request : Type 0 where
  arrived : Request
  checked : Option Enrollment → Request
  answered : Option Enrollment → Request

pub record World : Type 0 where
  pub db : Database
  pub first : Request
  pub second : Request

module _ (s : Settings) (code : String) (now : ℕ) where
  -- The SELECT with the tests on its row, and the UPDATE with the return.
  pub data Step : World → World → Type 0 where
    check_first :
        (w : World)
        → w.first ≡ arrived
        → Step w (record w {
          first = checked (usable now (find (has_code (s.sha code)) w.db.enrollments));
        })
    check_second :
        (w : World)
        → w.second ≡ arrived
        → Step w (record w {
          second = checked (usable now (find (has_code (s.sha code)) w.db.enrollments));
        })
    mark_first :
        (w : World) (e : Option Enrollment)
        → w.first ≡ checked e
        → Step w (record w { db = (consumed s w.db code now e).0; first = answered e })
    mark_second :
        (w : World) (e : Option Enrollment)
        → w.second ≡ checked e
        → Step w (record w { db = (consumed s w.db code now e).0; second = answered e })

  pub data Reach (w : World) : World → Type 0 where
    here : Reach w w
    next : {u v : World} → Reach w u → Step u v → Reach w v

  abbrev pub start : Database → World
  start db = record { db = db; first = arrived; second = arrived }

  consumed_result : (db : Database) (o : Option Enrollment) → (consumed s db code now o).1 ≡ o
  unfolding consumed
  consumed_result db none = refl
  consumed_result db (some e) = refl

  -- When a code is usable, there is an order of the statements of two requests with this code in
  -- which both requests are given the enrollment.
  pub both_enrolled :
      (db : Database) (e : Enrollment)
      → (consume_enrollment s db code now).1 ≡ some e
      → (w : World) × Reach (start db) w
        × (w.first ≡ answered (some e))
        × (w.second ≡ answered (some e))
  unfolding consume_enrollment
  both_enrolled db e h =
      let read = usable now (find (has_code (s.sha code)) db.enrollments) in
      let granted : read ≡ some e = sym (consumed_result db read) ∙ h in
      let w1 : World = record (start db) { first = checked read } in
      let w2 : World = record w1 { second = checked read } in
      let w3 : World = record w2 { db = (consumed s db code now read).0; first = answered read } in
      let w4 : World = record w3 {
        db = (consumed s w3.db code now read).0;
        second = answered read;
      } in
      (
        w4,
        next
            (next (next (next here (check_first (start db) refl)) (check_second w1 refl))
              (mark_first w2 read refl))
            (mark_second w3 read refl),
        ap answered granted,
        ap answered granted,
      )
