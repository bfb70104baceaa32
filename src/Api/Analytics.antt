-- ===== src/Api/Analytics.antt =====
-- vpnpulse/analytics.py, `SqliteAnalyticsRepository.accept_batch`.
pub mod Retry
use vpn_pulse.Prelude.{
  ℕ, ◌+◌, Bool, String, Option, none, some, List, [], ◌∷◌, ◌&&◌, leb, not, if◌then◌else◌, ◌==◌,
  string_eq,
}
use vpn_pulse.Prelude.Lists.{length, any}
use vpn_pulse.Prelude.Tables.{insert_or_ignore}
use vpn_pulse.Clock.{days}
use vpn_pulse.Store.Tables.{ProductEvent, Database}

-- An event as it arrives; `properties` is the JSON text that is stored.
pub record Event : Type 0 where
  pub event_id : String
  pub name : String
  pub occurred_at : String
  pub session_id : String
  pub surface : String
  pub schema_version : ℕ
  pub properties : String

abbrev pub event_row : ℕ → ℕ → Event → ProductEvent
event_row retention_days received_at e = record {
  event_id = e.event_id;
  name = e.name;
  occurred_at = e.occurred_at;
  received_at = received_at;
  session_id = e.session_id;
  surface = e.surface;
  schema_version = e.schema_version;
  properties = e.properties;
  expires_at = received_at + days retention_days;
}

abbrev pub has_event : String → ProductEvent → Bool
has_event id e = e.event_id == id

-- The loop, with the number accepted so far: nothing when the validator refuses an event.
unfoldable pub accept_events :
    (Event → Bool) → ℕ → ℕ → List Event → List ProductEvent → ℕ → Option (List ProductEvent × ℕ)
unfolding insert_or_ignore any
accept_events valid retention_days received_at [] table accepted = some (table, accepted)
accept_events valid retention_days received_at (e ∷ events) table accepted =
    let rest =
      accept_events valid retention_days received_at events
        (insert_or_ignore (has_event e.event_id) (event_row retention_days received_at e) table)
        (if any (has_event e.event_id) table then accepted else accepted + 1) in
    if valid e then rest else none

-- One transaction: an error leaves the table as it was.
unfoldable pub accept_batch : (Event → Bool) → ℕ → ℕ → List Event → Database → Option (Database × ℕ)
accept_batch valid retention_days received_at events db =
    if leb 1 (length events) && leb (length events) 50
    then (elim (accept_events valid retention_days received_at events db.product_events 0) [
      | none ↦ none
      | some (table, accepted) ↦ some (record db { product_events = table }, accepted)
    ])
    else none
