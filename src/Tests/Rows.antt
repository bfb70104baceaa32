-- ===== src/Tests/Rows.antt =====
-- The store on small tables.
use vpn_pulse.Store.Enrollments.{usable}
use text.Mathlib.TextEquality.{eq_iff}
use vpn_pulse.Prelude.{
  ◌+◌, ◌*◌, String, ◌<>◌, true, ◌≡◌, refl, none, some, [], ◌∷◌, leb, if◌then◌else◌, string_eq,
  option_eq, arith,
}
use vpn_pulse.Prelude.Lists.{any, find}
use vpn_pulse.Clock.{seconds}
use vpn_pulse.Domain.Models.{result_eq}
use vpn_pulse.Store.Tables.{Settings, Database, Server}
use vpn_pulse.Store.Sessions.{Identity, create_session, get_session}
use vpn_pulse.Store.Sessions.Lifetime.{get_session-create_session}
use vpn_pulse.Store.Enrollments.{Enrollment, consume_enrollment, new_enrollment}
use vpn_pulse.Store.Enrollments.Once.{consume_enrollment_once}
use vpn_pulse.Store.Enrollments.Race.{World, Reach, start, answered, both_enrolled}

abbrev pub settings : Settings
settings = record {
  sha = λ text. "sha " <> text;
  pepper = "pepper";
  decimal = λ n. "1";
  session_minutes = 30;
  enrollment_minutes = 15;
  freshness_seconds = 180;
  observations_days = 30;
  events_days = 90;
  analytics_raw_days = 30;
  audit_days = 180;
}

abbrev pub server : String → Server
server id = record {
  id = id;
  public_id = id;
  type = "amnezia";
  enabled = true;
  display_order = 1;
  created_at = 0;
  updated_at = 0;
}

abbrev pub empty : Database
empty = record {
  servers = server "de" ∷ [];
  protocols = [];
  sessions = [];
  enrollments = [];
  probes = [];
  reports = [];
  observations = [];
  events = [];
  notes = [];
  audit = [];
  product_events = [];
}

abbrev pub member : Identity
member = record { telegram_user_id = 7; role = "member" }

get_session-create_session_example :
    get_session settings (create_session settings empty member "t" 5).0 (some "t") 10 ≡ (
      if leb (5 + seconds (60 * 30)) 10
      then none
      else some (record {
        token = "t";
        identity = record { telegram_user_id = 0; role = "member" };
        expires_at = 5 + seconds (60 * 30);
      }))
unfolding any create_session
get_session-create_session_example =
    get_session-create_session settings empty member "t" 5 10 (ground (arith, eq_iff "t" "")) refl

abbrev with_code : Database
with_code = record empty {
  enrollments = new_enrollment settings "pc" ("https" ∷ []) "admin" none "code" 5 ∷ [];
}

abbrev enrollment : Enrollment
enrollment = record { kind = "pc"; capabilities = "https" ∷ []; via_server_id = none }

consumed_once : (consume_enrollment settings with_code "code" 9).1 ≡ some enrollment
unfolding consume_enrollment usable find string_eq
consumed_once = refl

consume_enrollment_once_example :
    (consume_enrollment settings (consume_enrollment settings with_code "code" 9).0 "code" 12).1
    ≡ none
consume_enrollment_once_example =
    consume_enrollment_once settings with_code "code" 9 12 enrollment consumed_once

both_enrolled_example :
    (w : World) × Reach settings "code" 9 (start settings "code" 9 with_code) w
    × (w.first ≡ answered (some enrollment))
    × (w.second ≡ answered (some enrollment))
both_enrolled_example = both_enrolled settings "code" 9 with_code enrollment consumed_once
