-- ===== src/Reading/Status.antt =====
-- storage/read_model.py: `_recommendation`, `status`, `_note` and `server`.
pub mod Overall
use vpn_pulse.Prelude.{
  ℕ, ◌+◌, ◌-◌, ◌*◌, suc, zero, max, String, ◌<>◌, Bool, true, false, not, ◌&&◌, ◌||◌, Option, none,
  some, List, [], ◌∷◌, map, ltb, leb, is_some, contains, if◌then◌else◌, ◌==◌, string_eq, option_eq,
}
use vpn_pulse.Prelude.Lists.{select, any, all, find, length, nonempty}
use vpn_pulse.Prelude.Sorting.{sort}
use vpn_pulse.Prelude.Texts.{text_leb}
use vpn_pulse.Clock.{text_le, days}
use vpn_pulse.Domain.Models.{
  State, operational, degraded, unavailable, unknown, state_eq, Ratio, Evaluation,
}
use vpn_pulse.Domain.Recommender.{Loads, ServerCandidate, recommend_server}
use vpn_pulse.Store.Tables.{ObservationRow, Protocol, AdminNote, Database}
use vpn_pulse.Store.Notes
use vpn_pulse.Store.Notes.{NoteView, is_current, newest_note}
use vpn_pulse.Alerts.Tables.{Snapshot}
use vpn_pulse.Alerts.Tables
use vpn_pulse.Alerts.Repository.{snapshot_of}
use vpn_pulse.Reading.Timeline.{scope_of, min_text, state_times, availability}
use vpn_pulse.Reading.Evidence.{
  Freshness, Evidence, Presence, is_past, freshness, latest_of, evidence, presence,
}
use vpn_pulse.Reading.Cards.{
  Words, first_chars, ServerEntry, Card, text, servers_config, server_config, card,
}

-- The values of a dict of connections that are not None, and their sum.
unfoldable pub known_values : List (String × Option ℕ) → List ℕ
known_values [] = []
known_values ((kind, none) ∷ connections) = known_values connections
known_values ((kind, some n) ∷ connections) = n ∷ known_values connections

unfoldable pub sum : List ℕ → ℕ
sum [] = 0
sum (n ∷ ns) = n + sum ns

unfoldable pub connections_of : Option ObservationRow → List (String × Option ℕ)
connections_of none = []
connections_of (some row) = row.metrics.connections

unfoldable pub value_known : String → List (String × Option ℕ) → Bool
value_known kind [] = false
value_known kind ((k, v) ∷ connections) =
    let rest = value_known kind connections in if k == kind then is_some v else rest

-- PROTOCOL_OF_TYPE, with its default.
unfoldable pub protocol_of_type : String → String
protocol_of_type type = if type == "hiddify" then "xray_reality" else "amneziawg"

-- The kinds of `_protocols`: those of the table, or the one that the type stands for.
abbrev pub kinds_or : String → List Protocol → List String
kinds_or type [] = protocol_of_type type ∷ []
kinds_or type (p ∷ rows) = map (λ (r : Protocol). r.kind) (p ∷ rows)

unfoldable pub protocol_kinds : Database → ServerEntry → List String
unfolding select sort protocol_of_type
protocol_kinds db cfg = kinds_or cfg.type (
    sort (λ (a b : Protocol). text_leb a.id b.id)
      (select (λ (p : Protocol). p.server_id == cfg.id && p.enabled) db.protocols))

abbrev pub reason_of : Option Snapshot → String
reason_of none = "NO_FRESH_EVIDENCE"
reason_of (some s) = s.reason_code

-- The recommender compares `-recommended_priority`; the model adds the greatest priority to every
-- one, which keeps their order.
unfoldable pub greatest_priority : List ServerEntry → ℕ
greatest_priority [] = 0
greatest_priority (c ∷ config) = max c.recommended_priority (greatest_priority config)

module _ (L : Loads) (float : ℕ → Loads.Load L) where
  abbrev pub load_of : List ℕ → Option (Loads.Load L)
  load_of [] = none
  load_of (n ∷ ns) = some (float (sum (n ∷ ns)))

  unfoldable pub candidate :
      Database → Tables.Tables → ℕ → ServerEntry → Card → ServerCandidate (Loads.Load L)
  unfolding known_values sum connections_of value_known protocol_kinds all
  candidate db alerts top cfg card =
      let connections = connections_of (latest_of db cfg.id "collector") in
      let snapshot = snapshot_of alerts (scope_of cfg.id) in
      let load = load_of (known_values connections) in
      record {
        server_id = cfg.id;
        evaluation = record {
          state = card.state;
          reason_code = reason_of snapshot;
          observed_at = none;
          fresh_until = none;
          evidence_count = if is_some snapshot then 1 else 0;
          coverage = record { num = if card.freshness.is_stale then 0 else 1; den = 1 };
        };
        load_score = load;
        complete_protocol_coverage =
            (nonempty connections
              && all (λ kind. value_known kind connections) (protocol_kinds db cfg))
            || not (is_some load);
        priority = top - cfg.recommended_priority;
      }

  -- `_recommendation` on the cards that `status` has made, one for each server.
  unfoldable pub recommendation : Database → Tables.Tables → List ServerEntry → ℕ → Option String
  unfolding candidate card greatest_priority
  recommendation db alerts servers now =
      recommend_server L
        (map
          (λ (cfg : ServerEntry).
            candidate db alerts (greatest_priority servers) cfg (card db alerts cfg now none))
          servers)
        none

-- `order`
unfoldable pub severity : State → ℕ
severity unavailable = 3
severity degraded = 2
severity unknown = 1
severity operational = 0

-- `max(states, key=order.get, default="unknown")`: the first of the greatest.
unfoldable pub worst : State → List State → State
worst best [] = best
worst best (s ∷ states) = worst (if ltb (severity best) (severity s) then s else best) states

unfoldable pub overall : List Card → State
overall [] = unknown
overall (c ∷ cards) = worst c.state (map (λ (d : Card). d.state) cards)

-- The instants that are given.
unfoldable pub given : List (Option ℕ) → List ℕ
given [] = []
given (none ∷ ts) = given ts
given (some t ∷ ts) = t ∷ given ts

unfoldable pub greatest : List ℕ → Option ℕ
greatest [] = none
greatest (t ∷ ts) = elim (greatest ts) [ none ↦ some t | some u ↦ some (max t u) ]

unfoldable pub least : List ℕ → Option ℕ
least [] = none
least (t ∷ ts) = elim (least ts) [ none ↦ some t | some u ↦ some (if leb t u then t else u) ]

abbrev pub cut_note : Option NoteView → Option NoteView
cut_note none = none
cut_note (some n) = some (record n { text = first_chars 500 n.text })

abbrev pub view_of : Option AdminNote → Option NoteView
view_of none = none
view_of (some n) = some (Notes.view n)

-- `_note`
unfoldable pub note : Database → ℕ → Option NoteView
unfolding first_chars select
note db now = cut_note (view_of (newest_note none (select (is_current now) db.notes)))

pub record Status : Type 0 where
  pub state : State
  pub freshness : Freshness
  pub active_sources : ℕ
  pub observing_since : Option ℕ
  pub recommended_server_id : Option String
  pub note : Option NoteView
  pub servers : List Card
  pub sources : List Presence

-- KINDS
abbrev pub probe_sources : List String
probe_sources = "pc" ∷ "mobile" ∷ "abroad" ∷ []

unfoldable pub present : (String → Option Presence) → List String → List Presence
present find_presence [] = []
present find_presence (k ∷ kinds) = elim (find_presence k) [
  | none ↦ present find_presence kinds
  | some p ↦ p ∷ present find_presence kinds
]

module _ (L : Loads) (float : ℕ → Loads.Load L) (silent_after : ℕ) where
  -- A card as `status` leaves it: with the name in the caller's language, and the star.
  abbrev pub finished : Database → Tables.Tables → ℕ → String → Option String → ServerEntry → Card
  finished db alerts now lang recommended cfg = record (card db alerts cfg now none) {
    recommended = some cfg.id == recommended;
    name = text cfg.name lang;
  }

  -- `status`; the coverage is `active_sources` of three.
  unfoldable pub status : Database → Tables.Tables → List ServerEntry → ℕ → String → Status
  unfolding recommendation card overall given greatest least note present min_text
  status db alerts config now lang =
      let servers = servers_config config in
      let recommended = recommendation L float db alerts servers now in
      let cards = map (finished db alerts now lang recommended) servers in
      let sources = present (presence silent_after db now) probe_sources in
      record {
        state = overall cards;
        freshness = record {
          observed_at = greatest (given (map (λ (c : Card). c.freshness.observed_at) cards));
          fresh_until = least (given (map (λ (c : Card). c.freshness.fresh_until) cards));
          is_stale = not (nonempty cards) || all (λ (c : Card). c.freshness.is_stale) cards;
        };
        active_sources = length (select (λ (p : Presence). p.is_active) sources);
        observing_since = min_text (map (λ (o : ObservationRow). o.observed_at) db.observations);
        recommended_server_id = recommended;
        note = note db now;
        servers = cards;
        sources = sources;
      }

  -- `server`, as far as it is the card: nothing for a server that is not in the configuration.
  unfoldable pub server_card :
      Database → Tables.Tables → List ServerEntry → String → ℕ → String → Option Card
  server_card db alerts config server_id now lang = elim (server_config config server_id) [
    | none ↦ none
    | some cfg ↦ find (λ (c : Card). c.id == cfg.id) ((status db alerts config now lang).servers)
  ]
