-- ===== src/Pipeline/Evaluate/Events.antt =====
-- What one evaluation of all servers leaves in the snapshots.
use mathlib.Core.Option
use text.Mathlib.TextLemmas.{append_cancel_left}
use vpn_pulse.Prelude.{
  ℕ, String, ◌<>◌, ◌≡◌, refl, ap, Option, none, some, List, [], ◌∷◌, map, contains, if◌then◌else◌,
  ◌==◌, string_eq, arith,
}
use vpn_pulse.Prelude.Lists.{select}
use vpn_pulse.Domain.Models
use vpn_pulse.Domain.Evaluator.{evaluate_scope}
use vpn_pulse.Alerts.Tables.{Snapshot, Tables}
use vpn_pulse.Alerts.Repository.{Naming, Change, snapshot_of, state_before, save_evaluation}
use vpn_pulse.Alerts.Snapshots.{saved_row, snapshot_of-save_evaluation}
use vpn_pulse.Store.Probes.{ServerConfig}
use vpn_pulse.Pipeline.Tables.{State}
use vpn_pulse.Pipeline.Evaluate.{
  observations_for, expected_sources, change_of, report_transition, evaluate_server, evaluate_ids,
  evaluate,
}

-- The text of a scope determines its server.
server_key_injective : (a b : String) → "server:" <> a ≡ "server:" <> b → a ≡ b
server_key_injective a b h = append_cancel_left "server:" a b h

abbrev pub state_of_server : State → String → Option Models.State
state_of_server st id =
    Option.map (λ (s : Snapshot). s.state) (snapshot_of st.alerts ("server:" <> id))

module _ (names : Naming) (event_uuid : String → String) (quiet confirmations now : ℕ) where
  -- What the observations of a server amount to.
  abbrev pub judged : State → String → Models.State
  judged st id =
      (evaluate_scope (observations_for st.db id now) now (expected_sources st.db id now)
        confirmations).state

  report_transition-alerts :
      (st : State) (id : String) (previous : Models.State) (c : Change) (r : Tables × Option String)
      → ((report_transition names event_uuid quiet confirmations now st id previous c r).0.alerts
          ≡ r.0)
        × ((report_transition names event_uuid quiet confirmations now st id previous c
              r).0.db.observations
            ≡ st.db.observations)
  unfolding report_transition
  report_transition-alerts st id previous c (alerts, none) = (refl, refl)
  report_transition-alerts st id previous c (alerts, some t) = (refl, refl)

  saved_state : (db : Tables) (c : Change) → (saved_row db c).state ≡ c.evaluation.state
  saved_state db c = ground arith

  state_of_server-evaluate_server :
      (st : State) (id key : String)
      → state_of_server (evaluate_server names event_uuid quiet confirmations now st id).0 key
        ≡ (if key == id then some (judged st id) else state_of_server st key)
  unfolding evaluate_server
  state_of_server-evaluate_server st id key =
      let c = change_of names event_uuid quiet confirmations now st id in
      let saved = save_evaluation names quiet st.alerts c in
      let alerts =
        (report_transition-alerts st id (state_before (snapshot_of st.alerts c.scope_key)) c
          saved).0 in
      let row = snapshot_of-save_evaluation names quiet st.alerts c ("server:" <> key) in
      elim (string_eq.dec key id) [
        | yes p ↦ ground (arith, alerts, row, saved_state st.alerts c)
        | no n ↦ ground (
          arith,
          alerts,
          row,
          λ (h : "server:" <> key ≡ "server:" <> id). n (server_key_injective key id h),
        )
      ]

  judged_same :
      (a b : State) (id : String)
      → a.db.observations ≡ b.db.observations
      → judged a id ≡ judged b id
  unfolding observations_for expected_sources
  judged_same a b id e = rw e

  observations-evaluate_server :
      (st : State) (id : String)
      → (evaluate_server names event_uuid quiet confirmations now st id).0.db.observations
        ≡ st.db.observations
  unfolding evaluate_server
  observations-evaluate_server st id =
      let c = change_of names event_uuid quiet confirmations now st id in
      (report_transition-alerts st id (state_before (snapshot_of st.alerts c.scope_key)) c
        (save_evaluation names quiet st.alerts c)).1

  evaluate_ids-state :
      (ids : List String) (st : State) (id : String)
      → state_of_server (evaluate_ids names event_uuid quiet confirmations now ids st).0 id
        ≡ (if contains ids id then some (judged st id) else state_of_server st id)
  unfolding evaluate_ids
  evaluate_ids-state [] st id = refl
  evaluate_ids-state (x ∷ xs) st id =
      let st' = (evaluate_server names event_uuid quiet confirmations now st x).0 in
      elim (string_eq.dec id x) [
        | yes p ↦ ground (
          arith,
          evaluate_ids-state xs st' id,
          state_of_server-evaluate_server st x id,
          judged_same st' st id (observations-evaluate_server st x),
          ap (judged st) p,
        )
        | no n ↦ ground (
          arith,
          evaluate_ids-state xs st' id,
          state_of_server-evaluate_server st x id,
          judged_same st' st id (observations-evaluate_server st x),
        )
      ]

  -- After an evaluation, the snapshot of each enabled server holds the state that its observations
  -- amount to at that instant, whatever was there before and in whatever order the servers stand;
  -- the snapshots of all others are as they were.
  pub evaluate-state :
      (servers : List ServerConfig) (st : State) (id : String)
      → state_of_server (evaluate names event_uuid quiet confirmations now servers st).0 id ≡ (
          if contains
            (map (λ (c : ServerConfig). c.id) (select (λ (c : ServerConfig). c.enabled) servers))
            id
          then some (judged st id)
          else state_of_server st id)
  unfolding evaluate
  evaluate-state servers st id = evaluate_ids-state _ st id
