-- ===== src/Alerts/Audience.antt =====
-- Who hears of a transition, and when.
use vpn_pulse.Prelude.{
  ℕ, ◌+◌, ◌-◌, ◌<◌, ◌≤◌, Bool, true, false, ◌≡◌, ◌≢◌, ◌↔◌, ◌⊎◌, none, some, arith,
}
use vpn_pulse.Domain.Models.{State, operational, unavailable, unknown}
use vpn_pulse.Alerts.Tables.{Tables, group, admin, Template, bot_unavailable, bot_recovered}
use vpn_pulse.Alerts.Policy.{flap_notice_after, is_quiet, notification_for}
use vpn_pulse.Alerts.Queries.{seconds, dropped_notices}
use vpn_pulse.Alerts.Repository.{Change, hold}

-- The group is told exactly of an outage that it has not heard of, and of the recovery after one
-- that it has heard of, whatever the states in between.
pub notification_for-group_iff :
    (previous current : State) (alerted : Bool) (t : Template)
    → (notification_for previous current alerted ≡ some (group, t)) ↔ (
        ((current ≡ unavailable) × (alerted ≡ false) × (t ≡ bot_unavailable))
        ⊎ ((current ≡ operational) × (alerted ≡ true) × (t ≡ bot_recovered)))
unfolding notification_for
notification_for-group_iff previous current alerted t = ground arith

-- Nobody is told exactly of a scope that becomes operational after a gap in the data, with no
-- outage announced.
pub notification_for-none_iff :
    (previous current : State) (alerted : Bool)
    → (notification_for previous current alerted ≡ none)
      ↔ ((current ≡ operational) × (previous ≡ unknown) × (alerted ≡ false))
unfolding notification_for
notification_for-none_iff previous current alerted = ground arith

module _ (db : Tables) (c : Change) (quiet : ℕ) (had_waiting : Bool) where
  abbrev dropped : ℕ
  dropped = dropped_notices db c.scope_key (c.evaluated_at - seconds 3600)

  -- A message for the group is never dropped or held. A notice for the administrator is dropped
  -- exactly when it says that a problem is over whose notice was still waiting, and is held for the
  -- quiet time exactly when its template is quiet and fewer notices than the flapping limit were
  -- dropped within the hour; otherwise it is due at once.
  pub hold_cases :
      (t : Template)
      → (hold db c quiet had_waiting (some (group, t)) ≡ some (group, t, c.evaluated_at))
        × ((hold db c quiet had_waiting (some (admin, t)) ≡ none)
            ↔ ((t ≡ bot_recovered) × (had_waiting ≡ true)))
        × (is_quiet t ≡ true
            → dropped < flap_notice_after
            → hold db c quiet had_waiting (some (admin, t))
              ≡ some (admin, t, c.evaluated_at + seconds quiet))
        × ((is_quiet t ≡ false) ⊎ (flap_notice_after ≤ dropped)
            → (t ≢ bot_recovered) ⊎ (had_waiting ≡ false)
            → hold db c quiet had_waiting (some (admin, t)) ≡ some (admin, t, c.evaluated_at))
  unfolding hold
  hold_cases bot_unavailable = ground arith
  hold_cases _ = ground arith
