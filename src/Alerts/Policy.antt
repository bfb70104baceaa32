-- ===== src/Alerts/Policy.antt =====
-- `notification_for`, with the constants beside it.
use vpn_pulse.Prelude.{ℕ, Bool, true, false, Option, none, some, if◌then◌else◌}
use vpn_pulse.Domain.Models.{State, operational, degraded, unavailable, unknown}
use vpn_pulse.Alerts.Tables.{
  Destination, group, admin, Template, bot_unavailable, bot_recovered, bot_degraded, bot_unknown,
}

abbrev pub max_attempts : ℕ
max_attempts = 20

abbrev pub flap_notice_after : ℕ
flap_notice_after = 6

-- `template in QUIET_TEMPLATES`
abbrev pub is_quiet : Template → Bool
is_quiet bot_degraded = true
is_quiet bot_unknown = true
is_quiet _ = false

-- The last two tests of the function, on the previous state.
unfoldable pub recovery_notice : State → Option (Destination × Template)
recovery_notice unknown = none
recovery_notice _ = some (admin, bot_recovered)

unfoldable pub notification_for : State → State → Bool → Option (Destination × Template)
unfolding recovery_notice
notification_for previous unavailable group_alerted =
    some (if group_alerted then admin else group, bot_unavailable)
notification_for previous degraded group_alerted = some (admin, bot_degraded)
notification_for previous unknown group_alerted = some (admin, bot_unknown)
notification_for previous operational group_alerted =
    if group_alerted then some (group, bot_recovered) else recovery_notice previous
