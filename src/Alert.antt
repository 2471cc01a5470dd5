-- ===== src/Alert.antt =====
-- Delivery of alerts with their cooldown, and the dead-man switch (src/alert.rs). Times are in nanoseconds.
pub mod Cooldown
mod Scenarios
use ez_gh_actions.Base.{
  ℕ, ◌-◌, ◌*◌, Bool, true, false, not, ◌&&◌, ◌||◌, Option, none, some, ltb, leb, ◌==◌,
  if◌then◌else◌, is_some, is_some_and, max, Text, text,
}
use ez_gh_actions.BtreeMap
use ez_gh_actions.BtreeMap.{BtreeMap}

pub record AlertConfig : Type 0 where
  pub has_slack_configured : Bool
  pub email_to : Option Text
  pub log_path : Option Text
  pub alert_cooldown_secs : ℕ
  pub deadman_threshold_seconds : ℕ

-- the statics: when each event was last sent, and the clock that every delivery sets
pub record AlertState : Type 0 where
  pub sent : BtreeMap ℕ
  pub deadman_clock : Option ℕ

-- What the transports do, and when the delivery is recorded: `slack` is none where no Slack target can
-- be resolved.
pub record Transports : Type 0 where
  pub slack : Option Bool
  pub email : Bool
  pub log : Bool
  pub sent_at : ℕ

unfoldable pub configured_channels : AlertConfig → Bool
configured_channels cfg = cfg.has_slack_configured || (is_some cfg.email_to || is_some cfg.log_path)

unfoldable pub should_send : Text → ℕ → ℕ → AlertState → Bool
should_send event cooldown now state =
    not (is_some_and (BtreeMap.get event state.sent) (λ last. ltb (now - last) cooldown))

-- where Slack or mail is configured, a line in the log is no delivery
unfoldable pub delivered : AlertConfig → Transports → Bool
delivered cfg t =
    if cfg.has_slack_configured || is_some cfg.email_to
    then cfg.has_slack_configured && is_some_and t.slack (λ sent. sent)
      || is_some cfg.email_to && t.email
    else is_some cfg.log_path && t.log

abbrev pub cooldown : AlertConfig → ℕ
cooldown cfg = max cfg.alert_cooldown_secs 1 * 1000000000

unfoldable pub notify_delivery :
    AlertConfig → Transports → Text → ℕ → AlertState → Bool × AlertState
notify_delivery cfg t event now state =
    if not (configured_channels cfg)
    then (false, state)
    else if not (should_send event (cooldown cfg) now state)
    then (false, state)
    else if delivered cfg t
    then (
      true,
      record { sent = BtreeMap.insert event t.sent_at state.sent; deadman_clock = some t.sent_at },
    )
    else (false, state)

pub record DeadManState : Type 0 where
  pub last_successful : Option ℕ

abbrev pub deadman_event_key : Text
deadman_event_key = text "alert.pipeline.deadman"

unfoldable pub record_delivery : ℕ → AlertState → AlertState × DeadManState
record_delivery now state =
    (record state { deadman_clock = some now }, record { last_successful = some now })

unfoldable pub is_stale : AlertConfig → ℕ → DeadManState → Bool
is_stale cfg now self = not (
    is_some_and self.last_successful
      (λ last. ltb (now - last) (cfg.deadman_threshold_seconds * 1000000000)))

unfoldable pub check :
    AlertConfig → Transports → ℕ → AlertState → DeadManState → Bool × AlertState × DeadManState
check cfg t now state self =
    if cfg.deadman_threshold_seconds == 0
    then (false, state, self)
    else if not (configured_channels cfg)
    then (false, state, self)
    else if not (is_stale cfg now self)
    then (false, state, self)
    else (let (sent, state') = notify_delivery cfg t deadman_event_key now state in
        let (state'', self') = record_delivery now state' in
        if sent then (true, state'', self') else (false, state', self))
