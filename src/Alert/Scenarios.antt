-- ===== src/Alert/Scenarios.antt =====
-- Tests and instances for src/alert.rs.
use ez_gh_actions.Base.{◌≡◌, refl, true, false, none, some, List, [], ◌∷◌, text, text_eq}
use ez_gh_actions.BtreeMap
use ez_gh_actions.Alert.{
  AlertConfig, AlertState, Transports, configured_channels, should_send, delivered, notify_delivery,
  is_stale, record_delivery, check,
}
use ez_gh_actions.Alert.Cooldown.{
  Tick, noted, checked, note, self_test, silence, watch, IsSpaced, watch-IsSpaced,
}

-- a log alone, a cooldown of five minutes, and a threshold of an hour
abbrev logged : AlertConfig
logged = record {
  has_slack_configured = false;
  email_to = none;
  log_path = some (text "/tmp/alerts");
  alert_cooldown_secs = 300;
  deadman_threshold_seconds = 3600;
}

abbrev works : Transports
works = record { slack = none; email = false; log = true; sent_at = 1000 }

abbrev nothing_sent : AlertState
nothing_sent = record { sent = []; deadman_clock = none }

delivers_once :
    ((notify_delivery logged works (text "a") 1000 nothing_sent).0 ≡ true)
    × ((notify_delivery logged works
          (text "a")
          2000
          (notify_delivery logged works (text "a") 1000 nothing_sent).1).0
        ≡ false)
unfolding notify_delivery configured_channels should_send delivered BtreeMap.get BtreeMap.insert
    text_eq
delivers_once = (refl, refl)

-- a note at 1 hour silences the check at 1.5 hours; one at 2 hours is sent, and the next is silent
abbrev hours : List Tick
hours =
    noted 3600000000000
    ∷ checked 5400000000000 works nothing_sent
    ∷ checked 7200000000000 works (record nothing_sent { deadman_clock = some 7100000000000 })
    ∷ checked 7300000000000 works nothing_sent
    ∷ []

watched :
    watch logged hours (record { last_successful = some 0 })
    ≡ note 3600000000000
      ∷ silence 5400000000000 works nothing_sent
      ∷ self_test 7200000000000 works
      ∷ silence 7300000000000 works nothing_sent
      ∷ []
unfolding watch check is_stale record_delivery notify_delivery configured_channels should_send
    delivered BtreeMap.get BtreeMap.insert text_eq
watched = refl

watch-IsSpaced_example :
    IsSpaced logged (some 0) (watch logged hours (record { last_successful = some 0 }))
watch-IsSpaced_example = watch-IsSpaced logged hours (some 0)
