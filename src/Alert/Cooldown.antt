-- ===== src/Alert/Cooldown.antt =====
-- How often an alert of src/alert.rs is delivered, and when the dead-man switch sends its self-test.
use ez_gh_actions.Base.{
  ℕ, ◌+◌, ◌*◌, ◌<◌, ◌≤◌, ◌≡◌, ◌⊎◌, inl, inr, true, false, Option, none, some, is_some, arith, Text,
  text_eq, text_eq_refl, refl, List, [], ◌∷◌, ◌==◌, if◌then◌else◌, Bool-cases, Option-cases,
}
use ez_gh_actions.BtreeMap
use ez_gh_actions.BtreeMap.{get-insert}
use ez_gh_actions.Alert.{
  AlertConfig, AlertState, Transports, configured_channels, should_send, delivered, cooldown,
  notify_delivery, DeadManState, deadman_event_key, is_stale, check, record_delivery,
}

notify_delivery-sent :
    (cfg : AlertConfig) (t : Transports) (event : Text) (now : ℕ) (state : AlertState)
    → (notify_delivery cfg t event now state).0 ≡ true
    → (notify_delivery cfg t event now state).1.sent ≡ BtreeMap.insert event t.sent_at state.sent
unfolding notify_delivery
notify_delivery-sent cfg t event now state h = ground (arith, h)

notify_delivery-shut :
    (cfg : AlertConfig) (t : Transports) (event : Text) (now : ℕ) (state : AlertState)
    → should_send event (cooldown cfg) now state ≡ false
    → (notify_delivery cfg t event now state).0 ≡ false
unfolding notify_delivery
notify_delivery-shut cfg t event now state h = ground (arith, h)

-- After a delivery the same event is not delivered again within the cooldown, whatever the transports
-- would do; whether another event may be sent has not changed.
notify_delivery-cooldown :
    (cfg : AlertConfig) (t again : Transports) (event other : Text) (now later : ℕ)
    (state : AlertState)
    → (notify_delivery cfg t event now state).0 ≡ true
    → later < t.sent_at + cooldown cfg
    → text_eq event other ≡ false
    → ((notify_delivery cfg again event later (notify_delivery cfg t event now state).1).0 ≡ false)
      × (should_send other (cooldown cfg) later (notify_delivery cfg t event now state).1
          ≡ should_send other (cooldown cfg) later state)
notify_delivery-cooldown cfg t again event other now later state h soon different =
    let same = notify_delivery-sent cfg t event now state h in
    let shut : should_send event (cooldown cfg) later (notify_delivery cfg t event now state).1
        ≡ false =
      unfold should_send in rw same (rw get-insert (rw text_eq_refl (ground (arith, soon)))) in
    (
      notify_delivery-shut cfg again event later (notify_delivery cfg t event now state).1 shut,
      unfold should_send in rw same (rw get-insert (rw different refl)),
    )

-- what happens to the switch: serve notes a delivery, or checks it with the transports and the statics that
-- alerts in between may have changed
pub data Tick : Type 0 where
  noted : ℕ → Tick
  checked : ℕ → Transports → AlertState → Tick

-- what came of it: a note, a self-test that was sent, or a check without one
pub data Event : Type 0 where
  note : ℕ → Event
  self_test : ℕ → Transports → Event
  silence : ℕ → Transports → AlertState → Event

unfoldable pub watch : AlertConfig → List Tick → DeadManState → List Event
watch cfg [] self = []
watch cfg (noted now ∷ ticks) self =
    note now ∷ watch cfg ticks (record { last_successful = some now })
watch cfg (checked now t state ∷ ticks) self =
    let (sent, _, self') = check cfg t now state self in
    (if sent then self_test now t else silence now t state) ∷ watch cfg ticks self'

-- a configured transport of the chosen kind delivers: Slack or mail, the log only where neither is configured
abbrev pub IsDelivery : AlertConfig → Transports → Type 0
IsDelivery cfg t =
    ((cfg.has_slack_configured ≡ true) × (t.slack ≡ some true))
    ⊎ ((is_some cfg.email_to ≡ true) × (t.email ≡ true))
    ⊎ ((cfg.has_slack_configured ≡ false)
        × (cfg.email_to ≡ none)
        × (is_some cfg.log_path ≡ true)
        × (t.log ≡ true))

-- a self-test comes no sooner than the threshold after the last note or self-test
abbrev pub IsOverdue : AlertConfig → Option ℕ → ℕ → Type 0
IsOverdue cfg none now = Unit
IsOverdue cfg (some last) now = last + cfg.deadman_threshold_seconds * 1000000000 ≤ now

-- The grounds of a silence: the switch is off, no channel is configured, the latest note or self-test is not
-- as old as the threshold, the self-test's own cooldown runs, or no channel delivers.
pub data IsExcused (cfg : AlertConfig) (last : Option ℕ) (now : ℕ) (t : Transports)
    (state : AlertState) : Type 0 where
  disabled : cfg.deadman_threshold_seconds ≡ 0 → IsExcused cfg last now t state
  unconfigured :
      cfg.has_slack_configured ≡ false
      → cfg.email_to ≡ none
      → cfg.log_path ≡ none
      → IsExcused cfg last now t state
  recent :
      (at : ℕ)
      → last ≡ some at
      → now < at + cfg.deadman_threshold_seconds * 1000000000
      → IsExcused cfg last now t state
  cooling :
      (at : ℕ)
      → BtreeMap.get deadman_event_key state.sent ≡ some at
      → now < at + cooldown cfg
      → IsExcused cfg last now t state
  undelivered : (IsDelivery cfg t → ⊥) → IsExcused cfg last now t state

abbrev pub IsSpaced : AlertConfig → Option ℕ → List Event → Type 0
IsSpaced cfg last [] = Unit
IsSpaced cfg last (note now ∷ events) = IsSpaced cfg (some now) events
IsSpaced cfg last (self_test now t ∷ events) =
    IsOverdue cfg last now × IsDelivery cfg t × IsSpaced cfg (some now) events
IsSpaced cfg last (silence now t state ∷ events) =
    IsExcused cfg last now t state × IsSpaced cfg last events

delivered-IsDelivery :
    (cfg : AlertConfig) (t : Transports) → delivered cfg t ≡ true → IsDelivery cfg t
unfolding delivered
delivered-IsDelivery cfg t h = ground (arith, h)

IsDelivery-delivered :
    (cfg : AlertConfig) (t : Transports) → IsDelivery cfg t → delivered cfg t ≡ true
unfolding delivered
IsDelivery-delivered cfg t (inl (slack, sent)) = ground (arith, slack, sent)
IsDelivery-delivered cfg t (inr (inl (email, sent))) = ground (arith, email, sent)
IsDelivery-delivered cfg t (inr (inr (no_slack, no_email, log, sent))) =
    ground (arith, no_slack, no_email, log, sent)

-- a check that sends, and one that does not
check-cases :
    (cfg : AlertConfig) (t : Transports) (now : ℕ) (state : AlertState) (self : DeadManState)
    → (((check cfg t now state self).0 ≡ false) × ((check cfg t now state self).2 ≡ self))
      ⊎ (((check cfg t now state self).0 ≡ true)
          × ((check cfg t now state self).2 ≡ record { last_successful = some now })
          × (0 < cfg.deadman_threshold_seconds)
          × (is_stale cfg now self ≡ true)
          × (delivered cfg t ≡ true))
unfolding check notify_delivery record_delivery
check-cases cfg t now state self = ground arith

fresh-recent :
    (cfg : AlertConfig) (t : Transports) (now : ℕ) (state : AlertState) (last : Option ℕ)
    → 0 < cfg.deadman_threshold_seconds
    → is_stale cfg now (record { last_successful = last }) ≡ false
    → IsExcused cfg last now t state
unfolding is_stale
fresh-recent cfg t now state none positive h = absurd (cc h)
fresh-recent cfg t now state (some last) positive h = recent last refl (ground (arith, positive, h))

shut-cooling :
    (cfg : AlertConfig) (t : Transports) (now : ℕ) (state : AlertState) (last : Option ℕ)
    → should_send deadman_event_key (cooldown cfg) now state ≡ false
    → IsExcused cfg last now t state
unfolding should_send
shut-cooling cfg t now state last h =
    elim (Option-cases (BtreeMap.get deadman_event_key state.sent)) [
      | inl never ↦ absurd (ground (arith, never, h))
      | inr (at, sent) ↦ cooling at sent (ground (arith, sent, h))
    ]

unsent-IsExcused :
    (cfg : AlertConfig) (t : Transports) (now : ℕ) (state : AlertState) (last : Option ℕ)
    → (check cfg t now state (record { last_successful = last })).0 ≡ false
    → IsExcused cfg last now t state
unfolding check notify_delivery configured_channels
unsent-IsExcused cfg t now state last h = elim (Bool-cases (cfg.deadman_threshold_seconds == 0)) [
  | inl off ↦ disabled (ground (arith, off))
  | inr on ↦ elim (Bool-cases (configured_channels cfg)) [
    | inr none_configured ↦
        unconfigured (ground (arith, none_configured)) (ground (arith, none_configured))
          (ground (arith, none_configured))
    | inl configured ↦ elim (Bool-cases (is_stale cfg now (record { last_successful = last }))) [
      | inr fresh ↦ fresh-recent cfg t now state last (ground (arith, on)) fresh
      | inl stale ↦ elim (Bool-cases (should_send deadman_event_key (cooldown cfg) now state)) [
        | inr shut ↦ shut-cooling cfg t now state last shut
        | inl free ↦ elim (Bool-cases (delivered cfg t)) [
          | inr failed ↦ undelivered (λ d. absurd (cc (IsDelivery-delivered cfg t d, failed)))
          | inl given ↦ absurd (ground (arith, on, configured, stale, free, given, h))
        ]
      ]
    ]
  ]
]

is_stale-IsOverdue :
    (cfg : AlertConfig) (now : ℕ) (last : Option ℕ)
    → 0 < cfg.deadman_threshold_seconds
    → is_stale cfg now (record { last_successful = last }) ≡ true
    → IsOverdue cfg last now
unfolding is_stale
is_stale-IsOverdue cfg now none positive h = tt
is_stale-IsOverdue cfg now (some last) positive h = ground (arith, positive, h)

-- Whatever the transports do and whichever alerts are sent in between, each self-test of the switch was
-- delivered by a configured channel, the log only where neither Slack nor mail is configured, and came no
-- sooner than the threshold after the latest delivery that serve noted in the switch, or the latest
-- self-test. And a check without a self-test has one of five grounds: the switch is off, no channel is
-- configured, that latest delivery is younger than the threshold, the self-test's own cooldown runs, or no
-- channel delivers.
pub watch-IsSpaced :
    (cfg : AlertConfig) (ticks : List Tick) (last : Option ℕ)
    → IsSpaced cfg last (watch cfg ticks (record { last_successful = last }))
unfolding watch
watch-IsSpaced cfg [] last = tt
watch-IsSpaced cfg (noted now ∷ ticks) last = watch-IsSpaced cfg ticks (some now)
watch-IsSpaced cfg (checked now t state ∷ ticks) last =
    elim (check-cases cfg t now state (record { last_successful = last })) [
      | inl (quiet, same) ↦
          rw (quiet, watch)
            (unsent-IsExcused cfg t now state last quiet, rw same (watch-IsSpaced cfg ticks last))
      | inr (sent, reset, positive, stale, given) ↦
          rw (sent, watch)
            (
              is_stale-IsOverdue cfg now last positive stale,
              delivered-IsDelivery cfg t given,
              rw reset (watch-IsSpaced cfg ticks (some now)),
            )
    ]
