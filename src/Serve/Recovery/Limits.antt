-- ===== src/Serve/Recovery/Limits.antt =====
-- How often the serve loop of src/main.rs may restart the backend, and within which budget.
use ez_gh_actions.Base.{
  ℕ, ◌+◌, ◌-◌, ◌≤◌, ◌<◌, ◌≡◌, refl, ◌⊎◌, inl, inr, Bool, true, false, Option, none, some, List, [],
  ◌∷◌, arith, ltb, leb, length, retain, Bool-cases, Option-cases, is_some_and,
}
use ez_gh_actions.Serve.Durations.{from_secs}
use ez_gh_actions.Serve.Recovery.{
  BackendRecoveryState, backend_restart_window, backend_restart_cooldown, new, roll_window,
  cooling_down, allow_restart, BackendRestartTiming, production, clamped_restart_timeout,
  clamped_health_poll_timeout, CommandResult, succeeded, exited_nonzero, not_found, failed, Host,
  after_command, attempt_backend_restart_with,
}

-- The state after a sequence of requests, with the time of the last, the times of the restarts that were
-- allowed, the newest first, and how many of them the window holds.
pub data Requests : ℕ → List ℕ → BackendRecoveryState → Type 0 where
  begin : (now : ℕ) → Requests now [] (new now)
  allowed :
      {now : ℕ} {restarts : List ℕ} {s : BackendRecoveryState} (later : ℕ)
      → Requests now restarts s
      → now ≤ later
      → (allow_restart later s).0 ≡ true
      → Requests later (later ∷ restarts) (allow_restart later s).1
  suppressed :
      {now : ℕ} {restarts : List ℕ} {s : BackendRecoveryState} (later : ℕ)
      → Requests now restarts s
      → now ≤ later
      → (allow_restart later s).0 ≡ false
      → Requests later restarts (allow_restart later s).1

-- each restart is at least 60 seconds after the one before it
abbrev pub IsSpaced : List ℕ → Type 0
IsSpaced [] = Unit
IsSpaced (t ∷ []) = Unit
IsSpaced (t ∷ u ∷ ts) = (u + from_secs 60 ≤ t) × IsSpaced (u ∷ ts)

-- the restarts since a time
abbrev pub since : ℕ → List ℕ → ℕ
since t restarts = length (retain (λ u. leb t u) restarts)

abbrev newest : List ℕ → Option ℕ
newest [] = none
newest (t ∷ ts) = some t

abbrev IsBefore : ℕ → List ℕ → Type 0
IsBefore t [] = Unit
IsBefore t (u ∷ us) = u < t

record IsLimited (now : ℕ) (restarts : List ℕ) (s : BackendRecoveryState) : Type 0 where
  window : s.window_started ≤ now
  attempts : s.attempts_in_window ≤ 3
  counted : since s.window_started restarts ≤ s.attempts_in_window
  last : s.last_restart_at ≡ newest restarts
  spaced : IsSpaced restarts
  inside : IsBefore (s.window_started + backend_restart_window + 1) restarts

since-before : (t : ℕ) (ts : List ℕ) → IsSpaced ts → IsBefore t ts → since t ts ≡ 0
since-before t [] spaced before = refl
since-before t (u ∷ []) spaced before = ground arith
since-before t (u ∷ v ∷ ts) (gap, spaced) before =
    ground (arith, since-before t (v ∷ ts) spaced (omega arith))

later-IsBefore : (t u : ℕ) (ts : List ℕ) → t ≤ u → IsBefore t ts → IsBefore u ts
later-IsBefore t u [] le h = h
later-IsBefore t u (v ∷ ts) le h = omega arith

roll_window-IsLimited :
    (now later : ℕ) (restarts : List ℕ) (s : BackendRecoveryState)
    → now ≤ later
    → IsLimited now restarts s
    → IsLimited later restarts (roll_window later s)
      × (later ≤ (roll_window later s).window_started + backend_restart_window)
unfolding roll_window
roll_window-IsLimited now later restarts s le i =
    elim (Bool-cases (ltb backend_restart_window (later - s.window_started))) [
      | inl over ↦ rw over (
        record {
          window = omega arith;
          attempts = omega arith;
          counted = omega (
            arith,
            since-before later restarts i.spaced
                (later-IsBefore _ later restarts (ground (arith, over)) i.inside),
          );
          last = i.last;
          spaced = i.spaced;
          inside = later-IsBefore _ _ restarts (ground (arith, over)) i.inside;
        },
        omega arith,
      )
      | inr within ↦ rw within (
        record {
          window = omega (arith, i.window);
          attempts = i.attempts;
          counted = i.counted;
          last = i.last;
          spaced = i.spaced;
          inside = i.inside;
        },
        ground (arith, within),
      )
    ]

cooled-IsSpaced :
    (later : ℕ) (restarts : List ℕ) (last : Option ℕ)
    → last ≡ newest restarts
    → is_some_and last (λ t. ltb (later - t) backend_restart_cooldown) ≡ false
    → IsSpaced restarts
    → IsSpaced (later ∷ restarts)
cooled-IsSpaced later [] last e h spaced = tt
cooled-IsSpaced later (t ∷ ts) last e h spaced = (ground (arith, e, h), spaced)

old-cooled :
    (later now : ℕ) (restarts : List ℕ) (last : Option ℕ)
    → last ≡ newest restarts
    → IsBefore (now + 1) restarts
    → now + from_secs 600 < later
    → is_some_and last (λ t. ltb (later - t) backend_restart_cooldown) ≡ false
old-cooled later now [] last e old le = rw e refl
old-cooled later now (t ∷ ts) last e old le = rw e (ground (arith, old, le))

allowed-IsLimited :
    (later : ℕ) (restarts : List ℕ) (s : BackendRecoveryState)
    → IsLimited later restarts (roll_window later s)
    → later ≤ (roll_window later s).window_started + backend_restart_window
    → (allow_restart later s).0 ≡ true
    → IsLimited later (later ∷ restarts) (allow_restart later s).1
unfolding allow_restart cooling_down
allowed-IsLimited later restarts s i within h =
    let window : (roll_window later s).window_started ≤ later = i.window in
    let last : (roll_window later s).last_restart_at ≡ newest restarts = i.last in
    let counted : since (roll_window later s).window_started restarts
        ≤ (roll_window later s).attempts_in_window =
      i.counted in
    let few : (roll_window later s).attempts_in_window < 3 = ground (arith, h) in
    record {
      window = ground (arith, h);
      attempts = ground (arith, h);
      counted = ground (arith, h);
      last = ground (arith, h);
      spaced =
          cooled-IsSpaced later restarts (roll_window later s).last_restart_at last
            (ground (arith, h)) i.spaced;
      inside = ground (arith, h);
    }

suppressed-IsLimited :
    (later : ℕ) (restarts : List ℕ) (s : BackendRecoveryState)
    → IsLimited later restarts (roll_window later s)
    → (allow_restart later s).0 ≡ false
    → IsLimited later restarts (allow_restart later s).1
unfolding allow_restart
suppressed-IsLimited later restarts s i h =
    let same : (allow_restart later s).1 ≡ roll_window later s = ground (arith, h) in rw same i

Requests-IsLimited :
    {now : ℕ} {restarts : List ℕ} {s : BackendRecoveryState}
    → Requests now restarts s
    → IsLimited now restarts s
Requests-IsLimited (begin now) = record {
  window = omega arith;
  attempts = omega arith;
  counted = omega arith;
  last = refl;
  spaced = tt;
  inside = tt;
}
Requests-IsLimited (allowed {now} {restarts} {s} later r le h) =
    let (i, within) = roll_window-IsLimited now later restarts s le (Requests-IsLimited r) in
    allowed-IsLimited later restarts s i within h
Requests-IsLimited (suppressed {now} {restarts} {s} later r le h) =
    suppressed-IsLimited later restarts s
      (roll_window-IsLimited now later restarts s le (Requests-IsLimited r)).0 h

-- Whatever is requested, restarts are at least 60 seconds apart, and a window has at most three of them.
pub restarts_limited :
    {now : ℕ} {restarts : List ℕ} {s : BackendRecoveryState}
    → Requests now restarts s
    → IsSpaced restarts × (since s.window_started restarts ≤ 3)
restarts_limited r =
    let i = Requests-IsLimited r in (i.spaced, omega (arith, i.counted, i.attempts))

newest-le :
    {now : ℕ} {restarts : List ℕ} {s : BackendRecoveryState}
    → Requests now restarts s
    → IsBefore (now + 1) restarts
newest-le (begin now) = tt
newest-le (allowed later r le h) = omega arith
newest-le (suppressed {now} {restarts} later r le h) =
    later-IsBefore (now + 1) (later + 1) restarts (omega arith) (newest-le r)

-- Suppression is never for good: a request more than 600 seconds after the last one is allowed.
restart_available :
    {now : ℕ} {restarts : List ℕ} {s : BackendRecoveryState} (later : ℕ)
    → Requests now restarts s
    → now + from_secs 600 < later
    → (allow_restart later s).0 ≡ true
unfolding allow_restart roll_window cooling_down
restart_available {now} {restarts} {s} later r le =
    let i = Requests-IsLimited r in
    let window : s.window_started ≤ now = i.window in
    let last : s.last_restart_at ≡ newest restarts = i.last in
    let before : IsBefore (now + 1) restarts = newest-le r in
    ground (arith, window, le, old-cooled later now restarts s.last_restart_at last before le)

-- every command's timeout, and the margin after it, lies before the deadline
abbrev pub EndsBefore : {C : Type 0} → Host → ℕ → List (ℕ × C × ℕ) → Type 0
EndsBefore host deadline [] = Unit
EndsBefore host deadline ((k, command, timeout) ∷ calls) =
    (host.before k + timeout + from_secs 5 ≤ deadline) × EndsBefore host deadline calls

after_command-EndsBefore :
    {C : Type 0} (host : Host) (deadline k timeout : ℕ) (command : C) (result : CommandResult)
    (healthy : Bool) (later : Bool × List (ℕ × C × ℕ))
    → host.before k + timeout + from_secs 5 ≤ deadline
    → EndsBefore host deadline later.1
    → EndsBefore host deadline (after_command result healthy (k, command, timeout) later).1
after_command-EndsBefore host deadline k timeout command succeeded healthy later le h = (le, tt)
after_command-EndsBefore host deadline k timeout command exited_nonzero healthy later le h = (le, h)
after_command-EndsBefore host deadline k timeout command not_found healthy later le h = (le, h)
after_command-EndsBefore host deadline k timeout command failed healthy later le h = (le, h)

clamped_restart_timeout-le :
    (now deadline timeout : ℕ)
    → clamped_restart_timeout production now (some deadline) ≡ some timeout
    → now + timeout + from_secs 5 ≤ deadline
unfolding clamped_restart_timeout
clamped_restart_timeout-le now deadline timeout h = ground (arith, h)

-- Under a deadline, no restart command is given more time than is left before it, less five seconds,
-- however many commands there are.
restart_in_budget :
    {C : Type 0} (commands : List C) (deadline : ℕ) (host : Host) (k : ℕ)
    → EndsBefore host deadline
        (attempt_backend_restart_with commands (some deadline) production host k).1
unfolding attempt_backend_restart_with
restart_in_budget [] deadline host k = tt
restart_in_budget (command ∷ commands) deadline host k =
    let rest = attempt_backend_restart_with commands (some deadline) production host (k + 1) in
    let later = restart_in_budget commands deadline host (k + 1) in
    elim (Option-cases (clamped_restart_timeout production (host.before k) (some deadline))) [
      | inl e ↦ rw (e, attempt_backend_restart_with) tt
      | inr (timeout, e) ↦
          rw (e, attempt_backend_restart_with)
            (after_command-EndsBefore host deadline k timeout command (host.run k timeout) _ rest
              (clamped_restart_timeout-le (host.before k) deadline timeout e) later)
    ]

after_command-true :
    {C : Type 0} (result : CommandResult) (healthy : Bool) (call : C) (later : Bool × List C)
    → (after_command result healthy call later).0 ≡ true
    → (result ≡ succeeded × healthy ≡ true) ⊎ (later.0 ≡ true)
after_command-true succeeded healthy call later h = inl (refl, h)
after_command-true exited_nonzero healthy call later h = inr h
after_command-true not_found healthy call later h = inr h
after_command-true failed healthy call later h = inr h

-- A restart is reported only where a command succeeded and Docker then answered.
restart_means_healthy :
    {C : Type 0} (commands : List C) (deadline : Option ℕ) (timing : BackendRestartTiming)
    (host : Host) (k : ℕ)
    → (attempt_backend_restart_with commands deadline timing host k).0 ≡ true
    → (j : ℕ) × (timeout : ℕ) × (host.run j timeout ≡ succeeded)
      × (host.poll_backend_healthy j
            (clamped_health_poll_timeout timing (host.after j) deadline)
            timing.health_poll_interval
          ≡ true)
unfolding attempt_backend_restart_with
restart_means_healthy [] deadline timing host k h = absurd (cc h)
restart_means_healthy (command ∷ commands) deadline timing host k h =
    elim (Option-cases (clamped_restart_timeout timing (host.before k) deadline)) [
      | inl e ↦ absurd (ground (arith, e, h))
      | inr (timeout, e) ↦
          let rest = attempt_backend_restart_with commands deadline timing host (k + 1) in
          elim (after_command-true (host.run k timeout) _ (k, command, timeout) rest
            (rw (e, attempt_backend_restart_with) at h)) [
              | inl (ran, healthy) ↦ (k, timeout, ran, healthy)
              | inr later ↦ restart_means_healthy commands deadline timing host (k + 1) later
            ]
    ]
