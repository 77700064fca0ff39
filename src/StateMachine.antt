-- ===== src/StateMachine.antt =====
-- src/client/lib/qos/stateMachine.js: the health tests on the signals of one sample, the counters of
-- consecutive samples, and the transition that one sample makes.
pub mod Order
pub mod Edges
pub mod Settling
pub mod Counters
mod Examples
use mediasoup_cpp.Shared.{
  ℕ, ◌+◌, ◌≡◌, Bool, true, false, not, ◌&&◌, ◌||◌, Option, none, some, Number, finite_or, leb, List,
  [], ◌∷◌, or_else, if◌then◌else◌,
}
use mediasoup_cpp.Types.{
  QosState, stable, early_warning, congested, recovering, state_eq, Quality, excellent, good, poor,
  lost, Signals, Thresholds, Profile,
}

module _ {W : Type 0} ⦃num : Number W⦄ where
  open num use {decimal, infinity, is_finite, lt, le, max_of, times}

  unfoldable pub is_warning : Signals W → Profile W → Bool
  is_warning s p =
      le t.warn_loss_rate s.loss_ewma
      || le t.warn_rtt_ms s.rtt_ewma
      || le (finite_or t.warn_jitter_ms infinity) s.jitter_ewma
      || s.bandwidth_limited
      || s.cpu_limited
    where
      t : Thresholds W
      t = p.thresholds

  unfoldable pub is_congested : Signals W → Profile W → Bool
  is_congested s p =
      s.bandwidth_limited
      || le t.congested_loss_rate s.loss_ewma
      || le t.congested_rtt_ms s.rtt_ewma
      || le (finite_or t.congested_jitter_ms infinity) s.jitter_ewma
    where
      t : Thresholds W
      t = p.thresholds

  unfoldable pub is_healthy : Signals W → Profile W → Bool
  is_healthy s p =
      lt s.loss_ewma t.stable_loss_rate
      && lt s.rtt_ewma t.stable_rtt_ms
      && lt s.jitter_ewma (finite_or t.stable_jitter_ms infinity)
      && not s.bandwidth_limited
      && not s.cpu_limited
    where
      t : Thresholds W
      t = p.thresholds

  -- `Math.max(stableJitterMs, warnJitterMs)`, each with its default.
  abbrev pub recovery_jitter_ms : Thresholds W → W
  recovery_jitter_ms t =
      let stable_jitter_ms = finite_or t.stable_jitter_ms infinity in
      max_of stable_jitter_ms (finite_or t.warn_jitter_ms stable_jitter_ms)

  unfoldable pub is_recovery_healthy : Signals W → Profile W → Bool
  is_recovery_healthy s p =
      lt s.loss_ewma t.stable_loss_rate
      && lt s.rtt_ewma t.stable_rtt_ms
      && lt s.jitter_ewma (recovery_jitter_ms t)
      && not s.bandwidth_limited
      && not s.cpu_limited
    where
      t : Thresholds W
      t = p.thresholds

  abbrev pub raw_jitter_ms : Signals W → W
  raw_jitter_ms s = if is_finite s.jitter_ms then max_of (decimal 0 0) s.jitter_ms else infinity

  abbrev pub send_ready : Signals W → Bool
  send_ready s =
      let target = max_of (decimal 0 0) s.target_bitrate_bps in
      le target (decimal 0 0) || le (times target (decimal 85 2)) s.send_bitrate_bps

  unfoldable pub is_fast_recovery_healthy : Signals W → Profile W → Bool
  is_fast_recovery_healthy s p =
      lt s.loss_ewma t.stable_loss_rate
      && lt s.rtt_ewma t.stable_rtt_ms
      && lt (raw_jitter_ms s) (recovery_jitter_ms t)
      && send_ready s
      && not s.bandwidth_limited
      && not s.cpu_limited
    where
      t : Thresholds W
      t = p.thresholds

  unfoldable pub map_state_to_quality : QosState → Signals W → Quality
  map_state_to_quality congested s = if le s.send_bitrate_bps (decimal 0 0) then lost else poor
  map_state_to_quality stable s = excellent
  map_state_to_quality early_warning s = good
  map_state_to_quality recovering s = good

abbrev pub next_counter : ℕ → Bool → ℕ
next_counter current matched = if matched then current + 1 else 0

pub record Context : Type 0 where
  pub state : QosState
  pub entered_at_ms : ℕ
  pub last_congested_at_ms : Option ℕ
  pub last_recovery_at_ms : Option ℕ
  pub healthy_samples : ℕ
  pub recovery_samples : ℕ
  pub fast_recovery_samples : ℕ
  pub warning_samples : ℕ
  pub congested_samples : ℕ

unfoldable pub initial_context : ℕ → Context
initial_context now = record {
  state = stable;
  entered_at_ms = now;
  last_congested_at_ms = none;
  last_recovery_at_ms = none;
  healthy_samples = 0;
  recovery_samples = 0;
  fast_recovery_samples = 0;
  warning_samples = 0;
  congested_samples = 0;
}

-- The state that the `switch` chooses, `c` being the context with its counters brought up to date.
-- Times are integers and the difference may be negative, so the test of the cooldown is a sum.
abbrev pub choose_state : QosState → Context → ℕ → ℕ → QosState
choose_state stable c cooldown now = if leb 2 c.warning_samples then early_warning else stable
choose_state early_warning c cooldown now =
    if leb 2 c.congested_samples
    then congested
    else if leb 3 c.healthy_samples
    then stable
    else early_warning
choose_state congested c cooldown now =
    if leb (or_else c.last_congested_at_ms c.entered_at_ms + cooldown) now
      && (leb 5 c.recovery_samples || leb 2 c.fast_recovery_samples)
    then recovering
    else congested
choose_state recovering c cooldown now =
    if leb 2 c.congested_samples
    then congested
    else if leb 5 c.healthy_samples
    then stable
    else recovering

-- The context on entry to a state.
abbrev pub enter_state : QosState → ℕ → Context → Context
enter_state congested now c = record c {
  state = congested;
  entered_at_ms = now;
  last_congested_at_ms = some now;
}
enter_state recovering now c = record c {
  state = recovering;
  entered_at_ms = now;
  last_recovery_at_ms = some now;
}
enter_state s now c = record c { state = s; entered_at_ms = now }

pub record Transition : Type 0 where
  pub context : Context
  pub quality : Quality
  pub transitioned : Bool

module _ {W : Type 0} ⦃num : Number W⦄ where
  -- The counters after one more sample.
  unfoldable pub count_sample : Context → Signals W → Profile W → Context
  count_sample c s p =
      let recovery_healthy = is_recovery_healthy s p in
      record c {
        healthy_samples = next_counter c.healthy_samples (is_healthy s p);
        recovery_samples = next_counter c.recovery_samples recovery_healthy;
        fast_recovery_samples =
            next_counter c.fast_recovery_samples
              (not recovery_healthy && is_fast_recovery_healthy s p);
        warning_samples = next_counter c.warning_samples (is_warning s p);
        congested_samples = next_counter c.congested_samples (is_congested s p);
      }

  unfoldable pub next_context : Context → Signals W → Profile W → ℕ → Context
  unfolding count_sample
  next_context c s p now =
      let counted = count_sample c s p in
      let next = choose_state c.state counted p.recovery_cooldown_ms now in
      if state_eq next c.state then counted else enter_state next now counted

  unfoldable pub evaluate_state_transition : Context → Signals W → Profile W → ℕ → Transition
  unfolding next_context
  evaluate_state_transition c s p now =
      let next = next_context c s p now in
      record {
        context = next;
        quality = map_state_to_quality next.state s;
        transitioned = not (state_eq next.state c.state);
      }

-- One sample of a run: the signals and the time at which they are evaluated.
pub record Sample (W : Type 0) : Type 0 where
  pub signals : Signals W
  pub at_ms : ℕ

module _ {W : Type 0} ⦃num : Number W⦄ where
  -- The contexts that `processSample` leaves behind over a row of samples.
  unfoldable pub run : Profile W → Context → List (Sample W) → Context
  run p c [] = c
  run p c (x ∷ xs) = run p (next_context c x.signals p x.at_ms) xs
