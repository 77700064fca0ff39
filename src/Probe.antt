-- ===== src/Probe.antt =====
-- src/client/lib/qos/probe.js: the trial that follows a recovery step. Samples count for it or
-- against it until enough of one kind have come.
pub mod Outcome
mod Examples
use mediasoup_cpp.Shared.{
  ℕ, ◌+◌, max, Bool, true, false, not, ◌&&◌, ◌||◌, Option, none, some, or_else, Number, leb,
  if◌then◌else◌,
}
use mediasoup_cpp.Types.{Signals, Thresholds, Profile}

pub record Probe : Type 0 where
  pub active : Bool
  pub started_at_ms : ℕ
  pub previous_level : ℕ
  pub target_level : ℕ
  pub previous_audio_only_mode : Bool
  pub target_audio_only_mode : Bool
  pub healthy_samples : ℕ
  pub bad_samples : ℕ
  pub required_healthy_samples : ℕ
  pub required_bad_samples : ℕ

pub data ProbeResult : Type 0 where
  inconclusive failed successful : ProbeResult

pub record Evaluation : Type 0 where
  pub context : Option Probe
  pub result : ProbeResult

unfoldable pub begin_probe : ℕ → ℕ → ℕ → Bool → Bool → Option ℕ → Option ℕ → Probe
begin_probe previous target now previous_mode target_mode required_healthy required_bad = record {
  active = true;
  started_at_ms = now;
  previous_level = previous;
  target_level = target;
  previous_audio_only_mode = previous_mode;
  target_audio_only_mode = target_mode;
  healthy_samples = 0;
  bad_samples = 0;
  required_healthy_samples = max 1 (or_else required_healthy 3);
  required_bad_samples = max 1 (or_else required_bad 2);
}

abbrev pub judge : Probe → ProbeResult
judge c =
    if leb (max 1 c.required_bad_samples) c.bad_samples
    then failed
    else if leb (max 1 c.required_healthy_samples) c.healthy_samples
    then successful
    else inconclusive

module _ {W : Type 0} ⦃num : Number W⦄ where
  open num use {lt, le}

  unfoldable pub is_probe_healthy : Signals W → Profile W → Bool
  is_probe_healthy s p =
      lt s.loss_ewma p.thresholds.stable_loss_rate
      && lt s.rtt_ewma p.thresholds.stable_rtt_ms
      && not s.bandwidth_limited
      && not s.cpu_limited

  unfoldable pub is_probe_bad : Signals W → Profile W → Bool
  is_probe_bad s p =
      s.bandwidth_limited
      || le p.thresholds.congested_loss_rate s.loss_ewma
      || le p.thresholds.congested_rtt_ms s.rtt_ewma
      || s.cpu_limited

  unfoldable pub count_probe : Probe → Signals W → Profile W → Probe
  count_probe c s p =
      if is_probe_healthy s p
      then record c { healthy_samples = c.healthy_samples + 1; bad_samples = 0 }
      else if is_probe_bad s p
      then record c { healthy_samples = 0; bad_samples = c.bad_samples + 1 }
      else c

  unfoldable pub evaluate_probe : Option Probe → Signals W → Profile W → Evaluation
  unfolding count_probe
  evaluate_probe none s p = record { context = none; result = inconclusive }
  evaluate_probe (some c) s p =
      let next = count_probe c s p in
      if c.active
      then record { context = some next; result = judge next }
      else record { context = none; result = inconclusive }
