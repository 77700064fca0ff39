-- ===== src/Signals.antt =====
-- src/client/lib/qos/signals.js: from two raw snapshots of a sender to the signals of a sample.
pub mod Bounds
mod Examples
use mediasoup_cpp.Shared.{
  ℕ, Bool, true, false, not, ◌&&◌, ◌||◌, Option, none, some, or_else, Number, leb, if◌then◌else◌,
}
use mediasoup_cpp.Types.{
  Reason, network, manual, server_override, LimitationReason, bandwidth, limitation_eq, RawSnapshot,
  Signals,
}

-- The context in which `classifyReason` names the reason; a missing flag is `false`, a count 0.
pub record ReasonContext : Type 0 where
  pub active_override : Bool
  pub manual_override : Bool
  pub cpu_sample_count : ℕ

abbrev pub field : {A B : Type 0} → (A → B) → Option A → Option B
field f none = none
field f (some a) = some (f a)

abbrev pub join : {A B : Type 0} → (A → Option B) → Option A → Option B
join f none = none
join f (some a) = f a

module _ {W : Type 0} ⦃num : Number W⦄ where
  open num use {decimal, is_finite, lt, le, max_of, plus, minus, times, over}

  abbrev pub nought : W
  nought = decimal 0 0

  abbrev pub as_finite_or_zero : Option W → W
  as_finite_or_zero none = nought
  as_finite_or_zero (some x) = if is_finite x then x else nought

  abbrev pub as_finite_or_undefined : Option W → Option W
  as_finite_or_undefined none = none
  as_finite_or_undefined (some x) = if is_finite x then some x else none

  unfoldable pub clamp_to_unit_range : W → W
  clamp_to_unit_range x =
      if lt x nought then nought else if lt (decimal 1 0) x then decimal 1 0 else x

  unfoldable pub compute_counter_delta : Option W → Option W → W
  compute_counter_delta current previous =
      let now = as_finite_or_zero current in
      let before = as_finite_or_zero previous in if le now before then nought else minus now before

  unfoldable pub compute_bitrate_bps : Option W → Option W → W → Option W → W
  unfolding compute_counter_delta
  compute_bitrate_bps bytes previous_bytes timestamp previous_timestamp =
      let delta_bytes = compute_counter_delta bytes previous_bytes in
      let before = as_finite_or_zero previous_timestamp in
      if not (is_finite timestamp) || le timestamp before || le delta_bytes nought
      then nought
      else over (times (times delta_bytes (decimal 8 0)) (decimal 1000 0)) (minus timestamp before)

  unfoldable pub compute_loss_rate : W → W → W
  unfolding clamp_to_unit_range
  compute_loss_rate sent_delta lost_delta =
      let sent = max_of nought (as_finite_or_zero (some sent_delta)) in
      let lost = max_of nought (as_finite_or_zero (some lost_delta)) in
      let total = plus sent lost in
      if le total nought then nought else clamp_to_unit_range (over lost total)

  abbrev default_ewma_alpha : W
  default_ewma_alpha = decimal 35 2

  abbrev is_finite_number : Option W → Bool
  is_finite_number none = false
  is_finite_number (some x) = is_finite x

  unfoldable pub compute_ewma : W → Option W → Option W → W
  unfolding clamp_to_unit_range
  compute_ewma value previous alpha =
      let current = as_finite_or_zero (some value) in
      let before = as_finite_or_zero previous in
      let safe_alpha =
        clamp_to_unit_range (as_finite_or_zero (some (or_else alpha default_ewma_alpha))) in
      if le safe_alpha nought
      then before
      else if le (decimal 1 0) safe_alpha
      then current
      else if not (is_finite_number previous)
      then current
      else plus (times safe_alpha current) (times (minus (decimal 1 0) safe_alpha) before)

  unfoldable pub compute_bitrate_utilization : W → W → Option W → W
  compute_bitrate_utilization send_bps target_bps configured_bps =
      let send = max_of nought (as_finite_or_zero (some send_bps)) in
      let target = max_of nought (as_finite_or_zero (some target_bps)) in
      let configured = max_of nought (as_finite_or_zero configured_bps) in
      let denominator = if lt nought target then target else configured in
      if le denominator nought
      then if lt nought send then decimal 1 0 else nought
      else over send denominator

  -- `classifyReason`, of the signals that it reads.
  unfoldable pub classify_reason : Bool → Bool → W → W → ReasonContext → Reason
  classify_reason bandwidth_limited cpu_limited loss_ewma rtt_ewma c =
      if c.active_override
      then server_override
      else if c.manual_override
      then manual
      else if cpu_limited && leb 2 c.cpu_sample_count
      then Reason.cpu
      else if bandwidth_limited || le (decimal 4 2) loss_ewma || le (decimal 220 0) rtt_ewma
      then network
      else Reason.unknown

  -- A measurement, and its moving average, that fall back on the signals before if it is missing.
  abbrev measured : Option W → Option W → W
  measured none previous = max_of nought (as_finite_or_zero previous)
  measured (some x) previous = max_of nought x

  abbrev averaged : Option W → Option W → Option W → Option W → W
  averaged none last previous alpha = as_finite_or_zero previous
  averaged (some x) last previous alpha = compute_ewma (measured (some x) last) previous alpha

  unfoldable pub derive_signals :
      RawSnapshot W
      → Option (RawSnapshot W)
      → Option (Signals W)
      → Option W
      → ReasonContext
      → Signals W
  unfolding compute_bitrate_bps compute_loss_rate compute_ewma compute_bitrate_utilization
      classify_reason
  derive_signals current previous before alpha context =
      let sent = compute_counter_delta current.packets_sent (join (λ r. r.packets_sent) previous) in
      let lost = compute_counter_delta current.packets_lost (join (λ r. r.packets_lost) previous) in
      let send_bps =
        compute_bitrate_bps current.bytes_sent (join (λ r. r.bytes_sent) previous)
          (as_finite_or_zero (some current.timestamp_ms)) (field (λ r. r.timestamp_ms) previous) in
      let target = max_of nought (as_finite_or_zero current.target_bitrate_bps) in
      let utilization =
        compute_bitrate_utilization send_bps target current.configured_bitrate_bps in
      let loss = compute_loss_rate sent lost in
      let loss_average = compute_ewma loss (field (λ s. s.loss_ewma) before) alpha in
      let rtt = as_finite_or_undefined current.round_trip_time_ms in
      let last_rtt = field (λ s. s.rtt_ms) before in
      let rtt_average = averaged rtt last_rtt (field (λ s. s.rtt_ewma) before) alpha in
      let jitter = as_finite_or_undefined current.jitter_ms in
      let last_jitter = field (λ s. s.jitter_ms) before in
      let quality = or_else current.quality_limitation_reason LimitationReason.unknown in
      let cpu_limited = limitation_eq quality LimitationReason.cpu in
      let bandwidth_limited = limitation_eq quality bandwidth && lt utilization (decimal 65 2) in
      record {
        packets_sent_delta = sent;
        packets_lost_delta = lost;
        retransmitted_packets_sent_delta =
            compute_counter_delta current.retransmitted_packets_sent
              (join (λ r. r.retransmitted_packets_sent) previous);
        send_bitrate_bps = send_bps;
        target_bitrate_bps = target;
        bitrate_utilization = utilization;
        loss_rate = loss;
        loss_ewma = loss_average;
        rtt_ms = measured rtt last_rtt;
        rtt_ewma = rtt_average;
        jitter_ms = measured jitter last_jitter;
        jitter_ewma = averaged jitter last_jitter (field (λ s. s.jitter_ewma) before) alpha;
        cpu_limited = cpu_limited;
        bandwidth_limited = bandwidth_limited;
        reason = classify_reason bandwidth_limited cpu_limited loss_average rtt_average context;
      }
