-- ===== src/Fixtures.antt =====
-- Concrete data for the examples: signals, snapshots, a profile and a controller over thousandths.
use mediasoup_cpp.Shared.{
  ℕ, ◌*◌, Bool, true, false, Option, none, some, [], codes, Milli, milli, milli_number,
}
use mediasoup_cpp.Types.{TrackKind, Reason, LimitationReason, Signals, RawSnapshot, Profile}
use mediasoup_cpp.StateMachine.{Sample, Context, initial_context}
use mediasoup_cpp.Probe.{Probe}
use mediasoup_cpp.Sampler.{Sampler}
use mediasoup_cpp.Trace.{create}
use mediasoup_cpp.Controller.{Controller, World, threw, nothing}
use mediasoup_cpp.Profiles.{default_camera_profile}

-- Signals with a loss, a round trip time and a jitter in thousandths, sending at full rate.
abbrev pub measured_signals : ℕ → ℕ → ℕ → Bool → Signals Milli
measured_signals loss rtt jitter limited = record {
  packets_sent_delta = milli 100_000;
  packets_lost_delta = milli 0;
  retransmitted_packets_sent_delta = milli 0;
  send_bitrate_bps = milli 900_000_000;
  target_bitrate_bps = milli 900_000_000;
  bitrate_utilization = milli 1000;
  loss_rate = milli loss;
  loss_ewma = milli loss;
  rtt_ms = milli rtt;
  rtt_ewma = milli rtt;
  jitter_ms = milli jitter;
  jitter_ewma = milli jitter;
  cpu_limited = false;
  bandwidth_limited = limited;
  reason = Reason.unknown;
}

abbrev pub calm_signals : Signals Milli
calm_signals = measured_signals 0 50_000 5000 false

abbrev pub limited_signals : Signals Milli
limited_signals = measured_signals 90 50_000 5000 true

abbrev pub lossy_signals : Signals Milli
lossy_signals = measured_signals 50 50_000 5000 false

unfoldable pub camera_profile : Profile Milli
unfolding default_camera_profile
camera_profile = default_camera_profile

abbrev pub calm_at : ℕ → Sample Milli
calm_at t = record { signals = calm_signals; at_ms = t }

abbrev pub limited_at : ℕ → Sample Milli
limited_at t = record { signals = limited_signals; at_ms = t }

abbrev pub lossy_at : ℕ → Sample Milli
lossy_at t = record { signals = lossy_signals; at_ms = t }

-- A raw snapshot with counters, and a reason for its limitation.
abbrev pub snapshot_of : ℕ → ℕ → ℕ → LimitationReason → RawSnapshot Milli
snapshot_of time sent lost reason = record {
  timestamp_ms = milli (time * 1000);
  bytes_sent = some (milli (sent * 1000_000));
  packets_sent = some (milli (sent * 1000));
  packets_lost = some (milli (lost * 1000));
  retransmitted_packets_sent = none;
  target_bitrate_bps = some (milli 900_000_000);
  configured_bitrate_bps = some (milli 900_000_000);
  round_trip_time_ms = some (milli 50_000);
  jitter_ms = some (milli 5000);
  frame_width = none;
  frame_height = none;
  frames_per_second = none;
  quality_limitation_reason = some reason;
}

abbrev pub sampler : Sampler
sampler = record {
  interval_ms = 1000;
  running = false;
  timer = none;
  sampling = false;
  has_listener = false;
}

abbrev pub camera_at : Context → Option Probe → Option ℕ → Controller Milli
camera_at context probe suppressed = record {
  track_id = codes "track-1";
  kind = TrackKind.video;
  producer_id = none;
  has_channel = true;
  profile = camera_profile;
  seq = 7;
  running = true;
  current_level = 2;
  in_audio_only_mode = false;
  sample_interval_ms = 1000;
  snapshot_interval_ms = 2000;
  allow_audio_only = true;
  allow_video_pause = false;
  cpu_sample_count = 0;
  recovery_probe_success_streak = 0;
  recovery_probe_grace_until_ms = none;
  recovery_suppressed_until_ms = suppressed;
  state_context = context;
  trace = create none;
  sampler = sampler;
  probe_context = probe;
  active_overrides = [];
  coordination_override = none;
  last_action = none;
  last_sample_error = none;
  last_published_at_ms = none;
  previous_snapshot = none;
  previous_signals = none;
}

abbrev pub camera : Controller Milli
camera = camera_at (initial_context 0) none none

-- An executor that carries everything out, and one that throws.
abbrev pub willing : World Milli
willing = record { executor = λ n a. nothing; channel = λ r. none }

abbrev pub failing : World Milli
failing = record { executor = λ n a. threw (codes "gone"); channel = λ r. some (codes "closed") }

-- The sender is limited by its bandwidth.
abbrev pub limited : RawSnapshot Milli
limited = snapshot_of 5000 10 1 LimitationReason.bandwidth
