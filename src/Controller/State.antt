-- ===== src/Controller/State.antt =====
-- The state of `PublisherQosController` (src/client/lib/qos/controller.js) and what it sends out.
use mediasoup_cpp.Shared.{
  ℕ, ℤ, non_negative, Bool, true, false, Option, none, some, or_else, [], Text,
}
use mediasoup_cpp.Types.{
  Source, TrackKind, QosState, Quality, Reason, LimitationReason, PeerMode, RawSnapshot, Signals,
  Profile, ActionType,
}
use mediasoup_cpp.StateMachine.{Context, initial_context}
use mediasoup_cpp.Probe.{Probe}
use mediasoup_cpp.Overrides.{Table}
use mediasoup_cpp.Sampler.{Sampler, new_sampler}
use mediasoup_cpp.Trace.{TraceBuffer, create}

-- The five signals that traces and reports carry.
pub record ReportedSignals (W : Type 0) : Type 0 where
  pub send_bitrate_bps : W
  pub target_bitrate_bps : W
  pub loss_rate : W
  pub rtt_ms : W
  pub jitter_ms : W

pub data TraceProbe : Type 0 where
  running_probe : ℕ → ℕ → TraceProbe
  failed_probe : ℕ → ℕ → TraceProbe

pub record TraceEntry (W : Type 0) : Type 0 where
  pub seq : ℕ
  pub ts_ms : ℕ
  pub track_id : Text
  pub source : Source
  pub state_before : QosState
  pub state_after : QosState
  pub reason : Reason
  pub signals : ReportedSignals W
  pub action_type : ActionType
  pub action_level : ℕ
  pub applied : Bool
  pub probe : Option TraceProbe

-- The override that the peer's coordinator puts on a track; a missing flag is `false`.
pub record Coordination : Type 0 where
  pub max_level_clamp : Option ℕ
  pub disable_recovery : Bool
  pub force_audio_only : Bool
  pub pause_upstream : Bool
  pub resume_upstream : Bool

-- The report that `publishSnapshot` sends: one track, with the peer's state above it.
pub record Report (W : Type 0) : Type 0 where
  pub seq : ℕ
  pub ts_ms : ℕ
  pub mode : PeerMode
  pub quality : Quality
  pub stale : Bool
  pub track_id : Text
  pub producer_id : Option Text
  pub kind : TrackKind
  pub source : Source
  pub state : QosState
  pub reason : Reason
  pub ladder_level : ℕ
  pub signals : ReportedSignals W
  pub frame_width : Option W
  pub frame_height : Option W
  pub frames_per_second : Option W
  pub quality_limitation_reason : Option LimitationReason
  pub last_action : Option (ActionType × Bool)

-- `activeOverride` is not a field: every read of it merges the table anew.
pub record Controller (W : Type 0) : Type 0 where
  pub track_id : Text
  pub kind : TrackKind
  pub producer_id : Option Text
  pub has_channel : Bool
  pub profile : Profile W
  pub seq : ℕ
  pub running : Bool
  pub current_level : ℕ
  pub in_audio_only_mode : Bool
  pub sample_interval_ms : ℕ
  pub snapshot_interval_ms : ℕ
  pub allow_audio_only : Bool
  pub allow_video_pause : Bool
  pub cpu_sample_count : ℕ
  pub recovery_probe_success_streak : ℕ
  pub recovery_probe_grace_until_ms : Option ℕ
  pub recovery_suppressed_until_ms : Option ℕ
  pub state_context : Context
  pub trace : TraceBuffer (TraceEntry W)
  pub sampler : Sampler
  pub probe_context : Option Probe
  pub active_overrides : Table
  pub coordination_override : Option Coordination
  pub last_action : Option (ActionType × Bool)
  pub last_sample_error : Option Text
  pub last_published_at_ms : Option ℕ
  pub previous_snapshot : Option (RawSnapshot W)
  pub previous_signals : Option (Signals W)

pub record ControllerOptions (W : Type 0) : Type 0 where
  pub profile : Profile W
  pub track_id : Text
  pub kind : TrackKind
  pub producer_id : Option Text
  pub has_channel : Bool
  pub initial_level : Option ℤ
  pub initial_audio_only_mode : Bool
  pub snapshot_interval_ms : Option ℕ
  pub sample_interval_ms : Option ℕ
  pub allow_audio_only : Option Bool
  pub allow_video_pause : Option Bool
  pub trace_capacity : Option ℤ

abbrev pub level_of_option : Option ℤ → ℕ
level_of_option none = 0
level_of_option (some level) = non_negative level

module _ {W : Type 0} where
  abbrev pub reported : Signals W → ReportedSignals W
  reported s = record {
    send_bitrate_bps = s.send_bitrate_bps;
    target_bitrate_bps = s.target_bitrate_bps;
    loss_rate = s.loss_rate;
    rtt_ms = s.rtt_ms;
    jitter_ms = s.jitter_ms;
  }

  abbrev pub with_sampler : ControllerOptions W → ℕ → Option Sampler → Option (Controller W)
  with_sampler o now none = none
  with_sampler o now (some sampler) = some (record {
    track_id = o.track_id;
    kind = o.kind;
    producer_id = o.producer_id;
    has_channel = o.has_channel;
    profile = o.profile;
    seq = 0;
    running = false;
    current_level = level_of_option o.initial_level;
    in_audio_only_mode = o.initial_audio_only_mode;
    sample_interval_ms = or_else o.sample_interval_ms o.profile.sample_interval_ms;
    snapshot_interval_ms = or_else o.snapshot_interval_ms o.profile.snapshot_interval_ms;
    allow_audio_only = or_else o.allow_audio_only true;
    allow_video_pause = or_else o.allow_video_pause true;
    cpu_sample_count = 0;
    recovery_probe_success_streak = 0;
    recovery_probe_grace_until_ms = none;
    recovery_suppressed_until_ms = none;
    state_context = initial_context now;
    trace = create o.trace_capacity;
    sampler = sampler;
    probe_context = none;
    active_overrides = [];
    coordination_override = none;
    last_action = none;
    last_sample_error = none;
    last_published_at_ms = none;
    previous_snapshot = none;
    previous_signals = none;
  })

  -- The constructor, at the time `now`; `none` is the sampler's `TypeError`.
  unfoldable pub new_controller : ControllerOptions W → ℕ → Option (Controller W)
  new_controller o now =
      with_sampler o now (new_sampler (or_else o.sample_interval_ms o.profile.sample_interval_ms))
