-- ===== src/Protocol/Payloads.antt =====
-- The payloads of src/client/lib/qos/protocol.js as records, and the names that the wire has for the
-- members of the unions of types.d.ts.
use mediasoup_cpp.Shared.{ℕ, Bool, Option, List, [], ◌∷◌, Text, codes}
use mediasoup_cpp.Types.{
  Source, camera, screen_share, TrackKind, QosState, stable, early_warning, congested, recovering,
  Quality, excellent, good, poor, lost, Reason, network, manual, server_override, LimitationReason,
  bandwidth, other, not_limited, PeerMode, audio_only, audio_video, video_only, ActionType,
}
use mediasoup_cpp.Overrides.{Scope, peer, track}

pub record TrackSignals (W : Type 0) : Type 0 where
  pub send_bitrate_bps : W
  pub target_bitrate_bps : Option W
  pub loss_rate : Option W
  pub rtt_ms : Option W
  pub jitter_ms : Option W
  pub frame_width : Option W
  pub frame_height : Option W
  pub frames_per_second : Option W
  pub quality_limitation_reason : Option LimitationReason

pub record TrackAction : Type 0 where
  pub action_type : ActionType
  pub applied : Bool

pub record TrackSnapshot (W : Type 0) : Type 0 where
  pub local_track_id : Text
  pub producer_id : Option Text
  pub kind : TrackKind
  pub source : Source
  pub state : QosState
  pub reason : Reason
  pub quality : Quality
  pub ladder_level : W
  pub signals : TrackSignals W
  pub last_action : Option TrackAction

pub record ClientSnapshot (W : Type 0) : Type 0 where
  pub seq : W
  pub ts_ms : W
  pub mode : PeerMode
  pub quality : Quality
  pub stale : Bool
  pub tracks : List (TrackSnapshot W)

pub record PolicyPayload (W : Type 0) : Type 0 where
  pub sample_interval_ms : W
  pub snapshot_interval_ms : W
  pub allow_audio_only : Bool
  pub allow_video_pause : Bool
  pub camera_profile : Text
  pub screen_share_profile : Text
  pub audio_profile : Text

-- `trackId`, which may be missing, `null` or a text.
pub data TrackRef : Type 0 where
  unnamed null_track : TrackRef
  named : Text → TrackRef

pub record OverridePayload (W : Type 0) : Type 0 where
  pub scope : Scope
  pub track_id : TrackRef
  pub max_level_clamp : Option W
  pub force_audio_only : Option Bool
  pub disable_recovery : Option Bool
  pub pause_upstream : Option Bool
  pub resume_upstream : Option Bool
  pub ttl_ms : W
  pub reason : Text

abbrev pub client_schema : Text
client_schema = codes "mediasoup.qos.client.v1"

abbrev pub policy_schema : Text
policy_schema = codes "mediasoup.qos.policy.v1"

abbrev pub override_schema : Text
override_schema = codes "mediasoup.qos.override.v1"

abbrev pub max_tracks_per_snapshot : ℕ
max_tracks_per_snapshot = 32

abbrev pub limitation_names : List (Text × LimitationReason)
limitation_names =
    (codes "bandwidth", bandwidth)
    ∷ (codes "cpu", LimitationReason.cpu)
    ∷ (codes "other", other)
    ∷ (codes "none", not_limited)
    ∷ (codes "unknown", LimitationReason.unknown)
    ∷ []

abbrev pub action_names : List (Text × ActionType)
action_names =
    (codes "setEncodingParameters", ActionType.set_encoding_parameters)
    ∷ (codes "setMaxSpatialLayer", ActionType.set_max_spatial_layer)
    ∷ (codes "enterAudioOnly", ActionType.enter_audio_only)
    ∷ (codes "exitAudioOnly", ActionType.exit_audio_only)
    ∷ (codes "pauseUpstream", ActionType.pause_upstream)
    ∷ (codes "resumeUpstream", ActionType.resume_upstream)
    ∷ (codes "noop", ActionType.noop)
    ∷ []

abbrev pub kind_names : List (Text × TrackKind)
kind_names = (codes "audio", TrackKind.audio) ∷ (codes "video", TrackKind.video) ∷ []

abbrev pub source_names : List (Text × Source)
source_names =
    (codes "camera", camera)
    ∷ (codes "screenShare", screen_share)
    ∷ (codes "audio", Source.audio)
    ∷ []

abbrev pub state_names : List (Text × QosState)
state_names =
    (codes "stable", stable)
    ∷ (codes "early_warning", early_warning)
    ∷ (codes "congested", congested)
    ∷ (codes "recovering", recovering)
    ∷ []

abbrev pub reason_names : List (Text × Reason)
reason_names =
    (codes "network", network)
    ∷ (codes "cpu", Reason.cpu)
    ∷ (codes "manual", manual)
    ∷ (codes "server_override", server_override)
    ∷ (codes "unknown", Reason.unknown)
    ∷ []

abbrev pub quality_names : List (Text × Quality)
quality_names =
    (codes "excellent", excellent)
    ∷ (codes "good", good)
    ∷ (codes "poor", poor)
    ∷ (codes "lost", lost)
    ∷ []

abbrev pub mode_names : List (Text × PeerMode)
mode_names =
    (codes "audio-only", audio_only)
    ∷ (codes "audio-video", audio_video)
    ∷ (codes "video-only", video_only)
    ∷ []

abbrev pub scope_names : List (Text × Scope)
scope_names = (codes "peer", peer) ∷ (codes "track", track) ∷ []
