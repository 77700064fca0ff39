-- ===== src/Protocol/Naming.antt =====
-- The names of the wire are told apart: src/client/lib/qos/protocol.js.
use mediasoup_cpp.Shared.{◌≡◌, refl, some}
use mediasoup_cpp.Types.{
  Source, camera, screen_share, TrackKind, QosState, stable, early_warning, congested, recovering,
  Quality, excellent, good, poor, lost, Reason, network, manual, server_override, LimitationReason,
  bandwidth, other, not_limited, PeerMode, audio_only, audio_video, video_only, ActionType,
}
use mediasoup_cpp.Overrides.{Scope, peer, track}
use mediasoup_cpp.Protocol.Readers.{member_of}
use mediasoup_cpp.Protocol.Payloads.{
  limitation_names, action_names, kind_names, source_names, state_names, reason_names,
  quality_names, mode_names, scope_names,
}
use mediasoup_cpp.Protocol.Values.{
  limitation_name, action_name, kind_name, source_name, state_name, reason_name, quality_name,
  mode_name, scope_name,
}

pub member_of-limitation_name :
    (a : LimitationReason) → member_of (limitation_name a) limitation_names ≡ some a
unfolding member_of
member_of-limitation_name bandwidth = refl
member_of-limitation_name LimitationReason.cpu = refl
member_of-limitation_name other = refl
member_of-limitation_name not_limited = refl
member_of-limitation_name LimitationReason.unknown = refl

pub member_of-action_name : (a : ActionType) → member_of (action_name a) action_names ≡ some a
unfolding member_of
member_of-action_name ActionType.set_encoding_parameters = refl
member_of-action_name ActionType.set_max_spatial_layer = refl
member_of-action_name ActionType.enter_audio_only = refl
member_of-action_name ActionType.exit_audio_only = refl
member_of-action_name ActionType.pause_upstream = refl
member_of-action_name ActionType.resume_upstream = refl
member_of-action_name ActionType.noop = refl

pub member_of-kind_name : (a : TrackKind) → member_of (kind_name a) kind_names ≡ some a
unfolding member_of
member_of-kind_name TrackKind.audio = refl
member_of-kind_name TrackKind.video = refl

pub member_of-source_name : (a : Source) → member_of (source_name a) source_names ≡ some a
unfolding member_of
member_of-source_name camera = refl
member_of-source_name screen_share = refl
member_of-source_name Source.audio = refl

pub member_of-state_name : (a : QosState) → member_of (state_name a) state_names ≡ some a
unfolding member_of
member_of-state_name stable = refl
member_of-state_name early_warning = refl
member_of-state_name congested = refl
member_of-state_name recovering = refl

pub member_of-reason_name : (a : Reason) → member_of (reason_name a) reason_names ≡ some a
unfolding member_of
member_of-reason_name network = refl
member_of-reason_name Reason.cpu = refl
member_of-reason_name manual = refl
member_of-reason_name server_override = refl
member_of-reason_name Reason.unknown = refl

pub member_of-quality_name : (a : Quality) → member_of (quality_name a) quality_names ≡ some a
unfolding member_of
member_of-quality_name excellent = refl
member_of-quality_name good = refl
member_of-quality_name poor = refl
member_of-quality_name lost = refl

pub member_of-mode_name : (a : PeerMode) → member_of (mode_name a) mode_names ≡ some a
unfolding member_of
member_of-mode_name audio_only = refl
member_of-mode_name audio_video = refl
member_of-mode_name video_only = refl

pub member_of-scope_name : (a : Scope) → member_of (scope_name a) scope_names ≡ some a
unfolding member_of
member_of-scope_name peer = refl
member_of-scope_name track = refl
