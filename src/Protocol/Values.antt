-- ===== src/Protocol/Values.antt =====
-- The payloads of src/client/lib/qos/protocol.js as the objects that the parsers return and that are
-- sent: a field that is `undefined` is there, with that value.
use mediasoup_cpp.Shared.{Option, none, some, List, [], ◌∷◌, Text, codes}
use mediasoup_cpp.Types.{
  Source, camera, screen_share, TrackKind, QosState, stable, early_warning, congested, recovering,
  Quality, excellent, good, poor, lost, Reason, network, manual, server_override, LimitationReason,
  bandwidth, other, not_limited, PeerMode, audio_only, audio_video, video_only, ActionType,
}
use mediasoup_cpp.Overrides.{Scope, peer, track}
use mediasoup_cpp.Dynamic.{
  Value, missing, null, boolean, number, text, array, object, Items, no_items, item, no_fields,
  field,
}
use mediasoup_cpp.Protocol.Payloads.{
  TrackSignals, TrackAction, TrackSnapshot, ClientSnapshot, PolicyPayload, TrackRef, unnamed,
  null_track, named, OverridePayload, client_schema, policy_schema, override_schema,
}

abbrev pub limitation_name : LimitationReason → Text
limitation_name bandwidth = codes "bandwidth"
limitation_name LimitationReason.cpu = codes "cpu"
limitation_name other = codes "other"
limitation_name not_limited = codes "none"
limitation_name LimitationReason.unknown = codes "unknown"

abbrev pub action_name : ActionType → Text
action_name ActionType.set_encoding_parameters = codes "setEncodingParameters"
action_name ActionType.set_max_spatial_layer = codes "setMaxSpatialLayer"
action_name ActionType.enter_audio_only = codes "enterAudioOnly"
action_name ActionType.exit_audio_only = codes "exitAudioOnly"
action_name ActionType.pause_upstream = codes "pauseUpstream"
action_name ActionType.resume_upstream = codes "resumeUpstream"
action_name ActionType.noop = codes "noop"

abbrev pub kind_name : TrackKind → Text
kind_name TrackKind.audio = codes "audio"
kind_name TrackKind.video = codes "video"

abbrev pub source_name : Source → Text
source_name camera = codes "camera"
source_name screen_share = codes "screenShare"
source_name Source.audio = codes "audio"

abbrev pub state_name : QosState → Text
state_name stable = codes "stable"
state_name early_warning = codes "early_warning"
state_name congested = codes "congested"
state_name recovering = codes "recovering"

abbrev pub reason_name : Reason → Text
reason_name network = codes "network"
reason_name Reason.cpu = codes "cpu"
reason_name manual = codes "manual"
reason_name server_override = codes "server_override"
reason_name Reason.unknown = codes "unknown"

abbrev pub quality_name : Quality → Text
quality_name excellent = codes "excellent"
quality_name good = codes "good"
quality_name poor = codes "poor"
quality_name lost = codes "lost"

abbrev pub mode_name : PeerMode → Text
mode_name audio_only = codes "audio-only"
mode_name audio_video = codes "audio-video"
mode_name video_only = codes "video-only"

abbrev pub scope_name : Scope → Text
scope_name peer = codes "peer"
scope_name track = codes "track"

module _ {W : Type 0} where
  abbrev pub or_missing : {A : Type 0} → (A → Value W) → Option A → Value W
  or_missing print none = missing
  or_missing print (some a) = print a

  unfoldable pub track_signals_value : TrackSignals W → Value W
  track_signals_value s = object (
      field (codes "sendBitrateBps") (number s.send_bitrate_bps) (
        field (codes "targetBitrateBps") (or_missing number s.target_bitrate_bps) (
          field (codes "lossRate") (or_missing number s.loss_rate) (
            field (codes "rttMs") (or_missing number s.rtt_ms) (
              field (codes "jitterMs") (or_missing number s.jitter_ms) (
                field (codes "frameWidth") (or_missing number s.frame_width) (
                  field (codes "frameHeight") (or_missing number s.frame_height) (
                    field (codes "framesPerSecond") (or_missing number s.frames_per_second) (
                      field (codes "qualityLimitationReason")
                        (or_missing (λ r. text (limitation_name r)) s.quality_limitation_reason)
                        no_fields)))))))))

  unfoldable pub track_action_value : TrackAction → Value W
  track_action_value a = object (
      field (codes "type") (text (action_name a.action_type))
        (field (codes "applied") (boolean a.applied) no_fields))

  unfoldable pub track_snapshot_value : TrackSnapshot W → Value W
  unfolding track_signals_value track_action_value
  track_snapshot_value t = object (
      field (codes "localTrackId") (text t.local_track_id) (
        field (codes "producerId") (or_missing text t.producer_id) (
          field (codes "kind") (text (kind_name t.kind)) (
            field (codes "source") (text (source_name t.source)) (
              field (codes "state") (text (state_name t.state)) (
                field (codes "reason") (text (reason_name t.reason)) (
                  field (codes "quality") (text (quality_name t.quality)) (
                    field (codes "ladderLevel") (number t.ladder_level) (
                      field (codes "signals") (track_signals_value t.signals) (
                        field (codes "lastAction") (or_missing track_action_value t.last_action)
                          no_fields))))))))))

  abbrev pub items_of : {A : Type 0} → (A → Value W) → List A → Items W
  items_of print [] = no_items
  items_of print (a ∷ rest) = item (print a) (items_of print rest)

  unfoldable pub client_qos_snapshot_value : ClientSnapshot W → Value W
  unfolding track_snapshot_value
  client_qos_snapshot_value s = object (
      field (codes "schema") (text client_schema) (
        field (codes "seq") (number s.seq) (
          field (codes "tsMs") (number s.ts_ms) (
            field (codes "peerState")
              (object (
                field (codes "mode") (text (mode_name s.mode)) (
                  field (codes "quality") (text (quality_name s.quality))
                    (field (codes "stale") (boolean s.stale) no_fields))))
              (field (codes "tracks") (array (items_of track_snapshot_value s.tracks))
                no_fields)))))

  unfoldable pub qos_policy_value : PolicyPayload W → Value W
  qos_policy_value p = object (
      field (codes "schema") (text policy_schema) (
        field (codes "sampleIntervalMs") (number p.sample_interval_ms) (
          field (codes "snapshotIntervalMs") (number p.snapshot_interval_ms) (
            field (codes "allowAudioOnly") (boolean p.allow_audio_only) (
              field (codes "allowVideoPause") (boolean p.allow_video_pause) (
                field (codes "profiles")
                  (object (
                    field (codes "camera") (text p.camera_profile) (
                      field (codes "screenShare") (text p.screen_share_profile)
                        (field (codes "audio") (text p.audio_profile) no_fields))))
                  no_fields))))))

  abbrev pub track_ref_value : TrackRef → Value W
  track_ref_value unnamed = missing
  track_ref_value null_track = null
  track_ref_value (named s) = text s

  unfoldable pub qos_override_value : OverridePayload W → Value W
  qos_override_value o = object (
      field (codes "schema") (text override_schema) (
        field (codes "scope") (text (scope_name o.scope)) (
          field (codes "trackId") (track_ref_value o.track_id) (
            field (codes "maxLevelClamp") (or_missing number o.max_level_clamp) (
              field (codes "forceAudioOnly") (or_missing boolean o.force_audio_only) (
                field (codes "disableRecovery") (or_missing boolean o.disable_recovery) (
                  field (codes "pauseUpstream") (or_missing boolean o.pause_upstream) (
                    field (codes "resumeUpstream") (or_missing boolean o.resume_upstream) (
                      field (codes "ttlMs") (number o.ttl_ms)
                        (field (codes "reason") (text o.reason) no_fields))))))))))
