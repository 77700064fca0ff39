-- ===== src/Protocol/Examples.antt =====
-- Payloads of src/client/lib/qos/protocol.js that are read and read again.
use mediasoup_cpp.Shared.{
  ◌≡◌, refl, true, false, none, some, [], ◌∷◌, codes, ok, ◌>>=◌, Milli, milli, milli_number,
}
use mediasoup_cpp.Types.{camera, TrackKind, stable, network, good, audio_video, LimitationReason}
use mediasoup_cpp.Overrides.{track}
use mediasoup_cpp.Dynamic.{get, count_items}
use mediasoup_cpp.Protocol.{
  ClientSnapshot, OverridePayload, named, parse_tracks, parse_track_snapshot, parse_track_signals,
  track_snapshot_value, track_signals_value, as_object, as_array, as_string, as_string_enum,
  as_non_empty_string, optional_value, as_non_negative_int, as_non_negative_number, as_int,
  as_finite_number, as_boolean, member_of, parse_track_ref, parse_client_qos_snapshot,
  serialize_client_qos_snapshot, parse_qos_override, client_qos_snapshot_value, qos_override_value,
  IsClientSnapshot, IsOverride,
}
use mediasoup_cpp.Protocol.Exchange.{serialize_client_qos_snapshot-parse, parse_qos_override-parse}

abbrev override : OverridePayload Milli
override = record {
  scope = track;
  track_id = named (codes "track-1");
  max_level_clamp = some (milli 2000);
  force_audio_only = none;
  disable_recovery = some true;
  pause_upstream = some true;
  resume_upstream = none;
  ttl_ms = milli 10_000_000;
  reason = codes "server_room_pressure";
}

override-read : parse_qos_override (qos_override_value override) ≡ ok override
unfolding parse_qos_override ◌>>=◌ as_object qos_override_value as_string get as_string_enum
    parse_track_ref as_non_empty_string optional_value as_non_negative_int as_boolean
override-read = refl

parse_qos_override-parse_example :
    IsOverride override × (parse_qos_override (qos_override_value override) ≡ ok override)
parse_qos_override-parse_example =
    parse_qos_override-parse (qos_override_value override) override override-read

abbrev snapshot : ClientSnapshot Milli
snapshot = record {
  seq = milli 3000;
  ts_ms = milli 1_000_000;
  mode = audio_video;
  quality = good;
  stale = false;
  tracks =
      record {
        local_track_id = codes "track-1";
        producer_id = none;
        kind = TrackKind.video;
        source = camera;
        state = stable;
        reason = network;
        quality = good;
        ladder_level = milli 1000;
        signals = record {
          send_bitrate_bps = milli 900_000_000;
          target_bitrate_bps = none;
          loss_rate = some (milli 20);
          rtt_ms = none;
          jitter_ms = none;
          frame_width = some (milli 640_000);
          frame_height = none;
          frames_per_second = none;
          quality_limitation_reason = some LimitationReason.cpu;
        };
        last_action = none;
      }
      ∷ [];
}

snapshot-sent : serialize_client_qos_snapshot (client_qos_snapshot_value snapshot) ≡ ok snapshot
unfolding serialize_client_qos_snapshot parse_client_qos_snapshot parse_tracks parse_track_snapshot
    parse_track_signals client_qos_snapshot_value track_snapshot_value track_signals_value ◌>>=◌
    as_object as_array as_string get count_items as_string_enum as_non_empty_string optional_value
    as_non_negative_int as_non_negative_number as_int as_finite_number as_boolean member_of
snapshot-sent = refl

serialize_client_qos_snapshot-parse_example :
    IsClientSnapshot snapshot
    × (parse_client_qos_snapshot (client_qos_snapshot_value snapshot) ≡ ok snapshot)
serialize_client_qos_snapshot-parse_example =
    serialize_client_qos_snapshot-parse (client_qos_snapshot_value snapshot) snapshot snapshot-sent
