-- ===== src/Controller/WireExample.antt =====
-- A report of a camera as a payload of src/client/lib/qos/protocol.js.
use mediasoup_cpp.Shared.{
  ◌≡◌, refl, false, none, some, codes, arith, ok, Milli, milli, milli_number, Milli-IsOrdered,
}
use mediasoup_cpp.Types.{
  camera, TrackKind, stable, network, good, audio_video, LimitationReason, ActionType,
}
use mediasoup_cpp.Protocol.{serialize_client_qos_snapshot, client_qos_snapshot_value}
use mediasoup_cpp.Controller.State.{Report}
use mediasoup_cpp.Controller.Wire.{payload_of, IsMeasured, serialize-payload_of}

abbrev report : Report Milli
report = record {
  seq = 3;
  ts_ms = 1000;
  mode = audio_video;
  quality = good;
  stale = false;
  track_id = codes "track-1";
  producer_id = none;
  kind = TrackKind.video;
  source = camera;
  state = stable;
  reason = network;
  ladder_level = 1;
  signals = record {
    send_bitrate_bps = milli 900_000_000;
    target_bitrate_bps = milli 900_000_000;
    loss_rate = milli 20;
    rtt_ms = milli 50_000;
    jitter_ms = milli 5000;
  };
  frame_width = some (milli 640_000);
  frame_height = none;
  frames_per_second = none;
  quality_limitation_reason = some LimitationReason.cpu;
  last_action = some (ActionType.noop, false);
}

report-IsMeasured : IsMeasured report
report-IsMeasured = record {
  id = refl;
  producer = tt;
  signals = record {
    send = (refl, refl);
    target = (refl, refl);
    loss = (refl, refl);
    rtt = (refl, refl);
    jitter = (refl, refl);
    width = (refl, refl, refl);
    height = tt;
    rate = tt;
  };
  time = omega arith;
}

serialize-payload_of_example :
    serialize_client_qos_snapshot (client_qos_snapshot_value (payload_of report))
    ≡ ok (payload_of report)
serialize-payload_of_example =
    serialize-payload_of Milli-IsOrdered report report-IsMeasured (omega arith) (omega arith)
