-- ===== src/Controller/Wire.antt =====
-- The report of src/client/lib/qos/controller.js as the payload of `publishSnapshot`, and the check of
-- src/client/lib/qos/protocol.js that it meets on its way out.
use mediasoup_cpp.Shared.{
  ℕ, ◌≤◌, ◌<◌, ◌^◌, ◌≡◌, Bool, false, Option, none, some, [], ◌∷◌, Number, IsOrdered, arith, ok,
}
use mediasoup_cpp.Types.{ActionType}
use mediasoup_cpp.Protocol.{
  TrackSignals, TrackAction, ClientSnapshot, client_qos_snapshot_value,
  serialize_client_qos_snapshot, OnSome, IsId, IsCount, AreSignals,
}
use mediasoup_cpp.Protocol.RoundTrip.{parse_client_qos_snapshot-value}
use mediasoup_cpp.Controller.State.{Report}
use mediasoup_cpp.Controller.Actions.{qos_max_seq}

abbrev pub track_action_of : Option (ActionType × Bool) → Option TrackAction
track_action_of none = none
track_action_of (some (type, applied)) = some (record { action_type = type; applied = applied })

module _ {W : Type 0} ⦃num : Number W⦄ where
  open num use {decimal, is_finite, is_integer, lt}

  abbrev pub payload_signals : Report W → TrackSignals W
  payload_signals r = record {
    send_bitrate_bps = r.signals.send_bitrate_bps;
    target_bitrate_bps = some r.signals.target_bitrate_bps;
    loss_rate = some r.signals.loss_rate;
    rtt_ms = some r.signals.rtt_ms;
    jitter_ms = some r.signals.jitter_ms;
    frame_width = r.frame_width;
    frame_height = r.frame_height;
    frames_per_second = r.frames_per_second;
    quality_limitation_reason = r.quality_limitation_reason;
  }

  unfoldable pub payload_of : Report W → ClientSnapshot W
  payload_of r = record {
    seq = decimal r.seq 0;
    ts_ms = decimal r.ts_ms 0;
    mode = r.mode;
    quality = r.quality;
    stale = r.stale;
    tracks =
        record {
          local_track_id = r.track_id;
          producer_id = r.producer_id;
          kind = r.kind;
          source = r.source;
          state = r.state;
          reason = r.reason;
          quality = r.quality;
          ladder_level = decimal r.ladder_level 0;
          signals = payload_signals r;
          last_action = track_action_of r.last_action;
        }
        ∷ [];
  }

  -- What the engine and the application owe to a report: identifiers, measurements and a time.
  pub record IsMeasured (r : Report W) : Type 0 where
    pub id : IsId r.track_id
    pub producer : OnSome IsId r.producer_id
    pub signals : AreSignals (payload_signals r)
    pub time : r.ts_ms < 2 ^ 53

  module _ (laws : IsOrdered W) where
    open laws use {decimal_le, decimal_finite, decimal_integer, lt-not-ge}

    not_lt : (a b : ℕ) → a ≤ b → lt (decimal b 0) (decimal a 0) ≡ false
    not_lt a b h =
        ground (arith, lt-not-ge (decimal b 0) (decimal a 0), decimal_le a 0 b 0 (omega arith))

    IsCount-decimal : (n : ℕ) → n < 2 ^ 53 → IsCount (decimal n 0)
    IsCount-decimal n h = (decimal_finite n 0 h, decimal_integer n h, not_lt 0 n (omega arith))

    -- A report with a number in range that is for a rung below 2 ^ 53, made of proper identifiers and
    -- measurements, passes the check of the channel and goes out as it is.
    pub serialize-payload_of :
        (r : Report W)
        → IsMeasured r
        → r.seq ≤ qos_max_seq
        → r.ladder_level < 2 ^ 53
        → serialize_client_qos_snapshot (client_qos_snapshot_value (payload_of r))
          ≡ ok (payload_of r)
    unfolding serialize_client_qos_snapshot payload_of
    serialize-payload_of r m s l = parse_client_qos_snapshot-value (payload_of r) (record {
      seq = IsCount-decimal r.seq (omega arith);
      seq_le = not_lt r.seq qos_max_seq s;
      time = (decimal_finite r.ts_ms 0 m.time, not_lt 0 r.ts_ms (omega arith));
      few = omega arith;
      tracks = (
        record {
          id = m.id;
          producer = m.producer;
          level = IsCount-decimal r.ladder_level l;
          signals = m.signals;
        },
        tt,
      );
    })
