-- ===== src/Types/Snapshots.antt =====
-- `RawSenderSnapshot` and `DerivedQosSignals` of src/client/lib/qos/types.d.ts.
use mediasoup_cpp.Shared.{Bool, Option}
use mediasoup_cpp.Types.Enums.{Reason, LimitationReason}

pub record RawSnapshot (W : Type 0) : Type 0 where
  pub timestamp_ms : W
  pub bytes_sent : Option W
  pub packets_sent : Option W
  pub packets_lost : Option W
  pub retransmitted_packets_sent : Option W
  pub target_bitrate_bps : Option W
  pub configured_bitrate_bps : Option W
  pub round_trip_time_ms : Option W
  pub jitter_ms : Option W
  pub frame_width : Option W
  pub frame_height : Option W
  pub frames_per_second : Option W
  pub quality_limitation_reason : Option LimitationReason

pub record Signals (W : Type 0) : Type 0 where
  pub packets_sent_delta : W
  pub packets_lost_delta : W
  pub retransmitted_packets_sent_delta : W
  pub send_bitrate_bps : W
  pub target_bitrate_bps : W
  pub bitrate_utilization : W
  pub loss_rate : W
  pub loss_ewma : W
  pub rtt_ms : W
  pub rtt_ewma : W
  pub jitter_ms : W
  pub jitter_ewma : W
  pub cpu_limited : Bool
  pub bandwidth_limited : Bool
  pub reason : Reason
