-- ===== src/Types/Profiles.antt =====
-- `QosThresholds`, `QosLadderStep` and `QosProfile` of src/client/lib/qos/types.d.ts.
use mediasoup_cpp.Shared.{ℕ, Bool, Option, List, Text}
use mediasoup_cpp.Types.Enums.{Source}

pub record Thresholds (W : Type 0) : Type 0 where
  pub warn_loss_rate : W
  pub congested_loss_rate : W
  pub warn_rtt_ms : W
  pub congested_rtt_ms : W
  pub warn_jitter_ms : Option W
  pub congested_jitter_ms : Option W
  pub warn_bitrate_utilization : W
  pub congested_bitrate_utilization : W
  pub stable_loss_rate : W
  pub stable_rtt_ms : W
  pub stable_jitter_ms : Option W
  pub stable_bitrate_utilization : W

pub record EncodingParameters (W : Type 0) : Type 0 where
  pub max_bitrate_bps : Option W
  pub max_framerate : Option W
  pub scale_resolution_down_by : Option W
  pub adaptive_ptime : Option Bool

pub record LadderStep (W : Type 0) : Type 0 where
  pub level : ℕ
  pub description : Text
  pub encoding_parameters : Option (EncodingParameters W)
  pub spatial_layer : Option ℕ
  pub enter_audio_only : Bool
  pub pause_upstream : Bool
  pub resume_upstream : Bool

pub record Profile (W : Type 0) : Type 0 where
  pub name : Text
  pub source : Source
  pub level_count : ℕ
  pub sample_interval_ms : ℕ
  pub snapshot_interval_ms : ℕ
  pub recovery_cooldown_ms : ℕ
  pub thresholds : Thresholds W
  pub ladder : List (LadderStep W)
