-- ===== src/Profiles/Defaults.antt =====
-- The tables of src/client/lib/qos/profiles.js.
use mediasoup_cpp.Shared.{
  ℕ, Bool, true, false, Option, none, some, List, [], ◌∷◌, Text, codes, Number,
}
use mediasoup_cpp.Types.{
  Source, camera, screen_share, Thresholds, EncodingParameters, LadderStep, Profile,
}

abbrev pub default_sample_interval_ms : ℕ
default_sample_interval_ms = 1000

abbrev pub default_snapshot_interval_ms : ℕ
default_snapshot_interval_ms = 2000

abbrev pub default_recovery_cooldown_ms : ℕ
default_recovery_cooldown_ms = 8000

module _ {W : Type 0} ⦃num : Number W⦄ where
  open num use {decimal}

  abbrev pub default_thresholds : Thresholds W
  default_thresholds = record {
    warn_loss_rate = decimal 4 2;
    congested_loss_rate = decimal 8 2;
    warn_rtt_ms = decimal 220 0;
    congested_rtt_ms = decimal 320 0;
    warn_jitter_ms = some (decimal 30 0);
    congested_jitter_ms = some (decimal 60 0);
    warn_bitrate_utilization = decimal 85 2;
    congested_bitrate_utilization = decimal 65 2;
    stable_loss_rate = decimal 3 2;
    stable_rtt_ms = decimal 180 0;
    stable_jitter_ms = some (decimal 20 0);
    stable_bitrate_utilization = decimal 92 2;
  }

  abbrev pub conservative_thresholds : Thresholds W
  conservative_thresholds = record default_thresholds {
    warn_loss_rate = decimal 3 2;
    congested_loss_rate = decimal 6 2;
    warn_rtt_ms = decimal 180 0;
    congested_rtt_ms = decimal 260 0;
  }

  -- `encodingParameters` of a video rung, and of an audio rung.
  abbrev video_encoding : ℕ → ℕ → W → EncodingParameters W
  video_encoding bitrate framerate scale = record {
    max_bitrate_bps = some (decimal bitrate 0);
    max_framerate = some (decimal framerate 0);
    scale_resolution_down_by = some scale;
    adaptive_ptime = none;
  }

  abbrev audio_encoding : ℕ → Option Bool → EncodingParameters W
  audio_encoding bitrate ptime = record {
    max_bitrate_bps = some (decimal bitrate 0);
    max_framerate = none;
    scale_resolution_down_by = none;
    adaptive_ptime = ptime;
  }

  -- A rung that does nothing yet, and one that only sets encoding parameters.
  abbrev bare_step : ℕ → Text → LadderStep W
  bare_step level description = record {
    level = level;
    description = description;
    encoding_parameters = none;
    spatial_layer = none;
    enter_audio_only = false;
    pause_upstream = false;
    resume_upstream = false;
  }

  abbrev encoding_step : ℕ → Text → EncodingParameters W → LadderStep W
  encoding_step level description encoding = record (bare_step level description) {
    encoding_parameters = some encoding;
  }

  abbrev pub camera_ladder : EncodingParameters W → List (LadderStep W)
  camera_ladder third =
      encoding_step 0 (codes "Use publish initial encoding settings.")
        (video_encoding 900_000 30 (decimal 1 0))
      ∷ encoding_step 1 (codes "Reduce bitrate and frame rate slightly.")
          (video_encoding 850_000 24 (decimal 1 0))
      ∷ encoding_step 2
          (codes "Further reduce bitrate/frame rate and start downscaling resolution.") third
      ∷ record (encoding_step 3
          (codes "Aggressive bitrate and fps reduction, force lowest spatial layer if available.")
          (video_encoding 450_000 12 (decimal 2 0))) { spatial_layer = some 0 }
      ∷ record (bare_step 4 (codes "Enter audio-only mode and pause video upstream.")) {
        enter_audio_only = true;
      }
      ∷ []

  unfoldable pub default_camera_profile : Profile W
  default_camera_profile = record {
    name = codes "default-camera";
    source = camera;
    level_count = 5;
    sample_interval_ms = default_sample_interval_ms;
    snapshot_interval_ms = default_snapshot_interval_ms;
    recovery_cooldown_ms = default_recovery_cooldown_ms;
    thresholds = default_thresholds;
    ladder = camera_ladder (video_encoding 700_000 20 (decimal 15 1));
  }

  unfoldable pub default_screen_share_profile : Profile W
  default_screen_share_profile = record {
    name = codes "default-screenshare";
    source = screen_share;
    level_count = 5;
    sample_interval_ms = default_sample_interval_ms;
    snapshot_interval_ms = default_snapshot_interval_ms;
    recovery_cooldown_ms = 10_000;
    thresholds = default_thresholds;
    ladder =
        encoding_step 0 (codes "Use publish initial encoding settings.")
          (video_encoding 1_800_000 15 (decimal 1 0))
        ∷ encoding_step 1 (codes "Lower capture/send framerate to 10.")
            (video_encoding 1_800_000 10 (decimal 1 0))
        ∷ encoding_step 2 (codes "Lower framerate to 5 while prioritizing text readability.")
            (video_encoding 1_350_000 5 (decimal 1 0))
        ∷ record (encoding_step 3
            (codes "Further limit bitrate and framerate before resolution downgrade.")
            (video_encoding 990_000 3 (decimal 125 2))) { resume_upstream = true }
        ∷ record (bare_step 4 (codes "Pause screen share and rely on coordinator decision.")) {
          pause_upstream = true;
        }
        ∷ [];
  }

  unfoldable pub default_audio_profile : Profile W
  default_audio_profile = record {
    name = codes "default-audio";
    source = Source.audio;
    level_count = 5;
    sample_interval_ms = default_sample_interval_ms;
    snapshot_interval_ms = default_snapshot_interval_ms;
    recovery_cooldown_ms = default_recovery_cooldown_ms;
    thresholds = default_thresholds;
    ladder =
        encoding_step 0 (codes "Use publish initial encoding settings.")
          (audio_encoding 510_000 none)
        ∷ encoding_step 1
            (codes "Reduce max bitrate to around 32kbps, enable adaptive ptime if available.")
            (audio_encoding 32_000 (some true))
        ∷ encoding_step 2 (codes "Reduce max bitrate to around 24kbps.")
            (audio_encoding 24_000 none)
        ∷ encoding_step 3 (codes "Reduce max bitrate to around 16kbps.")
            (audio_encoding 16_000 none)
        ∷ encoding_step 4 (codes "Keep audio alive at minimum quality, avoid auto-mute.")
            (audio_encoding 16_000 (some true))
        ∷ [];
  }

  unfoldable pub conservative_camera_profile : Profile W
  unfolding default_camera_profile
  conservative_camera_profile = record default_camera_profile {
    name = codes "conservative";
    recovery_cooldown_ms = 12_000;
    thresholds = conservative_thresholds;
    ladder = camera_ladder (video_encoding 550_000 15 (decimal 15 1));
  }
