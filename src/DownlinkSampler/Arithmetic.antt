-- ===== src/DownlinkSampler/Arithmetic.antt =====
-- The reports of src/client/lib/qos/downlinkSampler.js, and what it computes from one of them.
use mediasoup_cpp.Shared.{Bool, ◌&&◌, ◌||◌, Option, none, some, Text, Number, if◌then◌else◌}
use mediasoup_cpp.Types.{TrackKind}
use mediasoup_cpp.DownlinkHints.{or_zero}

-- A report of type `inbound-rtp`; its kind is `none` where it is neither of the two.
pub record InboundReport (W : Type 0) : Type 0 where
  pub kind : Option TrackKind
  pub ssrc : Option W
  pub mid : Option Text
  pub track_identifier : Option Text
  pub packets_lost : Option W
  pub packets_received : Option W
  pub jitter : Option W
  pub frames_per_second : Option W
  pub frame_width : Option W
  pub frame_height : Option W
  pub frames_decoded : Option W
  pub freeze_count : Option W
  pub total_freezes_duration : Option W
  pub total_playback_duration : Option W
  pub concealed_samples : Option W
  pub total_samples_received : Option W
  pub frames_dropped : Option W
  pub jitter_buffer_delay : Option W
  pub jitter_buffer_emitted_count : Option W

-- The fields of a report that may be missing together with the report, as `stats?.field`.
abbrev pub field_of :
    {W : Type 0} → (InboundReport W → Option W) → Option (InboundReport W) → Option W
field_of f none = none
field_of f (some r) = f r

module _ {W : Type 0} ⦃num : Number W⦄ where
  open num use {decimal, is_finite, lt, le, plus, minus, times, over, round, max_of, min_of}

  -- `x === y`.
  abbrev pub same_number : W → W → Bool
  same_number x y = le x y && le y x

  -- `Number.isFinite(Number(x)) ? Number(x) : undefined`.
  abbrev pub read_optional_number : Option W → Option W
  read_optional_number none = none
  read_optional_number (some x) = if is_finite x then some x else none

  unfoldable pub playback_rate : W → W → Option W → Option W → W
  playback_rate total_frames freeze_count (some freezes) (some playback) =
      let fallback =
        if lt (decimal 0 0) freeze_count then over freeze_count total_frames else decimal 0 0 in
      if lt (decimal 0 0) playback then over freezes playback else fallback
  playback_rate total_frames freeze_count _ _ =
      if lt (decimal 0 0) freeze_count then over freeze_count total_frames else decimal 0 0

  unfoldable pub compute_freeze_rate : Option (InboundReport W) → W
  unfolding playback_rate
  compute_freeze_rate none = decimal 0 0
  compute_freeze_rate (some stats) =
      let total_frames = or_zero stats.frames_decoded in
      if same_number total_frames (decimal 0 0)
      then decimal 0 0
      else playback_rate total_frames (or_zero stats.freeze_count) stats.total_freezes_duration
          stats.total_playback_duration

  unfoldable pub delay_per_sample : W → Option W → W
  delay_per_sample total_delay none = times total_delay (decimal 1000 0)
  delay_per_sample total_delay (some emitted) =
      if lt (decimal 0 0) emitted
      then times (over total_delay emitted) (decimal 1000 0)
      else times total_delay (decimal 1000 0)

  unfoldable pub compute_jitter_buffer_delay_ms : Option (InboundReport W) → Option W
  unfolding delay_per_sample
  compute_jitter_buffer_delay_ms none = none
  compute_jitter_buffer_delay_ms (some stats) =
      elim (read_optional_number stats.jitter_buffer_delay) [
        | none ↦ none
        | some total_delay ↦
            some (
              delay_per_sample total_delay (read_optional_number stats.jitter_buffer_emitted_count))
      ]

  -- The share of the packets lost between two samples, in percent.
  unfoldable pub loss_between : W → W → W → W → W
  loss_between lost received previous_lost previous_received =
      let delta_lost = minus lost previous_lost in
      let delta_received = minus received previous_received in
      let total = plus delta_lost delta_received in
      if lt delta_lost (decimal 0 0) || lt delta_received (decimal 0 0)
      then decimal 0 0
      else if le total (decimal 0 0)
      then decimal 0 0
      else max_of (decimal 0 0)
          (min_of (decimal 100 0) (round (times (over delta_lost total) (decimal 100 0))))

  -- Every one of the four numbers has to be finite.
  unfoldable pub loss_of : Option W → Option W → Option W → Option W → W
  loss_of (some lost) (some received) (some previous_lost) (some previous_received) =
      loss_between lost received previous_lost previous_received
  loss_of _ _ _ _ = decimal 0 0

  unfoldable pub compute_loss_percent : Option (InboundReport W) → Option W → Option W → W
  compute_loss_percent none previous_lost previous_received = decimal 0 0
  compute_loss_percent (some stats) previous_lost previous_received =
      loss_of (read_optional_number stats.packets_lost)
        (read_optional_number stats.packets_received) (read_optional_number previous_lost)
        (read_optional_number previous_received)
