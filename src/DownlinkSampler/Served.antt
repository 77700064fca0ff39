-- ===== src/DownlinkSampler/Served.antt =====
-- What a subscription of src/client/lib/qos/downlinkSampler.js has of its hint and of its report.
use mediasoup_cpp.Shared.{
  ◌≡◌, refl, sym, ◌∙◌, Bool, true, false, Option, none, some, List, [], ◌∷◌, Text, All, Number,
  arith,
}
use mediasoup_cpp.Types.{TrackKind}
use mediasoup_cpp.DownlinkHints.{Hint, or_zero}
use mediasoup_cpp.DownlinkSampler.Arithmetic.{
  InboundReport, read_optional_number, compute_freeze_rate, compute_jitter_buffer_delay_ms,
}
use mediasoup_cpp.DownlinkSampler.Sample.{Subscription, matches_hint_kind, subscription_of}
use mediasoup_cpp.DownlinkSampler.Percent.{IsPercent}

-- A hint without a kind fits any report.
abbrev pub fits : Option TrackKind → Option TrackKind → Bool
fits none found = true
fits (some TrackKind.audio) (some TrackKind.audio) = true
fits (some TrackKind.video) (some TrackKind.video) = true
fits (some wanted) found = false

-- A consumer is one of video unless its hint says otherwise.
abbrev kind_shown : Option TrackKind → TrackKind
kind_shown none = TrackKind.video
kind_shown (some k) = k

module _ {W : Type 0} where
  pub matches_hint_kind-fits :
      (hint : Hint W) (r : InboundReport W) → matches_hint_kind hint r ≡ fits hint.kind r.kind
  matches_hint_kind-fits hint r = ground arith

module _ {W : Type 0} ⦃num : Number W⦄ where
  open num use {decimal}

  -- The measurements of a report, or none of them.
  abbrev IsMeasured : Option (InboundReport W) → Subscription W → Type 0
  IsMeasured none s =
      (s.jitter ≡ decimal 0 0)
      × (s.frames_per_second ≡ decimal 0 0)
      × (s.frame_width ≡ decimal 0 0)
      × (s.frame_height ≡ decimal 0 0)
      × (s.concealed_samples ≡ none)
      × (s.total_samples_received ≡ none)
      × (s.freeze_count ≡ none)
      × (s.total_freezes_duration ≡ none)
      × (s.frames_dropped ≡ none)
  IsMeasured (some r) s =
      (s.jitter ≡ or_zero r.jitter)
      × (s.frames_per_second ≡ or_zero r.frames_per_second)
      × (s.frame_width ≡ or_zero r.frame_width)
      × (s.frame_height ≡ or_zero r.frame_height)
      × (s.concealed_samples ≡ read_optional_number r.concealed_samples)
      × (s.total_samples_received ≡ read_optional_number r.total_samples_received)
      × (s.freeze_count ≡ read_optional_number r.freeze_count)
      × (s.total_freezes_duration ≡ read_optional_number r.total_freezes_duration)
      × (s.frames_dropped ≡ read_optional_number r.frames_dropped)

  -- The subscription of a consumer, by its hint and the report that it was given.
  abbrev pub IsOf : Text → Hint W → Option (InboundReport W) → Subscription W → Type 0
  IsOf id hint stats s =
      (s.consumer_id ≡ id)
      × (s.producer_id ≡ hint.producer_id)
      × (s.kind ≡ kind_shown hint.kind)
      × (s.visible ≡ hint.visible)
      × (s.pinned ≡ hint.pinned)
      × (s.active_speaker ≡ hint.active_speaker)
      × (s.is_screen_share ≡ hint.is_screen_share)
      × (s.target_width ≡ or_zero (some hint.target_width))
      × (s.target_height ≡ or_zero (some hint.target_height))
      × IsPercent s.packets_lost
      × (s.freeze_rate ≡ compute_freeze_rate stats)
      × (s.jitter_buffer_delay_ms ≡ compute_jitter_buffer_delay_ms stats)
      × IsMeasured stats s

  pub subscription_of-IsOf :
      (id : Text) (hint : Hint W) (stats : Option (InboundReport W)) (loss : W)
      → IsPercent loss
      → IsOf id hint stats (subscription_of id hint stats loss)
  subscription_of-IsOf id hint none loss h = (
    refl,
    refl,
    ground arith,
    refl,
    refl,
    refl,
    refl,
    refl,
    refl,
    h,
    refl,
    refl,
    (refl, refl, refl, refl, refl, refl, refl, refl, refl),
  )
  subscription_of-IsOf id hint (some r) loss h = (
    refl,
    refl,
    ground arith,
    refl,
    refl,
    refl,
    refl,
    refl,
    refl,
    h,
    refl,
    refl,
    (refl, refl, refl, refl, refl, refl, refl, refl, refl),
  )

  pub All-fits :
      (hint : Hint W) (reports : List (InboundReport W))
      → All (λ r. matches_hint_kind hint r ≡ false) reports
      → All (λ r. fits hint.kind r.kind ≡ false) reports
  All-fits hint [] h = tt
  All-fits hint (r ∷ rs) (h, hs) = (sym (matches_hint_kind-fits hint r) ∙ h, All-fits hint rs hs)
