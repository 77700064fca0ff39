-- ===== src/DownlinkSampler/Sample.antt =====
-- The state of `DownlinkSampler` in src/client/lib/qos/downlinkSampler.js, and one sample. The set of
-- the reports that are matched is a mark on each report.
use mediasoup_cpp.Shared.{
  Bool, true, false, not, ◌&&◌, ◌||◌, Option, none, some, List, [], ◌∷◌, map, Text, text_eq,
  value_at, set_at, delete_at, Number, if◌then◌else◌, is_some,
}
use mediasoup_cpp.Types.{TrackKind}
use mediasoup_cpp.DownlinkHints.{Hint, Hints, or_zero}
use mediasoup_cpp.DownlinkSampler.Arithmetic.{
  InboundReport, field_of, same_number, read_optional_number, compute_freeze_rate,
  compute_jitter_buffer_delay_ms, compute_loss_percent,
}

-- A report of `getStats`, by its type.
pub data StatsReport (W : Type 0) : Type 0 where
  inbound : InboundReport W → StatsReport W
  candidate_pair : Bool → Option W → Option W → StatsReport W
  unrelated : StatsReport W

pub record Transport (W : Type 0) : Type 0 where
  pub available_incoming_bitrate : W
  pub current_round_trip_time : W

pub record Subscription (W : Type 0) : Type 0 where
  pub consumer_id : Text
  pub producer_id : Text
  pub kind : TrackKind
  pub visible : Bool
  pub pinned : Bool
  pub active_speaker : Bool
  pub is_screen_share : Bool
  pub target_width : W
  pub target_height : W
  pub packets_lost : W
  pub jitter : W
  pub frames_per_second : W
  pub frame_width : W
  pub frame_height : W
  pub freeze_rate : W
  pub concealed_samples : Option W
  pub total_samples_received : Option W
  pub freeze_count : Option W
  pub total_freezes_duration : Option W
  pub frames_dropped : Option W
  pub jitter_buffer_delay_ms : Option W

pub record DownlinkSampler (W : Type 0) : Type 0 where
  pub hints : Hints W
  pub prev_packets_lost : List (Text × W)
  pub prev_packets_received : List (Text × W)

pub record Slot (W : Type 0) : Type 0 where
  pub report : InboundReport W
  pub is_matched : Bool

abbrev pub same_kind : TrackKind → TrackKind → Bool
same_kind TrackKind.audio TrackKind.audio = true
same_kind TrackKind.video TrackKind.video = true
same_kind _ _ = false

abbrev pub is_kind : TrackKind → Option TrackKind → Bool
is_kind k none = false
is_kind k (some j) = same_kind k j

-- `wanted && found === wanted`, of texts.
abbrev pub same_text : Option Text → Option Text → Bool
same_text (some (c ∷ cs)) (some found) = text_eq (c ∷ cs) found
same_text _ _ = false

abbrev pub or_search {ℓ} : {A : Type ℓ} → Option A → Option A → Option A
or_search none other = other
or_search (some a) other = some a

abbrev pub push_first {ℓ} : {A B : Type ℓ} → A → List A × B → List A × B
push_first x (xs, b) = (x ∷ xs, b)

abbrev pub with_transport {ℓ} : {A B C : Type ℓ} → A → B × C → A × B × C
with_transport t (b, c) = (t, b, c)

module _ {W : Type 0} where
  abbrev pub kind_agrees : Option TrackKind → InboundReport W → Bool
  kind_agrees none report = true
  kind_agrees (some k) report = is_kind k report.kind

  abbrev pub matches_hint_kind : Hint W → InboundReport W → Bool
  matches_hint_kind hint report = kind_agrees hint.kind report

  -- The first report that is not matched and passes the test, and the reports with that one matched.
  unfoldable pub search :
      (InboundReport W → Bool) → List (Slot W) → Option (InboundReport W × List (Slot W))
  search p [] = none
  search p (slot ∷ slots) =
      let rest = search p slots in
      if not slot.is_matched && p slot.report
      then some (slot.report, record slot { is_matched = true } ∷ slots)
      else elim rest [ none ↦ none | some (r, others) ↦ some (r, slot ∷ others) ]

  unfoldable pub set_hints : Text → Hint W → DownlinkSampler W → DownlinkSampler W
  set_hints id hint sampler = record sampler { hints = set_at id hint sampler.hints }

  unfoldable pub remove_hints : Text → DownlinkSampler W → DownlinkSampler W
  remove_hints id sampler = record {
    hints = delete_at id sampler.hints;
    prev_packets_lost = delete_at id sampler.prev_packets_lost;
    prev_packets_received = delete_at id sampler.prev_packets_received;
  }

module _ {W : Type 0} ⦃num : Number W⦄ where
  open num use {decimal, is_finite}

  -- `Number.isFinite(wanted) && Number(found) === wanted`.
  abbrev pub same_ssrc : Option W → Option W → Bool
  same_ssrc (some wanted) (some found) = is_finite wanted && same_number found wanted
  same_ssrc _ _ = false

  unfoldable pub matches_hint : Hint W → InboundReport W → Bool
  matches_hint hint report =
      matches_hint_kind hint report
      && (same_ssrc hint.ssrc report.ssrc
          || same_text hint.mid report.mid
          || same_text hint.track_identifier report.track_identifier)

  unfoldable pub select_inbound_report :
      Hint W → List (Slot W) → Option (InboundReport W × List (Slot W))
  select_inbound_report hint slots = or_search (search (matches_hint hint) slots) (
      or_search (search (matches_hint_kind hint) slots)
        (if is_some hint.kind then none else search (λ _. true) slots))

  abbrev pub subscription_of : Text → Hint W → Option (InboundReport W) → W → Subscription W
  subscription_of id hint stats loss = record {
    consumer_id = id;
    producer_id = hint.producer_id;
    kind = if is_kind TrackKind.audio hint.kind then TrackKind.audio else TrackKind.video;
    visible = hint.visible;
    pinned = hint.pinned;
    active_speaker = hint.active_speaker;
    is_screen_share = hint.is_screen_share;
    target_width = or_zero (some hint.target_width);
    target_height = or_zero (some hint.target_height);
    packets_lost = loss;
    jitter = or_zero (field_of (λ r. r.jitter) stats);
    frames_per_second = or_zero (field_of (λ r. r.frames_per_second) stats);
    frame_width = or_zero (field_of (λ r. r.frame_width) stats);
    frame_height = or_zero (field_of (λ r. r.frame_height) stats);
    freeze_rate = compute_freeze_rate stats;
    concealed_samples = read_optional_number (field_of (λ r. r.concealed_samples) stats);
    total_samples_received = read_optional_number (field_of (λ r. r.total_samples_received) stats);
    freeze_count = read_optional_number (field_of (λ r. r.freeze_count) stats);
    total_freezes_duration = read_optional_number (field_of (λ r. r.total_freezes_duration) stats);
    frames_dropped = read_optional_number (field_of (λ r. r.frames_dropped) stats);
    jitter_buffer_delay_ms = compute_jitter_buffer_delay_ms stats;
  }

  -- The loss of a consumer, by the counters of the sample before.
  abbrev pub loss_of_consumer : Text → DownlinkSampler W → Option (InboundReport W) → W
  loss_of_consumer id sampler stats =
      compute_loss_percent stats (value_at id sampler.prev_packets_lost)
        (value_at id sampler.prev_packets_received)

  abbrev pub remember : Text → InboundReport W → DownlinkSampler W → DownlinkSampler W
  remember id stats sampler = record sampler {
    prev_packets_lost = set_at id (or_zero stats.packets_lost) sampler.prev_packets_lost;
    prev_packets_received =
        set_at id (or_zero stats.packets_received) sampler.prev_packets_received;
  }

  -- The turns of the loop over the hints.
  unfoldable pub sample_hints :
      Hints W → List (Slot W) → DownlinkSampler W → List (Subscription W) × DownlinkSampler W
  sample_hints [] slots sampler = ([], sampler)
  sample_hints ((id, hint) ∷ hints) slots sampler = elim (select_inbound_report hint slots) [
    | none ↦
        push_first (subscription_of id hint none (loss_of_consumer id sampler none))
          (sample_hints hints slots sampler)
    | some (stats, others) ↦
        push_first (subscription_of id hint (some stats) (loss_of_consumer id sampler (some stats)))
          (sample_hints hints others (remember id stats sampler))
  ]

  abbrev pub inbound_reports : List (StatsReport W) → List (InboundReport W)
  inbound_reports [] = []
  inbound_reports (inbound report ∷ rest) =
      let others = inbound_reports rest in if is_some report.kind then report ∷ others else others
  inbound_reports (candidate_pair _ _ _ ∷ rest) = inbound_reports rest
  inbound_reports (unrelated ∷ rest) = inbound_reports rest

  -- The last nominated pair tells the state of the transport.
  abbrev pub transport_after : List (StatsReport W) → Transport W → Transport W
  transport_after [] transport = transport
  transport_after (candidate_pair true bitrate round_trip ∷ rest) transport =
      transport_after rest record {
        available_incoming_bitrate = or_zero bitrate;
        current_round_trip_time = or_zero round_trip;
      }
  transport_after (_ ∷ rest) transport = transport_after rest transport

  abbrev pub unmatched : InboundReport W → Slot W
  unmatched report = record { report = report; is_matched = false }

  abbrev pub no_transport : Transport W
  no_transport = record {
    available_incoming_bitrate = decimal 0 0;
    current_round_trip_time = decimal 0 0;
  }

  unfoldable pub sample :
      Option (List (StatsReport W))
      → DownlinkSampler W
      → Transport W × List (Subscription W) × DownlinkSampler W
  unfolding sample_hints
  sample none sampler = (no_transport, [], sampler)
  sample (some reports) sampler =
      let slots = map unmatched (inbound_reports reports) in
      with_transport (transport_after reports no_transport)
        (sample_hints sampler.hints slots sampler)
