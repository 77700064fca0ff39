-- ===== src/DownlinkSampler/Examples.antt =====
-- A sample of two reports for two consumers, by src/client/lib/qos/downlinkSampler.js.
use mediasoup_cpp.Shared.{
  ℕ, ◌≡◌, refl, true, false, none, some, List, [], ◌∷◌, map, codes, value_at, set_at, Milli, milli,
  milli_number,
}
use mediasoup_cpp.Types.{TrackKind}
use mediasoup_cpp.DownlinkHints.{Hint}
use mediasoup_cpp.DownlinkSampler.Arithmetic.{
  InboundReport, compute_loss_percent, loss_of, loss_between,
}
use mediasoup_cpp.DownlinkSampler.Sample.{
  Slot, StatsReport, inbound, candidate_pair, DownlinkSampler, search, matches_hint, sample,
  sample_hints, select_inbound_report, inbound_reports, unmatched,
}
use mediasoup_cpp.DownlinkSampler.Matching.{free, Selects, select_inbound_report-Selects}
use mediasoup_cpp.DownlinkSampler.Account.{sampled}

abbrev report : TrackKind → ℕ → ℕ → InboundReport Milli
report kind lost received = record {
  kind = some kind;
  ssrc = some (milli received);
  mid = some (codes "0");
  track_identifier = none;
  packets_lost = some (milli lost);
  packets_received = some (milli received);
  jitter = some (milli 5);
  frames_per_second = none;
  frame_width = none;
  frame_height = none;
  frames_decoded = none;
  freeze_count = none;
  total_freezes_duration = none;
  total_playback_duration = none;
  concealed_samples = none;
  total_samples_received = none;
  frames_dropped = none;
  jitter_buffer_delay = none;
  jitter_buffer_emitted_count = none;
}

abbrev hint : TrackKind → Hint Milli
hint kind = record {
  producer_id = codes "producer";
  kind = some kind;
  ssrc = none;
  mid = some (codes "0");
  track_identifier = none;
  visible = true;
  pinned = false;
  active_speaker = false;
  is_screen_share = false;
  target_width = milli 640_000;
  target_height = milli 480_000;
}

abbrev sampler : DownlinkSampler Milli
sampler = record {
  hints = (codes "a", hint TrackKind.video) ∷ (codes "b", hint TrackKind.audio) ∷ [];
  prev_packets_lost = (codes "a", milli 1000) ∷ [];
  prev_packets_received = (codes "a", milli 90_000) ∷ [];
}

abbrev reports : List (StatsReport Milli)
reports =
    candidate_pair true (some (milli 1_000_000)) none
    ∷ inbound (report TrackKind.audio 0 50_000)
    ∷ inbound (report TrackKind.video 11_000 180_000)
    ∷ []

abbrev slots : List (Slot Milli)
slots = map unmatched (inbound_reports reports)

select_inbound_report-Selects_example :
    Selects (hint TrackKind.video) (free slots) (select_inbound_report (hint TrackKind.video) slots)
select_inbound_report-Selects_example = select_inbound_report-Selects (hint TrackKind.video) slots

sampled_losses :
    map (λ s. s.packets_lost) (sampled (sample (some reports) sampler))
    ≡ milli 10_000 ∷ milli 0 ∷ []
unfolding sample sample_hints select_inbound_report search matches_hint compute_loss_percent loss_of
    value_at loss_between set_at
sampled_losses = refl
