-- ===== src/StatsProvider/Sums.antt =====
-- The sums over the outbound streams in src/client/lib/qos/adapters/statsProvider.js, and the snapshot.
use mediasoup_cpp.Shared.{
  ℕ, suc, ltb, Bool, true, false, Option, none, some, or_else, List, [], ◌∷◌, Text, codes, text_eq,
  any, value_at, set_at, Number, if◌then◌else◌,
}
use mediasoup_cpp.Types.{LimitationReason, RawSnapshot}
use mediasoup_cpp.Dynamic.{Value, Fields, get}
use mediasoup_cpp.StatsProvider.Entries.{
  Reports, read_id, found_by, read_from, resolve_candidate_pair, read_quality_limitation_reason,
  read_number, normalize_time_to_ms, round_metric, sort_entries, no_reports,
}

-- A sum of times, and how many there are.
pub record Tally (W : Type 0) : Type 0 where
  pub sum : W
  pub count : ℕ

pub record Totals (W : Type 0) : Type 0 where
  pub timestamp_ms : W
  pub bytes_sent : W
  pub packets_sent : W
  pub packets_lost : W
  pub retransmitted_packets_sent : W
  pub target_bitrate_bps : W
  pub frame_width : W
  pub frame_height : W
  pub frames_per_second : W
  pub quality_limitation_reason : Option LimitationReason
  pub transport_rtt : Tally W
  pub fallback_rtt : Tally W
  pub jitter : Tally W
  pub next_remote_timestamps : List (Text × W)
  pub seen_candidate_pairs : List Text

abbrev pub first_reason :
    Option LimitationReason → Option LimitationReason → Option LimitationReason
first_reason none reason = reason
first_reason (some r) reason = some r

abbrev pub was_seen : Option Text → List Text → Bool
was_seen none seen = false
was_seen (some id) seen = any (text_eq id) seen

abbrev pub see : Option Text → List Text → List Text
see none seen = seen
see (some id) seen = id ∷ seen

module _ {W : Type 0} ⦃num : Number W⦄ where
  open num use {decimal, lt, le, plus, max_of}

  abbrev pub no_times : Tally W
  no_times = record { sum = decimal 0 0; count = 0 }

  abbrev pub add_time : Option W → Tally W → Tally W
  add_time none t = t
  add_time (some x) t = record { sum = plus t.sum x; count = suc t.count }

  abbrev pub number_or_zero : Text → Fields W → W
  number_or_zero k entry = or_else (read_number k entry) (decimal 0 0)

  abbrev pub latest : Option W → W → W
  latest none time = time
  latest (some x) time = if lt time x then x else time

  -- The counters and sizes of a stream.
  unfoldable pub add_counters : Fields W → Totals W → Totals W
  unfolding get read_number read_quality_limitation_reason
  add_counters outbound t = record t {
    timestamp_ms = latest (read_number (codes "timestamp") outbound) t.timestamp_ms;
    bytes_sent = plus t.bytes_sent (number_or_zero (codes "bytesSent") outbound);
    packets_sent = plus t.packets_sent (number_or_zero (codes "packetsSent") outbound);
    retransmitted_packets_sent =
        plus t.retransmitted_packets_sent
          (number_or_zero (codes "retransmittedPacketsSent") outbound);
    target_bitrate_bps =
        plus t.target_bitrate_bps (number_or_zero (codes "targetBitrate") outbound);
    frame_width = max_of t.frame_width (number_or_zero (codes "frameWidth") outbound);
    frame_height = max_of t.frame_height (number_or_zero (codes "frameHeight") outbound);
    frames_per_second =
        max_of t.frames_per_second (number_or_zero (codes "framesPerSecond") outbound);
    quality_limitation_reason =
        first_reason t.quality_limitation_reason
          (read_quality_limitation_reason (get outbound (codes "qualityLimitationReason")));
  }

  -- The round trip time of a candidate pair, once for each pair.
  unfoldable pub add_transport : Option (Fields W) → Totals W → Totals W
  unfolding read_number normalize_time_to_ms
  add_transport pair t =
      let id = read_from (read_id (codes "id")) pair in
      let time =
        normalize_time_to_ms (read_from (read_number (codes "currentRoundTripTime")) pair) in
      if was_seen id t.seen_candidate_pairs then t else record t {
        transport_rtt = add_time time t.transport_rtt;
        seen_candidate_pairs = see id t.seen_candidate_pairs;
      }

  -- Is a report of the other side one that the snapshot before has not seen?
  unfoldable pub is_fresh : Option (Fields W) → Option W → Option W → Bool
  is_fresh none time previous = false
  is_fresh (some remote) none previous = true
  is_fresh (some remote) (some time) none = true
  is_fresh (some remote) (some time) (some previous) = lt previous time

  -- A time of the other side where it is fresh; where there is no other side, the stream's own.
  unfoldable pub remote_time : Text → Bool → Option (Fields W) → Fields W → Option W
  unfolding read_number normalize_time_to_ms
  remote_time k fresh none outbound = normalize_time_to_ms (read_number k outbound)
  remote_time k fresh (some remote) outbound =
      if fresh then normalize_time_to_ms (read_number k remote) else none

  abbrev pub or_this : Option (Fields W) → Fields W → Fields W
  or_this none entry = entry
  or_this (some remote) entry = remote

  abbrev pub note_time : Option Text → Option W → Bool → List (Text × W) → List (Text × W)
  note_time (some id) (some time) true times = set_at id time times
  note_time _ _ _ times = times

  abbrev pub previous_of : Option Text → List (Text × W) → Option W
  previous_of none times = none
  previous_of (some id) times = value_at id times

  -- The losses and the times that the other side reports of a stream.
  unfoldable pub add_remote :
      List (Text × W) → List (Text × Fields W) → Fields W → Totals W → Totals W
  unfolding read_number is_fresh remote_time
  add_remote last remote_by_id outbound t =
      let id = read_id (codes "remoteId") outbound in
      let remote = found_by id remote_by_id in
      let time = read_from (read_number (codes "timestamp")) remote in
      let fresh = is_fresh remote time (previous_of id last) in
      record t {
        packets_lost =
            plus t.packets_lost (number_or_zero (codes "packetsLost") (or_this remote outbound));
        next_remote_timestamps = note_time id time fresh t.next_remote_timestamps;
        fallback_rtt =
            add_time (remote_time (codes "roundTripTime") fresh remote outbound) t.fallback_rtt;
        jitter = add_time (remote_time (codes "jitter") fresh remote outbound) t.jitter;
      }

  -- The loop over the streams.
  unfoldable pub add_streams : List (Text × W) → Reports W → List (Fields W) → Totals W → Totals W
  unfolding add_counters add_transport add_remote resolve_candidate_pair
  add_streams last r [] t = t
  add_streams last r (outbound ∷ outbounds) t = add_streams last r outbounds (
      add_remote last r.remote_by_id outbound
        (add_transport (resolve_candidate_pair outbound r) (add_counters outbound t)))

  abbrev pub no_totals : List (Text × W) → Totals W
  no_totals last = record {
    timestamp_ms = decimal 0 0;
    bytes_sent = decimal 0 0;
    packets_sent = decimal 0 0;
    packets_lost = decimal 0 0;
    retransmitted_packets_sent = decimal 0 0;
    target_bitrate_bps = decimal 0 0;
    frame_width = decimal 0 0;
    frame_height = decimal 0 0;
    frames_per_second = decimal 0 0;
    quality_limitation_reason = none;
    transport_rtt = no_times;
    fallback_rtt = no_times;
    jitter = no_times;
    next_remote_timestamps = last;
    seen_candidate_pairs = [];
  }

  abbrev pub if_positive : W → Option W
  if_positive x = if lt (decimal 0 0) x then some x else none

  -- The times over the candidate pairs, or those of the other side where there are none.
  abbrev pub preferred : Tally W → Tally W → Tally W
  preferred t fallback = if ltb 0 t.count then t else fallback

  abbrev pub mean_of : Tally W → Option W
  mean_of t = round_metric t.sum t.count

  unfoldable pub snapshot_of_totals : W → Option W → Totals W → RawSnapshot W
  unfolding round_metric
  snapshot_of_totals now configured t = record {
    timestamp_ms = if le t.timestamp_ms (decimal 0 0) then now else t.timestamp_ms;
    bytes_sent = if_positive t.bytes_sent;
    packets_sent = if_positive t.packets_sent;
    packets_lost = if_positive t.packets_lost;
    retransmitted_packets_sent = if_positive t.retransmitted_packets_sent;
    target_bitrate_bps = if_positive t.target_bitrate_bps;
    configured_bitrate_bps = configured;
    round_trip_time_ms = mean_of (preferred t.transport_rtt t.fallback_rtt);
    jitter_ms = mean_of t.jitter;
    frame_width = if_positive t.frame_width;
    frame_height = if_positive t.frame_height;
    frames_per_second = if_positive t.frames_per_second;
    quality_limitation_reason = some (or_else t.quality_limitation_reason LimitationReason.unknown);
  }

  abbrev pub empty_snapshot : W → Option W → RawSnapshot W
  empty_snapshot now configured = record {
    timestamp_ms = now;
    bytes_sent = none;
    packets_sent = none;
    packets_lost = none;
    retransmitted_packets_sent = none;
    target_bitrate_bps = none;
    configured_bitrate_bps = configured;
    round_trip_time_ms = none;
    jitter_ms = none;
    frame_width = none;
    frame_height = none;
    frames_per_second = none;
    quality_limitation_reason = none;
  }

  -- The end of `getSnapshot`, by whether there is a stream.
  unfoldable pub add_up :
      W → Option W → List (Text × W) → Reports W → List (Fields W) → RawSnapshot W × List (Text × W)
  unfolding add_streams snapshot_of_totals
  add_up now configured last r [] = (empty_snapshot now configured, last)
  add_up now configured last r (outbound ∷ outbounds) =
      let t = add_streams last r (outbound ∷ outbounds) (no_totals last) in
      (snapshot_of_totals now configured t, t.next_remote_timestamps)

  -- `getSnapshot`: the snapshot, and the times of the reports of the other side.
  unfoldable pub get_snapshot :
      W → Option W → List (Value W) → List (Text × W) → RawSnapshot W × List (Text × W)
  unfolding add_up
  get_snapshot now configured report last =
      let r = sort_entries report no_reports in add_up now configured last r r.outbounds
