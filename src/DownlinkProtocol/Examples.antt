-- ===== src/DownlinkProtocol/Examples.antt =====
-- Snapshots of src/client/lib/qos/downlinkProtocol.js: one with the old schema, and one that is sent.
use mediasoup_cpp.Shared.{
  ◌≤◌, ◌≡◌, refl, true, false, none, some, [], ◌∷◌, codes, ok, Milli, milli, milli_number,
}
use mediasoup_cpp.Types.{TrackKind}
use mediasoup_cpp.Dynamic.{
  Value, text, number, null, object, array, Items, no_items, item, Fields, no_fields, get,
  count_items,
}
use mediasoup_cpp.DownlinkSampler.{Transport, Subscription}
use mediasoup_cpp.DownlinkProtocol.{
  legacy_schema, downlink_schema, is_safe_seq, parse_subscription, parse_downlink_snapshot,
  serialize_downlink_snapshot, fields_of,
}
use mediasoup_cpp.DownlinkProtocol.Validity.{IsReading, parse_downlink_snapshot-parse}
use mediasoup_cpp.DownlinkProtocol.Sending.{parse_downlink_snapshot-serialize}

abbrev no_spread : Value Milli → Fields Milli
no_spread v = no_fields

abbrev old_payload : Fields Milli
old_payload = fields_of (
    (codes "schema", text legacy_schema)
    ∷ (codes "seq", number (milli 7000))
    ∷ (codes "subscriptions", array (item (object no_fields) (item null no_items)))
    ∷ [])

abbrev with_video : Value Milli
with_video = object (fields_of ((codes "kind", text (codes "video")) ∷ []))

abbrev new_payload : Fields Milli
new_payload = fields_of (
    (codes "schema", text downlink_schema)
    ∷ (codes "seq", number (milli 7000))
    ∷ (codes "subscriptions", array (item with_video (item with_video no_items)))
    ∷ [])

old_payload-parse : parse_downlink_snapshot no_spread (object old_payload) ≡ ok new_payload
unfolding parse_downlink_snapshot parse_subscription
old_payload-parse = refl

parse_downlink_snapshot-parse_example :
    ((payload : Fields Milli) × (object old_payload ≡ object payload)
      × IsReading no_spread payload new_payload)
    × (parse_downlink_snapshot no_spread (object new_payload) ≡ ok new_payload)
parse_downlink_snapshot-parse_example =
    parse_downlink_snapshot-parse no_spread (object old_payload) new_payload old_payload-parse

abbrev transport : Transport Milli
transport = record {
  available_incoming_bitrate = milli 900_000;
  current_round_trip_time = milli 40;
}

abbrev subscription : Subscription Milli
subscription = record {
  consumer_id = codes "consumer";
  producer_id = codes "producer";
  kind = TrackKind.audio;
  visible = true;
  pinned = false;
  active_speaker = true;
  is_screen_share = false;
  target_width = milli 0;
  target_height = milli 0;
  packets_lost = milli 2000;
  jitter = milli 5;
  frames_per_second = milli 0;
  frame_width = milli 0;
  frame_height = milli 0;
  freeze_rate = milli 0;
  concealed_samples = some (milli 12_000);
  total_samples_received = none;
  freeze_count = none;
  total_freezes_duration = none;
  frames_dropped = none;
  jitter_buffer_delay_ms = none;
}

seven-safe : is_safe_seq (number (milli 7000)) ≡ true
unfolding is_safe_seq
seven-safe = refl

abbrev sent : Fields Milli
sent =
    serialize_downlink_snapshot (milli 7000) (milli 9000) (codes "peer") transport
      (subscription ∷ [])

parse_downlink_snapshot-serialize_example :
    (parse_downlink_snapshot no_spread (object sent) ≡ ok sent)
    × ((items : Items Milli) × (get sent (codes "subscriptions") ≡ array items)
        × (count_items items ≤ 64))
parse_downlink_snapshot-serialize_example =
    parse_downlink_snapshot-serialize no_spread (milli 7000) (milli 9000) (codes "peer") transport
      (subscription ∷ []) seven-safe
