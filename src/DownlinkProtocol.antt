-- ===== src/DownlinkProtocol.antt =====
-- src/client/lib/qos/downlinkProtocol.js: the snapshot that a receiver sends, and the check of one. The
-- warning on the console about subscriptions beyond the cap is left out. `spread` is what the language
-- copies for `{...x}` where `x` is a text or an array, which is not used but where a subscription is none.
pub mod Records
pub mod Checks
pub mod Validity
pub mod Sending
mod Examples
use mediasoup_cpp.Shared.{
  ℕ, ◌-◌, ◌^◌, Bool, true, false, not, ◌&&◌, ◌||◌, Option, none, some, List, [], ◌∷◌, Text, codes,
  text_eq, length, take, ltb, Number, Result, ok, refused, ◌>>=◌, ◌>>◌, guard, if◌then◌else◌,
}
use mediasoup_cpp.Types.{TrackKind}
use mediasoup_cpp.Dynamic.{
  Value, missing, null, boolean, number, text, array, object, Items, no_items, item, Fields,
  no_fields, field, get,
}
use mediasoup_cpp.DownlinkHints.{or_zero}
use mediasoup_cpp.DownlinkReporter.{downlink_max_seq}
use mediasoup_cpp.DownlinkSampler.{Transport, Subscription}

abbrev pub downlink_schema : Text
downlink_schema = codes "mediasoup.qos.downlink.client.v1"

abbrev pub legacy_schema : Text
legacy_schema = codes "mediasoup.downlink.v1"

abbrev pub downlink_max_subscriptions : ℕ
downlink_max_subscriptions = 64

pub data DownlinkComplaint : Type 0 where
  not_an_object unsupported_schema bad_seq : DownlinkComplaint

-- `exports.DOWNLINK_MAX_SUBSCRIPTIONS` subscriptions at most.
unfoldable pub capped : {A : Type 0} → List A → List A
capped xs =
    if ltb downlink_max_subscriptions (length xs) then take downlink_max_subscriptions xs else xs

abbrev pub downlink_kind : TrackKind → Text
downlink_kind TrackKind.audio = codes "audio"
downlink_kind TrackKind.video = codes "video"

module _ {W : Type 0} where
  -- An assignment `obj[key] = v`, which keeps the place of a key that is there.
  unfoldable pub put : Text → Value W → Fields W → Fields W
  put k v no_fields = field k v no_fields
  put k v (field j w entries) =
      let rest = put k v entries in if text_eq j k then field j v entries else field j w rest

  abbrev pub fields_of : List (Text × Value W) → Fields W
  fields_of [] = no_fields
  fields_of ((k, v) ∷ rest) = field k v (fields_of rest)

module _ {W : Type 0} ⦃num : Number W⦄ where
  open num use {decimal, is_finite, is_integer, lt, le}

  unfoldable pub copy_optional_number : Text → Option W → Fields W → Fields W
  copy_optional_number key none target = target
  copy_optional_number key (some x) target =
      if is_finite x then put key (number x) target else target

  abbrev pub subscription_fields : Subscription W → Fields W
  subscription_fields s = fields_of (
      (codes "consumerId", text s.consumer_id)
      ∷ (codes "producerId", text s.producer_id)
      ∷ (codes "kind", text (downlink_kind s.kind))
      ∷ (codes "visible", boolean s.visible)
      ∷ (codes "pinned", boolean s.pinned)
      ∷ (codes "activeSpeaker", boolean s.active_speaker)
      ∷ (codes "isScreenShare", boolean s.is_screen_share)
      ∷ (codes "targetWidth", number (or_zero (some s.target_width)))
      ∷ (codes "targetHeight", number (or_zero (some s.target_height)))
      ∷ (codes "packetsLost", number (or_zero (some s.packets_lost)))
      ∷ (codes "jitter", number (or_zero (some s.jitter)))
      ∷ (codes "framesPerSecond", number (or_zero (some s.frames_per_second)))
      ∷ (codes "frameWidth", number (or_zero (some s.frame_width)))
      ∷ (codes "frameHeight", number (or_zero (some s.frame_height)))
      ∷ (codes "freezeRate", number (or_zero (some s.freeze_rate)))
      ∷ [])

  unfoldable pub subscription_value : Subscription W → Value W
  unfolding copy_optional_number
  subscription_value s =
      let a =
        copy_optional_number (codes "concealedSamples") s.concealed_samples
          (subscription_fields s) in
      let b = copy_optional_number (codes "totalSamplesReceived") s.total_samples_received a in
      let c = copy_optional_number (codes "freezeCount") s.freeze_count b in
      let d = copy_optional_number (codes "totalFreezesDuration") s.total_freezes_duration c in
      let e = copy_optional_number (codes "framesDropped") s.frames_dropped d in
      object (copy_optional_number (codes "jitterBufferDelayMs") s.jitter_buffer_delay_ms e)

  abbrev pub subscription_items : List (Subscription W) → Items W
  subscription_items [] = no_items
  subscription_items (s ∷ ss) = item (subscription_value s) (subscription_items ss)

  -- `serializeDownlinkSnapshot`, at the time `now`.
  unfoldable pub serialize_downlink_snapshot :
      W → W → Text → Transport W → List (Subscription W) → Fields W
  unfolding capped subscription_value
  serialize_downlink_snapshot seq now subscriber transport subscriptions = fields_of (
      (codes "schema", text downlink_schema)
      ∷ (codes "seq", number seq)
      ∷ (codes "tsMs", number now)
      ∷ (codes "subscriberPeerId", text subscriber)
      ∷ (
        codes "transport",
        object (
            fields_of (
              (
                codes "availableIncomingBitrate",
                number (or_zero (some transport.available_incoming_bitrate)),
              )
              ∷ (
                codes "currentRoundTripTime",
                number (or_zero (some transport.current_round_trip_time)),
              )
              ∷ [])),
      )
      ∷ (codes "subscriptions", array (subscription_items (capped subscriptions)))
      ∷ [])

  -- `Number.isSafeInteger(seq) && seq >= 0`.
  unfoldable pub is_safe_seq : Value W → Bool
  is_safe_seq (number x) =
      is_integer x && le x (decimal downlink_max_seq 0) && not (lt x (decimal 0 0))
  is_safe_seq _ = false

  abbrev pub is_text : Text → Value W → Bool
  is_text s (text t) = text_eq t s
  is_text s _ = false

  module _ (spread : Value W → Fields W) where
    -- `{...s}`: an object has its fields, a text or an array what `spread` says, all else none.
    unfoldable pub spread_of : Value W → Fields W
    spread_of (object entries) = entries
    spread_of (text t) = spread (text t)
    spread_of (array items) = spread (array items)
    spread_of _ = no_fields

    -- `s?.kind === 'audio' ? 'audio' : 'video'`.
    unfoldable pub read_kind : Value W → TrackKind
    read_kind (object entries) =
        if is_text (codes "audio") (get entries (codes "kind"))
        then TrackKind.audio
        else TrackKind.video
    read_kind _ = TrackKind.video

    unfoldable pub parse_subscription : Value W → Value W
    unfolding spread_of read_kind put
    parse_subscription s =
        object (put (codes "kind") (text (downlink_kind (read_kind s))) (spread_of s))

    abbrev pub parse_subscriptions : Items W → Items W
    parse_subscriptions no_items = no_items
    parse_subscriptions (item s ss) = item (parse_subscription s) (parse_subscriptions ss)

    abbrev pub with_kinds : Value W → Value W
    with_kinds (array items) = array (parse_subscriptions items)
    with_kinds v = v

    -- The copy of a payload whose schema and number are in order.
    abbrev pub upgraded : Fields W → Fields W
    upgraded payload =
        put (codes "subscriptions") (with_kinds (get payload (codes "subscriptions")))
          (put (codes "schema") (text downlink_schema) payload)

    unfoldable pub parse_downlink_snapshot : Value W → Result DownlinkComplaint (Fields W)
    unfolding ◌>>=◌ is_safe_seq put get
    parse_downlink_snapshot (object payload) =
        let schema = get payload (codes "schema") in
        do
          guard (is_text downlink_schema schema || is_text legacy_schema schema) unsupported_schema
          guard (is_safe_seq (get payload (codes "seq"))) bad_seq
          ok (upgraded payload)
    parse_downlink_snapshot (array items) = refused unsupported_schema
    parse_downlink_snapshot _ = refused not_an_object
