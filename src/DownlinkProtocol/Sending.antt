-- ===== src/DownlinkProtocol/Sending.antt =====
-- Snapshots that `serializeDownlinkSnapshot` of src/client/lib/qos/downlinkProtocol.js builds, as
-- `parseDownlinkSnapshot` reads them.
use mediasoup_cpp.Shared.{
  ℕ, zero, suc, ◌≤◌, ◌≡◌, refl, ap, sym, ◌∙◌, true, false, Option, none, some, List, [], ◌∷◌, Text,
  codes, text_eq, length, take, ltb, Number, ok, arith, if◌then◌else◌,
}
use mediasoup_cpp.Types.{TrackKind}
use mediasoup_cpp.Dynamic.{
  Value, text, number, object, array, Items, item, Fields, get, count_items,
}
use mediasoup_cpp.DownlinkSampler.{Transport, Subscription}
use mediasoup_cpp.DownlinkProtocol.{
  put, downlink_kind, copy_optional_number, subscription_value, subscription_items, capped,
  serialize_downlink_snapshot, read_kind, spread_of, parse_subscription, parse_subscriptions,
  is_safe_seq, parse_downlink_snapshot, downlink_max_subscriptions,
}
use mediasoup_cpp.DownlinkProtocol.Records.{get-put_other, put-kept}
use mediasoup_cpp.DownlinkProtocol.Checks.{parse_downlink_snapshot-ok}

length-take : {A : Type 0} (n : ℕ) (xs : List A) → length (take n xs) ≤ n
length-take zero xs = omega arith
length-take (suc n) [] = omega arith
length-take (suc n) (x ∷ xs) = omega (arith, length-take n xs)

length-take_past :
    {A : Type 0} (n : ℕ) (xs : List A) → length (if ltb n (length xs) then take n xs else xs) ≤ n
length-take_past n xs = ground (arith, length-take n xs)

length-capped : {A : Type 0} (xs : List A) → length (capped xs) ≤ downlink_max_subscriptions
unfolding capped
length-capped xs = length-take_past downlink_max_subscriptions xs

module _ {W : Type 0} ⦃num : Number W⦄ where
  get-copy_optional_number :
      (k j : Text) (v : Option W) (entries : Fields W)
      → text_eq k j ≡ false
      → get (copy_optional_number k v entries) j ≡ get entries j
  unfolding copy_optional_number
  get-copy_optional_number k j none entries h = refl
  get-copy_optional_number k j (some x) entries h =
      ground (arith, get-put_other k j (number x) entries h)

  count_items-subscription_items :
      (ss : List (Subscription W)) → count_items (subscription_items ss) ≡ length ss
  unfolding count_items
  count_items-subscription_items [] = refl
  count_items-subscription_items (s ∷ ss) = ap suc (count_items-subscription_items ss)

  kind-subscription_value :
      (s : Subscription W)
      → (entries : Fields W) × (subscription_value s ≡ object entries)
        × (get entries (codes "kind") ≡ text (downlink_kind s.kind))
  unfolding subscription_value get
  kind-subscription_value s = (
    _,
    refl,
    get-copy_optional_number _ (codes "kind") s.jitter_buffer_delay_ms _ refl
        ∙ get-copy_optional_number _ (codes "kind") s.frames_dropped _ refl
        ∙ get-copy_optional_number _ (codes "kind") s.total_freezes_duration _ refl
        ∙ get-copy_optional_number _ (codes "kind") s.freeze_count _ refl
        ∙ get-copy_optional_number _ (codes "kind") s.total_samples_received _ refl
        ∙ get-copy_optional_number _ (codes "kind") s.concealed_samples _ refl,
  )

module _ {W : Type 0} ⦃num : Number W⦄ (spread : Value W → Fields W) where
  read_kind-object :
      (k : TrackKind) (entries : Fields W)
      → get entries (codes "kind") ≡ text (downlink_kind k)
      → read_kind spread (object entries) ≡ k
  unfolding read_kind
  read_kind-object TrackKind.audio entries h = rw h refl
  read_kind-object TrackKind.video entries h = rw h refl

  parse_subscription-object :
      (k : TrackKind) (entries : Fields W)
      → get entries (codes "kind") ≡ text (downlink_kind k)
      → parse_subscription spread (object entries) ≡ object entries
  unfolding parse_subscription spread_of
  parse_subscription-object k entries h =
      rw (read_kind-object k entries h)
        (ap object (put-kept (codes "kind") (downlink_kind k) entries h))

  parse_subscription-value :
      (s : Subscription W) → parse_subscription spread (subscription_value s) ≡ subscription_value s
  parse_subscription-value s =
      let (entries, e, h) = kind-subscription_value s in
      ap (parse_subscription spread) e ∙ parse_subscription-object s.kind entries h ∙ sym e

  parse_subscriptions-items :
      (ss : List (Subscription W))
      → parse_subscriptions spread (subscription_items ss) ≡ subscription_items ss
  parse_subscriptions-items [] = refl
  parse_subscriptions-items (s ∷ ss) =
      rw (parse_subscription-value s)
        (ap (item (subscription_value s)) (parse_subscriptions-items ss))

  -- What `serializeDownlinkSnapshot` builds from a safe number is read as it is, and has 64 subscriptions
  -- at most.
  pub parse_downlink_snapshot-serialize :
      (seq now : W) (subscriber : Text) (transport : Transport W) (ss : List (Subscription W))
      → is_safe_seq (number seq) ≡ true
      → (parse_downlink_snapshot spread
            (object (serialize_downlink_snapshot seq now subscriber transport ss))
          ≡ ok (serialize_downlink_snapshot seq now subscriber transport ss))
        × ((items : Items W) × (get
                (serialize_downlink_snapshot seq now subscriber transport ss)
                (codes "subscriptions")
              ≡ array items)
            × (count_items items ≤ 64))
  unfolding serialize_downlink_snapshot get put
  parse_downlink_snapshot-serialize seq now subscriber transport ss h = (
    parse_downlink_snapshot-ok spread _ refl h ∙ rw (parse_subscriptions-items (capped ss)) refl,
    (
      subscription_items (capped ss),
      refl,
      omega (arith, count_items-subscription_items (capped ss), length-capped ss),
    ),
  )
