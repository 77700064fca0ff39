-- ===== src/DownlinkProtocol/Validity.antt =====
-- What src/client/lib/qos/downlinkProtocol.js promises of the snapshots that it lets through, in words of
-- its own.
use mediasoup_cpp.Shared.{
  ◌≡◌, refl, ap, sym, subst, ◌∙◌, ◌⊎◌, inl, inr, true, false, Bool-cases, ◌||◌, codes, Text,
  text_eq, text_eq_sound, Number, ok, arith, if◌then◌else◌,
}
use mediasoup_cpp.Types.{TrackKind}
use mediasoup_cpp.Dynamic.{
  Value, missing, null, boolean, text, number, object, array, Items, no_items, item, Fields, get,
}
use mediasoup_cpp.DownlinkProtocol.{
  put, downlink_kind, downlink_schema, legacy_schema, read_kind, spread_of, parse_subscription,
  parse_subscriptions, with_kinds, upgraded, is_safe_seq, is_text, parse_downlink_snapshot,
}
use mediasoup_cpp.DownlinkProtocol.Checks.{
  checked, get-put_if, upgraded-twice, schema-upgraded, seq-upgraded, parse_downlink_snapshot-ok,
}

module _ {W : Type 0} ⦃num : Number W⦄ where
  open num use {decimal, is_integer, lt, le}

  -- A safe integer of the language, not below 0.
  abbrev pub IsSafeSeq : Value W → Type 0
  IsSafeSeq v =
      (x : W) × (v ≡ number x)
      × (is_integer x ≡ true)
      × (lt x (decimal 0 0) ≡ false)
      × (le x (decimal 9_007_199_254_740_991 0) ≡ true)

  abbrev pub IsKnownSchema : Value W → Type 0
  IsKnownSchema v =
      (v ≡ text (codes "mediasoup.qos.downlink.client.v1"))
      ⊎ (v ≡ text (codes "mediasoup.downlink.v1"))

  is_safe_seq-IsSafeSeq : (v : Value W) → is_safe_seq v ≡ true → IsSafeSeq v
  unfolding is_safe_seq
  is_safe_seq-IsSafeSeq (number x) h =
      (x, refl, ground (arith, h), ground (arith, h), ground (arith, h))
  is_safe_seq-IsSafeSeq missing h = ground (arith, h)
  is_safe_seq-IsSafeSeq null h = ground (arith, h)
  is_safe_seq-IsSafeSeq (boolean b) h = ground (arith, h)
  is_safe_seq-IsSafeSeq (text s) h = ground (arith, h)
  is_safe_seq-IsSafeSeq (array items) h = ground (arith, h)
  is_safe_seq-IsSafeSeq (object entries) h = ground (arith, h)

  is_text_lem : (s : Text) (v : Value W) → is_text s v ≡ true → v ≡ text s
  is_text_lem s (text t) h = ap text (text_eq_sound t s h)
  is_text_lem s missing h = ground (arith, h)
  is_text_lem s null h = ground (arith, h)
  is_text_lem s (boolean b) h = ground (arith, h)
  is_text_lem s (number x) h = ground (arith, h)
  is_text_lem s (array items) h = ground (arith, h)
  is_text_lem s (object entries) h = ground (arith, h)

  known :
      (v : Value W)
      → (is_text downlink_schema v || is_text legacy_schema v) ≡ true
      → IsKnownSchema v
  known v h = elim (Bool-cases (is_text downlink_schema v)) [
    | inl current ↦ inl (is_text_lem downlink_schema v current)
    | inr other ↦ inr (is_text_lem legacy_schema v (ground (arith, h, other)))
  ]

  -- The kind that a value names: audio, or else video.
  abbrev named_kind : Value W → Text
  named_kind (text t) = if text_eq t (codes "audio") then codes "audio" else codes "video"
  named_kind v = codes "video"

  abbrev pub kind_told : Value W → Text
  kind_told (object entries) = named_kind (get entries (codes "kind"))
  kind_told v = codes "video"

  module _ (spread : Value W → Fields W) where
    -- A subscription that is read has the fields of the one that came, and one of the two kinds.
    abbrev pub IsRead : Value W → Value W → Type 0
    IsRead s t =
        (entries : Fields W) × (t ≡ object entries)
        × ((key : Text)
            → get entries key ≡ (
                if text_eq (codes "kind") key
                then text (kind_told s)
                else get (spread_of spread s) key))

    abbrev pub AllRead : Items W → Items W → Type 0
    AllRead no_items no_items = Unit
    AllRead (item s ss) (item t ts) = IsRead s t × AllRead ss ts
    AllRead ss ts = ⊥

    -- An array is read item by item, and anything else stays.
    abbrev pub SubscriptionsRead : Value W → Value W → Type 0
    SubscriptionsRead (array ss) v = (ts : Items W) × (v ≡ array ts) × AllRead ss ts
    SubscriptionsRead given v = v ≡ given

    -- What a snapshot that is read has of the one that came.
    abbrev pub IsReading : Fields W → Fields W → Type 0
    IsReading payload f =
        IsKnownSchema (get payload (codes "schema"))
        × IsSafeSeq (get payload (codes "seq"))
        × (get f (codes "schema") ≡ text (codes "mediasoup.qos.downlink.client.v1"))
        × SubscriptionsRead (get payload (codes "subscriptions")) (get f (codes "subscriptions"))
        × ((key : Text)
            → get f key ≡ (
                if text_eq (codes "subscriptions") key
                then get f (codes "subscriptions")
                else if text_eq (codes "schema") key
                then text (codes "mediasoup.qos.downlink.client.v1")
                else get payload key))

    read_kind-kind_told : (s : Value W) → downlink_kind (read_kind spread s) ≡ kind_told s
    unfolding read_kind
    read_kind-kind_told (object entries) = kind-named (get entries (codes "kind"))
      where
        kind-named :
            (v : Value W)
            → downlink_kind (if is_text (codes "audio") v then TrackKind.audio else TrackKind.video)
              ≡ named_kind v
        kind-named (text t) = elim (Bool-cases (text_eq t (codes "audio"))) [
          | inl same ↦ rw same refl
          | inr other ↦ rw other refl
        ]
        kind-named v = refl
    read_kind-kind_told s = refl

    parse_subscription-IsRead : (s : Value W) → IsRead s (parse_subscription spread s)
    unfolding parse_subscription
    parse_subscription-IsRead s = (
      _,
      refl,
      λ key.
          get-put_if spread (codes "kind") key _ (spread_of spread s)
          ∙ ap (λ t. if text_eq (codes "kind") key then text t else get (spread_of spread s) key)
              (read_kind-kind_told s),
    )

    parse_subscriptions-AllRead : (ss : Items W) → AllRead ss (parse_subscriptions spread ss)
    parse_subscriptions-AllRead no_items = tt
    parse_subscriptions-AllRead (item s ss) =
        (parse_subscription-IsRead s, parse_subscriptions-AllRead ss)

    with_kinds-SubscriptionsRead : (v : Value W) → SubscriptionsRead v (with_kinds spread v)
    with_kinds-SubscriptionsRead (array ss) = (_, refl, parse_subscriptions-AllRead ss)
    with_kinds-SubscriptionsRead v = refl

    subscriptions-upgraded :
        (payload : Fields W)
        → get (upgraded spread payload) (codes "subscriptions")
          ≡ with_kinds spread (get payload (codes "subscriptions"))
    subscriptions-upgraded payload =
        get-put_if spread (codes "subscriptions") (codes "subscriptions") _ _

    upgraded-IsReading :
        (payload : Fields W)
        → IsKnownSchema (get payload (codes "schema"))
        → is_safe_seq (get payload (codes "seq")) ≡ true
        → IsReading payload (upgraded spread payload)
    upgraded-IsReading payload h k = (
      h,
      is_safe_seq-IsSafeSeq _ k,
      schema-upgraded spread payload,
      subst (SubscriptionsRead (get payload (codes "subscriptions")))
          (sym (subscriptions-upgraded payload))
          (with_kinds-SubscriptionsRead (get payload (codes "subscriptions"))),
      λ key.
          get-put_if spread (codes "subscriptions") key _ _
          ∙ ap
              (λ v.
                if text_eq (codes "subscriptions") key
                then v
                else get (put (codes "schema") (text downlink_schema) payload) key)
              (sym (subscriptions-upgraded payload))
          ∙ ap
              (λ v.
                if text_eq (codes "subscriptions") key
                then get (upgraded spread payload) (codes "subscriptions")
                else v)
              (get-put_if spread (codes "schema") key (text downlink_schema) payload),
    )

    read-again :
        (payload : Fields W)
        → is_safe_seq (get payload (codes "seq")) ≡ true
        → parse_downlink_snapshot spread (object (upgraded spread payload))
          ≡ ok (upgraded spread payload)
    read-again payload h =
        parse_downlink_snapshot-ok spread (upgraded spread payload) (schema-upgraded spread payload)
          (ap is_safe_seq (seq-upgraded spread payload) ∙ h)
        ∙ ap ok (upgraded-twice spread payload)

    -- A snapshot that is let through came as an object with the current schema or the old one, and with a
    -- safe integer from 0 up for a number. It now has the current schema; its subscriptions, if they came
    -- as an array, are as many objects with the fields that came, each of kind audio if it came so and of
    -- kind video otherwise, and are what came if not; every other field is as it came. And it is let
    -- through again as it is.
    pub parse_downlink_snapshot-parse :
        (v : Value W) (f : Fields W)
        → parse_downlink_snapshot spread v ≡ ok f
        → ((payload : Fields W) × (v ≡ object payload) × IsReading payload f)
          × (parse_downlink_snapshot spread (object f) ≡ ok f)
    unfolding parse_downlink_snapshot
    parse_downlink_snapshot-parse (object payload) f h =
        let (a, b, e) = checked spread _ _ (upgraded spread payload) f h in
        subst
          (λ g.
            ((p : Fields W) × (object payload ≡ object p) × IsReading p g)
            × (parse_downlink_snapshot spread (object g) ≡ ok g))
          e
          (
            (payload, refl, upgraded-IsReading payload (known (get payload (codes "schema")) a) b),
            read-again payload b,
          )
    parse_downlink_snapshot-parse missing f h = ground (arith, h)
    parse_downlink_snapshot-parse null f h = ground (arith, h)
    parse_downlink_snapshot-parse (boolean b) f h = ground (arith, h)
    parse_downlink_snapshot-parse (number x) f h = ground (arith, h)
    parse_downlink_snapshot-parse (text s) f h = ground (arith, h)
    parse_downlink_snapshot-parse (array items) f h = ground (arith, h)
