-- ===== src/DownlinkProtocol/Checks.antt =====
-- What the check of src/client/lib/qos/downlinkProtocol.js makes of a payload, and of its own result.
use mediasoup_cpp.Shared.{
  ◌≡◌, refl, ap, sym, ◌∙◌, Bool, true, false, codes, Bool-cases, inl, inr, Text, text_eq,
  text_eq_sound, if◌then◌else◌, Number, ok, guard, ◌>>=◌, ◌>>◌, arith,
}
use mediasoup_cpp.Types.{TrackKind}
use mediasoup_cpp.Dynamic.{Value, text, object, array, Items, no_items, item, Fields, get}
use mediasoup_cpp.DownlinkProtocol.{
  put, downlink_kind, downlink_schema, read_kind, spread_of, parse_subscription,
  parse_subscriptions, with_kinds, upgraded, is_safe_seq, parse_downlink_snapshot,
  DownlinkComplaint,
}
use mediasoup_cpp.DownlinkProtocol.Records.{get-put, get-put_other, put-put, put-kept}

module _ {W : Type 0} ⦃num : Number W⦄ (spread : Value W → Fields W) where
  read_kind-put :
      (k : TrackKind) (entries : Fields W)
      → read_kind spread (object (put (codes "kind") (text (downlink_kind k)) entries)) ≡ k
  unfolding read_kind
  read_kind-put TrackKind.audio entries =
      rw (get-put (codes "kind") (text (codes "audio")) entries) refl
  read_kind-put TrackKind.video entries =
      rw (get-put (codes "kind") (text (codes "video")) entries) refl

  parse_subscription-twice :
      (s : Value W)
      → parse_subscription spread (parse_subscription spread s) ≡ parse_subscription spread s
  unfolding parse_subscription spread_of
  parse_subscription-twice s =
      rw (read_kind-put (read_kind spread s) (spread_of spread s))
        (ap object (put-put (codes "kind") _ _ (spread_of spread s)))

  parse_subscriptions-twice :
      (ss : Items W)
      → parse_subscriptions spread (parse_subscriptions spread ss) ≡ parse_subscriptions spread ss
  parse_subscriptions-twice no_items = refl
  parse_subscriptions-twice (item s ss) =
      rw (parse_subscription-twice s)
        (ap (item (parse_subscription spread s)) (parse_subscriptions-twice ss))

  with_kinds-twice : (v : Value W) → with_kinds spread (with_kinds spread v) ≡ with_kinds spread v
  with_kinds-twice (array items) = ap array (parse_subscriptions-twice items)
  with_kinds-twice v = refl

  pub schema-upgraded :
      (payload : Fields W) → get (upgraded spread payload) (codes "schema") ≡ text downlink_schema
  schema-upgraded payload =
      get-put_other (codes "subscriptions") (codes "schema") _ _ refl
      ∙ get-put (codes "schema") (text downlink_schema) payload

  pub seq-upgraded :
      (payload : Fields W) → get (upgraded spread payload) (codes "seq") ≡ get payload (codes "seq")
  seq-upgraded payload =
      get-put_other (codes "subscriptions") (codes "seq") _ _ refl
      ∙ get-put_other (codes "schema") (codes "seq") _ payload refl

  pub upgraded-twice :
      (payload : Fields W) → upgraded spread (upgraded spread payload) ≡ upgraded spread payload
  upgraded-twice payload =
      let once = upgraded spread payload in
      let given = get payload (codes "subscriptions") in
      ap (put (codes "subscriptions") _)
        (put-kept (codes "schema") downlink_schema once (schema-upgraded payload))
      ∙ ap (λ v. put (codes "subscriptions") (with_kinds spread v) once)
          (get-put (codes "subscriptions") (with_kinds spread given) _)
      ∙ ap (λ v. put (codes "subscriptions") v once) (with_kinds-twice given)
      ∙ put-put (codes "subscriptions") (with_kinds spread given) _ _

  pub get-put_if :
      (k j : Text) (v : Value W) (entries : Fields W)
      → get (put k v entries) j ≡ (if text_eq k j then v else get entries j)
  get-put_if k j v entries = elim (Bool-cases (text_eq k j)) [
    | inl same ↦
        rw same
          (ap (λ i. get (put k v entries) i) (sym (text_eq_sound k j same)) ∙ get-put k v entries)
    | inr other ↦ rw other (get-put_other k j v entries other)
  ]

  pub checked :
      (a b : Bool) (r f : Fields W)
      → (do guard a DownlinkComplaint.unsupported_schema; guard b DownlinkComplaint.bad_seq; ok r)
        ≡ ok f
      → (a ≡ true) × (b ≡ true) × (r ≡ f)
  unfolding ◌>>=◌
  checked true true r f h = (refl, refl, ground (arith, h))
  checked true false r f h = ground (arith, h)
  checked false b r f h = ground (arith, h)

  -- A snapshot whose schema and number are in order is read.
  pub parse_downlink_snapshot-ok :
      (f : Fields W)
      → get f (codes "schema") ≡ text downlink_schema
      → is_safe_seq (get f (codes "seq")) ≡ true
      → parse_downlink_snapshot spread (object f) ≡ ok (upgraded spread f)
  unfolding parse_downlink_snapshot ◌>>=◌
  parse_downlink_snapshot-ok f h k = rw h (rw k refl)
