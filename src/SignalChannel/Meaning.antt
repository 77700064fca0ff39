-- ===== src/SignalChannel/Meaning.antt =====
-- What a message means to the listeners of src/client/lib/qos/adapters/signalChannel.js.
use mediasoup_cpp.Shared.{
  ℕ, ◌≡◌, refl, sym, ◌∙◌, subst, Bool, true, Bool-cases, Option, none, some, codes, Text, text_eq,
  text_eq_sound, ap, Number, ok, refused, arith, ◌⊎◌, inl, inr,
}
use mediasoup_cpp.Dynamic.{Value, missing, null, boolean, number, text, array, object, Fields, get}
use mediasoup_cpp.Protocol.{
  PolicyPayload, OverridePayload, parse_qos_policy, parse_qos_override, Reading,
}
use mediasoup_cpp.SignalChannel.{
  Channel, Notice, policy_notice, override_notice, connection_notice, room_notice, handle_message,
  handle_method, with_method, when_read, when_rated,
}

module _ {W : Type 0} ⦃num : Number W⦄ where
  -- A message is an object with a method and data. Of the methods, two have a payload that is parsed, and
  -- two have data with a quality that is a text.
  pub data IsAbout : Value W → Notice W → Type 0 where
    about_policy :
        {entries : Fields W} {p : PolicyPayload W}
        → get entries (codes "method") ≡ text (codes "qosPolicy")
        → parse_qos_policy (get entries (codes "data")) ≡ ok p
        → IsAbout (object entries) (policy_notice p)
    about_override :
        {entries : Fields W} {o : OverridePayload W}
        → get entries (codes "method") ≡ text (codes "qosOverride")
        → parse_qos_override (get entries (codes "data")) ≡ ok o
        → IsAbout (object entries) (override_notice o)
    about_connection :
        {entries content : Fields W} {quality : Text}
        → get entries (codes "method") ≡ text (codes "qosConnectionQuality")
        → get entries (codes "data") ≡ object content
        → get content (codes "quality") ≡ text quality
        → IsAbout (object entries) (connection_notice content)
    about_room :
        {entries content : Fields W} {quality : Text}
        → get entries (codes "method") ≡ text (codes "qosRoomState")
        → get entries (codes "data") ≡ object content
        → get content (codes "quality") ≡ text quality
        → IsAbout (object entries) (room_notice content)

  -- A notice is what the message is about; there is none only where it is about nothing.
  abbrev pub IsMeant : Value W → Option (Notice W) → Type 0
  IsMeant m none = (n : Notice W) → ¬ IsAbout m n
  IsMeant m (some n) = IsAbout m n

  module _ (throws : ℕ → Bool) (c : Channel) where
    -- What a message is about is told.
    IsAbout-told :
        (m : Value W) (n : Notice W) → IsAbout m n → (handle_message throws m c).notice ≡ some n
    unfolding handle_message with_method handle_method when_read when_rated
    IsAbout-told _ _ (about_policy m p) = rw m (rw p refl)
    IsAbout-told _ _ (about_override m o) = rw m (rw o refl)
    IsAbout-told _ _ (about_connection m d q) = rw m (rw d (rw q refl))
    IsAbout-told _ _ (about_room m d q) = rw m (rw d (rw q refl))

    -- A message is about something, or nothing is told.
    abbrev Settles : Value W → Type 0
    Settles m = ((n : Notice W) × IsAbout m n) ⊎ ((handle_message throws m c).notice ≡ none)

    policy-Settles :
        (entries : Fields W) (r : Reading (PolicyPayload W))
        → get entries (codes "method") ≡ text (codes "qosPolicy")
        → parse_qos_policy (get entries (codes "data")) ≡ r
        → Settles (object entries)
    unfolding handle_message with_method handle_method when_read
    policy-Settles entries (ok p) m e = inl (policy_notice p, about_policy m e)
    policy-Settles entries (refused err) m e = inr (rw m (rw e refl))

    override-Settles :
        (entries : Fields W) (r : Reading (OverridePayload W))
        → get entries (codes "method") ≡ text (codes "qosOverride")
        → parse_qos_override (get entries (codes "data")) ≡ r
        → Settles (object entries)
    unfolding handle_message with_method handle_method when_read
    override-Settles entries (ok o) m e = inl (override_notice o, about_override m e)
    override-Settles entries (refused err) m e = inr (rw m (rw e refl))

    connection_quality-Settles :
        (entries content : Fields W) (q : Value W)
        → get entries (codes "method") ≡ text (codes "qosConnectionQuality")
        → get entries (codes "data") ≡ object content
        → get content (codes "quality") ≡ q
        → Settles (object entries)
    unfolding handle_message with_method handle_method when_rated
    connection_quality-Settles entries content (text q) m d e =
        inl (connection_notice content, about_connection m d e)
    connection_quality-Settles entries content missing m d e = inr (rw m (rw d (rw e refl)))
    connection_quality-Settles entries content null m d e = inr (rw m (rw d (rw e refl)))
    connection_quality-Settles entries content (boolean b) m d e = inr (rw m (rw d (rw e refl)))
    connection_quality-Settles entries content (number x) m d e = inr (rw m (rw d (rw e refl)))
    connection_quality-Settles entries content (array items) m d e = inr (rw m (rw d (rw e refl)))
    connection_quality-Settles entries content (object inner) m d e = inr (rw m (rw d (rw e refl)))

    connection-Settles :
        (entries : Fields W) (v : Value W)
        → get entries (codes "method") ≡ text (codes "qosConnectionQuality")
        → get entries (codes "data") ≡ v
        → Settles (object entries)
    unfolding handle_message with_method handle_method when_rated
    connection-Settles entries (object content) m d =
        connection_quality-Settles entries content (get content (codes "quality")) m d refl
    connection-Settles entries missing m d = inr (rw m (rw d refl))
    connection-Settles entries null m d = inr (rw m (rw d refl))
    connection-Settles entries (boolean b) m d = inr (rw m (rw d refl))
    connection-Settles entries (number x) m d = inr (rw m (rw d refl))
    connection-Settles entries (text t) m d = inr (rw m (rw d refl))
    connection-Settles entries (array items) m d = inr (rw m (rw d refl))

    room_quality-Settles :
        (entries content : Fields W) (q : Value W)
        → get entries (codes "method") ≡ text (codes "qosRoomState")
        → get entries (codes "data") ≡ object content
        → get content (codes "quality") ≡ q
        → Settles (object entries)
    unfolding handle_message with_method handle_method when_rated
    room_quality-Settles entries content (text q) m d e =
        inl (room_notice content, about_room m d e)
    room_quality-Settles entries content missing m d e = inr (rw m (rw d (rw e refl)))
    room_quality-Settles entries content null m d e = inr (rw m (rw d (rw e refl)))
    room_quality-Settles entries content (boolean b) m d e = inr (rw m (rw d (rw e refl)))
    room_quality-Settles entries content (number x) m d e = inr (rw m (rw d (rw e refl)))
    room_quality-Settles entries content (array items) m d e = inr (rw m (rw d (rw e refl)))
    room_quality-Settles entries content (object inner) m d e = inr (rw m (rw d (rw e refl)))

    room-Settles :
        (entries : Fields W) (v : Value W)
        → get entries (codes "method") ≡ text (codes "qosRoomState")
        → get entries (codes "data") ≡ v
        → Settles (object entries)
    unfolding handle_message with_method handle_method when_rated
    room-Settles entries (object content) m d =
        room_quality-Settles entries content (get content (codes "quality")) m d refl
    room-Settles entries missing m d = inr (rw m (rw d refl))
    room-Settles entries null m d = inr (rw m (rw d refl))
    room-Settles entries (boolean b) m d = inr (rw m (rw d refl))
    room-Settles entries (number x) m d = inr (rw m (rw d refl))
    room-Settles entries (text t) m d = inr (rw m (rw d refl))
    room-Settles entries (array items) m d = inr (rw m (rw d refl))

    named :
        (entries : Fields W) (t u : Text)
        → get entries (codes "method") ≡ text t
        → text_eq t u ≡ true
        → get entries (codes "method") ≡ text u
    named entries t u m h = m ∙ ap text (text_eq_sound t u h)

    method-Settles :
        (entries : Fields W) (t : Text)
        → get entries (codes "method") ≡ text t
        → Settles (object entries)
    unfolding handle_message with_method handle_method
    method-Settles entries t m = elim (Bool-cases (text_eq t (codes "qosPolicy"))) [
      | inl policy ↦ policy-Settles entries _ (named entries t _ m policy) refl
      | inr other1 ↦ elim (Bool-cases (text_eq t (codes "qosOverride"))) [
        | inl override ↦ override-Settles entries _ (named entries t _ m override) refl
        | inr other2 ↦ elim (Bool-cases (text_eq t (codes "qosConnectionQuality"))) [
          | inl connection ↦ connection-Settles entries _ (named entries t _ m connection) refl
          | inr other3 ↦ elim (Bool-cases (text_eq t (codes "qosRoomState"))) [
            | inl room ↦ room-Settles entries _ (named entries t _ m room) refl
            | inr other4 ↦ inr (rw m (rw other1 (rw other2 (rw other3 (rw other4 refl)))))
          ]
        ]
      ]
    ]

    entries-Settles :
        (entries : Fields W) (v : Value W)
        → get entries (codes "method") ≡ v
        → Settles (object entries)
    unfolding handle_message with_method
    entries-Settles entries (text t) m = method-Settles entries t m
    entries-Settles entries missing m = inr (rw m refl)
    entries-Settles entries null m = inr (rw m refl)
    entries-Settles entries (boolean b) m = inr (rw m refl)
    entries-Settles entries (number x) m = inr (rw m refl)
    entries-Settles entries (array items) m = inr (rw m refl)
    entries-Settles entries (object inner) m = inr (rw m refl)

    message-Settles : (m : Value W) → Settles m
    unfolding handle_message
    message-Settles (object entries) = entries-Settles entries (get entries (codes "method")) refl
    message-Settles v = inr refl

    pub handle_message-IsMeant : (m : Value W) → IsMeant m (handle_message throws m c).notice
    handle_message-IsMeant m = elim (message-Settles m) [
      | inl (n, a) ↦ subst (IsMeant m) (sym (IsAbout-told m n a)) a
      | inr nothing ↦
          subst (IsMeant m) (sym nothing) (λ n a. ground (arith, nothing, IsAbout-told m n a))
    ]
