-- ===== src/SignalChannel/Delivery.antt =====
-- Who is told what by a channel of src/client/lib/qos/adapters/signalChannel.js.
use mediasoup_cpp.Shared.{
  ℕ, ◌≡◌, refl, Bool, true, false, Option, none, some, List, [], ◌∷◌, codes, any, Text, text_eq,
  Number, ok, refused, arith, if◌then◌else◌, Returns,
}
use mediasoup_cpp.Dynamic.{Value, missing, text, object, get}
use mediasoup_cpp.Protocol.{
  PolicyPayload, OverridePayload, parse_qos_policy, parse_qos_override, Reading, IsPolicy,
  IsOverride,
}
use mediasoup_cpp.Protocol.Soundness.{parse_qos_policy-Returns, parse_qos_override-Returns}
use mediasoup_cpp.SignalChannel.Meaning.{IsMeant, handle_message-IsMeant}
use mediasoup_cpp.SignalChannel.{
  Channel, call_each, Notice, policy_notice, override_notice, connection_notice, room_notice,
  Handled, handle_message, handle_method, tell, is_text, when_read, when_rated, with_method,
  ignored,
}

-- The calls: each listener in turn, unless an earlier one has thrown.
abbrev pub Calls : (ℕ → Bool) → List ℕ → List ℕ → Type 0
Calls throws [] called = called ≡ []
Calls throws (l ∷ ls) [] = ⊥
Calls throws (l ∷ ls) (m ∷ called) =
    (m ≡ l) × (if throws l then called ≡ [] else Calls throws ls called)

call_each-Calls : (throws : ℕ → Bool) (ls : List ℕ) → Calls throws ls (call_each throws ls).0
unfolding call_each
call_each-Calls throws [] = refl
call_each-Calls throws (l ∷ ls) = ground (arith, call_each-Calls throws ls)

call_each-any : (throws : ℕ → Bool) (ls : List ℕ) → (call_each throws ls).1 ≡ any throws ls
unfolding call_each
call_each-any throws [] = refl
call_each-any throws (l ∷ ls) = ground (arith, call_each-any throws ls)

module _ {W : Type 0} ⦃num : Number W⦄ where
  -- Of a notice that was parsed: it keeps the promises of the protocol, its listeners are called in
  -- turn, and no error gets out. Of other notices: the error of a listener does.
  abbrev pub IsTold : (ℕ → Bool) → Channel → Option (Notice W) → List ℕ → Bool → Type 0
  IsTold throws c none called thrown = (called ≡ []) × (thrown ≡ false)
  IsTold throws c (some (policy_notice p)) called thrown =
      IsPolicy p × Calls throws c.policy_listeners called × (thrown ≡ false)
  IsTold throws c (some (override_notice o)) called thrown =
      IsOverride o × Calls throws c.override_listeners called × (thrown ≡ false)
  IsTold throws c (some (connection_notice entries)) called thrown =
      Calls throws c.connection_quality_listeners called
      × (thrown ≡ any throws c.connection_quality_listeners)
  IsTold throws c (some (room_notice entries)) called thrown =
      Calls throws c.room_state_listeners called × (thrown ≡ any throws c.room_state_listeners)

  abbrev pub Delivers : (ℕ → Bool) → Channel → Handled W → Type 0
  Delivers throws c h = IsTold throws c h.notice h.called h.thrown

  Delivers-if :
      (throws : ℕ → Bool) (c : Channel) (test : Bool) (h k : Handled W)
      → Delivers throws c h
      → Delivers throws c k
      → Delivers throws c (if test then h else k)
  Delivers-if throws c true h k p q = p
  Delivers-if throws c false h k p q = q

  policy-Delivers :
      (throws : ℕ → Bool) (c : Channel) (r : Reading (PolicyPayload W))
      → Returns (IsPolicy {W = W}) r
      → Delivers throws c (when_read policy_notice (call_each throws c.policy_listeners) r)
  unfolding when_read
  policy-Delivers throws c (refused e) h = (refl, refl)
  policy-Delivers throws c (ok p) h = (h, call_each-Calls throws c.policy_listeners, refl)

  override-Delivers :
      (throws : ℕ → Bool) (c : Channel) (r : Reading (OverridePayload W))
      → Returns (IsOverride {W = W}) r
      → Delivers throws c (when_read override_notice (call_each throws c.override_listeners) r)
  unfolding when_read
  override-Delivers throws c (refused e) h = (refl, refl)
  override-Delivers throws c (ok o) h = (h, call_each-Calls throws c.override_listeners, refl)

  connection-Delivers :
      (throws : ℕ → Bool) (c : Channel) (v : Value W)
      → Delivers throws c
          (when_rated connection_notice (call_each throws c.connection_quality_listeners) v)
  unfolding when_rated
  connection-Delivers throws c (object entries) =
      Delivers-if throws c (is_text (get entries (codes "quality")))
        (tell (connection_notice entries) (call_each throws c.connection_quality_listeners)) ignored
        (
          call_each-Calls throws c.connection_quality_listeners,
          call_each-any throws c.connection_quality_listeners,
        )
        (refl, refl)
  connection-Delivers throws c missing = (refl, refl)
  connection-Delivers throws c v = (refl, refl)

  room-Delivers :
      (throws : ℕ → Bool) (c : Channel) (v : Value W)
      → Delivers throws c (when_rated room_notice (call_each throws c.room_state_listeners) v)
  unfolding when_rated
  room-Delivers throws c (object entries) =
      Delivers-if throws c (is_text (get entries (codes "quality")))
        (tell (room_notice entries) (call_each throws c.room_state_listeners)) ignored
        (call_each-Calls throws c.room_state_listeners, call_each-any throws c.room_state_listeners)
        (refl, refl)
  room-Delivers throws c v = (refl, refl)

  handle_method-Delivers :
      (throws : ℕ → Bool) (method : Text) (v : Value W) (c : Channel)
      → Delivers throws c (handle_method throws method v c)
  unfolding handle_method
  handle_method-Delivers throws method v c =
      let policy : Handled W =
        when_read policy_notice (call_each throws c.policy_listeners) (parse_qos_policy v) in
      let override : Handled W =
        when_read override_notice (call_each throws c.override_listeners) (parse_qos_override v) in
      let connection : Handled W =
        when_rated connection_notice (call_each throws c.connection_quality_listeners) v in
      let room : Handled W = when_rated room_notice (call_each throws c.room_state_listeners) v in
      let is_room : Bool = text_eq method (codes "qosRoomState") in
      let is_connection : Bool = text_eq method (codes "qosConnectionQuality") in
      let last : Handled W = if is_room then room else ignored in
      let later : Handled W = if is_connection then connection else last in
      let is_override : Bool = text_eq method (codes "qosOverride") in
      Delivers-if throws c (text_eq method (codes "qosPolicy")) policy
        (if is_override then override else later)
        (policy-Delivers throws c (parse_qos_policy v) (parse_qos_policy-Returns v))
        (Delivers-if throws c is_override override later
          (override-Delivers throws c (parse_qos_override v) (parse_qos_override-Returns v))
          (Delivers-if throws c is_connection connection last (connection-Delivers throws c v)
            (Delivers-if throws c is_room room ignored (room-Delivers throws c v) (refl, refl))))

  with_method-Delivers :
      (throws : ℕ → Bool) (m v : Value W) (c : Channel)
      → Delivers throws c (with_method throws m v c)
  unfolding with_method
  with_method-Delivers throws (text method) v c = handle_method-Delivers throws method v c
  with_method-Delivers throws m v c = (refl, refl)

  message-Delivers :
      (throws : ℕ → Bool) (v : Value W) (c : Channel)
      → Delivers throws c (handle_message throws v c)
  unfolding handle_message
  message-Delivers throws (object entries) c =
      with_method-Delivers throws (get entries (codes "method")) (get entries (codes "data")) c
  message-Delivers throws v c = (refl, refl)

  -- What is told is what the message is about, and is delivered.
  abbrev pub Tells : (ℕ → Bool) → Channel → Value W → Handled W → Type 0
  Tells throws c m h = IsMeant m h.notice × Delivers throws c h

  -- A message tells what it is about: the policy or the override that its data are, for the methods
  -- `qosPolicy` and `qosOverride`, and data with a quality that is a text, for the methods
  -- `qosConnectionQuality` and `qosRoomState`. One that is about nothing tells nobody anything and throws
  -- nothing, and only such a one does. A policy or an override that is told keeps the promises of the
  -- protocol, and no error gets out; of the other two the error of a listener does. The listeners of the
  -- topic are called in turn, each unless an earlier one has thrown.
  pub handle_message-Tells :
      (throws : ℕ → Bool) (m : Value W) (c : Channel) → Tells throws c m (handle_message throws m c)
  handle_message-Tells throws m c = (handle_message-IsMeant throws c m, message-Delivers throws m c)
