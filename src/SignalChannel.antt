-- ===== src/SignalChannel.antt =====
-- src/client/lib/qos/adapters/signalChannel.js: messages of the server, taken apart and handed to those
-- who listen. Listeners are numbered; which of them throw is up to them.
mod Meaning
mod Delivery
mod Examples
use mediasoup_cpp.Shared.{
  ℕ, Bool, true, false, not, ◌&&◌, Option, none, some, List, [], ◌∷◌, Text, codes, text_eq, any,
  filter, Number, ◌==◌, Result, ok, refused, if◌then◌else◌,
}
use mediasoup_cpp.Dynamic.{Value, text, object, Fields, get}
use mediasoup_cpp.Protocol.{PolicyPayload, OverridePayload, parse_qos_policy, parse_qos_override}

pub data Topic : Type 0 where
  policy_topic override_topic connection_topic room_topic : Topic

-- The four sets of listeners, in the order of insertion.
pub record Channel : Type 0 where
  pub policy_listeners : List ℕ
  pub override_listeners : List ℕ
  pub connection_quality_listeners : List ℕ
  pub room_state_listeners : List ℕ

unfoldable pub new_channel : Channel
new_channel = record {
  policy_listeners = [];
  override_listeners = [];
  connection_quality_listeners = [];
  room_state_listeners = [];
}

abbrev pub listeners_of : Topic → Channel → List ℕ
listeners_of policy_topic c = c.policy_listeners
listeners_of override_topic c = c.override_listeners
listeners_of connection_topic c = c.connection_quality_listeners
listeners_of room_topic c = c.room_state_listeners

abbrev set_listeners : Topic → List ℕ → Channel → Channel
set_listeners policy_topic ls c = record c { policy_listeners = ls }
set_listeners override_topic ls c = record c { override_listeners = ls }
set_listeners connection_topic ls c = record c { connection_quality_listeners = ls }
set_listeners room_topic ls c = record c { room_state_listeners = ls }

-- `Set.add`: one that is there keeps its place.
unfoldable pub add_listener : ℕ → List ℕ → List ℕ
add_listener l [] = l ∷ []
add_listener l (m ∷ ms) = let rest = add_listener l ms in if m == l then m ∷ ms else m ∷ rest

-- `onPolicy`, `onOverride`, `onConnectionQuality` and `onRoomState`.
unfoldable pub subscribe : Topic → ℕ → Channel → Channel
unfolding add_listener
subscribe topic l c = set_listeners topic (add_listener l (listeners_of topic c)) c

-- The function that these return.
unfoldable pub unsubscribe : Topic → ℕ → Channel → Channel
unsubscribe topic l c = set_listeners topic (filter (λ m. not (m == l)) (listeners_of topic c)) c

-- The loop over the listeners: those that are called, up to the first that throws.
unfoldable pub call_each : (ℕ → Bool) → List ℕ → List ℕ × Bool
call_each throws [] = ([], false)
call_each throws (l ∷ ls) =
    let (called, thrown) = call_each throws ls in
    if throws l then (l ∷ [], true) else (l ∷ called, thrown)

-- What listeners are given: a payload that was parsed, or data as they came.
pub data Notice (W : Type 0) : Type 0 where
  policy_notice : PolicyPayload W → Notice W
  override_notice : OverridePayload W → Notice W
  connection_notice : Fields W → Notice W
  room_notice : Fields W → Notice W

-- What came of a message: what was told, whom, and whether an error got out.
pub record Handled (W : Type 0) : Type 0 where
  pub notice : Option (Notice W)
  pub called : List ℕ
  pub thrown : Bool

module _ {W : Type 0} where
  abbrev pub ignored : Handled W
  ignored = record { notice = none; called = []; thrown = false }

  -- Under `try`: an error of a listener is dropped, with the calls that were left.
  abbrev tell_guarded : Notice W → List ℕ × Bool → Handled W
  tell_guarded n (called, thrown) = record { notice = some n; called = called; thrown = false }

  abbrev pub tell : Notice W → List ℕ × Bool → Handled W
  tell n (called, thrown) = record { notice = some n; called = called; thrown = thrown }

  unfoldable pub when_read :
      {E P : Type 0} → (P → Notice W) → List ℕ × Bool → Result E P → Handled W
  when_read f calls (refused e) = ignored
  when_read f calls (ok p) = tell_guarded (f p) calls

  -- `typeof data.quality === 'string'`.
  abbrev pub is_text : Value W → Bool
  is_text (text s) = true
  is_text v = false

  unfoldable pub when_rated : (Fields W → Notice W) → List ℕ × Bool → Value W → Handled W
  when_rated f calls (object data_fields) =
      if is_text (get data_fields (codes "quality")) then tell (f data_fields) calls else ignored
  when_rated f calls v = ignored

module _ {W : Type 0} ⦃num : Number W⦄ where
  unfoldable pub handle_method : (ℕ → Bool) → Text → Value W → Channel → Handled W
  unfolding when_read when_rated
  handle_method throws method v c =
      if text_eq method (codes "qosPolicy")
      then when_read policy_notice (call_each throws c.policy_listeners) (parse_qos_policy v)
      else if text_eq method (codes "qosOverride")
      then when_read override_notice (call_each throws c.override_listeners) (parse_qos_override v)
      else if text_eq method (codes "qosConnectionQuality")
      then when_rated connection_notice (call_each throws c.connection_quality_listeners) v
      else if text_eq method (codes "qosRoomState")
      then when_rated room_notice (call_each throws c.room_state_listeners) v
      else ignored

  unfoldable pub with_method : (ℕ → Bool) → Value W → Value W → Channel → Handled W
  unfolding handle_method
  with_method throws (text method) v c = handle_method throws method v c
  with_method throws m v c = ignored

  unfoldable pub handle_message : (ℕ → Bool) → Value W → Channel → Handled W
  unfolding call_each with_method
  handle_message throws (object entries) c =
      with_method throws (get entries (codes "method")) (get entries (codes "data")) c
  handle_message throws v c = ignored
