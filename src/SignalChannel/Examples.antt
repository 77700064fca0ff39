-- ===== src/SignalChannel/Examples.antt =====
-- A message at a channel of src/client/lib/qos/adapters/signalChannel.js.
use mediasoup_cpp.Shared.{◌≡◌, refl, [], ◌∷◌, codes, Milli, milli_number, ◌==◌}
use mediasoup_cpp.Dynamic.{Value, text, object, no_fields, field, get}
use mediasoup_cpp.SignalChannel.{connection_topic, Channel, new_channel, subscribe, handle_message}
use mediasoup_cpp.SignalChannel.Delivery.{Tells, handle_message-Tells}

unfoldable channel : Channel
unfolding subscribe new_channel
channel =
    subscribe connection_topic 1
      (subscribe connection_topic 7 (subscribe connection_topic 3 new_channel))

-- The quality of the connection, as the server tells it.
abbrev message : Value Milli
message = object (
    field (codes "method") (text (codes "qosConnectionQuality")) (
      field (codes "data") (object (field (codes "quality") (text (codes "poor")) no_fields))
        no_fields))

-- The second of three listeners throws: the third is not called.
two_of_three : (handle_message (λ l. l == 7) message channel).called ≡ 3 ∷ 7 ∷ []
unfolding handle_message channel get
two_of_three = refl

handle_message-Tells_example :
    Tells (λ l. l == 7) channel message (handle_message (λ l. l == 7) message channel)
handle_message-Tells_example = handle_message-Tells (λ l. l == 7) message channel
