-- ===== src/Protocol/Exchange.antt =====
-- Payloads of src/client/lib/qos/protocol.js from the sender to the receiver.
use mediasoup_cpp.Shared.{◌≡◌, Number, ok, Returns-ok}
use mediasoup_cpp.Dynamic.{Value}
use mediasoup_cpp.Protocol.Payloads.{ClientSnapshot, PolicyPayload, OverridePayload}
use mediasoup_cpp.Protocol.Parsers.{
  parse_client_qos_snapshot, parse_qos_policy, parse_qos_override, serialize_client_qos_snapshot,
}
use mediasoup_cpp.Protocol.Values.{client_qos_snapshot_value, qos_policy_value, qos_override_value}
use mediasoup_cpp.Protocol.Validity.{IsClientSnapshot, IsPolicy, IsOverride}
use mediasoup_cpp.Protocol.RoundTrip.{
  parse_client_qos_snapshot-value, parse_qos_policy-value, parse_qos_override-value,
}
use mediasoup_cpp.Protocol.Soundness.{
  parse_client_qos_snapshot-Returns, parse_qos_policy-Returns, parse_qos_override-Returns,
}

module _ {W : Type 0} ⦃num : Number W⦄ where
  -- What a sender's `serializeClientQosSnapshot` lets through keeps the promises of the protocol, and the
  -- receiver's parser reads it as it is.
  pub serialize_client_qos_snapshot-parse :
      (v : Value W) (s : ClientSnapshot W)
      → serialize_client_qos_snapshot v ≡ ok s
      → IsClientSnapshot s × (parse_client_qos_snapshot (client_qos_snapshot_value s) ≡ ok s)
  unfolding serialize_client_qos_snapshot
  serialize_client_qos_snapshot-parse v s e =
      let valid = Returns-ok (IsClientSnapshot {W = W}) _ (parse_client_qos_snapshot-Returns v) e in
      (valid, parse_client_qos_snapshot-value s valid)

  -- A policy that is read keeps the promises of the protocol, and written again it is read as it was.
  pub parse_qos_policy-parse :
      (v : Value W) (p : PolicyPayload W)
      → parse_qos_policy v ≡ ok p
      → IsPolicy p × (parse_qos_policy (qos_policy_value p) ≡ ok p)
  parse_qos_policy-parse v p e =
      let valid = Returns-ok (IsPolicy {W = W}) _ (parse_qos_policy-Returns v) e in
      (valid, parse_qos_policy-value p valid)

  -- An override that is read has a target and at most one direction, among the promises of the protocol,
  -- and written again it is read as it was.
  pub parse_qos_override-parse :
      (v : Value W) (o : OverridePayload W)
      → parse_qos_override v ≡ ok o
      → IsOverride o × (parse_qos_override (qos_override_value o) ≡ ok o)
  parse_qos_override-parse v o e =
      let valid = Returns-ok (IsOverride {W = W}) _ (parse_qos_override-Returns v) e in
      (valid, parse_qos_override-value o valid)
