-- ===== src/Signals/Examples.antt =====
-- Tests of src/client/lib/qos/signals.js and its theorems at concrete snapshots.
use mediasoup_cpp.Shared.{
  ℕ, ◌≡◌, refl, false, none, some, Milli, milli, milli_number, Milli-IsOrdered,
}
use mediasoup_cpp.Types.{LimitationReason, not_limited, RawSnapshot}
use mediasoup_cpp.Signals.{ReasonContext, derive_signals}
use mediasoup_cpp.Signals.Bounds.{NonNegative, InUnitRange, derive_signals_bounds}
use mediasoup_cpp.Fixtures.{snapshot_of}

abbrev context : ℕ → ReasonContext
context count = record {
  active_override = false;
  manual_override = false;
  cpu_sample_count = count;
}

abbrev first : RawSnapshot Milli
first = snapshot_of 1000 100 0 not_limited

abbrev second : RawSnapshot Milli
second = snapshot_of 2000 190 10 LimitationReason.cpu

-- Ten packets of a hundred are lost.
loss_rate_of_second :
    (derive_signals second (some first) none none (context 2)).loss_rate ≡ milli 100
unfolding derive_signals
loss_rate_of_second = refl

derive_signals_bounds_example :
    let s = derive_signals second (some first) none none (context 2) in
    NonNegative s.packets_sent_delta
    × NonNegative s.packets_lost_delta
    × NonNegative s.retransmitted_packets_sent_delta
    × InUnitRange s.loss_rate
    × (milli_number.lt s.send_bitrate_bps (milli 0) ≡ false)
    × NonNegative s.target_bitrate_bps
    × NonNegative s.rtt_ms
    × NonNegative s.jitter_ms
derive_signals_bounds_example =
    derive_signals_bounds Milli-IsOrdered second (some first) none none (context 2)
