-- ===== src/Probe/Outcome.antt =====
-- When a probe of src/client/lib/qos/probe.js ends, and how.
use mediasoup_cpp.Shared.{
  ℕ, ◌+◌, ◌<◌, ◌≡◌, ◌⊎◌, Bool, true, false, Option, none, some, Number, arith, List, [], ◌∷◌,
  length, All, max, leb, if◌then◌else◌,
}
use mediasoup_cpp.Types.{Signals, Profile}
use mediasoup_cpp.Probe.{
  Probe, ProbeResult, inconclusive, failed, successful, Evaluation, begin_probe, is_probe_healthy,
  is_probe_bad, count_probe, evaluate_probe,
}

-- A probe that has not ended: neither count has reached its limit, and one of them is 0.
pub record IsPending (c : Probe) : Type 0 where
  pub running : c.active ≡ true
  pub healthy_room : c.healthy_samples < max 1 c.required_healthy_samples
  pub bad_room : c.bad_samples < max 1 c.required_bad_samples
  pub one_sided : (c.healthy_samples ≡ 0) ⊎ (c.bad_samples ≡ 0)

-- A new probe is pending, and its first sample never ends it unless a limit is 1.
pub begin_probe-IsPending :
    (previous target now : ℕ) (before after : Bool) (healthy bad : Option ℕ)
    → IsPending (begin_probe previous target now before after healthy bad)
unfolding begin_probe
begin_probe-IsPending previous target now before after healthy bad = ground arith

module _ {W : Type 0} ⦃num : Number W⦄ where
  -- What one sample does to a pending probe: it stays pending; or it fails on a bad sample that is
  -- not healthy and is as many as the limit; or it succeeds on a healthy sample that is as many as
  -- the limit.
  abbrev pub Outcome : Probe → Signals W → Profile W → Option Probe → ProbeResult → Type 0
  Outcome c s p (some next) inconclusive = IsPending next
  Outcome c s p (some next) failed =
      (is_probe_healthy s p ≡ false)
      × (is_probe_bad s p ≡ true)
      × (c.bad_samples + 1 ≡ max 1 c.required_bad_samples)
  Outcome c s p (some next) successful =
      (is_probe_healthy s p ≡ true) × (c.healthy_samples + 1 ≡ max 1 c.required_healthy_samples)
  Outcome c s p none r = ⊥

  pub evaluate_probe-Outcome :
      (c : Probe) (s : Signals W) (p : Profile W)
      → IsPending c
      → let e = evaluate_probe (some c) s p in Outcome c s p e.context e.result
  unfolding evaluate_probe
  evaluate_probe-Outcome c s p h = ground arith

-- A conclusive result ends a row of evaluations, and any other goes on with the new probe.
abbrev pub continue : Evaluation → (Probe → ProbeResult) → ProbeResult
continue e k = go e.context e.result
  where
    go : Option Probe → ProbeResult → ProbeResult
    go (some next) inconclusive = k next
    go (some next) r = r
    go none r = r

module _ {W : Type 0} ⦃num : Number W⦄ where
  -- The first conclusive result over a row of samples.
  pub watch : Profile W → Probe → List (Signals W) → ProbeResult
  watch p c [] = inconclusive
  watch p c (s ∷ ss) = continue (evaluate_probe (some c) s p) (λ next. watch p next ss)

  -- A pending probe succeeds over healthy samples as soon as they are as many as it still needs.
  pub watch_healthy :
      (p : Profile W) (c : Probe) (ss : List (Signals W))
      → IsPending c
      → All (λ s. is_probe_healthy s p ≡ true) ss
      → watch p c ss ≡ (
          if leb (max 1 c.required_healthy_samples) (c.healthy_samples + length ss)
          then successful
          else inconclusive)
  unfolding watch evaluate_probe
  watch_healthy p c [] h all = ground arith
  watch_healthy p c (s ∷ ss) h (good, all) = ground (arith, watch_healthy p (count_probe c s p) ss)

  -- A pending probe fails over bad samples as soon as they are as many as it still needs.
  pub watch_bad :
      (p : Profile W) (c : Probe) (ss : List (Signals W))
      → IsPending c
      → All (λ s. (is_probe_healthy s p ≡ false) × (is_probe_bad s p ≡ true)) ss
      → watch p c ss ≡ (
          if leb (max 1 c.required_bad_samples) (c.bad_samples + length ss)
          then failed
          else inconclusive)
  unfolding watch evaluate_probe
  watch_bad p c [] h all = ground arith
  watch_bad p c (s ∷ ss) h (bad, all) = ground (arith, watch_bad p (count_probe c s p) ss)
