-- ===== src/DownlinkSampler/Account.antt =====
-- The subscriptions of one sample of src/client/lib/qos/downlinkSampler.js, accounted for by the hints and
-- the reports.
use mediasoup_cpp.Shared.{
  ◌≡◌, ◌⊎◌, Bool, true, false, none, some, List, [], ◌∷◌, Text, All, count, Number,
}
use mediasoup_cpp.DownlinkHints.{Hint, Hints}
use mediasoup_cpp.DownlinkSampler.Arithmetic.{InboundReport}
use mediasoup_cpp.DownlinkSampler.Sample.{Subscription, DownlinkSampler, Transport, matches_hint}
use mediasoup_cpp.DownlinkSampler.Served.{fits, IsOf}

module _ {W : Type 0} ⦃num : Number W⦄ where
  -- A subscription for each hint in turn, of the reports that are free, and the reports that are left. A
  -- consumer gets a report that fits its hint, one that the hint names if such a report is free, and that
  -- report is then free no more; it gets none only if no free report fits.
  pub data Describes
      : Hints W
        → List (InboundReport W)
        → List (Subscription W)
        → List (InboundReport W)
        → Type 0 where
    finished : {reports : List (InboundReport W)} → Describes [] reports [] reports
    unserved :
        {id : Text} {hint : Hint W} {hints : Hints W} {reports left : List (InboundReport W)}
        {s : Subscription W} {subscriptions : List (Subscription W)}
        → IsOf id hint none s
        → All (λ r. fits hint.kind r.kind ≡ false) reports
        → Describes hints reports subscriptions left
        → Describes ((id, hint) ∷ hints) reports (s ∷ subscriptions) left
    served :
        (stats : InboundReport W) {id : Text} {hint : Hint W} {hints : Hints W}
        {reports after left : List (InboundReport W)} {s : Subscription W}
        {subscriptions : List (Subscription W)}
        → IsOf id hint (some stats) s
        → fits hint.kind stats.kind ≡ true
        → (matches_hint hint stats ≡ true) ⊎ All (λ r. matches_hint hint r ≡ false) reports
        → ((test : InboundReport W → Bool) → count test (stats ∷ after) ≡ count test reports)
        → Describes hints after subscriptions left
        → Describes ((id, hint) ∷ hints) reports (s ∷ subscriptions) left

  abbrev pub Accounts : Hints W → List (InboundReport W) → List (Subscription W) → Type 0
  Accounts hints reports subscriptions =
      (left : List (InboundReport W)) × Describes hints reports subscriptions left

  abbrev pub subscriptions_of : List (Subscription W) × DownlinkSampler W → List (Subscription W)
  subscriptions_of (subscriptions, rest) = subscriptions

  abbrev pub sampled :
      Transport W × List (Subscription W) × DownlinkSampler W → List (Subscription W)
  sampled (transport, subscriptions, sampler) = subscriptions
