-- ===== src/Coordinator/PeerQuality.antt =====
-- The quality of a peer, and whether its tracks may recover: src/client/lib/qos/coordinator.js.
use mediasoup_cpp.Shared.{
  ℤ, ◌≤◌, ◌≡◌, ◌≢◌, refl, Bool, true, false, not, ◌&&◌, ◌||◌, List, [], ◌∷◌, Text, All, All-weaken,
  any, sort_by, any-sort_by, sort_by_inhabited, arith, sym, ◌∙◌, ◌↔◌, leb,
}
use mediasoup_cpp.Types.{Quality, poor, lost, quality_eq}
use mediasoup_cpp.Coordinator.{
  PeerTrack, quality_rank, min_quality, goes_after, prioritize_tracks, worst_quality,
  peer_quality_of, is_poor_audio, build_peer_qos_decision,
}

-- The quality is at most as good as the track's.
abbrev pub Bounds : Quality → PeerTrack → Type 0
Bounds q t = quality_rank q ≤ quality_rank t.quality

worst_quality-le :
    (q : Quality) (ts : List PeerTrack)
    → (quality_rank (worst_quality q ts) ≤ quality_rank q) × All (Bounds (worst_quality q ts)) ts
unfolding worst_quality
worst_quality-le q [] = (omega arith, tt)
worst_quality-le q (t ∷ ts) =
    let (first, rest) = worst_quality-le (min_quality q t.quality) ts in
    (ground (arith, first), (ground (arith, first), rest))

worst_quality_attained :
    (q : Quality) (ts : List PeerTrack)
    → (quality_eq (worst_quality q ts) q || any (λ t. quality_eq (worst_quality q ts) t.quality) ts)
      ≡ true
unfolding worst_quality
worst_quality_attained q [] = ground arith
worst_quality_attained q (t ∷ ts) =
    ground (arith, worst_quality_attained (min_quality q t.quality) ts)

peer_quality_of-Bounds : (ts : List PeerTrack) → All (Bounds (peer_quality_of ts)) ts
peer_quality_of-Bounds [] = tt
peer_quality_of-Bounds (t ∷ ts) = worst_quality-le t.quality ts

peer_quality_of_attained :
    (ts : List PeerTrack) → ts ≢ [] → any (λ t. quality_eq (peer_quality_of ts) t.quality) ts ≡ true
peer_quality_of_attained [] h = absurd (h refl)
peer_quality_of_attained (t ∷ ts) h = worst_quality_attained t.quality ts

-- `All` of a list follows from `All` of its sort.
All-unsorted :
    (after : PeerTrack → PeerTrack → Bool) (p : PeerTrack → Bool) (ts : List PeerTrack)
    → any p (sort_by after ts) ≡ false
    → any p ts ≡ false
All-unsorted after p ts h = ground (arith, any-sort_by p after ts)

-- A track that is worse than the peer is said to be.
abbrev is_worse : Quality → PeerTrack → Bool
is_worse q t = not (leb (quality_rank q) (quality_rank t.quality))

Bounds-any : (q : Quality) (ts : List PeerTrack) → All (Bounds q) ts → any (is_worse q) ts ≡ false
Bounds-any q [] h = refl
Bounds-any q (t ∷ ts) h = ground (arith, Bounds-any q ts)

any-Bounds : (q : Quality) (ts : List PeerTrack) → any (is_worse q) ts ≡ false → All (Bounds q) ts
any-Bounds q [] h = tt
any-Bounds q (t ∷ ts) h = ground (arith, any-Bounds q ts)

-- The quality of a peer is that of one of its tracks, and no track has a worse one.
pub build_peer_qos_decision-quality :
    (locale_compare : Text → Text → ℤ) (tracks : List PeerTrack)
    → tracks ≢ []
    → let q = (build_peer_qos_decision locale_compare tracks).peer_quality in
      All (Bounds q) tracks × (any (λ t. quality_eq q t.quality) tracks ≡ true)
unfolding build_peer_qos_decision prioritize_tracks
build_peer_qos_decision-quality locale_compare [] h = absurd (h refl)
build_peer_qos_decision-quality locale_compare (t ∷ ts) h =
    let after : PeerTrack → PeerTrack → Bool = goes_after locale_compare in
    let sorted : List PeerTrack = prioritize_tracks locale_compare (t ∷ ts) in
    let q : Quality = peer_quality_of sorted in
    (
      any-Bounds q (t ∷ ts) (
          All-unsorted after (is_worse q) (t ∷ ts)
            (Bounds-any q sorted (peer_quality_of-Bounds sorted))),
      sym (any-sort_by (λ u. quality_eq q u.quality) after (t ∷ ts))
          ∙ peer_quality_of_attained sorted (sort_by_inhabited after t ts),
    )

-- Excellent or good.
abbrev pub IsFit : PeerTrack → Type 0
IsFit t = 2 ≤ quality_rank t.quality

IsFit-any :
    (q : Quality) (ts : List PeerTrack)
    → All IsFit ts
    → any (λ t. quality_eq q t.quality) ts ≡ true
    → 2 ≤ quality_rank q
IsFit-any q [] h e = ground arith
IsFit-any q (t ∷ ts) h e = ground (arith, IsFit-any q ts)

IsFit-is_poor_audio : (ts : List PeerTrack) → All IsFit ts → any is_poor_audio ts ≡ false
IsFit-is_poor_audio [] h = refl
IsFit-is_poor_audio (t ∷ ts) h = ground (arith, IsFit-is_poor_audio ts)

allowed-rank :
    (q : Quality) (poor_audio : Bool)
    → (not (quality_eq q poor) && not (quality_eq q lost) && not poor_audio) ≡ true
    → 2 ≤ quality_rank q
allowed-rank q poor_audio h = ground arith

rank-allowed :
    (q : Quality) (poor_audio : Bool)
    → 2 ≤ quality_rank q
    → poor_audio ≡ false
    → (not (quality_eq q poor) && not (quality_eq q lost) && not poor_audio) ≡ true
rank-allowed q poor_audio h e = ground arith

-- Recovery is allowed to a peer with tracks exactly if each of them is excellent or good.
pub build_peer_qos_decision-IsFit :
    (locale_compare : Text → Text → ℤ) (tracks : List PeerTrack)
    → tracks ≢ []
    → ((build_peer_qos_decision locale_compare tracks).allow_video_recovery ≡ true)
      ↔ All IsFit tracks
unfolding build_peer_qos_decision prioritize_tracks
build_peer_qos_decision-IsFit locale_compare [] h = absurd (h refl)
build_peer_qos_decision-IsFit locale_compare (t ∷ ts) h =
    let after : PeerTrack → PeerTrack → Bool = goes_after locale_compare in
    let sorted : List PeerTrack = sort_by after (t ∷ ts) in
    let (bounds, attained) = build_peer_qos_decision-quality locale_compare (t ∷ ts) h in
    (
      (λ allowed.
          All-weaken (Bounds (peer_quality_of sorted)) IsFit (t ∷ ts)
            (λ u le. omega (arith, le, allowed-rank (peer_quality_of sorted) _ allowed)) bounds),
      (λ fit.
          rank-allowed (peer_quality_of sorted) _
            (IsFit-any (peer_quality_of sorted) (t ∷ ts) fit attained)
            (any-sort_by is_poor_audio after (t ∷ ts) ∙ IsFit-is_poor_audio (t ∷ ts) fit)),
    )
