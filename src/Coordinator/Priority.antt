-- ===== src/Coordinator/Priority.antt =====
-- The order of the tracks of a peer and those that may be sacrificed:
-- src/client/lib/qos/coordinator.js.
use mediasoup_cpp.Shared.{
  ℤ, ◌≡◌, refl, ◌∙◌, ap, Bool, true, false, List, [], ◌∷◌, Text, All, any, filter, count, sort_by,
  count-sort_by, Ordered, IsOrder, sort_by-Ordered, sort_by_fixed, arith,
}
use mediasoup_cpp.Types.{Source, camera, screen_share}
use mediasoup_cpp.Coordinator.{
  PeerTrack, is_source, is_positive, goes_after, prioritize_tracks, may_sacrifice,
  is_less_dispensable, sacrificial_tracks, track_ids, build_peer_qos_decision,
}

-- What is asked of `localeCompare`: it orders the identifiers.
pub record IsCollation (locale_compare : Text → Text → ℤ) : Type 0 where
  pub asymmetric :
      (a b : Text)
      → is_positive (locale_compare a b) ≡ true
      → is_positive (locale_compare b a) ≡ false
  pub transitive :
      (a b c : Text)
      → is_positive (locale_compare a b) ≡ false
      → is_positive (locale_compare b c) ≡ false
      → is_positive (locale_compare a c) ≡ false

goes_after-IsOrder :
    (locale_compare : Text → Text → ℤ)
    → IsCollation locale_compare
    → IsOrder (goes_after locale_compare)
goes_after-IsOrder locale_compare collation = record {
  asymmetric = λ x y h. ground (arith, collation.asymmetric x.track_id y.track_id);
  transitive = λ x y z h k. ground (arith, collation.transitive x.track_id y.track_id z.track_id);
}

-- Where the comparison of identifiers orders them, the tracks are put in order by source, audio first
-- and cameras last, then by identifier; and every test holds of as many tracks as before.
pub prioritize_tracks-Ordered :
    (locale_compare : Text → Text → ℤ) (tracks : List PeerTrack)
    → IsCollation locale_compare
    → Ordered (goes_after locale_compare) (prioritize_tracks locale_compare tracks)
      × ((p : PeerTrack → Bool)
          → count p (prioritize_tracks locale_compare tracks) ≡ count p tracks)
unfolding prioritize_tracks
prioritize_tracks-Ordered locale_compare tracks collation = (
  sort_by-Ordered (goes_after locale_compare) tracks (goes_after-IsOrder locale_compare collation),
  λ p. count-sort_by p (goes_after locale_compare) tracks,
)

-- Only cameras may be sacrificed, and all of them: without a screen share no other video is left.
filter-camera :
    (has_audio has_screen_share : Bool) (ts : List PeerTrack)
    → (has_screen_share ≡ false → any (is_source screen_share) ts ≡ false)
    → filter (may_sacrifice has_audio has_screen_share) ts ≡ filter (is_source camera) ts
unfolding filter
filter-camera has_audio has_screen_share [] h = refl
filter-camera has_audio has_screen_share (t ∷ ts) h =
    ground (arith, h, filter-camera has_audio has_screen_share ts (λ e. ground (arith, h e)))

cameras-first :
    (t : PeerTrack) (ts : List PeerTrack)
    → is_source camera t ≡ true
    → All (λ u. is_less_dispensable t u ≡ false) (filter (is_source camera) ts)
unfolding filter
cameras-first t [] h = tt
cameras-first t (u ∷ us) h = ground (arith, cameras-first t us h)

cameras-Ordered : (ts : List PeerTrack) → Ordered is_less_dispensable (filter (is_source camera) ts)
unfolding filter
cameras-Ordered [] = tt
cameras-Ordered (t ∷ ts) = ground (arith, cameras-first t ts, cameras-Ordered ts)

pub sacrificial_tracks_lem :
    (ts : List PeerTrack) → sacrificial_tracks ts ≡ filter (is_source camera) ts
sacrificial_tracks_lem ts =
    ap (sort_by is_less_dispensable) (
      filter-camera (any (is_source Source.audio) ts) (any (is_source screen_share) ts) ts (λ e. e))
    ∙ sort_by_fixed is_less_dispensable (filter (is_source camera) ts) (cameras-Ordered ts)

-- The tracks of a peer that may be sacrificed are its cameras, in the order of their priority,
-- whatever other tracks there are.
pub build_peer_qos_decision-sacrificial :
    (locale_compare : Text → Text → ℤ) (tracks : List PeerTrack)
    → (build_peer_qos_decision locale_compare tracks).sacrificial_track_ids
      ≡ track_ids (filter (is_source camera) (prioritize_tracks locale_compare tracks))
unfolding build_peer_qos_decision prioritize_tracks sort_by filter
build_peer_qos_decision-sacrificial locale_compare [] = refl
build_peer_qos_decision-sacrificial locale_compare (t ∷ ts) =
    ap track_ids (sacrificial_tracks_lem (prioritize_tracks locale_compare (t ∷ ts)))
