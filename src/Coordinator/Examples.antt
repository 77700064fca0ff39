-- ===== src/Coordinator/Examples.antt =====
-- Theorems on src/client/lib/qos/coordinator.js at concrete tracks.
use mediasoup_cpp.Shared.{
  ℤ, pos, ◌≡◌, ◌↔◌, refl, true, false, not, ◌&&◌, ◌||◌, List, [], ◌∷◌, Text, codes, All, any,
  filter, sort_by, insert, arith,
}
use mediasoup_cpp.Types.{Source, camera, screen_share, excellent, poor}
use mediasoup_cpp.Coordinator.{
  PeerTrack, is_source, is_positive, is_low, prioritize_tracks, track_ids, build_peer_qos_decision,
  coordination_for,
}
use mediasoup_cpp.Coordinator.PeerQuality.{IsFit, build_peer_qos_decision-IsFit}
use mediasoup_cpp.Coordinator.Priority.{IsCollation, build_peer_qos_decision-sacrificial}
use mediasoup_cpp.Coordinator.Coordination.{
  forces_audio_only, disables_recovery, coordination_for_lem,
}

-- Identifiers are compared by their lengths.
abbrev by_length : Text → Text → ℤ
by_length [] b = pos 0
by_length (a ∷ s) [] = pos 1
by_length (a ∷ s) (b ∷ t) = by_length s t

by_length-IsCollation : IsCollation by_length
by_length-IsCollation = record { asymmetric = asymmetric; transitive = transitive }
  where
    asymmetric :
        (a b : Text) → is_positive (by_length a b) ≡ true → is_positive (by_length b a) ≡ false
    asymmetric [] b h = ground arith
    asymmetric (a ∷ s) [] h = refl
    asymmetric (a ∷ s) (b ∷ t) h = asymmetric s t h

    transitive :
        (a b c : Text)
        → is_positive (by_length a b) ≡ false
        → is_positive (by_length b c) ≡ false
        → is_positive (by_length a c) ≡ false
    transitive [] b c h k = refl
    transitive (a ∷ s) [] c h k = ground arith
    transitive (a ∷ s) (b ∷ t) [] h k = k
    transitive (a ∷ s) (b ∷ t) (c ∷ u) h k = transitive s t u h k

abbrev front : PeerTrack
front = record { track_id = codes "front"; source = camera; quality = poor }

abbrev tracks : List PeerTrack
tracks =
    front
    ∷ record { track_id = codes "screen"; source = screen_share; quality = excellent }
    ∷ record { track_id = codes "voice"; source = Source.audio; quality = excellent }
    ∷ []

-- Audio comes first and the camera last, which alone may be sacrificed.
prioritized_ids :
    track_ids (prioritize_tracks by_length tracks)
    ≡ codes "voice" ∷ codes "screen" ∷ codes "front" ∷ []
unfolding prioritize_tracks sort_by insert
prioritized_ids = refl

build_peer_qos_decision-IsFit_example :
    ((build_peer_qos_decision by_length tracks).allow_video_recovery ≡ true) ↔ All IsFit tracks
build_peer_qos_decision-IsFit_example =
    build_peer_qos_decision-IsFit by_length tracks (ground arith)

build_peer_qos_decision-sacrificial_example :
    (build_peer_qos_decision by_length tracks).sacrificial_track_ids
    ≡ track_ids (filter (is_source camera) (prioritize_tracks by_length tracks))
build_peer_qos_decision-sacrificial_example = build_peer_qos_decision-sacrificial by_length tracks

coordination_for_example :
    let d = build_peer_qos_decision by_length tracks in
    (forces_audio_only (coordination_for d front)
      ≡ (is_source camera front && is_low d.peer_quality))
    × (disables_recovery (coordination_for d front) ≡ (
        (not (is_source Source.audio front) && not d.allow_video_recovery)
        || (is_source camera front && any (is_source screen_share) tracks)))
coordination_for_example = coordination_for_lem by_length tracks front refl
