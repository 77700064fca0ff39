-- ===== src/Coordinator/Coordination.antt =====
-- What the controllers of a peer are told: `applyPeerCoordination` of src/client/lib/qos/factory.js
-- on a decision of src/client/lib/qos/coordinator.js.
use mediasoup_cpp.Shared.{
  ℤ, ◌≡◌, refl, ◌∙◌, ap, Bool, true, false, not, ◌&&◌, ◌||◌, Option, none, some, List, [], ◌∷◌,
  Text, text_eq, any, filter, any-sort_by, arith,
}
use mediasoup_cpp.Types.{Source, camera, screen_share}
use mediasoup_cpp.Controller.{CoordinationInput}
use mediasoup_cpp.Coordinator.{
  PeerTrack, Decision, is_source, is_low, goes_after, prioritize_tracks, track_ids,
  build_peer_qos_decision, coordination_for,
}
use mediasoup_cpp.Coordinator.Priority.{build_peer_qos_decision-sacrificial}

-- Is the track one of the list? A track is told by its identifier and its source.
abbrev pub is_same : PeerTrack → PeerTrack → Bool
is_same t u = text_eq t.track_id u.track_id && is_source t.source u

any-track_ids :
    (t : PeerTrack) (ts : List PeerTrack)
    → is_source camera t ≡ true
    → any (is_same t) ts ≡ true
    → any (text_eq t.track_id) (track_ids (filter (is_source camera) ts)) ≡ true
unfolding filter
any-track_ids t [] h e = ground arith
any-track_ids t (u ∷ us) h e = ground (arith, any-track_ids t us)

-- A camera of the peer is among the tracks that may be sacrificed.
sacrificial_camera :
    (locale_compare : Text → Text → ℤ) (tracks : List PeerTrack) (t : PeerTrack)
    → is_source camera t ≡ true
    → any (is_same t) tracks ≡ true
    → any (text_eq t.track_id) (build_peer_qos_decision locale_compare tracks).sacrificial_track_ids
      ≡ true
unfolding prioritize_tracks
sacrificial_camera locale_compare tracks t h e =
    ap (any (text_eq t.track_id)) (build_peer_qos_decision-sacrificial locale_compare tracks)
    ∙ any-track_ids t (prioritize_tracks locale_compare tracks) h
        (any-sort_by (is_same t) (goes_after locale_compare) tracks ∙ e)

abbrev pub forces_audio_only : Option CoordinationInput → Bool
forces_audio_only none = false
forces_audio_only (some i) = i.force_audio_only

abbrev pub disables_recovery : Option CoordinationInput → Bool
disables_recovery none = false
disables_recovery (some i) = i.disable_recovery

coordination_for-force :
    (d : Decision) (t : PeerTrack)
    → (is_source camera t ≡ true → any (text_eq t.track_id) d.sacrificial_track_ids ≡ true)
    → (forces_audio_only (coordination_for d t) ≡ (is_source camera t && is_low d.peer_quality))
      × (disables_recovery (coordination_for d t) ≡ (
          (not (is_source Source.audio t) && not d.allow_video_recovery)
          || (is_source camera t && d.prefer_screen_share)))
unfolding coordination_for
coordination_for-force d t h = ground arith

prefer_screen_share_lem :
    (locale_compare : Text → Text → ℤ) (tracks : List PeerTrack)
    → (build_peer_qos_decision locale_compare tracks).prefer_screen_share
      ≡ any (is_source screen_share) tracks
unfolding build_peer_qos_decision prioritize_tracks
prefer_screen_share_lem locale_compare [] = refl
prefer_screen_share_lem locale_compare (t ∷ ts) =
    any-sort_by (is_source screen_share) (goes_after locale_compare) (t ∷ ts)

-- Each track of a peer is told to go over to audio only exactly if it is a camera and the peer's
-- quality is poor or lost; and not to recover exactly if it is no audio track and the peer may not
-- recover, or it is a camera beside a screen share.
pub coordination_for_lem :
    (locale_compare : Text → Text → ℤ) (tracks : List PeerTrack) (t : PeerTrack)
    → any (is_same t) tracks ≡ true
    → let d = build_peer_qos_decision locale_compare tracks in
      (forces_audio_only (coordination_for d t) ≡ (is_source camera t && is_low d.peer_quality))
      × (disables_recovery (coordination_for d t) ≡ (
          (not (is_source Source.audio t) && not d.allow_video_recovery)
          || (is_source camera t && any (is_source screen_share) tracks)))
coordination_for_lem locale_compare tracks t e =
    let d : Decision = build_peer_qos_decision locale_compare tracks in
    let (forces, disables) =
      coordination_for-force d t (λ h. sacrificial_camera locale_compare tracks t h e) in
    (
      forces,
      disables
          ∙ ap
              (λ b.
                (not (is_source Source.audio t) && not d.allow_video_recovery)
                || (is_source camera t && b))
              (prefer_screen_share_lem locale_compare tracks),
    )
