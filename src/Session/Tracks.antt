-- ===== src/Session/Tracks.antt =====
-- The tracks that a session of src/client/lib/qos/factory.js puts before its coordinator.
use mediasoup_cpp.Shared.{
  ◌≡◌, refl, ap, ◌∙◌, false, some, List, [], ◌∷◌, Text, text_eq, text_eq_refl, find, All, Number,
  arith,
}
use mediasoup_cpp.Coordinator.{PeerTrack, Decision, upsert_track, coordination_for}
use mediasoup_cpp.Coordinator.Tracks.{track_of, track_of-upsert_track}
use mediasoup_cpp.Controller.{Controller, set_coordination_override}
use mediasoup_cpp.Session.{track_state, upsert_all, apply_peer_coordination}

-- A track that is known as it is stays where it is.
upsert_track_known :
    (t : PeerTrack) (tracks : List PeerTrack)
    → track_of t.track_id tracks ≡ some t
    → upsert_track t tracks ≡ tracks
unfolding upsert_track find
upsert_track_known t [] h = ground (arith, h)
upsert_track_known t (u ∷ us) h = ground (arith, h, upsert_track_known t us)

module _ {W : Type 0} ⦃num : Number W⦄ where
  -- The coordinator knows the present state of each controller.
  abbrev pub Known : List (Controller W) → List PeerTrack → Type 0
  Known cs tracks = All (λ c. track_of (track_state c).track_id tracks ≡ some (track_state c)) cs

  -- The controllers are of different tracks.
  abbrev pub Distinct : List (Controller W) → Type 0
  Distinct [] = Unit
  Distinct (c ∷ cs) =
      All (λ d. text_eq (track_state d).track_id (track_state c).track_id ≡ false) cs × Distinct cs

  upsert_all-Known_same :
      (cs : List (Controller W)) (tracks : List PeerTrack)
      → Known cs tracks
      → upsert_all cs tracks ≡ tracks
  upsert_all-Known_same [] tracks h = refl
  upsert_all-Known_same (c ∷ cs) tracks (h, hs) =
      ap (upsert_all cs) (upsert_track_known (track_state c) tracks h)
      ∙ upsert_all-Known_same cs tracks hs

  -- The tracks of other controllers leave what is known of one.
  track_of-upsert_all :
      (id : Text) (cs : List (Controller W)) (tracks : List PeerTrack)
      → All (λ d. text_eq (track_state d).track_id id ≡ false) cs
      → track_of id (upsert_all cs tracks) ≡ track_of id tracks
  track_of-upsert_all id [] tracks h = refl
  track_of-upsert_all id (c ∷ cs) tracks (h, hs) =
      track_of-upsert_all id cs (upsert_track (track_state c) tracks) hs
      ∙ track_of-upsert_track id (track_state c) tracks
      ∙ ground (arith, h)

  pub upsert_all-Known :
      (cs : List (Controller W)) (tracks : List PeerTrack)
      → Distinct cs
      → Known cs (upsert_all cs tracks)
  upsert_all-Known [] tracks d = tt
  upsert_all-Known (c ∷ cs) tracks (d, ds) = (
    track_of-upsert_all (track_state c).track_id cs (upsert_track (track_state c) tracks) d
        ∙ track_of-upsert_track (track_state c).track_id (track_state c) tracks
        ∙ ground (arith, text_eq_refl (track_state c).track_id),
    upsert_all-Known cs (upsert_track (track_state c) tracks) ds,
  )

  pub upsert_all-twice :
      (cs : List (Controller W)) (tracks : List PeerTrack)
      → Distinct cs
      → upsert_all cs (upsert_all cs tracks) ≡ upsert_all cs tracks
  upsert_all-twice cs tracks d =
      upsert_all-Known_same cs (upsert_all cs tracks) (upsert_all-Known cs tracks d)

  -- The controllers, each coordinated by a decision in its state, and otherwise as before.
  abbrev pub Coordinated : Decision → List (Controller W) → List (Controller W) → Type 0
  Coordinated d [] [] = Unit
  Coordinated d (c ∷ cs) (e ∷ es) =
      (e ≡ set_coordination_override (coordination_for d (track_state c)) c) × Coordinated d cs es
  Coordinated d _ _ = ⊥

  pub apply_peer_coordination-Coordinated :
      (d : Decision) (cs : List (Controller W)) → Coordinated d cs (apply_peer_coordination d cs)
  unfolding apply_peer_coordination set_coordination_override
  apply_peer_coordination-Coordinated d [] = tt
  apply_peer_coordination-Coordinated d (c ∷ cs) = (refl, apply_peer_coordination-Coordinated d cs)
