-- ===== src/Session/Coordinated.antt =====
-- Coordination in a session of src/client/lib/qos/factory.js: what a round of samples leaves is settled.
use mediasoup_cpp.Shared.{
  ℕ, ℤ, ◌+◌, ◌≡◌, refl, sym, ap, ◌∙◌, subst, false, none, some, List, [], ◌∷◌, Text, text_eq, All,
  Number, arith,
}
use mediasoup_cpp.Coordinator.{
  PeerTrack, Decision, upsert_track, build_peer_qos_decision, coordination_for,
}
use mediasoup_cpp.Controller.{Controller, Settled, completed, failed_at, set_coordination_override}
use mediasoup_cpp.Session.{
  Session, Round, track_state, apply_peer_coordination, sample_now, upsert_all, push_controller,
  sample_each, coordinate, coordinate_settled, sample_all_now, get_decision,
}
use mediasoup_cpp.Controller.{Outcome, processed, rolled_back, rejected, process_sample}
use mediasoup_cpp.Session.{outcome_settled}
use mediasoup_cpp.Session.Identity.{IsOf, SettledOf, OutcomeOf, process_sample-OutcomeOf}
use mediasoup_cpp.Session.Tracks.{
  Known, Distinct, Coordinated, upsert_all-Known, upsert_all-twice,
  apply_peer_coordination-Coordinated,
}

module _ {W : Type 0} ⦃num : Number W⦄ where
  apply_peer_coordination-twice :
      (d : Decision) (cs : List (Controller W))
      → apply_peer_coordination d (apply_peer_coordination d cs) ≡ apply_peer_coordination d cs
  unfolding apply_peer_coordination track_state set_coordination_override
  apply_peer_coordination-twice d [] = refl
  apply_peer_coordination-twice d (c ∷ cs) =
      ap (λ rest. set_coordination_override (coordination_for d (track_state c)) c ∷ rest)
        (apply_peer_coordination-twice d cs)

  upsert_all-apply_peer_coordination :
      (d : Decision) (cs : List (Controller W)) (tracks : List PeerTrack)
      → upsert_all (apply_peer_coordination d cs) tracks ≡ upsert_all cs tracks
  unfolding apply_peer_coordination track_state set_coordination_override
  upsert_all-apply_peer_coordination d [] tracks = refl
  upsert_all-apply_peer_coordination d (c ∷ cs) tracks =
      upsert_all-apply_peer_coordination d cs (upsert_track (track_state c) tracks)

  -- The controllers are, place by place, of the same tracks as before.
  abbrev SameTracks : List (Controller W) → List (Controller W) → Type 0
  SameTracks [] [] = Unit
  SameTracks (c ∷ cs) (d ∷ ds) = IsOf c.track_id d × SameTracks cs ds
  SameTracks _ _ = ⊥

  All-SameTracks :
      (id : Text) (cs ds : List (Controller W))
      → SameTracks cs ds
      → All (λ c. text_eq (track_state c).track_id id ≡ false) cs
      → All (λ c. text_eq (track_state c).track_id id ≡ false) ds
  unfolding track_state
  All-SameTracks id [] [] s h = tt
  All-SameTracks id [] (d ∷ ds) s h = elim s [ ]
  All-SameTracks id (c ∷ cs) [] s h = elim s [ ]
  All-SameTracks id (c ∷ cs) (d ∷ ds) (e, s) (h, hs) =
      (ap (λ i. text_eq i id) e ∙ h, All-SameTracks id cs ds s hs)

  Distinct-SameTracks : (cs ds : List (Controller W)) → SameTracks cs ds → Distinct cs → Distinct ds
  unfolding track_state
  Distinct-SameTracks [] [] s h = tt
  Distinct-SameTracks [] (d ∷ ds) s h = elim s [ ]
  Distinct-SameTracks (c ∷ cs) [] s h = elim s [ ]
  Distinct-SameTracks (c ∷ cs) (d ∷ ds) (e, s) (h, hs) = (
    subst (λ i. All (λ f. text_eq (track_state f).track_id i ≡ false) ds) (sym e)
        (All-SameTracks c.track_id cs ds s h),
    Distinct-SameTracks cs ds s hs,
  )

  outcome_settled-SettledOf :
      (id : Text) (o : Outcome W) → OutcomeOf id o → SettledOf id (outcome_settled o)
  outcome_settled-SettledOf id (processed c report) h = h
  outcome_settled-SettledOf id (rolled_back c) h = h
  outcome_settled-SettledOf id (rejected c) h = h

  sample_now-SettledOf :
      (round : Round W) (c : Controller W) → SettledOf c.track_id (sample_now round c)
  unfolding sample_now
  sample_now-SettledOf none c = refl
  sample_now-SettledOf (some (raw, now, world)) c =
      outcome_settled-SettledOf c.track_id (process_sample raw now world c)
        (process_sample-OutcomeOf c.track_id raw now world c refl)

  -- The coordinator's tracks are those before, with the states of the controllers put there in turn.
  abbrev pub Tallies : List (Controller W) → List PeerTrack → Settled (Session W) → Type 0
  Tallies before tracks (completed s) =
      SameTracks before s.controllers × (s.tracks ≡ upsert_all s.controllers tracks)
  Tallies before tracks (failed_at s) = Unit

  push_controller-Tallies :
      (before c : Controller W) (cs : List (Controller W)) (tracks : List PeerTrack)
      (r : Settled (Session W))
      → IsOf before.track_id c
      → Tallies cs (upsert_track (track_state c) tracks) r
      → Tallies (before ∷ cs) tracks (push_controller c r)
  push_controller-Tallies before c cs tracks (completed s) e (t, h) = ((e, t), h)
  push_controller-Tallies before c cs tracks (failed_at s) e h = tt

  turn-Tallies :
      (before : Controller W) (cs : List (Controller W)) (tracks : List PeerTrack)
      (sampled : Settled (Controller W)) (rest : List PeerTrack → Settled (Session W))
      → SettledOf before.track_id sampled
      → ((ts : List PeerTrack) → Tallies cs ts (rest ts))
      → Tallies (before ∷ cs) tracks (elim sampled [
        | completed after ↦ push_controller after (rest (upsert_track (track_state after) tracks))
        | failed_at after ↦ failed_at (record { controllers = after ∷ cs; tracks = tracks })
      ])
  turn-Tallies before cs tracks (completed after) rest e h =
      push_controller-Tallies before after cs tracks
        (rest (upsert_track (track_state after) tracks)) e (h _)
  turn-Tallies before cs tracks (failed_at after) rest e h = tt

  sample_each-Tallies :
      (rounds : ℕ → Round W) (n : ℕ) (cs : List (Controller W)) (tracks : List PeerTrack)
      → Tallies cs tracks (sample_each rounds n cs tracks)
  unfolding sample_each
  sample_each-Tallies rounds n [] tracks = (tt, refl)
  sample_each-Tallies rounds n (c ∷ cs) tracks =
      turn-Tallies c cs tracks (sample_now (rounds n) c) (λ ts. sample_each rounds (n + 1) cs ts)
        (sample_now-SettledOf (rounds n) c) (λ ts. sample_each-Tallies rounds (n + 1) cs ts)

  abbrev pub session_of : Settled (Session W) → Session W
  session_of (completed s) = s
  session_of (failed_at s) = s

  module _ (locale_compare : Text → Text → ℤ) where
    abbrev decided : List (Controller W) → List PeerTrack → Session W × Decision
    decided cs tracks = (
      coordinate locale_compare (record { controllers = cs; tracks = tracks }),
      build_peer_qos_decision locale_compare tracks,
    )

    abbrev decided_as : List (Controller W) → List PeerTrack → Decision → Session W × Decision
    decided_as cs tracks decision = (record { controllers = cs; tracks = tracks }, decision)

    known_again :
        (s : Session W) (tracks : List PeerTrack)
        → s.tracks ≡ upsert_all s.controllers tracks
        → Distinct s.controllers
        → upsert_all s.controllers s.tracks ≡ s.tracks
    known_again s tracks e d =
        ap (upsert_all s.controllers) e ∙ upsert_all-twice s.controllers tracks d ∙ sym e

    -- The coordination of tracks that tally is settled.
    coordinate-get_decision :
        (s : Session W) (tracks : List PeerTrack)
        → s.tracks ≡ upsert_all s.controllers tracks
        → Distinct s.controllers
        → get_decision locale_compare (coordinate locale_compare s)
          ≡ (coordinate locale_compare s, build_peer_qos_decision locale_compare s.tracks)
    unfolding get_decision
    coordinate-get_decision s tracks e d =
        let decision = build_peer_qos_decision locale_compare s.tracks in
        ap (decided (apply_peer_coordination decision s.controllers)) (
          upsert_all-apply_peer_coordination decision s.controllers s.tracks
          ∙ known_again s tracks e d)
        ∙ ap (λ cs. decided_as cs s.tracks decision)
            (apply_peer_coordination-twice decision s.controllers)

    settled-get_decision :
        (before : List (Controller W)) (r : Settled (Session W)) (tracks : List PeerTrack)
        (after : Session W)
        → Tallies before tracks r
        → coordinate_settled locale_compare r ≡ completed after
        → Distinct before
        → get_decision locale_compare after
          ≡ (after, build_peer_qos_decision locale_compare after.tracks)
    settled-get_decision before (failed_at s) tracks after t h d = ground (arith, h)
    settled-get_decision before (completed s) tracks after (t, e) h d =
        subst
          (λ a.
            get_decision locale_compare a ≡ (a, build_peer_qos_decision locale_compare a.tracks))
          (ap session_of h)
          (coordinate-get_decision s tracks e (Distinct-SameTracks before s.controllers t d))

    -- Where the controllers are of different tracks, asking for a decision lets the coordinator know the
    -- state that each controller is in. The decision is the one over what the coordinator then knows, and
    -- each controller is coordinated by it, in the state that it is in. Asking again gives the same
    -- decision and changes nothing.
    pub get_decision-get_decision :
        (s : Session W)
        → Distinct s.controllers
        → let (after, decision) = get_decision locale_compare s in
          Known s.controllers after.tracks
          × (decision ≡ build_peer_qos_decision locale_compare after.tracks)
          × Coordinated decision s.controllers after.controllers
          × (get_decision locale_compare after ≡ (after, decision))
    unfolding get_decision
    get_decision-get_decision s d = (
      upsert_all-Known s.controllers s.tracks d,
      refl,
      apply_peer_coordination-Coordinated (get_decision locale_compare s).1 s.controllers,
      coordinate-get_decision (record s { tracks = upsert_all s.controllers s.tracks }) s.tracks
          refl d,
    )

    -- Where the controllers are of different tracks and a round of samples goes through, they are then
    -- coordinated by the decision over the states that they are in: asking for it changes nothing.
    pub sample_all_now-get_decision :
        (rounds : ℕ → Round W) (s after : Session W)
        → Distinct s.controllers
        → sample_all_now locale_compare rounds s ≡ completed after
        → get_decision locale_compare after
          ≡ (after, build_peer_qos_decision locale_compare after.tracks)
    unfolding sample_all_now
    sample_all_now-get_decision rounds s after d h =
        settled-get_decision s.controllers (sample_each rounds 0 s.controllers s.tracks) s.tracks
          after (sample_each-Tallies rounds 0 s.controllers s.tracks) h d
