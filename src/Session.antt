-- ===== src/Session.antt =====
-- The session of src/client/lib/qos/factory.js: the controllers of a peer and its coordinator. The
-- providers of statistics, the executors and the clock are outside: a round of samples is told, for the
-- place of each controller, what its provider gives, when, and what the outside world answers.
mod Identity
pub mod Tracks
pub mod Coordinated
mod Examples
use mediasoup_cpp.Shared.{ℕ, ℤ, ◌+◌, Option, none, some, List, [], ◌∷◌, map, Text, Number}
use mediasoup_cpp.Types.{RawSnapshot, Signals, Quality, excellent, QosState}
use mediasoup_cpp.StateMachine.{map_state_to_quality}
use mediasoup_cpp.Coordinator.{
  PeerTrack, Decision, upsert_track, build_peer_qos_decision, coordination_for,
}
use mediasoup_cpp.Controller.{
  Controller, Settled, completed, failed_at, set_coordination_override, start, stop, World, Outcome,
  processed, rolled_back, rejected, process_sample,
}

pub record Session (W : Type 0) : Type 0 where
  pub controllers : List (Controller W)
  pub tracks : List PeerTrack

-- What the provider gives to `sampleNow`, with the time and the answers of the world, or `none` where it
-- throws.
abbrev pub Round : Type 0 → Type 0
Round W = Option (RawSnapshot W × ℕ × World W)

module _ {W : Type 0} where
  unfoldable pub start_all : Session W → Session W
  unfolding start
  start_all s = record s { controllers = map start s.controllers }

  unfoldable pub stop_all : Session W → Session W
  unfolding stop
  stop_all s = record s { controllers = map stop s.controllers }

  abbrev pub outcome_settled : Outcome W → Settled (Controller W)
  outcome_settled (processed c report) = completed c
  outcome_settled (rolled_back c) = completed c
  outcome_settled (rejected c) = failed_at c

module _ {W : Type 0} ⦃num : Number W⦄ where
  abbrev pub quality_of : QosState → Option (Signals W) → Quality
  quality_of state none = excellent
  quality_of state (some s) = map_state_to_quality state s

  -- What the coordinator and `applyPeerCoordination` read of `getTrackState`.
  unfoldable pub track_state : Controller W → PeerTrack
  track_state c = record {
    track_id = c.track_id;
    source = c.profile.source;
    quality = quality_of c.state_context.state c.previous_signals;
  }

  unfoldable pub apply_peer_coordination : Decision → List (Controller W) → List (Controller W)
  unfolding track_state coordination_for set_coordination_override
  apply_peer_coordination d [] = []
  apply_peer_coordination d (c ∷ cs) =
      set_coordination_override (coordination_for d (track_state c)) c
      ∷ apply_peer_coordination d cs

  unfoldable pub sample_now : Round W → Controller W → Settled (Controller W)
  sample_now none c = failed_at c
  sample_now (some (raw, now, world)) c = outcome_settled (process_sample raw now world c)

  abbrev pub upsert_all : List (Controller W) → List PeerTrack → List PeerTrack
  upsert_all [] tracks = tracks
  upsert_all (c ∷ cs) tracks = upsert_all cs (upsert_track (track_state c) tracks)

  abbrev pub push_controller : Controller W → Settled (Session W) → Settled (Session W)
  push_controller c (completed s) = completed (record s { controllers = c ∷ s.controllers })
  push_controller c (failed_at s) = failed_at (record s { controllers = c ∷ s.controllers })

  -- The loop of `sampleAllNow`, from the place `n` on: an error leaves it at once.
  unfoldable pub sample_each :
      (ℕ → Round W) → ℕ → List (Controller W) → List PeerTrack → Settled (Session W)
  unfolding sample_now
  sample_each rounds n [] tracks = completed (record { controllers = []; tracks = tracks })
  sample_each rounds n (c ∷ cs) tracks = elim (sample_now (rounds n) c) [
    | completed after ↦
        push_controller after
          (sample_each rounds (n + 1) cs (upsert_track (track_state after) tracks))
    | failed_at after ↦ failed_at (record { controllers = after ∷ cs; tracks = tracks })
  ]

  module _ (locale_compare : Text → Text → ℤ) where
    -- `applyPeerCoordination(bundles, coordinator.getDecision())`.
    abbrev pub coordinate : Session W → Session W
    coordinate s = record s {
      controllers =
          apply_peer_coordination (build_peer_qos_decision locale_compare s.tracks) s.controllers;
    }

    abbrev pub coordinate_settled : Settled (Session W) → Settled (Session W)
    coordinate_settled (completed s) = completed (coordinate s)
    coordinate_settled (failed_at s) = failed_at s

    unfoldable pub sample_all_now : (ℕ → Round W) → Session W → Settled (Session W)
    unfolding sample_each apply_peer_coordination
    sample_all_now rounds s = coordinate_settled (sample_each rounds 0 s.controllers s.tracks)

    unfoldable pub get_decision : Session W → Session W × Decision
    unfolding apply_peer_coordination
    get_decision s =
        let tracks = upsert_all s.controllers s.tracks in
        (coordinate (record s { tracks = tracks }), build_peer_qos_decision locale_compare tracks)
