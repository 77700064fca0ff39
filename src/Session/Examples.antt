-- ===== src/Session/Examples.antt =====
-- A session of two cameras, through a round of samples of src/client/lib/qos/factory.js.
use mediasoup_cpp.Shared.{ℕ, ℤ, pos, ◌≡◌, refl, some, [], ◌∷◌, Text, codes, Milli, milli_number}
use mediasoup_cpp.Controller.{process_sample, finish, completed}
use mediasoup_cpp.Probe.{evaluate_probe}
use mediasoup_cpp.Coordinator.{build_peer_qos_decision}
use mediasoup_cpp.Fixtures.{camera, willing, limited}
use mediasoup_cpp.Session.{Session, Round, sample_all_now, get_decision, track_state}
use mediasoup_cpp.Session.Tracks.{Known, Distinct, Coordinated}
use mediasoup_cpp.Session.Coordinated.{
  get_decision-get_decision, sample_all_now-get_decision, session_of,
}

abbrev in_order : Text → Text → ℤ
in_order a b = pos 0

abbrev two_cameras : Session Milli
two_cameras = record {
  controllers = camera ∷ record camera { track_id = codes "track-2" } ∷ [];
  tracks = [];
}

get_decision-get_decision_example :
    let (left, decision) = get_decision in_order two_cameras in
    Known two_cameras.controllers left.tracks
    × (decision ≡ build_peer_qos_decision in_order left.tracks)
    × Coordinated decision two_cameras.controllers left.controllers
    × (get_decision in_order left ≡ (left, decision))
unfolding track_state
get_decision-get_decision_example =
    get_decision-get_decision in_order two_cameras (((refl, tt), (tt, tt)))

abbrev rounds : ℕ → Round Milli
rounds n = some (limited, 5000, willing)

abbrev after : Session Milli
after = session_of (sample_all_now in_order rounds two_cameras)

round-through : sample_all_now in_order rounds two_cameras ≡ completed after
unfolding sample_all_now process_sample evaluate_probe finish
round-through = refl

two_cameras-Distinct : Distinct two_cameras.controllers
unfolding track_state
two_cameras-Distinct = ((refl, tt), (tt, tt))

sample_all_now-get_decision_example :
    get_decision in_order after ≡ (after, build_peer_qos_decision in_order after.tracks)
sample_all_now-get_decision_example =
    sample_all_now-get_decision in_order rounds two_cameras after two_cameras-Distinct round-through
