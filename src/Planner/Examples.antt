-- ===== src/Planner/Examples.antt =====
-- Tests of src/client/lib/qos/planner.js and its theorems at concrete inputs.
use mediasoup_cpp.Shared.{
  ℕ, ◌≡◌, refl, ℤ, pos, false, Option, none, some, [], ◌∷◌, arith, Milli, milli_number, map, find,
}
use mediasoup_cpp.Types.{QosState, congested, camera, level_of, ActionType, type_of}
use mediasoup_cpp.Planner.{PlannerInput, plan_actions}
use mediasoup_cpp.Planner.Ladder.{IsLadder}
use mediasoup_cpp.Fixtures.{camera_profile}

abbrev planning : QosState → ℕ → Option ℤ → PlannerInput Milli
planning state level clamp = record {
  source = camera;
  profile = camera_profile;
  state = state;
  current_level = pos level;
  override_clamp_level = clamp;
  in_audio_only_mode = false;
}

-- A congested camera goes from rung 2 to rung 3, which sets parameters and the spatial layer.
congested_camera :
    map type_of (plan_actions (planning congested 2 none))
    ≡ ActionType.set_encoding_parameters ∷ ActionType.set_max_spatial_layer ∷ []
unfolding plan_actions camera_profile find
congested_camera = refl

-- The last resort passes a clamp by.
last_resort_passes_clamp :
    map level_of (plan_actions (planning congested 4 (some (pos 1)))) ≡ 4 ∷ []
unfolding plan_actions camera_profile find
last_resort_passes_clamp = refl

camera_ladder : IsLadder camera_profile
unfolding camera_profile
camera_ladder = omega arith
