-- ===== src/Types/Actions.antt =====
-- `PlannedQosAction` of src/client/lib/qos/types.d.ts: a tagged union, each member with its level.
use mediasoup_cpp.Shared.{ℕ, Bool, true, false, Option, Text}
use mediasoup_cpp.Types.Profiles.{EncodingParameters}

pub data Action (W : Type 0) : Type 0 where
  set_encoding_parameters : ℕ → EncodingParameters W → Action W
  set_max_spatial_layer : ℕ → ℕ → Action W
  enter_audio_only : ℕ → Option Text → Action W
  exit_audio_only : ℕ → Option Text → Action W
  pause_upstream : ℕ → Action W
  resume_upstream : ℕ → Action W
  noop : ℕ → Option Text → Action W

-- `action.type`.
pub data ActionType : Type 0 where
  set_encoding_parameters set_max_spatial_layer enter_audio_only : ActionType
  exit_audio_only pause_upstream resume_upstream noop : ActionType

module _ {W : Type 0} where
  abbrev pub level_of : Action W → ℕ
  level_of (Action.set_encoding_parameters l p) = l
  level_of (Action.set_max_spatial_layer l s) = l
  level_of (Action.enter_audio_only l r) = l
  level_of (Action.exit_audio_only l r) = l
  level_of (Action.pause_upstream l) = l
  level_of (Action.resume_upstream l) = l
  level_of (Action.noop l r) = l

  abbrev pub type_of : Action W → ActionType
  type_of (Action.set_encoding_parameters l p) = ActionType.set_encoding_parameters
  type_of (Action.set_max_spatial_layer l s) = ActionType.set_max_spatial_layer
  type_of (Action.enter_audio_only l r) = ActionType.enter_audio_only
  type_of (Action.exit_audio_only l r) = ActionType.exit_audio_only
  type_of (Action.pause_upstream l) = ActionType.pause_upstream
  type_of (Action.resume_upstream l) = ActionType.resume_upstream
  type_of (Action.noop l r) = ActionType.noop

  abbrev pub is_enter : Action W → Bool
  is_enter (Action.enter_audio_only l r) = true
  is_enter a = false

  abbrev pub is_exit : Action W → Bool
  is_exit (Action.exit_audio_only l r) = true
  is_exit a = false

  abbrev pub is_noop : Action W → Bool
  is_noop (Action.noop l r) = true
  is_noop a = false
