-- ===== src/Executor.antt =====
-- src/client/lib/qos/executor.js: planner actions against an injected sink. A call of the sink is an
-- answer from outside, one for each call; numbers are written by the engine's `String`.
pub mod Idempotence
mod Examples
use mediasoup_cpp.Shared.{
  ℕ, Bool, true, false, not, ◌&&◌, Option, none, some, List, [], ◌∷◌, ◌++◌, Text, codes, text_eq,
  Number, length, if◌then◌else◌,
}
use mediasoup_cpp.Types.{Action, ActionType, EncodingParameters, type_of, level_of}

-- What the executor needs of the engine: how it writes a number.
pub record Writer (W : Type 0) : Type 0 where
  pub write_number : W → Text
  pub write_level : ℕ → Text

abbrev colon : Text → Text → Text
colon s t = s ++ (codes ":" ++ t)

abbrev pub write_type : ActionType → Text
write_type ActionType.set_encoding_parameters = codes "setEncodingParameters"
write_type ActionType.set_max_spatial_layer = codes "setMaxSpatialLayer"
write_type ActionType.enter_audio_only = codes "enterAudioOnly"
write_type ActionType.exit_audio_only = codes "exitAudioOnly"
write_type ActionType.pause_upstream = codes "pauseUpstream"
write_type ActionType.resume_upstream = codes "resumeUpstream"
write_type ActionType.noop = codes "noop"

abbrev write_flag : Option Bool → Text
write_flag none = []
write_flag (some true) = codes "true"
write_flag (some false) = codes "false"

module _ {W : Type 0} ⦃num : Number W⦄ where
  open num use {is_finite}

  normalize_number : Writer W → Option W → Text
  normalize_number w none = []
  normalize_number w (some x) = if is_finite x then w.write_number x else []

  unfoldable pub default_action_key : Writer W → Action W → Text
  unfolding normalize_number
  default_action_key w (Action.set_encoding_parameters l p) =
      colon (write_type ActionType.set_encoding_parameters) (
        colon (w.write_level l) (
          colon (normalize_number w p.max_bitrate_bps) (
            colon (normalize_number w p.max_framerate) (
              colon (normalize_number w p.scale_resolution_down_by)
                (write_flag p.adaptive_ptime)))))
  default_action_key w (Action.set_max_spatial_layer l layer) =
      colon (write_type ActionType.set_max_spatial_layer)
        (colon (w.write_level l) (w.write_level layer))
  default_action_key w a = colon (write_type (type_of a)) (w.write_level (level_of a))

pub data Status : Type 0 where
  skipped_noop skipped_idempotent applied failed : Status

-- The result of a call: its status and key, and the error of a sink that threw.
pub record ExecutionResult : Type 0 where
  pub status : Status
  pub action_key : Text
  pub error : Option Text

pub record ExecutorOptions (W : Type 0) : Type 0 where
  pub enable_idempotence : Bool
  pub stop_on_error : Bool
  pub key_resolver : Action W → Text

-- The executor's own state, and the actions that its sink was called with, the latest first.
pub record Executor (W : Type 0) : Type 0 where
  pub last_applied_action_key : Option Text
  pub sink_calls : List (Action W)

-- What the sink does with a call: it returns, or it throws an error. It may depend on the action and
-- on how many calls came before.
pub data SinkAnswer : Type 0 where
  returned : SinkAnswer
  threw : Text → SinkAnswer

abbrev pub is_last : Option Text → Text → Bool
is_last none key = false
is_last (some last) key = text_eq key last

abbrev pub is_noop_type : ActionType → Bool
is_noop_type ActionType.noop = true
is_noop_type t = false

abbrev is_failed : Status → Bool
is_failed failed = true
is_failed s = false

module _ {W : Type 0} where
  unfoldable pub new_executor : Executor W
  new_executor = record { last_applied_action_key = none; sink_calls = [] }

  unfoldable pub reset_idempotence_state : Executor W → Executor W
  reset_idempotence_state e = record e { last_applied_action_key = none }

  abbrev pub call_sink : Executor W → Action W → Text → SinkAnswer → Executor W × ExecutionResult
  call_sink e a key returned = (
    record e { last_applied_action_key = some key; sink_calls = a ∷ e.sink_calls },
    record { status = applied; action_key = key; error = none },
  )
  call_sink e a key (threw error) = (
    record e { sink_calls = a ∷ e.sink_calls },
    record { status = failed; action_key = key; error = some error },
  )

  unfoldable pub execute :
      ExecutorOptions W
      → (ℕ → Action W → SinkAnswer)
      → Executor W
      → Action W
      → Executor W × ExecutionResult
  execute o sink e a =
      let key = o.key_resolver a in
      if is_noop_type (type_of a)
      then (e, record { status = skipped_noop; action_key = key; error = none })
      else if o.enable_idempotence && is_last e.last_applied_action_key key
      then (e, record { status = skipped_idempotent; action_key = key; error = none })
      else call_sink e a key (sink (length e.sink_calls) a)

  unfoldable pub execute_many :
      ExecutorOptions W
      → (ℕ → Action W → SinkAnswer)
      → Executor W
      → List (Action W)
      → Executor W × List ExecutionResult
  execute_many o sink e [] = (e, [])
  execute_many o sink e (a ∷ actions) =
      let (e', result) = execute o sink e a in
      let rest = execute_many o sink e' actions in
      if o.stop_on_error && is_failed result.status
      then (e', result ∷ [])
      else (rest.0, result ∷ rest.1)
