-- ===== src/ProducerAdapter/Sink.antt =====
-- What the results of an executor over the sink of src/client/lib/qos/factory.js tell of the producer.
use mediasoup_cpp.Shared.{
  ℕ, ◌≡◌, refl, Bool, true, false, not, ◌&&◌, Option, none, some, length, Text, codes,
  if◌then◌else◌, arith,
}
use mediasoup_cpp.Types.{Action, type_of}
use mediasoup_cpp.Executor.{
  SinkAnswer, returned, threw, Status, skipped_noop, skipped_idempotent, applied, failed,
  ExecutionResult, ExecutorOptions, Executor, is_noop_type, is_last, call_sink, execute,
}
use mediasoup_cpp.ProducerAdapter.{
  answer_of, attempted, not_done, ProducerCall, set_rtp_encoding_parameters, set_max_spatial_layer,
  pause, resume, ProducerView, map_encoding_parameters, producer_closed, not_video_producer,
  is_video, sink_execute, set_encoding_parameters, set_spatial_layer, pause_upstream,
  resume_upstream,
}

-- The reason told where an operation throws.
abbrev pub told_of : Option (Option Text) → Option Text
told_of none = none
told_of (some (some message)) = some message
told_of (some none) = some (codes "producer adapter action not applied")

module _ {W : Type 0} where
  -- The operation that an action stands for.
  abbrev pub call_of : Action W → Option (ProducerCall W)
  call_of (Action.set_encoding_parameters l p) =
      some (set_rtp_encoding_parameters (map_encoding_parameters p))
  call_of (Action.set_max_spatial_layer l layer) = some (set_max_spatial_layer layer)
  call_of (Action.enter_audio_only l reason) = some pause
  call_of (Action.pause_upstream l) = some pause
  call_of (Action.exit_audio_only l reason) = some resume
  call_of (Action.resume_upstream l) = some resume
  call_of (Action.noop l reason) = none

  abbrev needs_video : ProducerCall W → Bool
  needs_video (set_max_spatial_layer layer) = true
  needs_video call = false

  -- Why a producer does not take an operation, if it does not.
  abbrev pub refusal_of : ProducerView W → ProducerCall W → Option Text
  refusal_of v call =
      if v.closed
      then some producer_closed
      else if needs_video call && not (is_video v.kind)
      then some not_video_producer
      else told_of (v.error_of call)

  -- A result that says that the action was applied, or failed, tells the truth.
  abbrev pub TellsOf : ProducerView W → Action W → Status → Option Text → Type 0
  TellsOf v a applied error =
      (call : ProducerCall W) × (call_of a ≡ some call) × (refusal_of v call ≡ none)
  TellsOf v a failed error =
      (call : ProducerCall W) × (reason : Text) × (call_of a ≡ some call)
      × (refusal_of v call ≡ some reason)
      × (error ≡ some reason)
  TellsOf v a skipped_noop error = call_of a ≡ none
  TellsOf v a skipped_idempotent error = Unit

  abbrev TellsOfResult : ProducerView W → Action W → ExecutionResult → Type 0
  TellsOfResult v a r = TellsOf v a r.status r.error

  abbrev Answered : ProducerView W → ProducerCall W → SinkAnswer → Type 0
  Answered v call returned = refusal_of v call ≡ none
  Answered v call (threw reason) = refusal_of v call ≡ some reason

  attempted-Answered :
      (v : ProducerView W) (call : ProducerCall W) (refusal : Option (Option Text))
      → refusal_of v call ≡ told_of refusal
      → Answered v call (answer_of (attempted refusal))
  attempted-Answered v call none h = h
  attempted-Answered v call (some (some reason)) h = h
  attempted-Answered v call (some none) h = h

  call_sink-TellsOf :
      (v : ProducerView W) (a : Action W) (call : ProducerCall W) (e : Executor W) (key : Text)
      (answer : SinkAnswer)
      → call_of a ≡ some call
      → Answered v call answer
      → TellsOfResult v a (call_sink e a key answer).1
  call_sink-TellsOf v a call e key returned h k = (call, h, k)
  call_sink-TellsOf v a call e key (threw reason) h k = (call, reason, h, k, refl)

  guarded-Answered :
      (v : ProducerView W) (call : ProducerCall W) (closed unfit : Bool)
      → v.closed ≡ closed
      → (needs_video call && not (is_video v.kind)) ≡ unfit
      → Answered v call (
          answer_of (
            if closed
            then not_done (some producer_closed)
            else if unfit
            then not_done (some not_video_producer)
            else attempted (v.error_of call)))
  guarded-Answered v call true unfit h k = rw h refl
  guarded-Answered v call false true h k = rw h (rw k refl)
  guarded-Answered v call false false h k =
      attempted-Answered v call (v.error_of call) (rw h (rw k refl))

  called-Answered :
      (v : ProducerView W) (a : Action W)
      → is_noop_type (type_of a) ≡ false
      → (call : ProducerCall W) × (call_of a ≡ some call) × Answered v call (sink_execute v a)
  unfolding sink_execute set_encoding_parameters set_spatial_layer pause_upstream resume_upstream
  called-Answered v (Action.set_encoding_parameters l p) h =
      let call = set_rtp_encoding_parameters (map_encoding_parameters p) in
      (call, refl, guarded-Answered v call v.closed false refl refl)
  called-Answered v (Action.set_max_spatial_layer l layer) h = (
    set_max_spatial_layer layer,
    refl,
    guarded-Answered v (set_max_spatial_layer layer) v.closed (not (is_video v.kind)) refl refl,
  )
  called-Answered v (Action.enter_audio_only l reason) h =
      (pause, refl, guarded-Answered v pause v.closed false refl refl)
  called-Answered v (Action.pause_upstream l) h =
      (pause, refl, guarded-Answered v pause v.closed false refl refl)
  called-Answered v (Action.exit_audio_only l reason) h =
      (resume, refl, guarded-Answered v resume v.closed false refl refl)
  called-Answered v (Action.resume_upstream l) h =
      (resume, refl, guarded-Answered v resume v.closed false refl refl)
  called-Answered v (Action.noop l reason) h = ground (arith, h)

  turn-TellsOf :
      (v : ProducerView W) (a : Action W) (e : Executor W) (key : Text) (is_noop is_again : Bool)
      → is_noop_type (type_of a) ≡ is_noop
      → TellsOfResult v a
          (if is_noop
            then (e, record { status = skipped_noop; action_key = key; error = none })
            else if is_again
            then (e, record { status = skipped_idempotent; action_key = key; error = none })
            else call_sink e a key (sink_execute v a)).1
  turn-TellsOf v a e key true is_again h = ground (arith, h)
  turn-TellsOf v a e key false true h = tt
  turn-TellsOf v a e key false false h =
      let (call, c, k) = called-Answered v a h in
      call_sink-TellsOf v a call e key (sink_execute v a) c k

  -- An executor over the sink tells the truth of the producer as the call finds it: what it says to be
  -- applied is an operation that the producer took, what it says to have failed is one that it refused,
  -- for the reason told, and what it skips as a noop is none.
  pub execute-TellsOf :
      (o : ExecutorOptions W) (views : ℕ → ProducerView W) (e : Executor W) (a : Action W)
      → let result = (execute o (λ n. sink_execute (views n)) e a).1 in
        TellsOf (views (length e.sink_calls)) a result.status result.error
  unfolding execute
  execute-TellsOf o views e a =
      turn-TellsOf (views (length e.sink_calls)) a e (o.key_resolver a) (is_noop_type (type_of a))
        (o.enable_idempotence && is_last e.last_applied_action_key (o.key_resolver a)) refl
