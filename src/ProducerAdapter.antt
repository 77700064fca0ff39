-- ===== src/ProducerAdapter.antt =====
-- src/client/lib/qos/adapters/producerAdapter.js: planner actions on a producer, and the sink that
-- `createProducerActionSink` of src/client/lib/qos/factory.js makes of it. The producer belongs to the
-- WebRTC client: whether it is closed, of which kind it is and which of its operations throw are told by
-- a view, one for each call of the sink.
pub mod Sink
mod Examples
use mediasoup_cpp.Shared.{
  ℕ, Bool, true, false, not, ◌&&◌, Option, none, some, Text, codes, if◌then◌else◌,
}
use mediasoup_cpp.Types.{Action, EncodingParameters, TrackKind}
use mediasoup_cpp.Executor.{SinkAnswer, returned, threw}

-- The parameters under the names of the client; those that are missing are not set.
pub record RtpEncoding (W : Type 0) : Type 0 where
  pub max_bitrate : Option W
  pub max_framerate : Option W
  pub scale_resolution_down_by : Option W
  pub adaptive_ptime : Option Bool

-- The operations of a producer.
pub data ProducerCall (W : Type 0) : Type 0 where
  set_rtp_encoding_parameters : RtpEncoding W → ProducerCall W
  set_max_spatial_layer : ℕ → ProducerCall W
  pause resume : ProducerCall W

-- A producer as a call finds it; `error_of` tells of an operation that throws, and with which message, if with one.
pub record ProducerView (W : Type 0) : Type 0 where
  pub closed : Bool
  pub kind : TrackKind
  pub error_of : ProducerCall W → Option (Option Text)

pub data AdapterResult : Type 0 where
  done : AdapterResult
  not_done : Option Text → AdapterResult

abbrev pub producer_closed : Text
producer_closed = codes "producer-closed"

abbrev pub not_video_producer : Text
not_video_producer = codes "not-video-producer"

abbrev pub is_video : TrackKind → Bool
is_video TrackKind.video = true
is_video TrackKind.audio = false

abbrev pub attempted : Option (Option Text) → AdapterResult
attempted none = done
attempted (some message) = not_done message

-- `throw new Error(result.reason ?? ...)`.
abbrev pub answer_of : AdapterResult → SinkAnswer
answer_of done = returned
answer_of (not_done (some reason)) = threw reason
answer_of (not_done none) = threw (codes "producer adapter action not applied")

module _ {W : Type 0} where
  unfoldable pub map_encoding_parameters : EncodingParameters W → RtpEncoding W
  map_encoding_parameters p = record {
    max_bitrate = p.max_bitrate_bps;
    max_framerate = p.max_framerate;
    scale_resolution_down_by = p.scale_resolution_down_by;
    adaptive_ptime = p.adaptive_ptime;
  }

  -- The adapter's operations: none is tried on a producer that is closed.
  unfoldable pub set_encoding_parameters : ProducerView W → EncodingParameters W → AdapterResult
  unfolding map_encoding_parameters
  set_encoding_parameters v p =
      if v.closed
      then not_done (some producer_closed)
      else attempted (v.error_of (set_rtp_encoding_parameters (map_encoding_parameters p)))

  unfoldable pub set_spatial_layer : ProducerView W → ℕ → AdapterResult
  set_spatial_layer v layer =
      if v.closed
      then not_done (some producer_closed)
      else if not (is_video v.kind)
      then not_done (some not_video_producer)
      else attempted (v.error_of (set_max_spatial_layer layer))

  unfoldable pub pause_upstream : ProducerView W → AdapterResult
  pause_upstream v =
      if v.closed then not_done (some producer_closed) else attempted (v.error_of pause)

  unfoldable pub resume_upstream : ProducerView W → AdapterResult
  resume_upstream v =
      if v.closed then not_done (some producer_closed) else attempted (v.error_of resume)

  -- `execute` of the sink.
  unfoldable pub sink_execute : ProducerView W → Action W → SinkAnswer
  unfolding set_encoding_parameters set_spatial_layer pause_upstream resume_upstream
  sink_execute v (Action.set_encoding_parameters l p) = answer_of (set_encoding_parameters v p)
  sink_execute v (Action.set_max_spatial_layer l layer) = answer_of (set_spatial_layer v layer)
  sink_execute v (Action.enter_audio_only l reason) = answer_of (pause_upstream v)
  sink_execute v (Action.pause_upstream l) = answer_of (pause_upstream v)
  sink_execute v (Action.exit_audio_only l reason) = answer_of (resume_upstream v)
  sink_execute v (Action.resume_upstream l) = answer_of (resume_upstream v)
  sink_execute v (Action.noop l reason) = returned
