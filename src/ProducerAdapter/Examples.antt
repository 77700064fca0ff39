-- ===== src/ProducerAdapter/Examples.antt =====
-- An executor over a producer that is closed, by src/client/lib/qos/adapters/producerAdapter.js.
use mediasoup_cpp.Shared.{ℕ, true, none, some, [], length, codes, Milli}
use mediasoup_cpp.Types.{Action, TrackKind}
use mediasoup_cpp.Executor.{ExecutorOptions, Executor, execute}
use mediasoup_cpp.ProducerAdapter.{ProducerView, sink_execute}
use mediasoup_cpp.ProducerAdapter.Sink.{TellsOf, execute-TellsOf}

abbrev closed : ℕ → ProducerView Milli
closed n = record { closed = true; kind = TrackKind.video; error_of = λ call. none }

abbrev options : ExecutorOptions Milli
options = record {
  enable_idempotence = true;
  stop_on_error = true;
  key_resolver = λ a. codes "key";
}

abbrev executor : Executor Milli
executor = record { last_applied_action_key = some (codes "other"); sink_calls = [] }

execute-TellsOf_example :
    let result =
      (execute options (λ n. sink_execute (closed n)) executor (Action.pause_upstream 2)).1 in
    TellsOf
      (closed (length executor.sink_calls))
      (Action.pause_upstream 2)
      result.status
      result.error
execute-TellsOf_example = execute-TellsOf options closed executor (Action.pause_upstream 2)
