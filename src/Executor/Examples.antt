-- ===== src/Executor/Examples.antt =====
-- Tests of src/client/lib/qos/executor.js and its theorems at concrete actions.
use mediasoup_cpp.Shared.{ℕ, ◌≡◌, refl, Bool, true, false, [], ◌∷◌, codes, Milli, milli_number}
use mediasoup_cpp.Types.{Action}
use mediasoup_cpp.Executor.{
  Writer, ExecutorOptions, new_executor, default_action_key, execute, execute_many, returned, threw,
  SinkAnswer,
}
use mediasoup_cpp.Executor.Idempotence.{replicate, execute_many_once}

-- Numbers in unary, which is enough to tell them apart.
abbrev writer : Writer Milli
writer = record { write_number = λ x. codes "x"; write_level = λ n. replicate n 49 }

abbrev options : Bool → ExecutorOptions Milli
options stop = record {
  enable_idempotence = true;
  stop_on_error = stop;
  key_resolver = default_action_key writer;
}

abbrev always : ℕ → Action Milli → SinkAnswer
always n a = returned

abbrev never : ℕ → Action Milli → SinkAnswer
never n a = threw (codes "closed")

abbrev pause : Action Milli
pause = Action.pause_upstream 4

abbrev resume : Action Milli
resume = Action.resume_upstream 3

execute_many_once_example :
    (execute_many (options false) always new_executor (replicate 3 pause)).0.sink_calls ≡ pause ∷ []
unfolding execute new_executor
execute_many_once_example =
    execute_many_once (options false) always new_executor pause 2 refl refl refl refl
