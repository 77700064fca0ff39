-- ===== src/Executor/Idempotence.antt =====
-- What the executor of src/client/lib/qos/executor.js lets through to its sink.
use mediasoup_cpp.Shared.{
  ℕ, zero, suc, ◌≡◌, refl, Bool, true, false, ◌&&◌, none, some, List, [], ◌∷◌, text_eq_refl, length,
  arith, Bool-cases, inl, inr,
}
use mediasoup_cpp.Types.{Action, type_of}
use mediasoup_cpp.Executor.{
  Executor, ExecutorOptions, SinkAnswer, returned, skipped_idempotent, applied, execute,
  execute_many, is_failed, is_noop_type,
}

module _ {ℓ} {A : Type ℓ} where
  abbrev pub replicate : ℕ → A → List A
  replicate zero a = []
  replicate (suc n) a = a ∷ replicate n a

  -- All but the last element pass the test.
  abbrev pub AllButLast : (A → Type 0) → List A → Type 0
  AllButLast P [] = Unit
  AllButLast P (x ∷ []) = Unit
  AllButLast P (x ∷ (y ∷ ys)) = P x × AllButLast P (y ∷ ys)

  AllButLast-cons :
      (P : A → Type 0) (x : A) (xs : List A) → P x → AllButLast P xs → AllButLast P (x ∷ xs)
  AllButLast-cons P x [] p ps = tt
  AllButLast-cons P x (y ∷ ys) p ps = (p, ps)

and_false : (b : Bool) → (b && false) ≡ false
and_false true = refl
and_false false = refl

module _ {W : Type 0} (o : ExecutorOptions W) (sink : ℕ → Action W → SinkAnswer) where
  -- Right after a call that applied an action, one with the same key is skipped: the sink is not
  -- called, and the executor does not change.
  pub execute_again :
      (e : Executor W) (a b : Action W)
      → o.enable_idempotence ≡ true
      → (execute o sink e a).1.status ≡ applied
      → o.key_resolver b ≡ o.key_resolver a
      → is_noop_type (type_of b) ≡ false
      → let next = (execute o sink e a).0 in
        ((execute o sink next b).0 ≡ next) × ((execute o sink next b).1.status ≡ skipped_idempotent)
  unfolding execute
  execute_again e a b on done same real = ground (arith, text_eq_refl (o.key_resolver a))

  execute_last :
      (e : Executor W) (a : Action W)
      → o.enable_idempotence ≡ true
      → e.last_applied_action_key ≡ some (o.key_resolver a)
      → ((execute o sink e a).0 ≡ e) × (is_failed (execute o sink e a).1.status ≡ false)
  unfolding execute
  execute_last e a on last = ground (arith, text_eq_refl (o.key_resolver a))

  repeat_skips :
      (e : Executor W) (a : Action W) (n : ℕ)
      → o.enable_idempotence ≡ true
      → e.last_applied_action_key ≡ some (o.key_resolver a)
      → (execute_many o sink e (replicate n a)).0 ≡ e
  unfolding execute_many
  repeat_skips e a zero on last = refl
  repeat_skips e a (suc n) on last =
      let (kept, fine) = execute_last e a on last in
      rw (fine, and_false, kept) (repeat_skips e a n on last)

  execute_first :
      (e : Executor W) (a : Action W)
      → is_noop_type (type_of a) ≡ false
      → e.last_applied_action_key ≡ none
      → sink (length e.sink_calls) a ≡ returned
      → let done = execute o sink e a in
        (done.0.last_applied_action_key ≡ some (o.key_resolver a))
        × (done.0.sink_calls ≡ a ∷ e.sink_calls)
        × (is_failed done.1.status ≡ false)
  unfolding execute
  execute_first e a real fresh answer = ground arith

  -- With idempotence on, an action that is no noop, given many times in a row to an executor without a
  -- last key, to which the sink first answers without an error, reaches the sink exactly once.
  pub execute_many_once :
      (e : Executor W) (a : Action W) (n : ℕ)
      → o.enable_idempotence ≡ true
      → is_noop_type (type_of a) ≡ false
      → e.last_applied_action_key ≡ none
      → sink (length e.sink_calls) a ≡ returned
      → (execute_many o sink e (replicate (suc n) a)).0.sink_calls ≡ a ∷ e.sink_calls
  unfolding execute_many
  execute_many_once e a n on real fresh answer =
      let (key, called, fine) = execute_first e a real fresh answer in
      rw (fine, and_false) (rw (repeat_skips (execute o sink e a).0 a n on key) called)

  -- With `stopOnError`, no result of a row but the last is a failure.
  pub execute_many_stops :
      (e : Executor W) (actions : List (Action W))
      → o.stop_on_error ≡ true
      → AllButLast (λ r. is_failed r.status ≡ false) (execute_many o sink e actions).1
  unfolding execute_many
  execute_many_stops e [] on = tt
  execute_many_stops e (a ∷ actions) on =
      elim (Bool-cases (is_failed (execute o sink e a).1.status)) [
        | inl bad ↦ rw (bad, on) tt
        | inr fine ↦
            rw (fine, and_false)
              (AllButLast-cons (λ r. is_failed r.status ≡ false) (execute o sink e a).1 _ fine
                (execute_many_stops (execute o sink e a).0 actions on))
      ]
