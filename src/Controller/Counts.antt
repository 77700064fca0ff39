-- ===== src/Controller/Counts.antt =====
-- How many changes of the audio-only mode the steps of `filterActions` of
-- src/client/lib/qos/controller.js keep and put first.
use mediasoup_cpp.Shared.{
  ℕ, ◌+◌, ◌≡◌, refl, Bool, true, false, not, Option, none, some, List, [], ◌∷◌, any, count, Text,
  ◌∙◌, ◌==◌, arith,
}
use mediasoup_cpp.Types.{Action, is_enter, is_exit}
use mediasoup_cpp.Controller.Filter.{
  drop_forbidden, put_first, or_noop, pause_reason, resume_reason,
}

abbrev pub once : Bool → ℕ
once true = 1
once false = 0

abbrev pub only_if : Bool → ℕ → ℕ
only_if true n = n
only_if false n = 0

module _ {W : Type 0} where
  pub count-drop_forbidden-enter :
      (allowed : Bool) (actions : List (Action W))
      → count is_enter (drop_forbidden allowed actions) ≡ only_if allowed (count is_enter actions)
  unfolding drop_forbidden count
  count-drop_forbidden-enter true [] = refl
  count-drop_forbidden-enter false [] = refl
  count-drop_forbidden-enter true (a ∷ actions) =
      ground (arith, count-drop_forbidden-enter true actions)
  count-drop_forbidden-enter false (a ∷ actions) =
      ground (arith, count-drop_forbidden-enter false actions)

  pub count-drop_forbidden-exit :
      (allowed : Bool) (actions : List (Action W))
      → count is_exit (drop_forbidden allowed actions) ≡ only_if allowed (count is_exit actions)
  unfolding drop_forbidden count
  count-drop_forbidden-exit true [] = refl
  count-drop_forbidden-exit false [] = refl
  count-drop_forbidden-exit true (a ∷ actions) =
      ground (arith, count-drop_forbidden-exit true actions)
  count-drop_forbidden-exit false (a ∷ actions) =
      ground (arith, count-drop_forbidden-exit false actions)

  count-put_enter :
      (test : Bool) (level : ℕ) (reason : Option Text) (actions : List (Action W))
      → (count is_enter (put_first test (Action.enter_audio_only level reason) actions)
          ≡ once test + count is_enter actions)
        × (count is_exit (put_first test (Action.enter_audio_only level reason) actions)
            ≡ count is_exit actions)
  unfolding put_first count
  count-put_enter true level reason actions = (ground arith, ground arith)
  count-put_enter false level reason actions = (omega arith, refl)

  count-put_exit :
      (test : Bool) (level : ℕ) (reason : Option Text) (actions : List (Action W))
      → (count is_enter (put_first test (Action.exit_audio_only level reason) actions)
          ≡ count is_enter actions)
        × (count is_exit (put_first test (Action.exit_audio_only level reason) actions)
            ≡ once test + count is_exit actions)
  unfolding put_first count
  count-put_exit true level reason actions = (ground arith, ground arith)
  count-put_exit false level reason actions = (refl, omega arith)

  count-or_noop-enter :
      (level : ℕ) (actions : List (Action W))
      → count is_enter (or_noop level actions) ≡ count is_enter actions
  unfolding or_noop count
  count-or_noop-enter level [] = refl
  count-or_noop-enter level (a ∷ actions) = refl

  count-or_noop-exit :
      (level : ℕ) (actions : List (Action W))
      → count is_exit (or_noop level actions) ≡ count is_exit actions
  unfolding or_noop count
  count-or_noop-exit level [] = refl
  count-or_noop-exit level (a ∷ actions) = refl

  pub any-count :
      (p : Action W → Bool) (actions : List (Action W)) → any p actions ≡ not (count p actions == 0)
  unfolding count
  any-count p [] = refl
  any-count p (a ∷ actions) = ground (arith, any-count p actions)

  -- The list before the last step, by the tests of the steps.
  abbrev pub put_all : Bool → Bool → Bool → Bool → ℕ → List (Action W) → List (Action W)
  put_all p r f k level actions = put_first k (Action.enter_audio_only level none) (
      put_first f (Action.enter_audio_only level none) (
        put_first r (Action.exit_audio_only level (some resume_reason))
          (put_first p (Action.enter_audio_only level (some pause_reason)) actions)))

  abbrev pub put_last : Bool → ℕ → List (Action W) → List (Action W)
  put_last l level actions = or_noop level (put_first l (Action.exit_audio_only level none) actions)

  pub count-put_all :
      (p r f k : Bool) (level : ℕ) (actions : List (Action W))
      → (count is_enter (put_all p r f k level actions)
          ≡ once k + (once f + once p) + count is_enter actions)
        × (count is_exit (put_all p r f k level actions) ≡ once r + count is_exit actions)
  count-put_all p r f k level actions =
      let pausing = put_first p (Action.enter_audio_only level (some pause_reason)) actions in
      let resuming = put_first r (Action.exit_audio_only level (some resume_reason)) pausing in
      let forcing = put_first f (Action.enter_audio_only level none) resuming in
      let first = count-put_enter p level (some pause_reason) actions in
      let second = count-put_exit r level (some resume_reason) pausing in
      let third = count-put_enter f level none resuming in
      let fourth = count-put_enter k level none forcing in
      (
        omega (arith, fourth.0, third.0, second.0, first.0),
        omega (arith, fourth.1, third.1, second.1, first.1),
      )

  pub count-put_last :
      (l : Bool) (level : ℕ) (actions : List (Action W))
      → (count is_enter (put_last l level actions) ≡ count is_enter actions)
        × (count is_exit (put_last l level actions) ≡ once l + count is_exit actions)
  count-put_last l level actions =
      let last = put_first l (Action.exit_audio_only level none) actions in
      let put = count-put_exit l level none actions in
      (count-or_noop-enter level last ∙ put.0, count-or_noop-exit level last ∙ put.1)
