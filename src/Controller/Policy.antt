-- ===== src/Controller/Policy.antt =====
-- What `filterActions` of src/client/lib/qos/controller.js lets through.
use mediasoup_cpp.Shared.{
  ℕ, ◌≡◌, ◌≢◌, refl, Bool, true, false, ◌||◌, Option, none, some, List, [], ◌∷◌, All, All-if, arith,
  subst, sym,
}
use mediasoup_cpp.Types.{Action, is_enter, is_exit}
use mediasoup_cpp.Overrides.{Override}
use mediasoup_cpp.Controller.State.{Controller}
use mediasoup_cpp.Controller.Filter.{
  filter_actions, drop_forbidden, put_first, or_noop, audio_only_allowed, policy_reason,
}

module _ {W : Type 0} where
  pub drop_forbidden-All :
      (P : Action W → Type 0) (allowed : Bool) (actions : List (Action W))
      → All P actions
      → All P (drop_forbidden allowed actions)
  unfolding drop_forbidden
  drop_forbidden-All P allowed [] h = tt
  drop_forbidden-All P allowed (a ∷ actions) (h, hs) =
      All-if P _ (drop_forbidden allowed actions) (a ∷ drop_forbidden allowed actions)
        (drop_forbidden-All P allowed actions hs) (h, drop_forbidden-All P allowed actions hs)

  put_first-All :
      (P : Action W → Type 0) (test : Bool) (a : Action W) (actions : List (Action W))
      → (test ≡ true → P a)
      → All P actions
      → All P (put_first test a actions)
  unfolding put_first
  put_first-All P true a actions h hs = (h refl, hs)
  put_first-All P false a actions h hs = hs

  or_noop-All :
      (P : Action W → Type 0) (level : ℕ) (actions : List (Action W))
      → P (Action.noop level (some policy_reason))
      → All P actions
      → All P (or_noop level actions)
  unfolding or_noop
  or_noop-All P level [] p h = (p, tt)
  or_noop-All P level (a ∷ actions) p h = h

  -- What holds of the actions that are left of the plan, and of those that the filter adds where the
  -- policy allows them, holds of all that is let through.
  pub filter_actions-All :
      (P : Action W → Type 0) (c : Controller W) (o : Option Override) (actions : List (Action W))
      → P (Action.noop c.current_level (some policy_reason))
      → ((reason : Option _)
          → audio_only_allowed c ≡ true
          → P (Action.enter_audio_only c.current_level reason)
            × P (Action.exit_audio_only c.current_level reason))
      → All P (drop_forbidden (audio_only_allowed c) actions)
      → All P (filter_actions c o actions)
  unfolding filter_actions
  filter_actions-All P c o actions p q h = or_noop-All P _ _ p (
      put_first-All P _ _ _ (λ e. (q none (ground (arith, e))).1)
        (put_first-All P _ _ _ (λ e. (q none (ground (arith, e))).0)
          (put_first-All P _ _ _ (λ e. (q none (ground (arith, e))).0)
            (put_first-All P _ _ _ (λ e. (q (some _) (ground (arith, e))).1)
              (put_first-All P _ _ _ (λ e. (q (some _) (ground (arith, e))).0) h)))))

  -- The action changes the audio-only mode.
  abbrev pub ChangesMode : Action W → Type 0
  ChangesMode a = (is_enter a || is_exit a) ≡ true

  drop_forbidden-ChangesMode :
      (actions : List (Action W)) → All (λ a. ¬ ChangesMode a) (drop_forbidden false actions)
  unfolding drop_forbidden
  drop_forbidden-ChangesMode [] = tt
  drop_forbidden-ChangesMode (a ∷ actions) = ground (arith, drop_forbidden-ChangesMode actions)

  or_noop_inhabited : (level : ℕ) (actions : List (Action W)) → or_noop level actions ≢ []
  unfolding or_noop
  or_noop_inhabited level actions = ground arith

  -- Where the policy forbids the audio-only mode, whatever the plan and the overrides ask for, no
  -- action that is let through changes the mode; and there is always an action.
  pub filter_actions-ChangesMode :
      (c : Controller W) (o : Option Override) (actions : List (Action W))
      → audio_only_allowed c ≡ false
      → All (λ a. ¬ ChangesMode a) (filter_actions c o actions) × (filter_actions c o actions ≢ [])
  unfolding filter_actions
  filter_actions-ChangesMode c o actions e = (
    filter_actions-All (λ a. ¬ ChangesMode a) c o actions (ground arith) (ground (arith, e))
        (subst (λ b. All (λ a. ¬ ChangesMode a) (drop_forbidden b actions)) (sym e)
          (drop_forbidden-ChangesMode actions)),
    or_noop_inhabited _ _,
  )
