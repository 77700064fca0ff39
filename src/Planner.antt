-- ===== src/Planner.antt =====
-- src/client/lib/qos/planner.js: from the state of the machine to a row of actions for one level of
-- the profile's ladder. Levels that come from outside are integers; a planned level is natural.
pub mod Levels
pub mod Ladder
mod Examples
use mediasoup_cpp.Shared.{
  ℕ, ◌-◌, ◌+◌, ℤ, pos, negsuc, Bool, true, false, not, ◌&&◌, Option, none, some, List, [], ◌∷◌,
  ◌++◌, Text, codes, find, ltb, ◌==◌, min, if◌then◌else◌,
}
use mediasoup_cpp.Types.{
  QosState, stable, early_warning, congested, recovering, state_eq, Source, camera, source_eq,
  Profile, LadderStep, Action,
}

unfoldable pub clamp_level : ℤ → ℕ → ℕ
clamp_level (negsuc n) max_level = 0
clamp_level (pos level) max_level = if ltb max_level level then max_level else level

-- `level > step.level`.
abbrev above : ℤ → ℕ → Bool
above (negsuc n) l = false
above (pos level) l = ltb l level

-- The reason of a `noop`, which the source leaves out or spells as a literal.
abbrev pub empty_ladder_step : Text
empty_ladder_step = codes "empty-ladder-step"

abbrev pub unknown_level : Text
unknown_level = codes "unknown-level"

pub record PlannerInput (W : Type 0) : Type 0 where
  pub source : Source
  pub profile : Profile W
  pub state : QosState
  pub current_level : ℤ
  pub override_clamp_level : Option ℤ
  pub in_audio_only_mode : Bool

-- The `switch` of `resolveTargetLevel`, before its last two steps.
abbrev pub shift_level : QosState → ℕ → ℕ
shift_level stable current = if ltb 0 current then current - 1 else 0
shift_level early_warning current = if ltb current 1 then 1 else current
shift_level congested current = current + 1
shift_level recovering current = if ltb 0 current then current - 1 else 0

abbrev pub apply_clamp : Option ℤ → ℕ → ℕ → ℕ
apply_clamp none max_level target = target
apply_clamp (some clamp) max_level target = min target (clamp_level clamp max_level)

module _ {W : Type 0} where
  -- `Math.max(0, profile.levelCount - 1)`.
  abbrev pub resolve_max_level : Profile W → ℕ
  resolve_max_level p = p.level_count - 1

  unfoldable pub resolve_target_level : PlannerInput W → ℕ
  unfolding clamp_level
  resolve_target_level i =
      let max_level = resolve_max_level i.profile in
      let current = clamp_level i.current_level max_level in
      let target = clamp_level (pos (shift_level i.state current)) max_level in
      apply_clamp i.override_clamp_level max_level target

  -- A row of one action, if the test holds.
  abbrev when : Bool → Action W → List (Action W)
  when true a = a ∷ []
  when false a = []

  abbrev pub non_empty : ℕ → List (Action W) → List (Action W)
  non_empty level [] = Action.noop level (some empty_ladder_step) ∷ []
  non_empty level (a ∷ actions) = a ∷ actions

  unfoldable pub step_to_actions : LadderStep W → Source → ℤ → Bool → List (Action W)
  step_to_actions step source current in_audio_only = non_empty step.level planned
    where
      encoding : List (Action W)
      encoding = elim (step.encoding_parameters) [
        | none ↦ []
        | some parameters ↦ Action.set_encoding_parameters step.level parameters ∷ []
      ]

      spatial : List (Action W)
      spatial = elim (step.spatial_layer) [
        | none ↦ []
        | some layer ↦ Action.set_max_spatial_layer step.level layer ∷ []
      ]

      planned : List (Action W)
      planned =
          when (source_eq source camera && above current step.level && in_audio_only)
            (Action.exit_audio_only step.level none)
          ++ (when step.resume_upstream (Action.resume_upstream step.level)
              ++ (encoding
                  ++ (spatial
                      ++ (when step.enter_audio_only (Action.enter_audio_only step.level none)
                          ++ when step.pause_upstream (Action.pause_upstream step.level)))))

  abbrev pub is_step : ℕ → LadderStep W → Bool
  is_step level step = step.level == level

  unfoldable pub found_actions : PlannerInput W → ℕ → Option (LadderStep W) → List (Action W)
  unfolding step_to_actions
  found_actions i target none = Action.noop target (some unknown_level) ∷ []
  found_actions i target (some step) =
      step_to_actions step i.source i.current_level i.in_audio_only_mode

  unfoldable pub actions_for_level : PlannerInput W → ℕ → List (Action W)
  unfolding found_actions
  actions_for_level i target = found_actions i target (find (is_step target) i.profile.ladder)

  unfoldable pub plan_actions_for_level : PlannerInput W → ℤ → List (Action W)
  unfolding actions_for_level clamp_level
  plan_actions_for_level i target =
      let max_level = resolve_max_level i.profile in
      let current = clamp_level i.current_level max_level in
      actions_for_level (record i { current_level = pos current }) (clamp_level target max_level)

  -- The last rung of a camera that is still sending video.
  abbrev pub is_last_resort : PlannerInput W → Bool
  is_last_resort i =
      let max_level = resolve_max_level i.profile in
      source_eq i.source camera
      && clamp_level i.current_level max_level == max_level
      && state_eq i.state congested
      && not i.in_audio_only_mode

  unfoldable pub plan_actions : PlannerInput W → List (Action W)
  unfolding plan_actions_for_level resolve_target_level
  plan_actions i =
      let max_level = resolve_max_level i.profile in
      let current = clamp_level i.current_level max_level in
      let target = clamp_level (pos (resolve_target_level i)) max_level in
      if is_last_resort i
      then plan_actions_for_level (record i { current_level = pos current }) (pos max_level)
      else if target == current
      then Action.noop current none ∷ []
      else plan_actions_for_level (record i { current_level = pos current }) (pos target)

  unfoldable pub plan_recovery : PlannerInput W → List (Action W)
  unfolding plan_actions
  plan_recovery i = plan_actions (record i { state = recovering })
