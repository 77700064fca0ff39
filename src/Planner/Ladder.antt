-- ===== src/Planner/Ladder.antt =====
-- Ladders that have a rung for every level (src/client/lib/qos/planner.js).
use mediasoup_cpp.Shared.{
  ℕ, suc, ◌+◌, ◌≤◌, ◌<◌, ◌≡◌, refl, ◌≢◌, ℤ, pos, Bool, Option, none, some, List, [], ◌∷◌, All,
  arith, find, length, ◌==◌, All-if,
}
use mediasoup_cpp.Types.{Source, Profile, LadderStep, Action}
use mediasoup_cpp.Planner.{
  PlannerInput, clamp_level, resolve_max_level, step_to_actions, is_step, found_actions,
  unknown_level, resolve_target_level, actions_for_level, plan_actions_for_level, is_last_resort,
  plan_actions,
}

pub clamp_level-le : (level : ℤ) (max_level : ℕ) → clamp_level level max_level ≤ max_level
unfolding clamp_level
clamp_level-le level max_level = ground arith

module _ {W : Type 0} where
  -- The rungs have the levels `n`, `n + 1` and so on.
  abbrev pub Rungs : ℕ → List (LadderStep W) → Type 0
  Rungs n [] = Unit
  Rungs n (step ∷ steps) = (step.level ≡ n) × Rungs (suc n) steps

  pub record IsLadder (p : Profile W) : Type 0 where
    pub rungs : Rungs 0 p.ladder
    pub counted : length p.ladder ≡ p.level_count
    pub inhabited : 0 < p.level_count

  -- An action that stands for a level without a rung.
  abbrev pub IsUnknown : Action W → Type 0
  IsUnknown (Action.noop l (some reason)) = reason ≡ unknown_level
  IsUnknown a = ⊥

  find-Rungs :
      (n l : ℕ) (steps : List (LadderStep W))
      → Rungs n steps
      → n ≤ l
      → l < n + length steps
      → find (is_step l) steps ≢ none
  unfolding find
  find-Rungs n l [] r lo hi = absurd (omega arith)
  find-Rungs n l (step ∷ steps) r lo hi = ground (arith, find-Rungs (suc n) l steps r.1)

  step_to_actions-known :
      (step : LadderStep W) (source : Source) (current : ℤ) (in_audio_only : Bool)
      → All (λ a. ¬ IsUnknown a) (step_to_actions step source current in_audio_only)
  unfolding step_to_actions
  step_to_actions-known step source current in_audio_only = ground arith

  actions_for_level-known :
      (i : PlannerInput W) (target : ℕ)
      → IsLadder i.profile
      → target < i.profile.level_count
      → All (λ a. ¬ IsUnknown a) (actions_for_level i target)
  unfolding actions_for_level found_actions
  actions_for_level-known i target ladder h = known (find (is_step target) i.profile.ladder) (
      find-Rungs 0 target i.profile.ladder ladder.rungs (omega arith)
        (omega (arith, ladder.counted)))
    where
      known :
          (found : Option (LadderStep W))
          → found ≢ none
          → All (λ a. ¬ IsUnknown a) (found_actions i target found)
      known none some_rung = absurd (some_rung refl)
      known (some step) some_rung =
          step_to_actions-known step i.source i.current_level i.in_audio_only_mode

  plan_actions_for_level-known :
      (i : PlannerInput W) (target : ℤ)
      → IsLadder i.profile
      → All (λ a. ¬ IsUnknown a) (plan_actions_for_level i target)
  unfolding plan_actions_for_level
  plan_actions_for_level-known i target ladder =
      let max_level : ℕ = resolve_max_level i.profile in
      actions_for_level-known
        (record i { current_level = pos (clamp_level i.current_level max_level) })
        (clamp_level target max_level) ladder
        (omega (arith, clamp_level-le target max_level, ladder.inhabited))

  -- On a ladder with a rung for each level, no plan stands for a level without a rung.
  pub plan_actions-known :
      (i : PlannerInput W) → IsLadder i.profile → All (λ a. ¬ IsUnknown a) (plan_actions i)
  unfolding plan_actions
  plan_actions-known i ladder =
      let max_level : ℕ = resolve_max_level i.profile in
      let current : ℕ = clamp_level i.current_level max_level in
      let at_rung : PlannerInput W = record i { current_level = pos current } in
      let target : ℕ = clamp_level (pos (resolve_target_level i)) max_level in
      All-if (λ a. ¬ IsUnknown a) (is_last_resort i) _ _
        (plan_actions_for_level-known at_rung (pos max_level) ladder)
        (All-if (λ a. ¬ IsUnknown a) (target == current) (Action.noop current none ∷ []) _
          ((λ h. h), tt) (plan_actions_for_level-known at_rung (pos target) ladder))
