-- ===== src/Planner/Levels.antt =====
-- The levels of the planned actions (src/client/lib/qos/planner.js).
use mediasoup_cpp.Shared.{
  ℕ, ◌-◌, ◌+◌, ◌≤◌, ◌≡◌, refl, ◌≢◌, ℤ, pos, negsuc, Bool, true, false, Option, none, some, List, [],
  ◌∷◌, All, All-weaken, arith, min, max, find, find_sound, ==_iff, if◌then◌else◌, subst, ap, ◌∙◌,
  ◌==◌,
}
use mediasoup_cpp.Types.{
  QosState, stable, early_warning, congested, recovering, Source, LadderStep, Action, level_of,
}
use mediasoup_cpp.Planner.{
  PlannerInput, clamp_level, resolve_max_level, resolve_target_level, step_to_actions, is_step,
  found_actions, actions_for_level, plan_actions_for_level, is_last_resort, plan_actions,
}

-- The rung that each state asks for, from the rung where the track is.
abbrev pub rung_after : QosState → ℕ → ℕ → ℕ
rung_after stable current max_level = current - 1
rung_after early_warning current max_level = min (max current 1) max_level
rung_after congested current max_level = min (current + 1) max_level
rung_after recovering current max_level = current - 1

abbrev pub limited : Option ℤ → ℕ → ℕ
limited none level = level
limited (some (pos clamp)) level = min level clamp
limited (some (negsuc n)) level = 0

clamp_level_lem :
    (level max_level : ℕ) → level ≤ max_level → clamp_level (pos level) max_level ≡ level
unfolding clamp_level
clamp_level_lem level max_level h = ground arith

module _ {W : Type 0} where
  abbrev pub AtLevel : ℕ → Action W → Type 0
  AtLevel l a = level_of a ≡ l

  -- There is an action, and each is for the level.
  abbrev pub Carries : ℕ → List (Action W) → Type 0
  Carries l actions = All (AtLevel l) actions × (actions ≢ [])

  Carries-if :
      (test : Bool) (l : ℕ) (xs ys : List (Action W))
      → (test ≡ true → Carries l xs)
      → (test ≡ false → Carries l ys)
      → Carries l (if test then xs else ys)
  Carries-if true l xs ys h k = h refl
  Carries-if false l xs ys h k = k refl

  Carries-eq : (l k : ℕ) (xs : List (Action W)) → l ≡ k → Carries l xs → Carries k xs
  Carries-eq l k xs e h = subst (λ n. Carries n xs) e h

  -- A rung is turned into at least one action, and all of them carry its level.
  step_to_actions-AtLevel :
      (step : LadderStep W) (source : Source) (current : ℤ) (in_audio_only : Bool)
      → let actions = step_to_actions step source current in_audio_only in
        Carries step.level actions
  unfolding step_to_actions
  step_to_actions-AtLevel step source current in_audio_only = ground arith

  found_actions-AtLevel :
      (i : PlannerInput W) (target : ℕ) (found : Option (LadderStep W))
      → find (is_step target) i.profile.ladder ≡ found
      → let actions = found_actions i target found in Carries target actions
  unfolding found_actions
  found_actions-AtLevel i target none e = ground arith
  found_actions-AtLevel i target (some step) e =
      let actions : List (Action W) =
        step_to_actions step i.source i.current_level i.in_audio_only_mode in
      let here : step.level ≡ target =
        (==_iff step.level target).0 (find_sound (is_step target) i.profile.ladder step e) in
      subst (λ l. Carries l actions) here
        (step_to_actions-AtLevel step i.source i.current_level i.in_audio_only_mode)

  actions_for_level-AtLevel :
      (i : PlannerInput W) (target : ℕ)
      → let actions = actions_for_level i target in Carries target actions
  unfolding actions_for_level
  actions_for_level-AtLevel i target = found_actions-AtLevel i target _ refl

  pub plan_actions_for_level-AtLevel :
      (i : PlannerInput W) (target : ℤ)
      → let actions = plan_actions_for_level i target in
        Carries (clamp_level target (resolve_max_level i.profile)) actions
  unfolding plan_actions_for_level
  plan_actions_for_level-AtLevel i target =
      let max_level = resolve_max_level i.profile in
      actions_for_level-AtLevel
        (record i { current_level = pos (clamp_level i.current_level max_level) })
        (clamp_level target max_level)

  abbrev pub current_rung : PlannerInput W → ℕ
  current_rung i = clamp_level i.current_level (resolve_max_level i.profile)

  abbrev pub planned_level : PlannerInput W → ℕ
  planned_level i =
      let max_level = resolve_max_level i.profile in
      if is_last_resort i
      then max_level
      else limited i.override_clamp_level (rung_after i.state (current_rung i) max_level)

  resolve_target_level_lem :
      (i : PlannerInput W)
      → resolve_target_level i
        ≡ limited i.override_clamp_level
            (rung_after i.state (current_rung i) (resolve_max_level i.profile))
  unfolding resolve_target_level
  resolve_target_level_lem i = ground arith

  resolve_target_level-le :
      (i : PlannerInput W) → resolve_target_level i ≤ resolve_max_level i.profile
  unfolding resolve_target_level
  resolve_target_level-le i = ground arith

  planned_level_last :
      (i : PlannerInput W)
      → is_last_resort i ≡ true
      → clamp_level (pos (resolve_max_level i.profile)) (resolve_max_level i.profile)
        ≡ planned_level i
  planned_level_last i last =
      ground (arith, clamp_level_lem (resolve_max_level i.profile) (resolve_max_level i.profile))

  planned_level_other :
      (i : PlannerInput W)
      → is_last_resort i ≡ false
      → let max_level = resolve_max_level i.profile in
        (clamp_level (pos (resolve_target_level i)) max_level ≡ planned_level i)
        × (clamp_level (pos (planned_level i)) max_level ≡ planned_level i)
  planned_level_other i other =
      let max_level : ℕ = resolve_max_level i.profile in
      let target = resolve_target_level_lem i in
      let small = clamp_level_lem (resolve_target_level i) max_level (resolve_target_level-le i) in
      rw (other, ← target) (small, small)

  planned_level-le :
      (i : PlannerInput W)
      → (planned_level i ≤ resolve_max_level i.profile) × (planned_level i ≤ current_rung i + 1)
  unfolding clamp_level
  planned_level-le i = ground arith

  planned_level-le-clamp :
      (i : PlannerInput W) (clamp : ℕ)
      → i.override_clamp_level ≡ some (pos clamp)
      → is_last_resort i ≡ false
      → planned_level i ≤ clamp
  planned_level-le-clamp i clamp e other = ground arith

  pub plan_actions-Carries : (i : PlannerInput W) → Carries (planned_level i) (plan_actions i)
  unfolding plan_actions
  plan_actions-Carries i =
      let max_level : ℕ = resolve_max_level i.profile in
      let at_rung : PlannerInput W = record i { current_level = pos (current_rung i) } in
      let target : ℕ = clamp_level (pos (resolve_target_level i)) max_level in
      Carries-if (is_last_resort i) (planned_level i) _ _
        (λ last.
          Carries-eq _ _ _ (planned_level_last i last)
            (plan_actions_for_level-AtLevel at_rung (pos max_level)))
        (λ other.
          let (settled, kept) = planned_level_other i other in
          Carries-if (target == current_rung i) (planned_level i)
            (Action.noop (current_rung i) none ∷ []) (plan_actions_for_level at_rung (pos target))
            (λ same. ground (arith, settled))
            (λ differs.
              Carries-eq _ _ _ (ap (λ l. clamp_level (pos l) max_level) settled ∙ kept)
                (plan_actions_for_level-AtLevel at_rung (pos target))))

  -- No planned action is for a level above the top of the ladder, or more than one above the
  -- level where the track is.
  pub plan_actions_bounds :
      (i : PlannerInput W)
      → All
          (λ a. (level_of a ≤ resolve_max_level i.profile) × (level_of a ≤ current_rung i + 1))
          (plan_actions i)
  plan_actions_bounds i =
      All-weaken (AtLevel (planned_level i)) _ (plan_actions i) (λ a e. rw e (planned_level-le i))
        (plan_actions-Carries i).0

  -- Away from the last resort no planned action is for a level above the override's clamp.
  pub plan_actions_clamped :
      (i : PlannerInput W) (clamp : ℕ)
      → i.override_clamp_level ≡ some (pos clamp)
      → is_last_resort i ≡ false
      → All (λ a. level_of a ≤ clamp) (plan_actions i)
  plan_actions_clamped i clamp e other =
      All-weaken (AtLevel (planned_level i)) _ (plan_actions i)
        (λ a at. rw at (planned_level-le-clamp i clamp e other)) (plan_actions-Carries i).0
