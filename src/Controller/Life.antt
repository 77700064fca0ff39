-- ===== src/Controller/Life.antt =====
-- A controller of src/client/lib/qos/controller.js over its whole life: samples, policies, overrides,
-- coordination, start and stop in any order.
use mediasoup_cpp.Shared.{
  ℕ, ◌<◌, ◌≡◌, refl, Option, none, some, List, [], ◌∷◌, Text, arith, Number, ap, ◌∙◌,
}
use mediasoup_cpp.Types.{RawSnapshot, Profile}
use mediasoup_cpp.Profiles.{Lookup, absent, found, thrown, resolve_profile_by_name}
use mediasoup_cpp.Controller.Policies.{resolve_profile_by_name-Fits}
use mediasoup_cpp.Overrides.{Override}
use mediasoup_cpp.Sampler.{Sampler, update_interval}
use mediasoup_cpp.Controller.State.{Controller, ControllerOptions, level_of_option, new_controller}
use mediasoup_cpp.Controller.Settings.{
  CoordinationInput, Policy, Settled, completed, failed_at, set_coordination_override, start, stop,
  receive_override, handle_policy, use_lookup, choose_profile, after_update, profile_name,
  store_settings,
}
use mediasoup_cpp.Controller.Process.{
  Outcome, processed, rolled_back, rejected, World, process_sample,
}
use mediasoup_cpp.Controller.Levels.{IsOnLadder, OutcomeOn}
use mediasoup_cpp.Controller.OnLadder.{process_sample-IsOnLadder}

pub data Event (W : Type 0) : Type 0 where
  sampled : RawSnapshot W → ℕ → World W → Event W
  policy_changed : Policy → Event W
  overridden : ℕ → Override → Event W
  coordinated : Option CoordinationInput → Event W
  started stopped : Event W

module _ {W : Type 0} where
  -- The controller that a call leaves behind, thrown or not.
  abbrev pub settled : Settled (Controller W) → Controller W
  settled (completed c) = c
  settled (failed_at c) = c

  abbrev pub left_by : Outcome W → Controller W
  left_by (processed c report) = c
  left_by (rolled_back c) = c
  left_by (rejected c) = c

  -- The profile has the five levels that all profiles of the registry have, and the track is on one.
  pub record IsSound (c : Controller W) : Type 0 where
    pub five_levels : c.profile.level_count ≡ 5
    pub level_lt : c.current_level < c.profile.level_count

module _ {W : Type 0} ⦃num : Number W⦄ where
  abbrev pub on_event : Event W → Controller W → Controller W
  on_event (sampled raw now world) c = left_by (process_sample raw now world c)
  on_event (policy_changed p) c = settled (handle_policy p c)
  on_event (overridden now o) c = receive_override now o c
  on_event (coordinated input) c = set_coordination_override input c
  on_event started c = start c
  on_event stopped c = stop c

  abbrev pub on_events : List (Event W) → Controller W → Controller W
  on_events [] c = c
  on_events (e ∷ es) c = on_events es (on_event e c)

  use_lookup-IsSound :
      (l : Lookup W) (c : Controller W)
      → ((p : Profile W) → l ≡ found p → p.level_count ≡ 5)
      → IsSound c
      → IsSound (settled (use_lookup c l))
  use_lookup-IsSound absent c h s = s
  use_lookup-IsSound (found p) c h s = record {
    five_levels = h p refl;
    level_lt = omega (arith, h p refl, s.level_lt, s.five_levels);
  }
  use_lookup-IsSound thrown c h s = s

  choose_profile-IsSound :
      (name : Text) (c : Controller W) → IsSound c → IsSound (settled (choose_profile name c))
  choose_profile-IsSound name c s = ground (
    arith,
    s,
    use_lookup-IsSound (resolve_profile_by_name c.profile.source name) c
        (λ p e. (resolve_profile_by_name-Fits c.profile.source name p e).0) s,
  )

  after_update-IsSound :
      (name : Text) (c : Controller W) (sampler : Option Sampler)
      → IsSound c
      → IsSound (settled (after_update name c sampler))
  after_update-IsSound name c none s = s
  after_update-IsSound name c (some sampler) s =
      choose_profile-IsSound name (record c { sampler = sampler })
        (record { five_levels = s.five_levels; level_lt = s.level_lt })

  handle_policy-IsSound :
      (p : Policy) (c : Controller W) → IsSound c → IsSound (settled (handle_policy p c))
  unfolding handle_policy
  handle_policy-IsSound p c s =
      after_update-IsSound (profile_name p c.profile.source) (store_settings p c)
        (update_interval p.sample_interval_ms c.sampler)
        (record { five_levels = s.five_levels; level_lt = s.level_lt })

  on_ladder : (p : Profile W) (c : Controller W) → p.level_count ≡ 5 → IsOnLadder p c → IsSound c
  on_ladder p c e h =
      let five : c.profile.level_count ≡ 5 = ap (λ q. q.level_count) h.same_profile ∙ e in
      record { five_levels = five; level_lt = omega (arith, five, e, h.level_le) }

  OutcomeOn-IsSound :
      (p : Profile W) (out : Outcome W)
      → p.level_count ≡ 5
      → OutcomeOn p out
      → IsSound (left_by out)
  OutcomeOn-IsSound p (processed c report) e h = on_ladder p c e h
  OutcomeOn-IsSound p (rolled_back c) e h = on_ladder p c e h
  OutcomeOn-IsSound p (rejected c) e h = on_ladder p c e h

  on_event-IsSound : (e : Event W) (c : Controller W) → IsSound c → IsSound (on_event e c)
  unfolding receive_override set_coordination_override start stop
  on_event-IsSound (sampled raw now world) c s =
      OutcomeOn-IsSound c.profile _ s.five_levels
        (process_sample-IsOnLadder raw now world c (omega (arith, s.level_lt)))
  on_event-IsSound (policy_changed p) c s = handle_policy-IsSound p c s
  on_event-IsSound (overridden now o) c s = record {
    five_levels = s.five_levels;
    level_lt = s.level_lt;
  }
  on_event-IsSound (coordinated input) c s = record {
    five_levels = s.five_levels;
    level_lt = s.level_lt;
  }
  on_event-IsSound started c s = ground arith
  on_event-IsSound stopped c s = ground arith

  on_events-IsSound :
      (es : List (Event W)) (c : Controller W) → IsSound c → IsSound (on_events es c)
  on_events-IsSound [] c s = s
  on_events-IsSound (e ∷ es) c s = on_events-IsSound es (on_event e c) (on_event-IsSound e c s)

  new_controller-IsSound :
      (o : ControllerOptions W) (now : ℕ) (c : Controller W)
      → new_controller o now ≡ some c
      → o.profile.level_count ≡ 5
      → level_of_option o.initial_level < 5
      → IsSound c
  unfolding new_controller
  new_controller-IsSound o now c h e l = ground arith

  -- The track of a controller that was made for a profile of five levels, on one of them, stands on a
  -- rung of its present profile at all times: after any row of samples, policies, overrides,
  -- coordination, starts and stops, whatever the executor answers and where calls throw.
  pub new_controller-on_events :
      (o : ControllerOptions W) (now : ℕ) (c : Controller W) (es : List (Event W))
      → new_controller o now ≡ some c
      → o.profile.level_count ≡ 5
      → level_of_option o.initial_level < 5
      → IsSound (on_events es c)
  new_controller-on_events o now c es h e l =
      on_events-IsSound es c (new_controller-IsSound o now c h e l)
