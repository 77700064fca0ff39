-- ===== src/Controller/Forcing.antt =====
-- How many changes of the audio-only mode `filterActions` of src/client/lib/qos/controller.js lets through
-- and adds.
use mediasoup_cpp.Shared.{
  ℕ, ◌+◌, ◌≡◌, Bool, true, false, not, ◌&&◌, ◌||◌, Option, List, any, count, ap, ◌∙◌, ltb, ◌==◌,
  arith,
}
use mediasoup_cpp.Types.{Source, camera, source_eq, Action, is_enter, is_exit}
use mediasoup_cpp.Overrides.{Override}
use mediasoup_cpp.Planner.{resolve_max_level}
use mediasoup_cpp.Controller.State.{Controller}
use mediasoup_cpp.Controller.Filter.{
  filter_actions, drop_forbidden, override_flag, coordination_flag,
}
use mediasoup_cpp.Controller.Counts.{
  once, only_if, count-drop_forbidden-enter, count-drop_forbidden-exit, any-count, put_all,
  count-put_all, count-put_last,
}

change_test :
    (source : Source) (allowed mode : Bool)
    → (mode && source_eq source camera && allowed)
      ≡ ((elim source [ camera ↦ allowed | _ ↦ false ]) && mode)
change_test source allowed mode = ground arith

only_if-once :
    (test p f k : Bool)
    → once (k && test) + (once (f && test) + once (p && test))
      ≡ only_if test (once p + once f + once k)
only_if-once true p f k = ground arith
only_if-once false p f k = ground arith

resume_test :
    (can asked paused : Bool)
    → once (asked && can && not paused) ≡ only_if can (once (asked && not paused))
resume_test can asked paused = ground arith

leave_test :
    (can may below f k paused found unasked : Bool)
    → can ≡ may
    → found ≡ not unasked
    → (can && below && not (f || k) && not paused && not found)
      ≡ (may && below && not f && not k && not paused && unasked)
leave_test can may below f k paused found unasked h e = ground arith

module _ {W : Type 0} where
  -- A camera may change its mode where the policy allows it both.
  abbrev pub may_change : Controller W → Bool
  may_change c = elim c.profile.source [
    | camera ↦ c.allow_audio_only && c.allow_video_pause
    | _ ↦ false
  ]

  -- What the overrides and the coordinator ask of a publisher.
  abbrev pub asked_to_pause : Controller W → Option Override → Bool
  asked_to_pause c o =
      override_flag (λ k. k.pause_upstream) o
      || coordination_flag (λ k. k.pause_upstream) c.coordination_override

  abbrev pub asked_to_resume : Controller W → Option Override → Bool
  asked_to_resume c o =
      override_flag (λ k. k.resume_upstream) o
      || coordination_flag (λ k. k.resume_upstream) c.coordination_override

  -- The ways over to audio only that are planned, and that a pause and the two forces ask for.
  abbrev pub enters : Controller W → Option Override → List (Action W) → ℕ
  enters c o actions =
      only_if (c.allow_audio_only && c.allow_video_pause) (count is_enter actions)
      + only_if (may_change c && not c.in_audio_only_mode) (
          once (asked_to_pause c o)
          + once (override_flag (λ k. k.force_audio_only) o)
          + once (coordination_flag (λ k. k.force_audio_only) c.coordination_override))

  -- The ways back that are planned, and that a resume asks for where nothing pauses.
  abbrev pub exits_asked : Controller W → Option Override → List (Action W) → ℕ
  exits_asked c o actions =
      only_if (c.allow_audio_only && c.allow_video_pause) (count is_exit actions)
      + only_if (may_change c && c.in_audio_only_mode)
          (once (asked_to_resume c o && not (asked_to_pause c o)))

  -- A way back where none is asked for, and nothing keeps the camera on its audio.
  abbrev pub leaves : Controller W → Option Override → List (Action W) → Bool
  leaves c o actions =
      may_change c
      && c.in_audio_only_mode
      && ltb c.current_level (resolve_max_level c.profile)
      && not (override_flag (λ k. k.force_audio_only) o)
      && not (coordination_flag (λ k. k.force_audio_only) c.coordination_override)
      && not (asked_to_pause c o)
      && exits_asked c o actions == 0

  -- Of the plan, the changes of mode stay if the policy allows them. A way over to audio only is added for
  -- a pause and for each force, if the publisher is a camera that sends video and the policy allows it. A
  -- way back is added if one is asked for and nothing pauses, and, where there is none yet, if nothing
  -- forces or pauses and the level is not the last of the profile: for a camera in audio only, if the
  -- policy allows it. No other change of mode is let through.
  pub count-filter_actions :
      (c : Controller W) (o : Option Override) (actions : List (Action W))
      → (count is_enter (filter_actions c o actions) ≡ enters c o actions)
        × (count is_exit (filter_actions c o actions)
            ≡ exits_asked c o actions + once (leaves c o actions))
  unfolding filter_actions
  count-filter_actions c o actions =
      let allowed : Bool = c.allow_audio_only && c.allow_video_pause in
      let dropped = drop_forbidden allowed actions in
      let can = λ (mode : Bool). mode && source_eq c.profile.source camera && allowed in
      let enter : Bool = can (not c.in_audio_only_mode) in
      let exit : Bool = can c.in_audio_only_mode in
      let paused : Bool = asked_to_pause c o in
      let f : Bool = override_flag (λ k. k.force_audio_only) o in
      let k : Bool = coordination_flag (λ k. k.force_audio_only) c.coordination_override in
      let resumed : Bool = asked_to_resume c o && exit && not paused in
      let put =
        put_all (paused && enter) resumed (f && enter) (k && enter) c.current_level dropped in
      let below : Bool = ltb c.current_level (resolve_max_level c.profile) in
      let leaving : Bool = exit && below && not (f || k) && not paused && not (any is_exit put) in
      let counts =
        count-put_all (paused && enter) resumed (f && enter) (k && enter) c.current_level dropped in
      let last = count-put_last leaving c.current_level put in
      let exit_may = change_test c.profile.source allowed c.in_audio_only_mode in
      let asked = λ (t : Bool). only_if t (once (asked_to_resume c o && not paused)) in
      let exits : count is_exit put ≡ exits_asked c o actions = omega (
        arith,
        counts.1,
        count-drop_forbidden-exit allowed actions,
        resume_test exit (asked_to_resume c o) paused,
        ap asked exit_may,
      ) in
      (
        omega (
          arith,
          last.0,
          counts.0,
          count-drop_forbidden-enter allowed actions,
          only_if-once enter paused f k,
          ap (λ t. only_if t (once paused + once f + once k))
              (change_test c.profile.source allowed (not c.in_audio_only_mode)),
        ),
        omega (
          arith,
          last.1,
          exits,
          ap once (
              leave_test exit (may_change c && c.in_audio_only_mode) below f k paused
                (any is_exit put) (exits_asked c o actions == 0) exit_may
                (any-count is_exit put ∙ ap (λ n. not (n == 0)) exits)),
        ),
      )
