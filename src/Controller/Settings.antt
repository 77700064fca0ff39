-- ===== src/Controller/Settings.antt =====
-- What outsiders change of a controller of src/client/lib/qos/controller.js: coordination, policies,
-- overrides, start and stop.
use mediasoup_cpp.Shared.{
  ℕ, ℤ, non_negative, Bool, true, false, not, ◌&&◌, Option, none, some, Text, text_eq, is_empty,
  Number, if◌then◌else◌,
}
use mediasoup_cpp.Types.{Source, camera, screen_share}
use mediasoup_cpp.Profiles.{Lookup, absent, found, thrown, resolve_profile_by_name}
use mediasoup_cpp.Overrides.{Override, handle_override}
use mediasoup_cpp.Sampler
use mediasoup_cpp.Sampler.{Sampler, update_interval}
use mediasoup_cpp.Controller.State.{Controller, Coordination}

-- The coordinator's override as it is given.
pub record CoordinationInput : Type 0 where
  pub max_level_clamp : Option ℤ
  pub disable_recovery : Bool
  pub force_audio_only : Bool
  pub pause_upstream : Bool
  pub resume_upstream : Bool

abbrev clamp_option : Option ℤ → Option ℕ
clamp_option none = none
clamp_option (some clamp) = some (non_negative clamp)

abbrev is_none : Option ℤ → Bool
is_none none = true
is_none (some clamp) = false

abbrev is_void : CoordinationInput → Bool
is_void i =
    is_none i.max_level_clamp
    && not i.disable_recovery
    && not i.force_audio_only
    && not i.pause_upstream
    && not i.resume_upstream

abbrev pub normalize : Option CoordinationInput → Option Coordination
normalize none = none
normalize (some i) =
    if is_void i
    then none
    else some (record {
      max_level_clamp = clamp_option i.max_level_clamp;
      disable_recovery = i.disable_recovery;
      force_audio_only = i.force_audio_only;
      pause_upstream = i.pause_upstream;
      resume_upstream = i.resume_upstream;
    })

-- A policy of the server: the names of profiles are one for each source.
pub record Policy : Type 0 where
  pub sample_interval_ms : ℕ
  pub snapshot_interval_ms : ℕ
  pub allow_audio_only : Bool
  pub allow_video_pause : Bool
  pub camera_profile : Text
  pub screen_share_profile : Text
  pub audio_profile : Text

abbrev pub profile_name : Policy → Source → Text
profile_name p camera = p.camera_profile
profile_name p screen_share = p.screen_share_profile
profile_name p Source.audio = p.audio_profile

-- What a call leaves behind, and whether it threw.
pub data Settled (S : Type 0) : Type 0 where
  completed : S → Settled S
  failed_at : S → Settled S

module _ {W : Type 0} where
  unfoldable pub set_coordination_override : Option CoordinationInput → Controller W → Controller W
  set_coordination_override input c = record c { coordination_override = normalize input }

  unfoldable pub start : Controller W → Controller W
  start c = if c.running then c else record c { running = true; sampler = Sampler.start c.sampler }

  unfoldable pub stop : Controller W → Controller W
  stop c = if c.running then record c { running = false; sampler = Sampler.stop c.sampler } else c

  -- `handleOverride`, at the time `now`.
  unfoldable pub receive_override : ℕ → Override → Controller W → Controller W
  receive_override now o c = record c {
    active_overrides = handle_override now c.track_id o c.active_overrides;
  }

  abbrev pub store_settings : Policy → Controller W → Controller W
  store_settings p c = record c {
    sample_interval_ms = p.sample_interval_ms;
    snapshot_interval_ms = p.snapshot_interval_ms;
    allow_audio_only = p.allow_audio_only;
    allow_video_pause = p.allow_video_pause;
  }

  abbrev pub use_lookup : Controller W → Lookup W → Settled (Controller W)
  use_lookup c absent = completed c
  use_lookup c (found p) = completed (record c { profile = p })
  use_lookup c thrown = failed_at c

module _ {W : Type 0} ⦃num : Number W⦄ where
  abbrev pub choose_profile : Text → Controller W → Settled (Controller W)
  choose_profile name c =
      if not (is_empty name) && not (text_eq name c.profile.name)
      then use_lookup c (resolve_profile_by_name c.profile.source name)
      else completed c

  abbrev pub after_update : Text → Controller W → Option Sampler → Settled (Controller W)
  after_update name c none = failed_at c
  after_update name c (some sampler) = choose_profile name (record c { sampler = sampler })

  -- `handlePolicy`: the settings are stored first, and the sampler may refuse its interval.
  unfoldable pub handle_policy : Policy → Controller W → Settled (Controller W)
  handle_policy p c =
      after_update (profile_name p c.profile.source) (store_settings p c)
        (update_interval p.sample_interval_ms c.sampler)
