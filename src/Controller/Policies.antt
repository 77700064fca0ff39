-- ===== src/Controller/Policies.antt =====
-- Policies of the server: `handlePolicy` of src/client/lib/qos/controller.js, and what it leaves where
-- it throws.
use mediasoup_cpp.Shared.{
  ℕ, ◌<◌, ◌≡◌, refl, Bool, true, false, not, ◌&&◌, if◌then◌else◌, ap, subst, Option, none, some,
  Text, All, arith, Number, text_eq, is_empty,
}
use mediasoup_cpp.Types.{Source, camera, screen_share, Profile}
use mediasoup_cpp.Profiles.{
  Lookup, absent, found, thrown, registry, resolve_profile_by_name, default_camera_profile,
  default_screen_share_profile, default_audio_profile, conservative_camera_profile,
}
use mediasoup_cpp.Profiles.WellFormed.{lookup_name_sound}
use mediasoup_cpp.Sampler.{Sampler, update_interval, start, stop}
use mediasoup_cpp.Controller.State.{Controller}
use mediasoup_cpp.Controller.Settings.{
  Policy, Settled, completed, failed_at, handle_policy, use_lookup, choose_profile, after_update,
  profile_name, store_settings,
}

module _ {W : Type 0} where
  -- All profiles of the registry have five levels.
  abbrev pub Fits : Source → Profile W → Type 0
  Fits source p = (p.level_count ≡ 5) × (p.source ≡ source)

  -- The controller does as the policy says.
  pub record Follows (p : Policy) (c : Controller W) : Type 0 where
    pub same_interval : c.sample_interval_ms ≡ p.sample_interval_ms
    pub same_snapshot_interval : c.snapshot_interval_ms ≡ p.snapshot_interval_ms
    pub same_audio_only : c.allow_audio_only ≡ p.allow_audio_only
    pub same_video_pause : c.allow_video_pause ≡ p.allow_video_pause

  use_lookup-Follows :
      (p : Policy) (c : Controller W) (q : Profile W)
      → Follows p c
      → Follows p (record c { profile = q })
  use_lookup-Follows p c q f = record {
    same_interval = f.same_interval;
    same_snapshot_interval = f.same_snapshot_interval;
    same_audio_only = f.same_audio_only;
    same_video_pause = f.same_video_pause;
  }

  -- What `handlePolicy` leaves, whether it returns or throws.
  abbrev pub PolicyOutcome : Policy → Controller W → Settled (Controller W) → Type 0
  PolicyOutcome p c (completed next) =
      Follows p next
      × (next.sampler.interval_ms ≡ p.sample_interval_ms)
      × (next.profile.source ≡ c.profile.source)
      × (next.current_level ≡ c.current_level)
  PolicyOutcome p c (failed_at next) =
      Follows p next
      × (next.profile ≡ c.profile)
      × (p.sample_interval_ms ≡ 0 → next.sampler ≡ c.sampler)

update_interval-interval_ms :
    (interval : ℕ) (s next : Sampler)
    → update_interval interval s ≡ some next
    → (next.interval_ms ≡ interval) × (0 < interval)
unfolding update_interval start stop
update_interval-interval_ms interval s next h = ground arith

registry-Fits :
    (W : Type 0) ⦃num : Number W⦄ (source : Source)
    → All (λ entry. Fits source (entry.1)) (registry {W = W} source)
unfolding default_camera_profile default_screen_share_profile default_audio_profile
    conservative_camera_profile
registry-Fits W camera = ((refl, refl), ((refl, refl), tt))
registry-Fits W screen_share = ((refl, refl), ((refl, refl), tt))
registry-Fits W Source.audio = ((refl, refl), ((refl, refl), tt))

module _ {W : Type 0} ⦃num : Number W⦄ where
  pub resolve_profile_by_name-Fits :
      (source : Source) (name : Text) (p : Profile W)
      → resolve_profile_by_name source name ≡ found p
      → Fits source p
  unfolding resolve_profile_by_name
  resolve_profile_by_name-Fits source name p h =
      lookup_name_sound (Fits source) name (registry source) p (registry-Fits W source) h

  if-PolicyOutcome :
      (p : Policy) (c : Controller W) (test : Bool) (x y : Settled (Controller W))
      → PolicyOutcome p c x
      → PolicyOutcome p c y
      → PolicyOutcome p c (if test then x else y)
  if-PolicyOutcome p c true x y h k = h
  if-PolicyOutcome p c false x y h k = k

  use_lookup-PolicyOutcome :
      (p : Policy) (c next : Controller W) (l : Lookup W)
      → ((q : Profile W) → l ≡ found q → Fits c.profile.source q)
      → Follows p next
      → next.sampler.interval_ms ≡ p.sample_interval_ms
      → 0 < p.sample_interval_ms
      → next.profile ≡ c.profile
      → next.current_level ≡ c.current_level
      → PolicyOutcome p c (use_lookup next l)
  use_lookup-PolicyOutcome p c next absent h f i positive e k = (f, i, ap (λ q. q.source) e, k)
  use_lookup-PolicyOutcome p c next (found q) h f i positive e k =
      (use_lookup-Follows p next q f, i, (h q refl).1, k)
  use_lookup-PolicyOutcome p c next thrown h f i positive e k =
      (f, e, λ zero_interval. absurd (omega arith))

  choose_profile-PolicyOutcome :
      (p : Policy) (name : Text) (c next : Controller W)
      → Follows p next
      → next.sampler.interval_ms ≡ p.sample_interval_ms
      → 0 < p.sample_interval_ms
      → next.profile ≡ c.profile
      → next.current_level ≡ c.current_level
      → PolicyOutcome p c (choose_profile name next)
  choose_profile-PolicyOutcome p name c next f i positive e k =
      if-PolicyOutcome p c (not (is_empty name) && not (text_eq name next.profile.name)) _ _
        (use_lookup-PolicyOutcome p c next (resolve_profile_by_name next.profile.source name)
          (λ q h.
            subst (λ r. Fits r.source q) e
              (resolve_profile_by_name-Fits next.profile.source name q h))
          f i positive e k)
        (f, i, ap (λ q. q.source) e, k)

  after_update-PolicyOutcome :
      (p : Policy) (c : Controller W) (updated : Option Sampler)
      → update_interval p.sample_interval_ms c.sampler ≡ updated
      → PolicyOutcome p c
          (after_update (profile_name p c.profile.source) (store_settings p c) updated)
  after_update-PolicyOutcome p c none e = (
    record {
      same_interval = refl;
      same_snapshot_interval = refl;
      same_audio_only = refl;
      same_video_pause = refl;
    },
    refl,
    λ zero_interval. refl,
  )
  after_update-PolicyOutcome p c (some s) e =
      let (same, positive) = update_interval-interval_ms p.sample_interval_ms c.sampler s e in
      choose_profile-PolicyOutcome p _ c (record (store_settings p c) { sampler = s })
        (record {
          same_interval = refl;
          same_snapshot_interval = refl;
          same_audio_only = refl;
          same_video_pause = refl;
        })
        same positive refl refl

  -- A policy that is carried out reaches the controller and its sampler, and keeps the source and the
  -- level of the track; one at which the call throws has reached the settings of the controller, but
  -- not its profile, and its sampler neither if the interval is 0.
  pub handle_policy-PolicyOutcome :
      (p : Policy) (c : Controller W) → PolicyOutcome p c (handle_policy p c)
  unfolding handle_policy
  handle_policy-PolicyOutcome p c = after_update-PolicyOutcome p c _ refl
