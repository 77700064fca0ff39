-- ===== src/Profiles/Resolve.antt =====
-- The lookups of src/client/lib/qos/profiles.js: by name, and with parts overridden.
use mediasoup_cpp.Shared.{
  ℕ, Option, none, some, or_else, List, [], ◌∷◌, Text, codes, text_eq, any, Number, if◌then◌else◌,
}
use mediasoup_cpp.Types.{Source, camera, screen_share, Thresholds, LadderStep, Profile}
use mediasoup_cpp.Profiles.Defaults.{
  default_camera_profile, default_screen_share_profile, default_audio_profile,
  conservative_camera_profile,
}

-- What a registry of objects answers for a name: nothing, a profile, or a function inherited from
-- the language's `Object.prototype`, on which `cloneProfile` throws.
pub data Lookup (W : Type 0) : Type 0 where
  absent : Lookup W
  found : Profile W → Lookup W
  thrown : Lookup W

abbrev pub object_members : List Text
object_members =
    codes "constructor"
    ∷ codes "hasOwnProperty"
    ∷ codes "isPrototypeOf"
    ∷ codes "propertyIsEnumerable"
    ∷ codes "toLocaleString"
    ∷ codes "toString"
    ∷ codes "valueOf"
    ∷ codes "__proto__"
    ∷ codes "__defineGetter__"
    ∷ codes "__defineSetter__"
    ∷ codes "__lookupGetter__"
    ∷ codes "__lookupSetter__"
    ∷ []

module _ {W : Type 0} where
  unfoldable pub lookup_name : Text → List (Text × Profile W) → Lookup W
  lookup_name name [] = if any (text_eq name) object_members then thrown else absent
  lookup_name name ((key, profile) ∷ rest) =
      if text_eq key name then found profile else lookup_name name rest

module _ {W : Type 0} ⦃num : Number W⦄ where
  -- The two names that the registry has for a source.
  abbrev pub registry : Source → List (Text × Profile W)
  registry camera =
      (codes "default", default_camera_profile)
      ∷ (codes "conservative", conservative_camera_profile)
      ∷ []
  registry screen_share =
      (codes "default", default_screen_share_profile)
      ∷ (codes "clarity-first", default_screen_share_profile)
      ∷ []
  registry Source.audio =
      (codes "default", default_audio_profile) ∷ (codes "speech-first", default_audio_profile) ∷ []

  unfoldable pub resolve_profile_by_name : Source → Text → Lookup W
  unfolding lookup_name
  resolve_profile_by_name source name = lookup_name name (registry source)

-- `Partial<QosThresholds>` and a partial profile: `none` is a missing key.
pub record PartialThresholds (W : Type 0) : Type 0 where
  pub warn_loss_rate : Option W
  pub congested_loss_rate : Option W
  pub warn_rtt_ms : Option W
  pub congested_rtt_ms : Option W
  pub warn_jitter_ms : Option W
  pub congested_jitter_ms : Option W
  pub warn_bitrate_utilization : Option W
  pub congested_bitrate_utilization : Option W
  pub stable_loss_rate : Option W
  pub stable_rtt_ms : Option W
  pub stable_jitter_ms : Option W
  pub stable_bitrate_utilization : Option W

pub record PartialProfile (W : Type 0) : Type 0 where
  pub name : Option Text
  pub source : Option Source
  pub level_count : Option ℕ
  pub sample_interval_ms : Option ℕ
  pub snapshot_interval_ms : Option ℕ
  pub recovery_cooldown_ms : Option ℕ
  pub thresholds : Option (PartialThresholds W)
  pub ladder : Option (List (LadderStep W))

module _ {W : Type 0} where
  -- `x ?? d` for a value that is itself optional.
  abbrev or_keep : Option W → Option W → Option W
  or_keep none d = d
  or_keep (some x) d = some x

  abbrev pub override_thresholds : Thresholds W → Option (PartialThresholds W) → Thresholds W
  override_thresholds t none = t
  override_thresholds t (some o) = record {
    warn_loss_rate = or_else o.warn_loss_rate t.warn_loss_rate;
    congested_loss_rate = or_else o.congested_loss_rate t.congested_loss_rate;
    warn_rtt_ms = or_else o.warn_rtt_ms t.warn_rtt_ms;
    congested_rtt_ms = or_else o.congested_rtt_ms t.congested_rtt_ms;
    warn_jitter_ms = or_keep o.warn_jitter_ms t.warn_jitter_ms;
    congested_jitter_ms = or_keep o.congested_jitter_ms t.congested_jitter_ms;
    warn_bitrate_utilization = or_else o.warn_bitrate_utilization t.warn_bitrate_utilization;
    congested_bitrate_utilization =
        or_else o.congested_bitrate_utilization t.congested_bitrate_utilization;
    stable_loss_rate = or_else o.stable_loss_rate t.stable_loss_rate;
    stable_rtt_ms = or_else o.stable_rtt_ms t.stable_rtt_ms;
    stable_jitter_ms = or_keep o.stable_jitter_ms t.stable_jitter_ms;
    stable_bitrate_utilization = or_else o.stable_bitrate_utilization t.stable_bitrate_utilization;
  }

  abbrev pub override_profile : Profile W → Option (PartialProfile W) → Profile W
  override_profile p none = p
  override_profile p (some o) = record {
    name = or_else o.name p.name;
    source = or_else o.source p.source;
    level_count = or_else o.level_count p.level_count;
    sample_interval_ms = or_else o.sample_interval_ms p.sample_interval_ms;
    snapshot_interval_ms = or_else o.snapshot_interval_ms p.snapshot_interval_ms;
    recovery_cooldown_ms = or_else o.recovery_cooldown_ms p.recovery_cooldown_ms;
    thresholds = override_thresholds p.thresholds o.thresholds;
    ladder = or_else o.ladder p.ladder;
  }

module _ {W : Type 0} ⦃num : Number W⦄ where
  unfoldable pub base_profile : Source → Profile W
  base_profile camera = default_camera_profile
  base_profile screen_share = default_screen_share_profile
  base_profile Source.audio = default_audio_profile

  unfoldable pub resolve_profile : Source → Option (PartialProfile W) → Profile W
  unfolding base_profile
  resolve_profile source override = override_profile (base_profile source) override
