-- ===== src/Profiles/WellFormed.antt =====
-- Every profile that src/client/lib/qos/profiles.js hands out is well formed.
use mediasoup_cpp.Shared.{
  ◌≡◌, refl, none, List, [], ◌∷◌, Text, Number, IsOrdered, All, text_eq, arith, subst, Bool-cases,
  inl, inr,
}
use mediasoup_cpp.Types.{Source, camera, screen_share, Profile}
use mediasoup_cpp.StateMachine.Order.{IsGraded}
use mediasoup_cpp.Planner.Ladder.{IsLadder}
use mediasoup_cpp.Profiles.Defaults.{
  default_thresholds, conservative_thresholds, default_camera_profile, default_screen_share_profile,
  default_audio_profile, conservative_camera_profile,
}
use mediasoup_cpp.Profiles.Resolve.{
  found, registry, lookup_name, resolve_profile_by_name, resolve_profile,
}

-- What the registry finds has what all its entries have.
pub lookup_name_sound :
    {W : Type 0} (P : Profile W → Type 0) (name : Text) (table : List (Text × Profile W))
    (p : Profile W)
    → All (λ entry. P (entry.1)) table
    → lookup_name name table ≡ found p
    → P p
unfolding lookup_name
lookup_name_sound P name [] p ps h = ground arith
lookup_name_sound P name ((key, profile) ∷ rest) p (q, qs) h =
    elim (Bool-cases (text_eq key name)) [
      | inl same ↦ subst P (ground arith) q
      | inr differs ↦ lookup_name_sound P name rest p qs (ground arith)
    ]

module _ {W : Type 0} ⦃num : Number W⦄ where
  -- The rungs are numbered from 0 up to the level count, and the thresholds are graded.
  pub record IsWellFormed (p : Profile W) : Type 0 where
    pub ladder : IsLadder p
    pub graded : IsGraded p.thresholds

  module _ (laws : IsOrdered W) where
    open laws use {decimal_le, decimal_finite}

    default_thresholds-IsGraded : IsGraded {W = W} default_thresholds
    default_thresholds-IsGraded = ground (
      arith,
      decimal_le 3 2 4 2,
      decimal_le 4 2 8 2,
      decimal_le 180 0 220 0,
      decimal_le 220 0 320 0,
      decimal_le 20 0 30 0,
      decimal_le 30 0 60 0,
      decimal_finite 20 0,
      decimal_finite 30 0,
      decimal_finite 60 0,
    )

    conservative_thresholds-IsGraded : IsGraded {W = W} conservative_thresholds
    conservative_thresholds-IsGraded = ground (
      arith,
      decimal_le 3 2 3 2,
      decimal_le 3 2 6 2,
      decimal_le 180 0 180 0,
      decimal_le 180 0 260 0,
      decimal_le 20 0 30 0,
      decimal_le 30 0 60 0,
      decimal_finite 20 0,
      decimal_finite 30 0,
      decimal_finite 60 0,
    )

    default_camera_profile-IsWellFormed : IsWellFormed default_camera_profile
    unfolding default_camera_profile
    default_camera_profile-IsWellFormed = record {
      ladder = omega arith;
      graded = default_thresholds-IsGraded;
    }

    conservative_camera_profile-IsWellFormed : IsWellFormed conservative_camera_profile
    unfolding conservative_camera_profile
    conservative_camera_profile-IsWellFormed = record {
      ladder = omega arith;
      graded = conservative_thresholds-IsGraded;
    }

    default_screen_share_profile-IsWellFormed : IsWellFormed default_screen_share_profile
    unfolding default_screen_share_profile
    default_screen_share_profile-IsWellFormed = record {
      ladder = omega arith;
      graded = default_thresholds-IsGraded;
    }

    default_audio_profile-IsWellFormed : IsWellFormed default_audio_profile
    unfolding default_audio_profile
    default_audio_profile-IsWellFormed = record {
      ladder = omega arith;
      graded = default_thresholds-IsGraded;
    }

    -- The built-in profile of each source is well formed and is for that source.
    pub resolve_profile-IsWellFormed :
        (source : Source)
        → IsWellFormed (resolve_profile {W = W} source none)
          × ((resolve_profile {W = W} source none).source ≡ source)
    unfolding resolve_profile default_camera_profile default_screen_share_profile
        default_audio_profile
    resolve_profile-IsWellFormed camera = (default_camera_profile-IsWellFormed, refl)
    resolve_profile-IsWellFormed screen_share = (default_screen_share_profile-IsWellFormed, refl)
    resolve_profile-IsWellFormed Source.audio = (default_audio_profile-IsWellFormed, refl)

    registry-IsWellFormed :
        (source : Source)
        → All (λ entry. IsWellFormed (entry.1) × (entry.1.source ≡ source)) (registry source)
    unfolding default_camera_profile default_screen_share_profile default_audio_profile
        conservative_camera_profile
    registry-IsWellFormed camera = (
      (default_camera_profile-IsWellFormed, refl),
      ((conservative_camera_profile-IsWellFormed, refl), tt),
    )
    registry-IsWellFormed screen_share = (
      (default_screen_share_profile-IsWellFormed, refl),
      ((default_screen_share_profile-IsWellFormed, refl), tt),
    )
    registry-IsWellFormed Source.audio = (
      (default_audio_profile-IsWellFormed, refl),
      ((default_audio_profile-IsWellFormed, refl), tt),
    )

    -- A profile that the registry has under a name is well formed and is for the source asked for.
    pub resolve_profile_by_name-IsWellFormed :
        (source : Source) (name : Text) (p : Profile W)
        → resolve_profile_by_name source name ≡ found p
        → IsWellFormed p × (p.source ≡ source)
    unfolding resolve_profile_by_name
    resolve_profile_by_name-IsWellFormed source name p h =
        lookup_name_sound (λ q. IsWellFormed q × (q.source ≡ source)) name (registry source) p
          (registry-IsWellFormed source) h
