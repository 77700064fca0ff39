-- ===== src/Profiles/Examples.antt =====
-- Tests of src/client/lib/qos/profiles.js and its theorems at concrete names.
use mediasoup_cpp.Shared.{◌≡◌, refl, codes, Milli, milli_number, Milli-IsOrdered}
use mediasoup_cpp.Types.{camera}
use mediasoup_cpp.Profiles.{absent, thrown, resolve_profile_by_name, conservative_camera_profile}
use mediasoup_cpp.Profiles.WellFormed.{IsWellFormed, resolve_profile_by_name-IsWellFormed}

-- A name that the registry does not have, and one that its prototype has.
unknown_name : resolve_profile_by_name {W = Milli} camera (codes "clarity-first") ≡ absent
unfolding resolve_profile_by_name
unknown_name = refl

inherited_name : resolve_profile_by_name {W = Milli} camera (codes "constructor") ≡ thrown
unfolding resolve_profile_by_name
inherited_name = refl

resolve_profile_by_name-IsWellFormed_example :
    IsWellFormed {W = Milli} conservative_camera_profile
    × ((conservative_camera_profile {W = Milli}).source ≡ camera)
unfolding resolve_profile_by_name
resolve_profile_by_name-IsWellFormed_example =
    resolve_profile_by_name-IsWellFormed Milli-IsOrdered camera (codes "conservative")
      conservative_camera_profile refl
