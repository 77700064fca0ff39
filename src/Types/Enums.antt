-- ===== src/Types/Enums.antt =====
-- The string unions of src/client/lib/qos/types.d.ts.
use mathlib.Core.Bool.{Bool, true}
use mathlib.Core.Path.{◌≡◌}
use native.Mathlib.Omega.{arith}
use mediasoup_cpp.Shared.{ℕ, ◌==◌}

pub data Source : Type 0 where
  camera screen_share audio : Source

pub data TrackKind : Type 0 where
  audio video : TrackKind

pub data QosState : Type 0 where
  stable early_warning congested recovering : QosState

pub data Quality : Type 0 where
  excellent good poor lost : Quality

pub data Reason : Type 0 where
  network cpu manual server_override unknown : Reason

-- `none` of the source is `not_limited`.
pub data LimitationReason : Type 0 where
  bandwidth cpu other not_limited unknown : LimitationReason

pub data PeerMode : Type 0 where
  audio_only audio_video video_only : PeerMode

-- `a === b` on these unions, by the position of each member.
abbrev source_index : Source → ℕ
source_index camera = 0
source_index screen_share = 1
source_index Source.audio = 2

abbrev state_index : QosState → ℕ
state_index stable = 0
state_index early_warning = 1
state_index congested = 2
state_index recovering = 3

abbrev quality_index : Quality → ℕ
quality_index excellent = 0
quality_index good = 1
quality_index poor = 2
quality_index lost = 3

abbrev limitation_index : LimitationReason → ℕ
limitation_index bandwidth = 0
limitation_index LimitationReason.cpu = 1
limitation_index other = 2
limitation_index not_limited = 3
limitation_index LimitationReason.unknown = 4

abbrev pub source_eq : Source → Source → Bool
source_eq a b = source_index a == source_index b

abbrev pub state_eq : QosState → QosState → Bool
state_eq a b = state_index a == state_index b

abbrev pub quality_eq : Quality → Quality → Bool
quality_eq a b = quality_index a == quality_index b

abbrev pub limitation_eq : LimitationReason → LimitationReason → Bool
limitation_eq a b = limitation_index a == limitation_index b

pub source_eq_sound : (a b : Source) → source_eq a b ≡ true → a ≡ b
source_eq_sound a b h = ground arith

pub state_eq_sound : (a b : QosState) → state_eq a b ≡ true → a ≡ b
state_eq_sound a b h = ground arith
