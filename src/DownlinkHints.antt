-- ===== src/DownlinkHints.antt =====
-- src/client/lib/qos/downlinkHints.js: what the user interface knows of each consumer. The warnings on
-- the console about unknown consumers are left out.
mod Told
mod Examples
use mediasoup_cpp.Shared.{
  ℕ, Bool, true, false, not, Option, none, some, or_else, List, [], ◌∷◌, Text, value_at, set_at,
  delete_at, update_at, Number, if◌then◌else◌,
}
use mediasoup_cpp.Types.{TrackKind}

-- A hint; `kind` is `none` where it is neither of the two, which only a caller of the sampler can bring
-- about.
pub record Hint (W : Type 0) : Type 0 where
  pub producer_id : Text
  pub kind : Option TrackKind
  pub ssrc : Option W
  pub mid : Option Text
  pub track_identifier : Option Text
  pub visible : Bool
  pub pinned : Bool
  pub active_speaker : Bool
  pub is_screen_share : Bool
  pub target_width : W
  pub target_height : W

-- A hint as it is given: each field may be missing, or of another type, which is `none` too.
pub record HintInput (W : Type 0) : Type 0 where
  pub producer_id : Option Text
  pub kind : Option TrackKind
  pub ssrc : Option W
  pub mid : Option Text
  pub track_identifier : Option Text
  pub visible : Option Bool
  pub pinned : Option Bool
  pub active_speaker : Option Bool
  pub is_screen_share : Option Bool
  pub target_width : Option W
  pub target_height : Option W

abbrev pub Hints : Type 0 → Type 0
Hints W = List (Text × Hint W)

module _ {W : Type 0} ⦃num : Number W⦄ where
  open num use {decimal, is_finite, le}

  -- `x || 0`: what is missing, and NaN, which is not `<=` itself.
  abbrev pub or_zero : Option W → W
  or_zero none = decimal 0 0
  or_zero (some x) = if le x x then x else decimal 0 0

  abbrev only_finite : Option W → Option W
  only_finite none = none
  only_finite (some x) = if is_finite x then some x else none

  -- The object that `set` stores.
  unfoldable pub hint_of : HintInput W → Hint W
  hint_of i = record {
    producer_id = or_else i.producer_id [];
    kind = some (or_else i.kind TrackKind.video);
    ssrc = only_finite i.ssrc;
    mid = i.mid;
    track_identifier = i.track_identifier;
    visible = or_else i.visible true;
    pinned = or_else i.pinned false;
    active_speaker = or_else i.active_speaker false;
    is_screen_share = or_else i.is_screen_share false;
    target_width = or_zero i.target_width;
    target_height = or_zero i.target_height;
  }

  unfoldable pub set : Text → HintInput W → Hints W → Hints W
  unfolding hint_of set_at
  set id i hints = set_at id (hint_of i) hints

  abbrev pub resize : Option W → Option W → Hint W → Hint W
  resize width height h = record h { target_width = or_zero width; target_height = or_zero height }

  unfoldable pub set_target_size : Text → Option W → Option W → Hints W → Hints W
  unfolding update_at
  set_target_size id width height hints = update_at id (resize width height) hints

module _ {W : Type 0} where
  unfoldable pub remove : Text → Hints W → Hints W
  unfolding delete_at
  remove id hints = delete_at id hints

  unfoldable pub set_visible : Text → Bool → Hints W → Hints W
  unfolding update_at
  set_visible id visible hints = update_at id (λ h. record h { visible = visible }) hints

  unfoldable pub set_pinned : Text → Bool → Hints W → Hints W
  unfolding update_at
  set_pinned id pinned hints = update_at id (λ h. record h { pinned = pinned }) hints

  unfoldable pub set_active_speaker : Text → Bool → Hints W → Hints W
  unfolding update_at
  set_active_speaker id active hints =
      update_at id (λ h. record h { active_speaker = active }) hints
