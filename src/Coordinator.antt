-- ===== src/Coordinator.antt =====
-- src/client/lib/qos/coordinator.js: the decision over the tracks of a peer; and
-- `applyPeerCoordination` of src/client/lib/qos/factory.js, which hands it to the controllers.
-- `localeCompare` belongs to the language's locale data, which is not here: it is a parameter.
mod PeerQuality
mod Priority
pub mod Tracks
mod Examples
mod Coordination
use mediasoup_cpp.Shared.{
  ℕ, ℤ, pos, negsuc, Bool, true, false, not, ◌&&◌, ◌||◌, Option, none, some, List, [], ◌∷◌, map,
  Text, text_eq, any, filter, sort_by, ltb, leb, ◌==◌, if◌then◌else◌,
}
use mediasoup_cpp.Types.{
  Source, camera, screen_share, source_eq, Quality, excellent, good, poor, lost, quality_eq,
}
use mediasoup_cpp.Controller.{CoordinationInput}

-- What the coordinator reads of `controller.getTrackState()`.
pub record PeerTrack : Type 0 where
  pub track_id : Text
  pub source : Source
  pub quality : Quality

pub record Decision : Type 0 where
  pub peer_quality : Quality
  pub prioritized_track_ids : List Text
  pub sacrificial_track_ids : List Text
  pub keep_audio_alive : Bool
  pub prefer_screen_share : Bool
  pub allow_video_recovery : Bool

abbrev pub quality_rank : Quality → ℕ
quality_rank excellent = 3
quality_rank good = 2
quality_rank poor = 1
quality_rank lost = 0

abbrev pub source_priority : Source → ℕ
source_priority Source.audio = 0
source_priority screen_share = 1
source_priority camera = 2

abbrev pub min_quality : Quality → Quality → Quality
min_quality a b = if leb (quality_rank a) (quality_rank b) then a else b

abbrev pub is_source : Source → PeerTrack → Bool
is_source source t = source_eq t.source source

abbrev pub is_positive : ℤ → Bool
is_positive (pos n) = ltb 0 n
is_positive (negsuc n) = false

-- Is the comparison of `prioritizeTracks` positive?
abbrev pub goes_after : (Text → Text → ℤ) → PeerTrack → PeerTrack → Bool
goes_after locale_compare left right =
    if source_priority left.source == source_priority right.source
    then is_positive (locale_compare left.track_id right.track_id)
    else ltb (source_priority right.source) (source_priority left.source)

unfoldable pub prioritize_tracks : (Text → Text → ℤ) → List PeerTrack → List PeerTrack
prioritize_tracks locale_compare tracks = sort_by (goes_after locale_compare) tracks

-- The loop over the tracks after the first.
unfoldable pub worst_quality : Quality → List PeerTrack → Quality
worst_quality q [] = q
worst_quality q (t ∷ ts) = worst_quality (min_quality q t.quality) ts

abbrev pub peer_quality_of : List PeerTrack → Quality
peer_quality_of [] = lost
peer_quality_of (t ∷ ts) = worst_quality t.quality ts

abbrev pub may_sacrifice : Bool → Bool → PeerTrack → Bool
may_sacrifice has_audio has_screen_share t =
    if is_source Source.audio t
    then false
    else if has_screen_share
    then is_source camera t
    else has_audio || is_source camera t

-- `sourcePriority(right.source) - sourcePriority(left.source)` is positive.
abbrev pub is_less_dispensable : PeerTrack → PeerTrack → Bool
is_less_dispensable left right = ltb (source_priority left.source) (source_priority right.source)

abbrev pub sacrificial_tracks : List PeerTrack → List PeerTrack
sacrificial_tracks prioritized = sort_by is_less_dispensable (
    filter
      (may_sacrifice (any (is_source Source.audio) prioritized)
        (any (is_source screen_share) prioritized))
      prioritized)

abbrev pub track_ids : List PeerTrack → List Text
track_ids [] = []
track_ids (t ∷ ts) = t.track_id ∷ track_ids ts

abbrev pub is_poor_audio : PeerTrack → Bool
is_poor_audio t = is_source Source.audio t && quality_eq t.quality poor

unfoldable pub build_peer_qos_decision : (Text → Text → ℤ) → List PeerTrack → Decision
unfolding prioritize_tracks worst_quality
build_peer_qos_decision locale_compare [] = record {
  peer_quality = lost;
  prioritized_track_ids = [];
  sacrificial_track_ids = [];
  keep_audio_alive = false;
  prefer_screen_share = false;
  allow_video_recovery = false;
}
build_peer_qos_decision locale_compare (t ∷ ts) =
    let prioritized = prioritize_tracks locale_compare (t ∷ ts) in
    let peer_quality = peer_quality_of prioritized in
    record {
      peer_quality = peer_quality;
      prioritized_track_ids = track_ids prioritized;
      sacrificial_track_ids = track_ids (sacrificial_tracks prioritized);
      keep_audio_alive = any (is_source Source.audio) prioritized;
      prefer_screen_share = any (is_source screen_share) prioritized;
      allow_video_recovery =
          not (quality_eq peer_quality poor)
          && not (quality_eq peer_quality lost)
          && not (any is_poor_audio prioritized);
    }

-- The map of the tracks: `Map.set` keeps the place of a key that is there.
unfoldable pub upsert_track : PeerTrack → List PeerTrack → List PeerTrack
upsert_track t [] = t ∷ []
upsert_track t (u ∷ us) = if text_eq u.track_id t.track_id then t ∷ us else u ∷ upsert_track t us

unfoldable pub remove_track : Text → List PeerTrack → List PeerTrack
remove_track id tracks = filter (λ t. not (text_eq t.track_id id)) tracks

abbrev pub is_low : Quality → Bool
is_low q = quality_eq q poor || quality_eq q lost

-- One round of `applyPeerCoordination`: what a track's controller is given.
unfoldable pub coordination_for : Decision → PeerTrack → Option CoordinationInput
coordination_for d t =
    let is_sacrificial = any (text_eq t.track_id) d.sacrificial_track_ids in
    let is_camera = is_source camera t in
    let disable =
      (not (is_source Source.audio t) && not d.allow_video_recovery)
      || (is_camera && is_sacrificial && d.prefer_screen_share) in
    let force = is_camera && is_sacrificial && is_low d.peer_quality in
    if disable || force
    then some (record {
      max_level_clamp = none;
      disable_recovery = disable;
      force_audio_only = force;
      pause_upstream = false;
      resume_upstream = false;
    })
    else none
