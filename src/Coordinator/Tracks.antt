-- ===== src/Coordinator/Tracks.antt =====
-- The tracks that a coordinator of src/client/lib/qos/coordinator.js knows, as a function of their
-- identifiers.
use mediasoup_cpp.Shared.{
  ◌≡◌, refl, ap, ◌∙◌, true, Option, none, some, List, [], ◌∷◌, Text, text_eq, text_eq_refl,
  text_eq_sound, filter, find, arith, if◌then◌else◌,
}
use mediasoup_cpp.Coordinator.{PeerTrack, upsert_track, remove_track}

pub data Event : Type 0 where
  upserted : PeerTrack → Event
  removed : Text → Event
  cleared : Event

abbrev pub on_event : Event → List PeerTrack → List PeerTrack
on_event (upserted t) tracks = upsert_track t tracks
on_event (removed id) tracks = remove_track id tracks
on_event cleared tracks = []

abbrev pub on_events : List Event → List PeerTrack → List PeerTrack
on_events [] tracks = tracks
on_events (e ∷ es) tracks = on_events es (on_event e tracks)

-- What is known of an identifier, and how the events change it.
abbrev pub track_of : Text → List PeerTrack → Option PeerTrack
track_of id tracks = find (λ t. text_eq t.track_id id) tracks

abbrev pub told : Event → Text → Option PeerTrack → Option PeerTrack
told (upserted t) id known = if text_eq t.track_id id then some t else known
told (removed k) id known = if text_eq k id then none else known
told cleared id known = none

abbrev pub told_all : List Event → Text → Option PeerTrack → Option PeerTrack
told_all [] id known = known
told_all (e ∷ es) id known = told_all es id (told e id known)

text_eq_joins : (a b c : Text) → text_eq a c ≡ true → text_eq b c ≡ true → text_eq a b ≡ true
text_eq_joins a b c h k = rw (text_eq_sound a c h) (rw (text_eq_sound b c k) (text_eq_refl c))

pub track_of-upsert_track :
    (id : Text) (t : PeerTrack) (tracks : List PeerTrack)
    → track_of id (upsert_track t tracks) ≡ told (upserted t) id (track_of id tracks)
unfolding upsert_track find
track_of-upsert_track id t [] = ground arith
track_of-upsert_track id t (u ∷ us) = ground (
  arith,
  text_eq_sound u.track_id t.track_id,
  text_eq_joins u.track_id t.track_id id,
  track_of-upsert_track id t us,
)

track_of-remove_track :
    (id k : Text) (tracks : List PeerTrack)
    → track_of id (remove_track k tracks) ≡ told (removed k) id (track_of id tracks)
unfolding remove_track find filter
track_of-remove_track id k [] = ground arith
track_of-remove_track id k (u ∷ us) = ground (
  arith,
  text_eq_sound u.track_id k,
  text_eq_sound k id,
  text_eq_refl id,
  text_eq_sound u.track_id id,
  track_of-remove_track id k us,
)

-- After any row of events the tracks are those that the events tell of: under an identifier stands
-- the last track that was put there and neither removed nor cleared away.
pub track_of-on_events :
    (id : Text) (es : List Event) (tracks : List PeerTrack)
    → track_of id (on_events es tracks) ≡ told_all es id (track_of id tracks)
unfolding find
track_of-on_events id [] tracks = refl
track_of-on_events id (upserted t ∷ es) tracks =
    track_of-on_events id es _ ∙ ap (told_all es id) (track_of-upsert_track id t tracks)
track_of-on_events id (removed k ∷ es) tracks =
    track_of-on_events id es _ ∙ ap (told_all es id) (track_of-remove_track id k tracks)
track_of-on_events id (cleared ∷ es) tracks = track_of-on_events id es []
