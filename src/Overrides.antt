-- ===== src/Overrides.antt =====
-- The overrides that a server or an application puts on a publisher, as
-- src/client/lib/qos/controller.js keeps them: by reason, each with the time at which it expires.
pub mod Merge
pub mod Clear
pub mod Messages
mod Examples
use mediasoup_cpp.Shared.{
  ℕ, ◌+◌, min, Bool, true, false, not, ◌&&◌, ◌||◌, Option, none, some, List, [], ◌∷◌, Text, codes,
  text_eq, starts_with, strip_suffix, is_empty, ltb, leb, ◌==◌, if◌then◌else◌,
}

pub data Scope : Type 0 where
  peer track : Scope

-- A flag that is missing is `false`: the code tests each one against `true`.
pub record Override : Type 0 where
  pub scope : Scope
  pub track_id : Option Text
  pub max_level_clamp : Option ℕ
  pub force_audio_only : Bool
  pub disable_recovery : Bool
  pub pause_upstream : Bool
  pub resume_upstream : Bool
  pub ttl_ms : ℕ
  pub reason : Text

pub record Entry : Type 0 where
  pub content : Override
  pub expires_at_ms : ℕ

-- `activeOverrides`, in the order of insertion; a missing map is an empty one.
abbrev pub Table : Type 0
Table = List (Text × Entry)

-- `Map.set`: a key that is there keeps its place.
unfoldable pub put : Text → Entry → Table → Table
put key entry [] = (key, entry) ∷ []
put key entry ((k, e) ∷ rest) =
    if text_eq k key then (k, entry) ∷ rest else (k, e) ∷ put key entry rest

unfoldable pub keep_keys : (Text → Bool) → Table → Table
keep_keys keeps [] = []
keep_keys keeps ((k, e) ∷ rest) =
    let kept = keep_keys keeps rest in if keeps k then (k, e) ∷ kept else kept

abbrev pub is_downlink : Text → Bool
is_downlink key = starts_with key (codes "downlink_v2_") || starts_with key (codes "downlink_v3_")

abbrev pub is_server : Text → Bool
is_server key = starts_with key (codes "server_")

abbrev pub clear_prefix : Text → Text
clear_prefix reason = strip_suffix (codes "_expired") (strip_suffix (codes "_clear") reason)

-- Does a clear for this reason leave the key alone?
unfoldable pub clear_keeps : Text → Text → Bool
clear_keeps reason key =
    if text_eq reason (codes "server_ttl_expired")
    then false
    else if is_downlink reason
    then not (is_downlink key)
    else if not (is_server reason)
    then is_server key
    else not (starts_with key (clear_prefix reason))

abbrev pub is_live : ℕ → Entry → Bool
is_live now entry = not (leb entry.expires_at_ms now)

abbrev min_clamp : Option ℕ → Option ℕ → Option ℕ
min_clamp merged none = merged
min_clamp none (some c) = some c
min_clamp (some m) (some c) = some (min m c)

-- One more entry merged in: the most restrictive values, and the earlier expiry.
abbrev pub restrict : Entry → Entry → Entry
restrict merged entry = record {
  content = record (merged.content) {
    max_level_clamp = min_clamp merged.content.max_level_clamp entry.content.max_level_clamp;
    force_audio_only = merged.content.force_audio_only || entry.content.force_audio_only;
    disable_recovery = merged.content.disable_recovery || entry.content.disable_recovery;
    pause_upstream = merged.content.pause_upstream || entry.content.pause_upstream;
    resume_upstream = merged.content.resume_upstream || entry.content.resume_upstream;
  };
  expires_at_ms = min merged.expires_at_ms entry.expires_at_ms;
}

abbrev pub absorb : Option Entry → Entry → Option Entry
absorb none entry = some entry
absorb (some merged) entry = some (restrict merged entry)

-- The loop of `_mergeOverrides` over the entries, with what is merged so far.
unfoldable pub merge_from : ℕ → Option Entry → Table → Option Entry
merge_from now merged [] = merged
merge_from now merged ((k, e) ∷ rest) =
    merge_from now (if is_live now e then absorb merged e else merged) rest

unfoldable pub purge : ℕ → Table → Table
purge now [] = []
purge now ((k, e) ∷ rest) =
    let kept = purge now rest in if is_live now e then (k, e) ∷ kept else kept

-- `_mergeOverrides`: the expired entries are gone, and the others are merged.
unfoldable pub merge_overrides : ℕ → Table → Table × Option Entry
unfolding merge_from purge
merge_overrides now table = (purge now table, merge_from now none table)

abbrev live_content : ℕ → Option Entry → Option Override
live_content now none = none
live_content now (some merged) = if leb merged.expires_at_ms now then none else some merged.content

-- `getActiveOverride`.
unfoldable pub get_active_override : ℕ → Table → Table × Option Override
unfolding merge_overrides
get_active_override now table =
    let (kept, merged) = merge_overrides now table in (kept, live_content now merged)

abbrev pub default_key : Text
default_key = codes "_default"

abbrev pub key_of : Override → Text
key_of o = if is_empty o.reason then default_key else o.reason

abbrev is_track : Scope → Bool
is_track track = true
is_track peer = false

-- `override.trackId !== this.trackId`.
abbrev differs : Option Text → Text → Bool
differs none own = true
differs (some id) own = not (text_eq id own)

abbrev pub is_for_other : Override → Text → Bool
is_for_other o own = is_track o.scope && differs o.track_id own

-- `handleOverride`, on the table, at the time `now`; the merge at its end only drops what has expired.
unfoldable pub handle_override : ℕ → Text → Override → Table → Table
unfolding keep_keys clear_keeps put merge_overrides
handle_override now own o table =
    let cleared = keep_keys (clear_keeps o.reason) table in
    let added = put (key_of o) (record { content = o; expires_at_ms = now + o.ttl_ms }) table in
    if is_for_other o own
    then table
    else if o.ttl_ms == 0
    then purge now cleared
    else purge now added
