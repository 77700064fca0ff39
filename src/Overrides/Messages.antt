-- ===== src/Overrides/Messages.antt =====
-- What a message about overrides means for each key of the table of src/client/lib/qos/controller.js, in
-- words of its own.
use mediasoup_cpp.Shared.{
  ℕ, ◌+◌, Bool, true, false, not, ◌&&◌, ◌||◌, Option, none, some, [], ◌∷◌, Text, codes, text_eq,
  starts_with, strip_suffix, ltb, ◌==◌, if◌then◌else◌,
}
use mediasoup_cpp.Overrides.{Scope, peer, track, Override, Entry}

-- A message to the peer is for every track of it, one to a track for that track.
abbrev pub concerns : Text → Scope → Option Text → Bool
concerns own peer id = true
concerns own track none = false
concerns own track (some id) = text_eq id own

abbrev pub stored_as : Text → Text
stored_as [] = codes "_default"
stored_as (c ∷ reason) = c ∷ reason

abbrev of_downlink : Text → Bool
of_downlink name =
    starts_with name (codes "downlink_v2_") || starts_with name (codes "downlink_v3_")

abbrev of_server : Text → Bool
of_server name = starts_with name (codes "server_")

-- The reason of a clear without its ending.
abbrev stem : Text → Text
stem reason = strip_suffix (codes "_expired") (strip_suffix (codes "_clear") reason)

-- The keys that a clear takes away: all of them when the server has let its own expire; those of the
-- downlink for a reason of the downlink; those of the server with the stem of the reason for a reason of
-- the server; and those that are not of the server for any other.
abbrev pub cleared : Text → Text → Bool
cleared reason key =
    text_eq reason (codes "server_ttl_expired")
    || of_downlink reason && of_downlink key
    || not (of_downlink reason) && of_server reason && starts_with key (stem reason)
    || not (of_downlink reason) && not (of_server reason) && not (of_server key)

abbrev unexpired : ℕ → Option Entry → Option Entry
unexpired now none = none
unexpired now (some e) = if ltb now e.expires_at_ms then some e else none

-- What stands under a key after a message, by what stood there.
abbrev pub told : ℕ → Text → Override → Text → Option Entry → Option Entry
told now own o key before =
    if not (concerns own o.scope o.track_id)
    then before
    else unexpired now (
        if o.ttl_ms == 0
        then if cleared o.reason key then none else before
        else if text_eq (stored_as o.reason) key
        then some (record { content = o; expires_at_ms = now + o.ttl_ms })
        else before)
