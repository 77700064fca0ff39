-- ===== src/StatsProvider/Examples.antt =====
-- A stream and what the other side reports of it, in src/client/lib/qos/adapters/statsProvider.js.
use mediasoup_cpp.Shared.{
  ◌≡◌, refl, none, List, [], ◌∷◌, Text, codes, value_at, set_at, All, Milli, milli, milli_number,
}
use mediasoup_cpp.Dynamic.{Value, text, number, object, Fields, no_fields, field, get}
use mediasoup_cpp.StatsProvider.{
  sort_entries, sort_entry, read_string, read_number, no_reports, get_snapshot,
}
use mediasoup_cpp.StatsProvider.Freshness.{
  MovesOn, get_snapshot-MovesOn, IsStale, get_snapshot_stale,
}

abbrev remote : Fields Milli
remote = field (codes "type") (text (codes "remote-inbound-rtp")) (
    field (codes "id") (text (codes "R1")) (
      field (codes "timestamp") (number (milli 5_000_000))
        (field (codes "jitter") (number (milli 4)) no_fields)))

abbrev stream : Fields Milli
stream = field (codes "type") (text (codes "outbound-rtp")) (
    field (codes "remoteId") (text (codes "R1"))
      (field (codes "bytesSent") (number (milli 90_000_000)) no_fields))

abbrev report : List (Value Milli)
report = object remote ∷ object stream ∷ []

get_snapshot-MovesOn_example :
    MovesOn
      (value_at (codes "R1") [])
      (value_at (codes "R1") (get_snapshot (milli 0) none report []).1)
get_snapshot-MovesOn_example = get_snapshot-MovesOn (codes "R1") (milli 0) none report []

abbrev known : List (Text × Milli)
known = (codes "R1", milli 5_000_000) ∷ []

report-IsStale :
    All
      (IsStale known (sort_entries report no_reports).remote_by_id)
      (sort_entries report no_reports).outbounds
unfolding sort_entry read_string read_number get set_at value_at
report-IsStale = ((remote, milli 5_000_000, milli 5_000_000, refl, refl, refl, refl), tt)

get_snapshot_stale_example :
    ((get_snapshot (milli 0) none report known).0.jitter_ms ≡ none)
    × ((get_snapshot (milli 0) none report known).1 ≡ known)
get_snapshot_stale_example = get_snapshot_stale (milli 0) none report known report-IsStale
