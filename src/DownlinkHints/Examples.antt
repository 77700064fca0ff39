-- ===== src/DownlinkHints/Examples.antt =====
-- A row of changes of the hints of src/client/lib/qos/downlinkHints.js.
use mediasoup_cpp.Shared.{
  ◌≡◌, true, false, none, some, List, [], ◌∷◌, Text, codes, value_at, Milli, milli, milli_number,
}
use mediasoup_cpp.DownlinkHints.{HintInput}
use mediasoup_cpp.DownlinkHints.Told.{Event, given, shown, on_events, told_all, value_at-on_events}

abbrev input : HintInput Milli
input = record {
  producer_id = none;
  kind = none;
  ssrc = none;
  mid = some (codes "0");
  track_identifier = none;
  visible = none;
  pinned = some true;
  active_speaker = none;
  is_screen_share = none;
  target_width = none;
  target_height = some (milli 480_000);
}

abbrev first : Text
first = codes "consumer-1"

abbrev events : List (Event Milli)
events = given first input ∷ shown first false ∷ shown (codes "consumer-2") false ∷ []

value_at-on_events_example :
    value_at first (on_events events []) ≡ told_all events first (value_at first [])
value_at-on_events_example = value_at-on_events first events []
