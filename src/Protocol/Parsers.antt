-- ===== src/Protocol/Parsers.antt =====
-- The parsers of src/client/lib/qos/protocol.js.
use mediasoup_cpp.Shared.{
  ℕ, ◌+◌, ◌-◌, ◌^◌, Bool, true, false, not, ◌&&◌, Option, none, some, List, [], ◌∷◌, Text, codes,
  text_eq, is_empty, leb, Number, ok, ◌>>=◌, ◌>>◌, guard, is_ok,
}
use mediasoup_cpp.Overrides.{Scope, peer, track}
use mediasoup_cpp.Dynamic.{Value, missing, null, Items, no_items, item, get, count_items}
use mediasoup_cpp.Protocol.Readers.{
  key, place, empty_text, wrong_schema, too_great, too_many, no_track_id, both_directions, Trail,
  Reading, as_object, as_array, as_string, as_non_empty_string, as_boolean, as_string_enum,
  optional, required, as_non_negative_number, as_non_negative_int,
}
use mediasoup_cpp.Protocol.Payloads.{
  TrackSignals, TrackAction, TrackSnapshot, ClientSnapshot, PolicyPayload, TrackRef, unnamed,
  null_track, named, OverridePayload, client_schema, policy_schema, override_schema,
  max_tracks_per_snapshot, limitation_names, action_names, kind_names, source_names, state_names,
  reason_names, quality_names, mode_names, scope_names,
}

abbrev pub non_empty_id : Option Text → Bool
non_empty_id none = true
non_empty_id (some s) = not (is_empty s)

abbrev pub is_set : Option Bool → Bool
is_set none = false
is_set (some b) = b

abbrev pub is_track_scope : Scope → Bool
is_track_scope peer = false
is_track_scope track = true

module _ {W : Type 0} where
  unfoldable pub parse_track_action : Value W → Trail → Reading TrackAction
  parse_track_action v at = do
    obj ← as_object v at
    type ← required (as_string_enum action_names) obj (codes "type") at
    applied ← required as_boolean obj (codes "applied") at
    ok (record { action_type = type; applied = applied })

  -- `trackId` of an override.
  unfoldable pub parse_track_ref : Value W → Trail → Reading TrackRef
  unfolding ◌>>=◌
  parse_track_ref missing at = ok unnamed
  parse_track_ref null at = ok null_track
  parse_track_ref v at = do s ← as_non_empty_string v at; ok (named s)

  abbrev pub is_nullish : Value W → Bool
  is_nullish missing = true
  is_nullish null = true
  is_nullish v = false

module _ {W : Type 0} ⦃num : Number W⦄ where
  open num use {lt, decimal}

  unfoldable pub parse_track_signals : Value W → Trail → Reading (TrackSignals W)
  parse_track_signals v at = do
    obj ← as_object v at
    send ← required as_non_negative_number obj (codes "sendBitrateBps") at
    target ← optional as_non_negative_number obj (codes "targetBitrateBps") at
    loss ← optional as_non_negative_number obj (codes "lossRate") at
    rtt ← optional as_non_negative_number obj (codes "rttMs") at
    jitter ← optional as_non_negative_number obj (codes "jitterMs") at
    width ← optional as_non_negative_int obj (codes "frameWidth") at
    height ← optional as_non_negative_int obj (codes "frameHeight") at
    rate ← optional as_non_negative_number obj (codes "framesPerSecond") at
    limitation ← optional (as_string_enum limitation_names) obj (codes "qualityLimitationReason") at
    ok (record {
      send_bitrate_bps = send;
      target_bitrate_bps = target;
      loss_rate = loss;
      rtt_ms = rtt;
      jitter_ms = jitter;
      frame_width = width;
      frame_height = height;
      frames_per_second = rate;
      quality_limitation_reason = limitation;
    })

  unfoldable pub parse_track_snapshot : Value W → Trail → Reading (TrackSnapshot W)
  parse_track_snapshot v at = do
    obj ← as_object v at
    id ← required as_non_empty_string obj (codes "localTrackId") at
    producer ← optional as_string obj (codes "producerId") at
    guard (non_empty_id producer) (key (codes "producerId") ∷ at, empty_text)
    kind ← required (as_string_enum kind_names) obj (codes "kind") at
    source ← required (as_string_enum source_names) obj (codes "source") at
    state ← required (as_string_enum state_names) obj (codes "state") at
    reason ← required (as_string_enum reason_names) obj (codes "reason") at
    quality ← required (as_string_enum quality_names) obj (codes "quality") at
    level ← required as_non_negative_int obj (codes "ladderLevel") at
    signals ← required parse_track_signals obj (codes "signals") at
    action ← optional parse_track_action obj (codes "lastAction") at
    ok (record {
      local_track_id = id;
      producer_id = producer;
      kind = kind;
      source = source;
      state = state;
      reason = reason;
      quality = quality;
      ladder_level = level;
      signals = signals;
      last_action = action;
    })

  -- `tracksRaw.map(...)`, from the place `n` on.
  unfoldable pub parse_tracks : ℕ → Items W → Trail → Reading (List (TrackSnapshot W))
  parse_tracks n no_items at = ok []
  parse_tracks n (item v vs) at = do
    t ← parse_track_snapshot v (place n ∷ at)
    ts ← parse_tracks (n + 1) vs at
    ok (t ∷ ts)

  abbrev pub max_seq : W
  max_seq = decimal (2 ^ 53 - 1) 0

  unfoldable pub parse_client_qos_snapshot : Value W → Reading (ClientSnapshot W)
  parse_client_qos_snapshot v = do
    obj ← as_object v []
    schema ← required as_string obj (codes "schema") []
    guard (text_eq schema client_schema) (key (codes "schema") ∷ [], wrong_schema)
    seq ← required as_non_negative_int obj (codes "seq") []
    guard (not (lt max_seq seq)) (key (codes "seq") ∷ [], too_great)
    time ← required as_non_negative_number obj (codes "tsMs") []
    state ← required as_object obj (codes "peerState") []
    mode ← required (as_string_enum mode_names) state (codes "mode") (key (codes "peerState") ∷ [])
    quality ←
        required (as_string_enum quality_names) state (codes "quality")
          (key (codes "peerState") ∷ [])
    stale ← required as_boolean state (codes "stale") (key (codes "peerState") ∷ [])
    raw ← required as_array obj (codes "tracks") []
    guard (leb (count_items raw) max_tracks_per_snapshot) (key (codes "tracks") ∷ [], too_many)
    tracks ← parse_tracks 0 raw (key (codes "tracks") ∷ [])
    ok (record {
      seq = seq;
      ts_ms = time;
      mode = mode;
      quality = quality;
      stale = stale;
      tracks = tracks;
    })

  unfoldable pub parse_qos_policy : Value W → Reading (PolicyPayload W)
  parse_qos_policy v = do
    obj ← as_object v []
    schema ← required as_string obj (codes "schema") []
    guard (text_eq schema policy_schema) (key (codes "schema") ∷ [], wrong_schema)
    sample ← required as_non_negative_int obj (codes "sampleIntervalMs") []
    snapshot ← required as_non_negative_int obj (codes "snapshotIntervalMs") []
    audio_only ← required as_boolean obj (codes "allowAudioOnly") []
    pause ← required as_boolean obj (codes "allowVideoPause") []
    profiles ← required as_object obj (codes "profiles") []
    camera ← required as_non_empty_string profiles (codes "camera") (key (codes "profiles") ∷ [])
    screen_share ←
        required as_non_empty_string profiles (codes "screenShare") (key (codes "profiles") ∷ [])
    audio ← required as_non_empty_string profiles (codes "audio") (key (codes "profiles") ∷ [])
    ok (record {
      sample_interval_ms = sample;
      snapshot_interval_ms = snapshot;
      allow_audio_only = audio_only;
      allow_video_pause = pause;
      camera_profile = camera;
      screen_share_profile = screen_share;
      audio_profile = audio;
    })

  unfoldable pub parse_qos_override : Value W → Reading (OverridePayload W)
  parse_qos_override v = do
    obj ← as_object v []
    schema ← required as_string obj (codes "schema") []
    guard (text_eq schema override_schema) (key (codes "schema") ∷ [], wrong_schema)
    scope ← required (as_string_enum scope_names) obj (codes "scope") []
    guard (not (is_track_scope scope && is_nullish (get obj (codes "trackId"))))
        (key (codes "trackId") ∷ [], no_track_id)
    track_id ← required parse_track_ref obj (codes "trackId") []
    clamp ← optional as_non_negative_int obj (codes "maxLevelClamp") []
    force ← optional as_boolean obj (codes "forceAudioOnly") []
    disable ← optional as_boolean obj (codes "disableRecovery") []
    pause ← optional as_boolean obj (codes "pauseUpstream") []
    resume ← optional as_boolean obj (codes "resumeUpstream") []
    guard (not (is_set pause && is_set resume)) ([], both_directions)
    ttl ← required as_non_negative_int obj (codes "ttlMs") []
    reason ← required as_non_empty_string obj (codes "reason") []
    ok (record {
      scope = scope;
      track_id = track_id;
      max_level_clamp = clamp;
      force_audio_only = force;
      disable_recovery = disable;
      pause_upstream = pause;
      resume_upstream = resume;
      ttl_ms = ttl;
      reason = reason;
    })

  -- `isClientQosSnapshot`, `isQosPolicy` and `isQosOverride`.
  unfoldable pub is_client_qos_snapshot : Value W → Bool
  is_client_qos_snapshot v = is_ok (parse_client_qos_snapshot v)

  unfoldable pub is_qos_policy : Value W → Bool
  is_qos_policy v = is_ok (parse_qos_policy v)

  unfoldable pub is_qos_override : Value W → Bool
  is_qos_override v = is_ok (parse_qos_override v)

  unfoldable pub serialize_client_qos_snapshot : Value W → Reading (ClientSnapshot W)
  serialize_client_qos_snapshot v = parse_client_qos_snapshot v
