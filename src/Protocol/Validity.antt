-- ===== src/Protocol/Validity.antt =====
-- What the parsers of src/client/lib/qos/protocol.js promise of a payload.
use mediasoup_cpp.Shared.{
  ◌≤◌, ◌≡◌, true, false, ◌&&◌, Option, none, some, Text, is_empty, All, length, Number,
}
use mediasoup_cpp.Overrides.{Scope}
use mediasoup_cpp.Protocol.Payloads.{
  TrackSignals, TrackSnapshot, ClientSnapshot, PolicyPayload, TrackRef, unnamed, null_track, named,
  OverridePayload, max_tracks_per_snapshot,
}
use mediasoup_cpp.Protocol.Parsers.{max_seq, is_set, is_track_scope}

abbrev pub OnSome : {A : Type 0} → (A → Type 0) → Option A → Type 0
OnSome P none = Unit
OnSome P (some a) = P a

abbrev pub IsId : Text → Type 0
IsId s = is_empty s ≡ false

-- A named track, or none where the override is for all tracks of the peer.
abbrev pub IsTarget : Scope → TrackRef → Type 0
IsTarget scope unnamed = is_track_scope scope ≡ false
IsTarget scope null_track = is_track_scope scope ≡ false
IsTarget scope (named s) = IsId s

module _ {W : Type 0} ⦃num : Number W⦄ where
  open num use {is_finite, is_integer, lt, decimal}

  -- A finite number that is not negative.
  abbrev pub IsAmount : W → Type 0
  IsAmount x = (is_finite x ≡ true) × (lt x (decimal 0 0) ≡ false)

  -- Such a number without a fraction.
  abbrev pub IsCount : W → Type 0
  IsCount x = (is_finite x ≡ true) × (is_integer x ≡ true) × (lt x (decimal 0 0) ≡ false)

  pub record AreSignals (s : TrackSignals W) : Type 0 where
    pub send : IsAmount s.send_bitrate_bps
    pub target : OnSome IsAmount s.target_bitrate_bps
    pub loss : OnSome IsAmount s.loss_rate
    pub rtt : OnSome IsAmount s.rtt_ms
    pub jitter : OnSome IsAmount s.jitter_ms
    pub width : OnSome IsCount s.frame_width
    pub height : OnSome IsCount s.frame_height
    pub rate : OnSome IsAmount s.frames_per_second

  pub record IsTrackSnapshot (t : TrackSnapshot W) : Type 0 where
    pub id : IsId t.local_track_id
    pub producer : OnSome IsId t.producer_id
    pub level : IsCount t.ladder_level
    pub signals : AreSignals t.signals

  pub record IsClientSnapshot (s : ClientSnapshot W) : Type 0 where
    pub seq : IsCount s.seq
    pub seq_le : lt max_seq s.seq ≡ false
    pub time : IsAmount s.ts_ms
    pub few : length s.tracks ≤ max_tracks_per_snapshot
    pub tracks : All IsTrackSnapshot s.tracks

  pub record IsPolicy (p : PolicyPayload W) : Type 0 where
    pub sample : IsCount p.sample_interval_ms
    pub snapshot : IsCount p.snapshot_interval_ms
    pub camera : IsId p.camera_profile
    pub screen_share : IsId p.screen_share_profile
    pub audio : IsId p.audio_profile

  pub record IsOverride (o : OverridePayload W) : Type 0 where
    pub target : IsTarget o.scope o.track_id
    pub clamp : OnSome IsCount o.max_level_clamp
    pub one_direction : (is_set o.pause_upstream && is_set o.resume_upstream) ≡ false
    pub ttl : IsCount o.ttl_ms
    pub reason : IsId o.reason
