-- ===== src/Protocol/RoundTrip.antt =====
-- What the parsers of src/client/lib/qos/protocol.js return is read again as it was.
use mediasoup_cpp.Shared.{
  ℕ, suc, ◌+◌, ◌≤◌, ◌≡◌, refl, ap, ◌∙◌, Bool, true, false, not, ◌&&◌, Option, none, some, List, [],
  ◌∷◌, All, length, Text, leb, le→leb, Number, arith, Result, ok, ◌>>=◌, ◌>>◌, guard, then_ok,
}
use mediasoup_cpp.Types.{LimitationReason}
use mediasoup_cpp.Overrides.{Scope}
use mediasoup_cpp.Dynamic.{boolean, text, get, count_items}
use mediasoup_cpp.Protocol.Readers.{
  Trail, as_object, as_array, as_string, as_boolean, as_string_enum, optional_value, place,
}
use mediasoup_cpp.Protocol.Payloads.{
  TrackSignals, TrackAction, TrackSnapshot, ClientSnapshot, PolicyPayload, TrackRef, unnamed,
  null_track, named, OverridePayload, kind_names, source_names, state_names, reason_names,
  quality_names, limitation_names, action_names, mode_names, scope_names,
}
use mediasoup_cpp.Protocol.Parsers.{
  parse_track_signals, parse_track_action, parse_track_snapshot, parse_tracks,
  parse_client_qos_snapshot, parse_qos_policy, parse_qos_override, parse_track_ref, is_track_scope,
  is_nullish, non_empty_id,
}
use mediasoup_cpp.Protocol.Values.{
  or_missing, items_of, track_signals_value, track_action_value, track_snapshot_value,
  client_qos_snapshot_value, qos_policy_value, qos_override_value, limitation_name, action_name,
  track_ref_value,
}
use mediasoup_cpp.Protocol.Validity.{
  OnSome, IsId, AreSignals, IsTrackSnapshot, IsClientSnapshot, IsPolicy, IsOverride, IsTarget,
}
use mediasoup_cpp.Protocol.Promises.{
  as_non_empty_string-text, as_string_enum-text, as_non_negative_number-number,
  as_non_negative_int-number, amount_shown, count_shown,
}
use mediasoup_cpp.Protocol.Naming.{
  member_of-kind_name, member_of-source_name, member_of-state_name, member_of-reason_name,
  member_of-quality_name, member_of-limitation_name, member_of-action_name, member_of-mode_name,
  member_of-scope_name,
}

module _ (W : Type 0) where
  limitation_shown :
      (at : Trail) (o : Option LimitationReason)
      → optional_value {W = W}
          (as_string_enum limitation_names)
          (or_missing (λ r. text (limitation_name r)) o)
          at
        ≡ ok o
  unfolding optional_value ◌>>=◌
  limitation_shown at none = refl
  limitation_shown at (some r) =
      ap (λ n. n >>= λ a. ok (some a))
        (as_string_enum-text W limitation_names (limitation_name r) r at
          (member_of-limitation_name r))

  as_string-shown :
      (at : Trail) (o : Option Text)
      → optional_value {W = W} as_string (or_missing text o) at ≡ ok o
  unfolding optional_value ◌>>=◌ as_string
  as_string-shown at none = refl
  as_string-shown at (some s) = refl

  as_boolean-shown :
      (at : Trail) (o : Option Bool)
      → optional_value {W = W} as_boolean (or_missing boolean o) at ≡ ok o
  unfolding optional_value ◌>>=◌ as_boolean
  as_boolean-shown at none = refl
  as_boolean-shown at (some b) = refl

  parse_track_action-value :
      (a : TrackAction) (at : Trail) → parse_track_action {W = W} (track_action_value a) at ≡ ok a
  unfolding parse_track_action ◌>>=◌ track_action_value as_object as_boolean get
  parse_track_action-value a at =
      then_ok _ _
        (as_string_enum-text W action_names (action_name a.action_type) a.action_type _
          (member_of-action_name a.action_type))
        refl

  action_shown :
      (at : Trail) (o : Option TrackAction)
      → optional_value {W = W} parse_track_action (or_missing track_action_value o) at ≡ ok o
  unfolding optional_value ◌>>=◌ track_action_value
  action_shown at none = refl
  action_shown at (some a) = ap (λ n. n >>= λ b. ok (some b)) (parse_track_action-value a at)

  target_given :
      (scope : Scope) (r : TrackRef)
      → IsTarget scope r
      → (is_track_scope scope && is_nullish {W = W} (track_ref_value r)) ≡ false
  target_given scope unnamed h = rw h refl
  target_given scope null_track h = rw h refl
  target_given scope (named s) h = ground arith

  parse_track_ref-value :
      (r : TrackRef) (at : Trail)
      → ((s : Text) → r ≡ named s → IsId s)
      → parse_track_ref {W = W} (track_ref_value r) at ≡ ok r
  unfolding parse_track_ref ◌>>=◌
  parse_track_ref-value unnamed at h = refl
  parse_track_ref-value null_track at h = refl
  parse_track_ref-value (named s) at h =
      then_ok _ _ (as_non_empty_string-text W s at (h s refl)) refl

target_named : (scope : Scope) (r : TrackRef) → IsTarget scope r → (s : Text) → r ≡ named s → IsId s
target_named scope unnamed h s e = ground arith
target_named scope null_track h s e = ground arith
target_named scope (named t) h s e = ground arith

guard-true :
    {E B : Type 0} (test : Bool) (e : E) (r : Result E B) → test ≡ true → (guard test e >> r) ≡ r
unfolding ◌>>=◌
guard-true test e r h = rw h refl

not-true : (b : Bool) → b ≡ false → not b ≡ true
not-true b h = rw h refl

non_empty_id-OnSome : (o : Option Text) → OnSome IsId o → non_empty_id o ≡ true
non_empty_id-OnSome o h = ground arith

module _ {W : Type 0} ⦃num : Number W⦄ where
  parse_track_signals-value :
      (s : TrackSignals W) (at : Trail)
      → AreSignals s
      → parse_track_signals (track_signals_value s) at ≡ ok s
  unfolding parse_track_signals ◌>>=◌ track_signals_value as_object get
  parse_track_signals-value s at h =
      then_ok _ _ (as_non_negative_number-number s.send_bitrate_bps _ h.send) (
        then_ok _ _ (amount_shown _ s.target_bitrate_bps h.target) (
          then_ok _ _ (amount_shown _ s.loss_rate h.loss) (
            then_ok _ _ (amount_shown _ s.rtt_ms h.rtt) (
              then_ok _ _ (amount_shown _ s.jitter_ms h.jitter) (
                then_ok _ _ (count_shown _ s.frame_width h.width) (
                  then_ok _ _ (count_shown _ s.frame_height h.height) (
                    then_ok _ _ (amount_shown _ s.frames_per_second h.rate)
                      (then_ok _ _ (limitation_shown W _ s.quality_limitation_reason) refl))))))))

  parse_track_snapshot-value :
      (t : TrackSnapshot W) (at : Trail)
      → IsTrackSnapshot t
      → parse_track_snapshot (track_snapshot_value t) at ≡ ok t
  unfolding parse_track_snapshot ◌>>=◌ track_snapshot_value as_object get
  parse_track_snapshot-value t at h =
      then_ok _ _ (as_non_empty_string-text W t.local_track_id _ h.id) (
        then_ok _ _ (as_string-shown W _ t.producer_id) (
          guard-true _ _ _ (non_empty_id-OnSome t.producer_id h.producer)
          ∙ then_ok _ _ (as_string_enum-text W kind_names _ t.kind _ (member_of-kind_name t.kind)) (
              then_ok _ _
                (as_string_enum-text W source_names _ t.source _ (member_of-source_name t.source))
                (then_ok _ _
                  (as_string_enum-text W state_names _ t.state _ (member_of-state_name t.state))
                  (then_ok _ _
                    (as_string_enum-text W reason_names _ t.reason _
                      (member_of-reason_name t.reason))
                    (then_ok _ _
                      (as_string_enum-text W quality_names _ t.quality _
                        (member_of-quality_name t.quality))
                      (then_ok _ _ (as_non_negative_int-number t.ladder_level _ h.level) (
                        then_ok _ _ (parse_track_signals-value t.signals _ h.signals)
                          (then_ok _ _ (action_shown W _ t.last_action) refl)))))))))

  parse_tracks-value :
      (n : ℕ) (ts : List (TrackSnapshot W)) (at : Trail)
      → All IsTrackSnapshot ts
      → parse_tracks n (items_of track_snapshot_value ts) at ≡ ok ts
  unfolding parse_tracks ◌>>=◌
  parse_tracks-value n [] at h = refl
  parse_tracks-value n (t ∷ ts) at (h, hs) =
      then_ok _ _ (parse_track_snapshot-value t (place n ∷ at) h)
        (then_ok _ _ (parse_tracks-value (n + 1) ts at hs) refl)

  count_items-items_of :
      (ts : List (TrackSnapshot W)) → count_items (items_of track_snapshot_value ts) ≡ length ts
  unfolding count_items
  count_items-items_of [] = refl
  count_items-items_of (t ∷ ts) = ap suc (count_items-items_of ts)

  few_items :
      (ts : List (TrackSnapshot W))
      → length ts ≤ 32
      → leb (count_items (items_of track_snapshot_value ts)) 32 ≡ true
  few_items ts h = rw (count_items-items_of ts) (le→leb (length ts) 32 h)

  -- A snapshot with what the parser promises is read as it was written.
  pub parse_client_qos_snapshot-value :
      (s : ClientSnapshot W)
      → IsClientSnapshot s
      → parse_client_qos_snapshot (client_qos_snapshot_value s) ≡ ok s
  unfolding parse_client_qos_snapshot ◌>>=◌ client_qos_snapshot_value as_object as_string as_array
      as_boolean get
  parse_client_qos_snapshot-value s h = then_ok _ _ (as_non_negative_int-number s.seq _ h.seq) (
      guard-true _ _ _ (not-true _ h.seq_le)
      ∙ then_ok _ _ (as_non_negative_number-number s.ts_ms _ h.time) (
          then_ok _ _ (as_string_enum-text W mode_names _ s.mode _ (member_of-mode_name s.mode)) (
            then_ok _ _
              (as_string_enum-text W quality_names _ s.quality _ (member_of-quality_name s.quality))
              (guard-true _ _ _ (few_items s.tracks h.few)
                ∙ then_ok _ _ (parse_tracks-value 0 s.tracks _ h.tracks) refl))))

  -- A policy with what the parser promises is read as it was written.
  pub parse_qos_policy-value :
      (p : PolicyPayload W) → IsPolicy p → parse_qos_policy (qos_policy_value p) ≡ ok p
  unfolding parse_qos_policy ◌>>=◌ qos_policy_value as_object as_string as_boolean get
  parse_qos_policy-value p h =
      then_ok _ _ (as_non_negative_int-number p.sample_interval_ms _ h.sample) (
        then_ok _ _ (as_non_negative_int-number p.snapshot_interval_ms _ h.snapshot) (
          then_ok _ _ (as_non_empty_string-text W p.camera_profile _ h.camera) (
            then_ok _ _ (as_non_empty_string-text W p.screen_share_profile _ h.screen_share)
              (then_ok _ _ (as_non_empty_string-text W p.audio_profile _ h.audio) refl))))

  -- An override with what the parser promises is read as it was written.
  pub parse_qos_override-value :
      (o : OverridePayload W) → IsOverride o → parse_qos_override (qos_override_value o) ≡ ok o
  unfolding parse_qos_override ◌>>=◌ qos_override_value as_object as_string get
  parse_qos_override-value o h =
      then_ok _ _ (as_string_enum-text W scope_names _ o.scope _ (member_of-scope_name o.scope)) (
        guard-true _ _ _ (not-true _ (target_given W o.scope o.track_id h.target))
        ∙ then_ok _ _
            (parse_track_ref-value W o.track_id _ (target_named o.scope o.track_id h.target))
            (then_ok _ _ (count_shown _ o.max_level_clamp h.clamp) (
              then_ok _ _ (as_boolean-shown W _ o.force_audio_only) (
                then_ok _ _ (as_boolean-shown W _ o.disable_recovery) (
                  then_ok _ _ (as_boolean-shown W _ o.pause_upstream) (
                    then_ok _ _ (as_boolean-shown W _ o.resume_upstream) (
                      guard-true _ _ _ (not-true _ h.one_direction)
                      ∙ then_ok _ _ (as_non_negative_int-number o.ttl_ms _ h.ttl)
                          (then_ok _ _ (as_non_empty_string-text W o.reason _ h.reason) refl))))))))
