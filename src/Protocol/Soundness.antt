-- ===== src/Protocol/Soundness.antt =====
-- Whatever value a parser of src/client/lib/qos/protocol.js is given, what it returns has what the
-- parser promises; so it is read again as it is.
use mediasoup_cpp.Shared.{
  ℕ, ◌+◌, ◌≤◌, ◌≡◌, refl, ap, suc, codes, Bool, true, false, not, ◌&&◌, Option, List, ◌∷◌, All,
  length, Text, leb, Number, arith, Returns, Returns-bind, Returns-guard, Returns-skip,
}
use mediasoup_cpp.Overrides.{Scope}
use mediasoup_cpp.Dynamic.{
  Value, missing, null, boolean, number, text, array, object, Items, no_items, item, get,
  count_items,
}
use mediasoup_cpp.Protocol.Readers.{
  Trail, as_non_negative_number, as_non_negative_int, optional_value, place,
}
use mediasoup_cpp.Protocol.Payloads.{
  TrackSignals, TrackSnapshot, ClientSnapshot, PolicyPayload, OverridePayload,
}
use mediasoup_cpp.Protocol.Parsers.{
  parse_track_signals, parse_track_snapshot, parse_tracks, parse_client_qos_snapshot,
  parse_qos_policy, parse_qos_override, parse_track_ref, is_track_scope, is_nullish, non_empty_id,
  max_seq, is_set,
}
use mediasoup_cpp.Protocol.Validity.{
  OnSome, IsId, IsAmount, IsCount, AreSignals, IsTrackSnapshot, IsClientSnapshot, IsPolicy,
  IsOverride, IsTarget,
}
use mediasoup_cpp.Protocol.Promises.{
  optional_value-Returns, as_non_empty_string-Returns, as_non_negative_number-Returns,
  as_non_negative_int-Returns,
}

producer_id-IsId : (o : Option Text) → non_empty_id o ≡ true → OnSome IsId o
producer_id-IsId o h = ground arith

few_tracks : (n m : ℕ) → n ≡ m → leb m 32 ≡ true → n ≤ 32
few_tracks n m e h = ground arith

of_not : (b : Bool) → not b ≡ true → b ≡ false
of_not b h = ground arith

module _ {W : Type 0} ⦃num : Number W⦄ where
  open num use {lt}

  abbrev Amount : W → Type 0
  Amount = IsAmount

  abbrev Count : W → Type 0
  Count = IsCount

  amount :
      (v : Value W) (at : Trail)
      → Returns (OnSome Amount) (optional_value as_non_negative_number v at)
  amount v at =
      optional_value-Returns IsAmount as_non_negative_number v at
        (λ u. as_non_negative_number-Returns u at)

  count :
      (v : Value W) (at : Trail) → Returns (OnSome Count) (optional_value as_non_negative_int v at)
  count v at =
      optional_value-Returns IsCount as_non_negative_int v at
        (λ u. as_non_negative_int-Returns u at)

  parse_track_signals-Returns :
      (v : Value W) (at : Trail) → Returns AreSignals (parse_track_signals v at)
  unfolding parse_track_signals
  parse_track_signals-Returns v at =
      let Q : TrackSignals W → Type 0 = AreSignals in
      Returns-skip Q _ _ (λ obj.
        Returns-bind Amount Q _ _ (as_non_negative_number-Returns _ _) (λ send a.
          Returns-bind (OnSome Amount) Q _ _ (amount _ _) (λ target b.
            Returns-bind (OnSome Amount) Q _ _ (amount _ _) (λ loss c.
              Returns-bind (OnSome Amount) Q _ _ (amount _ _) (λ rtt d.
                Returns-bind (OnSome Amount) Q _ _ (amount _ _) (λ jitter e.
                  Returns-bind (OnSome Count) Q _ _ (count _ _) (λ width f.
                    Returns-bind (OnSome Count) Q _ _ (count _ _) (λ height g.
                      Returns-bind (OnSome Amount) Q _ _ (amount _ _) (λ rate h.
                        Returns-skip Q _ _ (λ limitation. record {
                          send = a;
                          target = b;
                          loss = c;
                          rtt = d;
                          jitter = e;
                          width = f;
                          height = g;
                          rate = h;
                        }))))))))))

  parse_track_snapshot-Returns :
      (v : Value W) (at : Trail) → Returns IsTrackSnapshot (parse_track_snapshot v at)
  unfolding parse_track_snapshot
  parse_track_snapshot-Returns v at =
      let Q : TrackSnapshot W → Type 0 = IsTrackSnapshot in
      Returns-skip Q _ _ (λ obj. Returns-bind IsId Q _ _ (as_non_empty_string-Returns _ _) (λ id a.
        Returns-skip Q _ _ (λ producer. Returns-guard Q (non_empty_id producer) _ _ (λ b.
          Returns-skip Q _ _ (λ kind. Returns-skip Q _ _ (λ source. Returns-skip Q _ _ (λ state.
            Returns-skip Q _ _ (λ reason. Returns-skip Q _ _ (λ quality.
              Returns-bind Count Q _ _ (as_non_negative_int-Returns _ _) (λ level c.
                Returns-bind (AreSignals {W = W}) Q _ _ (parse_track_signals-Returns _ _)
                  (λ signals d. Returns-skip Q _ _ (λ action. record {
                    id = a;
                    producer = producer_id-IsId producer b;
                    level = c;
                    signals = d;
                  }))))))))))))

  abbrev TracksOf : Items W → List (TrackSnapshot W) → Type 0
  TracksOf vs ts = All IsTrackSnapshot ts × (length ts ≡ count_items vs)

  parse_tracks-Returns :
      (n : ℕ) (vs : Items W) (at : Trail) → Returns (TracksOf vs) (parse_tracks n vs at)
  unfolding parse_tracks count_items
  parse_tracks-Returns n no_items at = (tt, refl)
  parse_tracks-Returns n (item v vs) at =
      Returns-bind (IsTrackSnapshot {W = W}) (TracksOf (item v vs)) _ _
        (parse_track_snapshot-Returns v (place n ∷ at))
        (λ t h.
          Returns-bind (TracksOf vs) (TracksOf (item v vs)) _ _ (parse_tracks-Returns (n + 1) vs at)
            (λ ts (hs, e). ((h, hs), ap suc e)))

  pub parse_client_qos_snapshot-Returns :
      (v : Value W) → Returns IsClientSnapshot (parse_client_qos_snapshot v)
  unfolding parse_client_qos_snapshot
  parse_client_qos_snapshot-Returns v =
      let Q : ClientSnapshot W → Type 0 = IsClientSnapshot in
      Returns-skip Q _ _ (λ obj. Returns-skip Q _ _ (λ schema. Returns-guard Q _ _ _ (λ same.
        Returns-bind Count Q _ _ (as_non_negative_int-Returns _ _) (λ seq a.
          Returns-guard Q (not (lt max_seq seq)) _ _ (λ b.
            Returns-bind Amount Q _ _ (as_non_negative_number-Returns _ _) (λ time c.
              Returns-skip Q _ _ (λ state. Returns-skip Q _ _ (λ mode.
                Returns-skip Q _ _ (λ quality. Returns-skip Q _ _ (λ stale.
                  Returns-skip Q _ _ (λ raw. Returns-guard Q (leb (count_items raw) 32) _ _ (λ few.
                    Returns-bind (TracksOf raw) Q _ _ (parse_tracks-Returns 0 raw _) (λ ts (d, e).
                      record {
                        seq = a;
                        seq_le = of_not _ b;
                        time = c;
                        few = few_tracks _ _ e few;
                        tracks = d;
                      })))))))))))))

  pub parse_qos_policy-Returns : (v : Value W) → Returns IsPolicy (parse_qos_policy v)
  unfolding parse_qos_policy
  parse_qos_policy-Returns v =
      let Q : PolicyPayload W → Type 0 = IsPolicy in
      Returns-skip Q _ _ (λ obj. Returns-skip Q _ _ (λ schema. Returns-guard Q _ _ _ (λ same.
        Returns-bind Count Q _ _ (as_non_negative_int-Returns _ _) (λ sample a.
          Returns-bind Count Q _ _ (as_non_negative_int-Returns _ _) (λ snapshot b.
            Returns-skip Q _ _ (λ audio_only. Returns-skip Q _ _ (λ pause.
              Returns-skip Q _ _ (λ profiles.
                Returns-bind IsId Q _ _ (as_non_empty_string-Returns _ _) (λ camera c.
                  Returns-bind IsId Q _ _ (as_non_empty_string-Returns _ _) (λ screen_share d.
                    Returns-bind IsId Q _ _ (as_non_empty_string-Returns _ _) (λ audio e. record {
                      sample = a;
                      snapshot = b;
                      camera = c;
                      screen_share = d;
                      audio = e;
                    })))))))))))

  parse_track_ref-Returns :
      (scope : Scope) (v : Value W) (at : Trail)
      → not (is_track_scope scope && is_nullish v) ≡ true
      → Returns (IsTarget scope) (parse_track_ref v at)
  unfolding parse_track_ref
  parse_track_ref-Returns scope missing at h = ground arith
  parse_track_ref-Returns scope null at h = ground arith
  parse_track_ref-Returns scope (text s) at h =
      Returns-bind IsId (IsTarget scope) _ _ (as_non_empty_string-Returns (text s) at) (λ t e. e)
  parse_track_ref-Returns scope (boolean b) at h =
      Returns-bind IsId (IsTarget scope) _ _ (as_non_empty_string-Returns (boolean b) at) (λ t e. e)
  parse_track_ref-Returns scope (number x) at h =
      Returns-bind IsId (IsTarget scope) _ _ (as_non_empty_string-Returns (number x) at) (λ t e. e)
  parse_track_ref-Returns scope (array vs) at h =
      Returns-bind IsId (IsTarget scope) _ _ (as_non_empty_string-Returns (array vs) at) (λ t e. e)
  parse_track_ref-Returns scope (object fs) at h =
      Returns-bind IsId (IsTarget scope) _ _ (as_non_empty_string-Returns (object fs) at) (λ t e. e)

  pub parse_qos_override-Returns : (v : Value W) → Returns IsOverride (parse_qos_override v)
  unfolding parse_qos_override
  parse_qos_override-Returns v =
      let Q : OverridePayload W → Type 0 = IsOverride in
      Returns-skip Q _ _ (λ obj. Returns-skip Q _ _ (λ schema. Returns-guard Q _ _ _ (λ same.
        Returns-skip Q _ _ (λ scope.
          Returns-guard Q (not (is_track_scope scope && is_nullish (get obj (codes "trackId")))) _ _
            (λ given.
              Returns-bind (IsTarget scope) Q _ _ (parse_track_ref-Returns scope _ _ given)
                (λ track_id a. Returns-bind (OnSome Count) Q _ _ (count _ _) (λ clamp b.
                  Returns-skip Q _ _ (λ force. Returns-skip Q _ _ (λ disable.
                    Returns-skip Q _ _ (λ pause. Returns-skip Q _ _ (λ resume.
                      Returns-guard Q (not (is_set pause && is_set resume)) _ _ (λ one.
                        Returns-bind Count Q _ _ (as_non_negative_int-Returns _ _) (λ ttl c.
                          Returns-bind IsId Q _ _ (as_non_empty_string-Returns _ _) (λ reason d.
                            record {
                              target = a;
                              clamp = b;
                              one_direction = of_not _ one;
                              ttl = c;
                              reason = d;
                            }))))))))))))))
