-- ===== src/StatsProvider/Freshness.antt =====
-- Which reports of the other side count in src/client/lib/qos/adapters/statsProvider.js.
use mediasoup_cpp.Shared.{
  ◌≡◌, refl, sym, subst, ap, ◌∙◌, ◌⊎◌, inl, inr, Bool, true, false, Option, none, some, List, [],
  ◌∷◌, Text, codes, text_eq, text_eq_sound, All, value_at, set_at, value_at-set_at, Number, arith,
  if◌then◌else◌,
}
use mediasoup_cpp.Dynamic.{Value, Fields}
use mediasoup_cpp.StatsProvider.{
  Reports, read_id, found_by, read_number, resolve_candidate_pair, sort_entries, no_reports, Totals,
  add_counters, add_transport, is_fresh, remote_time, note_time, previous_of, add_remote,
  add_streams, add_up, get_snapshot, no_totals, mean_of, snapshot_of_totals, round_metric,
}

module _ {W : Type 0} ⦃num : Number W⦄ where
  open num use {lt}

  abbrev pub IsLater : Option W → W → Type 0
  IsLater none time = Unit
  IsLater (some previous) time = lt previous time ≡ true

  -- What is known of an identifier is as before, or a later time.
  abbrev pub MovesOn : Option W → Option W → Type 0
  MovesOn before after = (after ≡ before) ⊎ ((time : W) × (after ≡ some time) × IsLater before time)

  is_fresh-IsLater :
      (remote : Option (Fields W)) (time : W) (previous : Option W)
      → is_fresh remote (some time) previous ≡ true
      → IsLater previous time
  unfolding is_fresh
  is_fresh-IsLater remote time none h = tt
  is_fresh-IsLater none time (some previous) h = ground (arith, h)
  is_fresh-IsLater (some remote) time (some previous) h = h

  if-MovesOn :
      (key id : Text) (time : W) (last : List (Text × W)) (known : Option W) (test : Bool)
      → text_eq id key ≡ test
      → IsLater (value_at id last) time
      → MovesOn (value_at key last) known
      → MovesOn (value_at key last) (if test then some time else known)
  if-MovesOn key id time last known true e h m =
      inr (time, refl, subst (λ k. IsLater (value_at k last) time) (text_eq_sound id key e) h)
  if-MovesOn key id time last known false e h m = m

  set_at-MovesOn :
      (key id : Text) (time : W) (last times : List (Text × W))
      → IsLater (value_at id last) time
      → MovesOn (value_at key last) (value_at key times)
      → MovesOn (value_at key last) (value_at key (set_at id time times))
  set_at-MovesOn key id time last times h m =
      subst (MovesOn (value_at key last)) (sym (value_at-set_at key id time times))
        (if-MovesOn key id time last (value_at key times) (text_eq id key) refl h m)

  note_time-MovesOn :
      (key : Text) (id : Option Text) (time : Option W) (remote : Option (Fields W))
      (last times : List (Text × W)) (fresh : Bool)
      → is_fresh remote time (previous_of id last) ≡ fresh
      → MovesOn (value_at key last) (value_at key times)
      → MovesOn (value_at key last) (value_at key (note_time id time fresh times))
  note_time-MovesOn key none time remote last times fresh e m = m
  note_time-MovesOn key (some id) none remote last times fresh e m = m
  note_time-MovesOn key (some id) (some time) remote last times false e m = m
  note_time-MovesOn key (some id) (some time) remote last times true e m =
      set_at-MovesOn key id time last times (is_fresh-IsLater remote time (value_at id last) e) m

  add_transport-times :
      (pair : Option (Fields W)) (t : Totals W)
      → (add_transport pair t).next_remote_timestamps ≡ t.next_remote_timestamps
  unfolding add_transport
  add_transport-times pair t = ground arith

  add_streams-MovesOn :
      (key : Text) (last : List (Text × W)) (r : Reports W) (outbounds : List (Fields W))
      (t : Totals W)
      → MovesOn (value_at key last) (value_at key t.next_remote_timestamps)
      → MovesOn
          (value_at key last)
          (value_at key (add_streams last r outbounds t).next_remote_timestamps)
  unfolding add_streams add_remote add_counters
  add_streams-MovesOn key last r [] t m = m
  add_streams-MovesOn key last r (outbound ∷ outbounds) t m =
      add_streams-MovesOn key last r outbounds _ (
        note_time-MovesOn key _ _ _ last _ _ refl (
          subst (λ times. MovesOn (value_at key last) (value_at key times))
            (sym
              (add_transport-times (resolve_candidate_pair outbound r) (add_counters outbound t)))
            m))

  add_up-MovesOn :
      (key : Text) (now : W) (configured : Option W) (last : List (Text × W)) (r : Reports W)
      (outbounds : List (Fields W))
      → MovesOn (value_at key last) (value_at key (add_up now configured last r outbounds).1)
  unfolding add_up
  add_up-MovesOn key now configured last r [] = inl refl
  add_up-MovesOn key now configured last r (outbound ∷ outbounds) =
      add_streams-MovesOn key last r (outbound ∷ outbounds) (no_totals last) (inl refl)

  -- A snapshot leaves the time that is kept for each report of the other side as it was, or puts a later
  -- one there.
  pub get_snapshot-MovesOn :
      (key : Text) (now : W) (configured : Option W) (report : List (Value W))
      (last : List (Text × W))
      → MovesOn (value_at key last) (value_at key (get_snapshot now configured report last).1)
  unfolding get_snapshot
  get_snapshot-MovesOn key now configured report last =
      add_up-MovesOn key now configured last (sort_entries report no_reports)
        (sort_entries report no_reports).outbounds

  -- The other side's report on the stream is no later than that of the snapshot before.
  abbrev pub IsStale : List (Text × W) → List (Text × Fields W) → Fields W → Type 0
  IsStale last remote_by_id outbound =
      let id = read_id (codes "remoteId") outbound in
      (remote : Fields W) × (time : W) × (previous : W) × (found_by id remote_by_id ≡ some remote)
      × (read_number (codes "timestamp") remote ≡ some time)
      × (previous_of id last ≡ some previous)
      × (lt previous time ≡ false)

  note_time_old :
      (id : Option Text) (time : Option W) (times : List (Text × W))
      → note_time id time false times ≡ times
  note_time_old none time times = refl
  note_time_old (some id) none times = refl
  note_time_old (some id) (some time) times = refl

  -- Nothing is added to the times of the other side.
  abbrev Quiet : Totals W → Totals W → Type 0
  Quiet before after =
      (after.jitter ≡ before.jitter)
      × (after.next_remote_timestamps ≡ before.next_remote_timestamps)

  add_remote_stale :
      (last : List (Text × W)) (remote_by_id : List (Text × Fields W)) (outbound : Fields W)
      (t : Totals W)
      → IsStale last remote_by_id outbound
      → Quiet t (add_remote last remote_by_id outbound t)
  unfolding add_remote is_fresh remote_time
  add_remote_stale last remote_by_id outbound t (remote, time, previous, a, b, c, d) = (
    rw a (rw b (rw c (rw d refl))),
    rw a (rw b (rw c (rw d (note_time_old _ _ t.next_remote_timestamps)))),
  )

  add_transport-Quiet : (pair : Option (Fields W)) (t : Totals W) → Quiet t (add_transport pair t)
  unfolding add_transport
  add_transport-Quiet pair t = ground arith

  add_counters-Quiet : (outbound : Fields W) (t : Totals W) → Quiet t (add_counters outbound t)
  unfolding add_counters
  add_counters-Quiet outbound t = (refl, refl)

  Quiet-trans : (t u v : Totals W) → Quiet t u → Quiet u v → Quiet t v
  Quiet-trans t u v (a, b) (c, d) = (c ∙ a, d ∙ b)

  add_streams_stale :
      (last : List (Text × W)) (r : Reports W) (outbounds : List (Fields W)) (t : Totals W)
      → All (IsStale last r.remote_by_id) outbounds
      → Quiet t (add_streams last r outbounds t)
  unfolding add_streams
  add_streams_stale last r [] t h = (refl, refl)
  add_streams_stale last r (outbound ∷ outbounds) t (h, hs) =
      let counted : Totals W = add_counters outbound t in
      let paired : Totals W = add_transport (resolve_candidate_pair outbound r) counted in
      let after : Totals W = add_remote last r.remote_by_id outbound paired in
      Quiet-trans t after (add_streams last r outbounds after)
        (Quiet-trans t paired after
          (Quiet-trans t counted paired (add_counters-Quiet outbound t)
            (add_transport-Quiet (resolve_candidate_pair outbound r) counted))
          (add_remote_stale last r.remote_by_id outbound paired h))
        (add_streams_stale last r outbounds after hs)

  add_up_stale :
      (now : W) (configured : Option W) (last : List (Text × W)) (r : Reports W)
      (outbounds : List (Fields W))
      → All (IsStale last r.remote_by_id) outbounds
      → ((add_up now configured last r outbounds).0.jitter_ms ≡ none)
        × ((add_up now configured last r outbounds).1 ≡ last)
  unfolding add_up snapshot_of_totals round_metric
  add_up_stale now configured last r [] h = (refl, refl)
  add_up_stale now configured last r (outbound ∷ outbounds) h =
      let (jitter, times) = add_streams_stale last r (outbound ∷ outbounds) (no_totals last) h in
      (ap (λ t. mean_of t) jitter, times)

  -- Where the other side has said nothing new of any stream, a snapshot has no jitter, and the times that
  -- are kept stay as they are.
  pub get_snapshot_stale :
      (now : W) (configured : Option W) (report : List (Value W)) (last : List (Text × W))
      → All
          (IsStale last (sort_entries report no_reports).remote_by_id)
          (sort_entries report no_reports).outbounds
      → ((get_snapshot now configured report last).0.jitter_ms ≡ none)
        × ((get_snapshot now configured report last).1 ≡ last)
  unfolding get_snapshot
  get_snapshot_stale now configured report last h =
      add_up_stale now configured last (sort_entries report no_reports)
        (sort_entries report no_reports).outbounds h
