-- ===== src/StatsProvider/Entries.antt =====
-- The entries of a report, as src/client/lib/qos/adapters/statsProvider.js reads and sorts them.
use mediasoup_cpp.Shared.{
  ℕ, zero, suc, Bool, true, false, not, ◌&&◌, ◌||◌, Option, none, some, List, [], ◌∷◌, ◌++◌, Text,
  codes, text_eq, is_empty, value_at, set_at, Number, if◌then◌else◌,
}
use mediasoup_cpp.Types.{LimitationReason, bandwidth, other, not_limited}
use mediasoup_cpp.Dynamic.{Value, boolean, number, text, object, Fields, get}

-- The entries by what they are: maps by identifier, and lists in the order of the report.
pub record Reports (W : Type 0) : Type 0 where
  pub remote_by_id : List (Text × Fields W)
  pub candidate_pairs_by_id : List (Text × Fields W)
  pub selected_candidate_pairs : List (Fields W)
  pub transports_by_id : List (Text × Fields W)
  pub outbounds : List (Fields W)

abbrev truthy : Option Text → Option Text
truthy none = none
truthy (some s) = if is_empty s then none else some s

abbrev is_succeeded : Option Text → Bool
is_succeeded none = true
is_succeeded (some state) = text_eq state (codes "succeeded")

abbrev pub limitation_of : Text → LimitationReason
limitation_of s =
    if text_eq s (codes "bandwidth")
    then bandwidth
    else if text_eq s (codes "cpu")
    then LimitationReason.cpu
    else if text_eq s (codes "other")
    then other
    else if text_eq s (codes "none")
    then not_limited
    else LimitationReason.unknown

module _ {W : Type 0} where
  abbrev text_of : Value W → Option Text
  text_of (text s) = some s
  text_of v = none

  unfoldable pub read_string : Text → Fields W → Option Text
  unfolding get
  read_string k entry = text_of (get entry k)

  -- A text that is there and not empty.
  abbrev pub read_id : Text → Fields W → Option Text
  read_id k entry = truthy (read_string k entry)

  abbrev pub is_true : Value W → Bool
  is_true (boolean b) = b
  is_true v = false

  unfoldable pub is_selected_candidate_pair : Fields W → Bool
  unfolding get read_string
  is_selected_candidate_pair entry =
      is_true (get entry (codes "selected"))
      || (is_true (get entry (codes "nominated"))
          && is_succeeded (read_string (codes "state") entry))

  abbrev pub file_under : Option Text → Fields W → List (Text × Fields W) → List (Text × Fields W)
  file_under none entry entries = entries
  file_under (some id) entry entries = set_at id entry entries

  -- The callback of `report.forEach`, for an entry that is an object, by its type.
  unfoldable pub sort_entry : Fields W → Reports W → Reports W
  unfolding get read_string is_selected_candidate_pair
  sort_entry entry r =
      let is_type : Text → Bool = λ type. is_text_of type (get entry (codes "type")) in
      let id = read_id (codes "id") entry in
      if is_type (codes "remote-inbound-rtp")
      then record r { remote_by_id = file_under id entry r.remote_by_id }
      else if is_type (codes "candidate-pair")
      then record r {
        candidate_pairs_by_id = file_under id entry r.candidate_pairs_by_id;
        selected_candidate_pairs =
            if is_selected_candidate_pair entry
            then r.selected_candidate_pairs ++ (entry ∷ [])
            else r.selected_candidate_pairs;
      }
      else if is_type (codes "transport")
      then record r { transports_by_id = file_under id entry r.transports_by_id }
      else if is_type (codes "outbound-rtp") && not (is_true (get entry (codes "isRemote")))
      then record r { outbounds = r.outbounds ++ (entry ∷ []) }
      else r
    where
      is_text_of : Text → Value W → Bool
      is_text_of s (text t) = text_eq t s
      is_text_of s v = false

  abbrev pub no_reports : Reports W
  no_reports = record {
    remote_by_id = [];
    candidate_pairs_by_id = [];
    selected_candidate_pairs = [];
    transports_by_id = [];
    outbounds = [];
  }

  abbrev pub sort_value : Value W → Reports W → Reports W
  sort_value (object entry) r = sort_entry entry r
  sort_value v r = r

  abbrev pub sort_entries : List (Value W) → Reports W → Reports W
  sort_entries [] r = r
  sort_entries (v ∷ vs) r = sort_entries vs (sort_value v r)

  abbrev pub found_by : Option Text → List (Text × Fields W) → Option (Fields W)
  found_by none entries = none
  found_by (some id) entries = value_at id entries

  -- A field's reader on an entry that may be missing, as `entry ?? {}`.
  abbrev pub read_from {ℓ} : {A : Type ℓ} → (Fields W → Option A) → Option (Fields W) → Option A
  read_from read none = none
  read_from read (some entry) = read entry

  abbrev only_one : List (Fields W) → Option (Fields W)
  only_one (entry ∷ []) = some entry
  only_one _ = none

  abbrev or_pair : Option (Fields W) → Option (Fields W) → Option (Fields W)
  or_pair none p = p
  or_pair (some pair) p = some pair

  -- The pair that the transport of a stream names, or else the only one that is selected.
  unfoldable pub resolve_candidate_pair : Fields W → Reports W → Option (Fields W)
  unfolding read_string
  resolve_candidate_pair outbound r =
      let transport = found_by (read_id (codes "transportId") outbound) r.transports_by_id in
      let pair_id = read_from (read_id (codes "selectedCandidatePairId")) transport in
      or_pair (found_by pair_id r.candidate_pairs_by_id) (only_one r.selected_candidate_pairs)

  unfoldable pub read_quality_limitation_reason : Value W → Option LimitationReason
  read_quality_limitation_reason (text s) = some (limitation_of s)
  read_quality_limitation_reason v = none

module _ {W : Type 0} ⦃num : Number W⦄ where
  open num use {decimal, is_finite, le, times, over, round}

  abbrev finite_number : Value W → Option W
  finite_number (number x) = if is_finite x then some x else none
  finite_number v = none

  unfoldable pub read_number : Text → Fields W → Option W
  unfolding get
  read_number k entry = finite_number (get entry k)

  -- A time from 0 to 10 is in seconds.
  unfoldable pub normalize_time_to_ms : Option W → Option W
  normalize_time_to_ms none = none
  normalize_time_to_ms (some x) =
      some (if le (decimal 0 0) x && le x (decimal 10 0) then times x (decimal 1000 0) else x)

  unfoldable pub round_metric : W → ℕ → Option W
  round_metric sum zero = none
  round_metric sum (suc n) =
      some (over (round (times (over sum (decimal (suc n) 0)) (decimal 1000 0))) (decimal 1000 0))
