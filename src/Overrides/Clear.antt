-- ===== src/Overrides/Clear.antt =====
-- What setting and clearing an override does to the table of src/client/lib/qos/controller.js.
use mediasoup_cpp.Shared.{
  ℕ, ◌+◌, ◌<◌, ◌≡◌, refl, Bool, true, false, Option, none, some, [], ◌∷◌, ◌++◌, Text, arith, ap,
  ◌∙◌, text_eq, text_eq_refl, text_eq_iff, codes, starts_with, starts_with-append, strip_suffix,
  strip_suffix-append, ltb, Bool-cases, inl, inr, ◌==◌, if◌then◌else◌,
}
use mediasoup_cpp.Overrides.{
  Override, Entry, Table, put, keep_keys, clear_keeps, is_live, purge, key_of, is_for_other,
  handle_override, is_downlink, is_server, clear_prefix,
}

-- `Map.get`.
abbrev pub lookup : Text → Table → Option Entry
lookup key [] = none
lookup key ((k, e) ∷ rest) = if text_eq k key then some e else lookup key rest

-- A table in which no key stands twice.
abbrev pub IsMap : Table → Type 0
IsMap [] = Unit
IsMap ((k, e) ∷ rest) = (lookup k rest ≡ none) × IsMap rest

abbrev pub live_entry : ℕ → Option Entry → Option Entry
live_entry now none = none
live_entry now (some e) = if is_live now e then some e else none

abbrev pub kept_entry : Bool → Option Entry → Option Entry
kept_entry true o = o
kept_entry false o = none

lookup-put :
    (key key' : Text) (entry : Entry) (table : Table)
    → lookup key' (put key entry table)
      ≡ (if text_eq key key' then some entry else lookup key' table)
unfolding put
lookup-put key key' entry [] = refl
lookup-put key key' entry ((k, e) ∷ rest) = ground (
  arith,
  text_eq_iff k key,
  text_eq_iff key key',
  text_eq_iff k key',
  lookup-put key key' entry rest,
)

lookup-keep_keys :
    (keeps : Text → Bool) (key : Text) (table : Table)
    → lookup key (keep_keys keeps table) ≡ kept_entry (keeps key) (lookup key table)
unfolding keep_keys
lookup-keep_keys keeps key [] = ground arith
lookup-keep_keys keeps key ((k, e) ∷ rest) =
    ground (arith, text_eq_iff k key, lookup-keep_keys keeps key rest)

lookup-purge :
    (now : ℕ) (key : Text) (table : Table)
    → IsMap table
    → lookup key (purge now table) ≡ live_entry now (lookup key table)
unfolding purge
lookup-purge now key [] m = refl
lookup-purge now key ((k, e) ∷ rest) (fresh, m) =
    ground (arith, text_eq_iff k key, fresh, lookup-purge now key rest m)

IsMap-put : (key : Text) (entry : Entry) (table : Table) → IsMap table → IsMap (put key entry table)
unfolding put
IsMap-put key entry [] m = (refl, tt)
IsMap-put key entry ((k, e) ∷ rest) (fresh, m) = elim (Bool-cases (text_eq k key)) [
  | inl same ↦ rw same (fresh, m)
  | inr differs ↦ rw differs (
    lookup-put key k entry rest ∙ ground (arith, text_eq_iff k key, text_eq_iff key k),
    IsMap-put key entry rest m,
  )
]

IsMap-keep_keys :
    (keeps : Text → Bool) (table : Table) → IsMap table → IsMap (keep_keys keeps table)
unfolding keep_keys
IsMap-keep_keys keeps [] m = tt
IsMap-keep_keys keeps ((k, e) ∷ rest) (fresh, m) =
    let ih = IsMap-keep_keys keeps rest m in
    elim (Bool-cases (keeps k)) [
      | inl stays ↦ rw stays (lookup-keep_keys keeps k rest ∙ ground (arith, fresh), ih)
      | inr goes ↦ rw goes ih
    ]

IsMap-purge : (now : ℕ) (table : Table) → IsMap table → IsMap (purge now table)
unfolding purge
IsMap-purge now [] m = tt
IsMap-purge now ((k, e) ∷ rest) (fresh, m) =
    let ih = IsMap-purge now rest m in
    elim (Bool-cases (is_live now e)) [
      | inl stays ↦ rw stays (lookup-purge now k rest m ∙ ground (arith, fresh), ih)
      | inr goes ↦ rw goes ih
    ]

IsMap-if : (test : Bool) (a b : Table) → IsMap a → IsMap b → IsMap (if test then a else b)
IsMap-if true a b p q = p
IsMap-if false a b p q = q

-- The table stays a map.
pub handle_override-IsMap :
    (now : ℕ) (own : Text) (o : Override) (table : Table)
    → IsMap table
    → IsMap (handle_override now own o table)
unfolding handle_override
handle_override-IsMap now own o table m = IsMap-if (is_for_other o own) table _ m (
    IsMap-if (o.ttl_ms == 0) _ _
      (IsMap-purge now _ (IsMap-keep_keys (clear_keeps o.reason) table m))
      (IsMap-purge now _ (IsMap-put (key_of o) _ table m)))

-- What the table says of a key after a message has been handled: nothing new if the message is for
-- another track; else, of the entries that have not expired, the new one under its own key if the
-- message has a time to live, and only what the clear keeps if it has none.
abbrev pub entry_after : ℕ → Text → Override → Text → Option Entry → Option Entry
entry_after now own o key before =
    if is_for_other o own
    then before
    else live_entry now (
        if o.ttl_ms == 0
        then kept_entry (clear_keeps o.reason key) before
        else if text_eq (key_of o) key
        then some (record { content = o; expires_at_ms = now + o.ttl_ms })
        else before)

pub handle_override_entry :
    (now : ℕ) (own : Text) (o : Override) (table : Table) (key : Text)
    → IsMap table
    → lookup key (handle_override now own o table) ≡ entry_after now own o key (lookup key table)
unfolding handle_override
handle_override_entry now own o table key m = ground (
  arith,
  lookup-purge now key (keep_keys (clear_keeps o.reason) table)
      (IsMap-keep_keys (clear_keeps o.reason) table m),
  lookup-keep_keys (clear_keeps o.reason) key table,
  lookup-purge now key
      (put (key_of o) (record { content = o; expires_at_ms = now + o.ttl_ms }) table)
      (IsMap-put (key_of o) (record { content = o; expires_at_ms = now + o.ttl_ms }) table m),
  lookup-put (key_of o) key (record { content = o; expires_at_ms = now + o.ttl_ms }) table,
)

-- An override for this track with a time to live is in the table, under its reason, for exactly that
-- long: until just before `now + ttlMs`, whatever stood there.
pub handle_override_lasts :
    (now later : ℕ) (own : Text) (o : Override) (table : Table)
    → IsMap table
    → is_for_other o own ≡ false
    → 0 < o.ttl_ms
    → lookup (key_of o) (purge later (handle_override now own o table)) ≡ (
        if ltb later (now + o.ttl_ms)
        then some (record { content = o; expires_at_ms = now + o.ttl_ms })
        else none)
handle_override_lasts now later own o table m mine ttl =
    lookup-purge later (key_of o) _ (handle_override-IsMap now own o table m)
    ∙ ap (live_entry later) (handle_override_entry now own o table (key_of o) m)
    ∙ ground (arith, text_eq_refl (key_of o))

server_clear_drops :
    (reason key prefix : Text)
    → is_downlink reason ≡ false
    → is_server reason ≡ true
    → clear_prefix reason ≡ prefix
    → starts_with key prefix ≡ true
    → clear_keeps reason key ≡ false
unfolding clear_keeps
server_clear_drops reason key prefix d s e h = ground arith

server_prefix_cleared :
    (x y : Text)
    → strip_suffix (codes "_expired") (codes "server_" ++ x) ≡ codes "server_" ++ x
    → clear_keeps (codes "server_" ++ (x ++ codes "_clear")) (codes "server_" ++ (x ++ y)) ≡ false
unfolding starts_with
server_prefix_cleared x y plain =
    let stripped : strip_suffix (codes "_clear") (codes "server_" ++ (x ++ codes "_clear"))
        ≡ codes "server_" ++ x =
      strip_suffix-append (codes "_clear") (codes "server_" ++ x) in
    let matched : starts_with (codes "server_" ++ (x ++ y)) (codes "server_" ++ x) ≡ true =
      starts_with-append (codes "server_" ++ x) y in
    server_clear_drops (codes "server_" ++ (x ++ codes "_clear")) (codes "server_" ++ (x ++ y))
      (codes "server_" ++ x) refl refl (ap (strip_suffix (codes "_expired")) stripped ∙ plain)
      matched

-- A clear `server_x_clear` leaves no override whose reason goes on from `server_x`, if `x` itself
-- does not end in `_expired`.
pub server_clear_removes :
    (now : ℕ) (own x y : Text) (o : Override) (table : Table)
    → IsMap table
    → is_for_other o own ≡ false
    → o.ttl_ms ≡ 0
    → o.reason ≡ codes "server_" ++ (x ++ codes "_clear")
    → strip_suffix (codes "_expired") (codes "server_" ++ x) ≡ codes "server_" ++ x
    → lookup (codes "server_" ++ (x ++ y)) (handle_override now own o table) ≡ none
server_clear_removes now own x y o table m mine zero_ttl reason plain =
    handle_override_entry now own o table (codes "server_" ++ (x ++ y)) m
    ∙ cleared (lookup (codes "server_" ++ (x ++ y)) table)
  where
    gone : clear_keeps o.reason (codes "server_" ++ (x ++ y)) ≡ false
    gone = rw reason (server_prefix_cleared x y plain)

    cleared :
        (before : Option Entry) → entry_after now own o (codes "server_" ++ (x ++ y)) before ≡ none
    cleared before = ground (arith, mine, zero_ttl, gone)
