-- ===== src/Overrides/Merge.antt =====
-- What the merged override of src/client/lib/qos/controller.js says of the entries it was made of.
use mediasoup_cpp.Shared.{
  ℕ, ◌≤◌, ◌<◌, ◌≡◌, refl, Bool, false, ◌&&◌, ◌||◌, Option, none, some, [], ◌∷◌, min, arith, ◌∙◌,
  if◌then◌else◌,
}
use mediasoup_cpp.Overrides.{
  Override, Entry, Table, is_live, absorb, merge_from, purge, get_active_override, live_content,
}

-- Does a live entry set the flag?
abbrev pub any_live : ℕ → (Override → Bool) → Table → Bool
any_live now flag [] = false
any_live now flag ((k, e) ∷ rest) = (is_live now e && flag e.content) || any_live now flag rest

abbrev pub lesser : Option ℕ → Option ℕ → Option ℕ
lesser none b = b
lesser a none = a
lesser (some a) (some b) = some (min a b)

-- The least clamp among the live entries.
abbrev pub least_clamp : ℕ → Table → Option ℕ
least_clamp now [] = none
least_clamp now ((k, e) ∷ rest) =
    let least = least_clamp now rest in
    if is_live now e then lesser e.content.max_level_clamp least else least

abbrev clamp_of : Option Entry → Option ℕ
clamp_of none = none
clamp_of (some e) = e.content.max_level_clamp

abbrev flag_of : (Override → Bool) → Option Entry → Bool
flag_of flag none = false
flag_of flag (some e) = flag e.content

abbrev pub content_clamp : Option Override → Option ℕ
content_clamp none = none
content_clamp (some o) = o.max_level_clamp

abbrev pub content_flag : (Override → Bool) → Option Override → Bool
content_flag flag none = false
content_flag flag (some o) = flag o

lesser_assoc : (a b c : Option ℕ) → lesser (lesser a b) c ≡ lesser a (lesser b c)
lesser_assoc a b c = ground arith

merge_from-clamp :
    (now : ℕ) (merged : Option Entry) (table : Table)
    → clamp_of (merge_from now merged table) ≡ lesser (clamp_of merged) (least_clamp now table)
unfolding merge_from
merge_from-clamp now merged [] = ground arith
merge_from-clamp now merged ((k, e) ∷ rest) = ground (
  arith,
  merge_from-clamp now (if is_live now e then absorb merged e else merged) rest,
  lesser_assoc (clamp_of merged) e.content.max_level_clamp (least_clamp now rest),
)

-- The four flags that `_mergeOverrides` joins.
pub data Flag : Type 0 where
  force_audio_only disable_recovery pause_upstream resume_upstream : Flag

abbrev pub read_flag : Flag → Override → Bool
read_flag force_audio_only o = o.force_audio_only
read_flag disable_recovery o = o.disable_recovery
read_flag pause_upstream o = o.pause_upstream
read_flag resume_upstream o = o.resume_upstream

merge_from-flag :
    (f : Flag) (now : ℕ) (merged : Option Entry) (table : Table)
    → flag_of (read_flag f) (merge_from now merged table)
      ≡ (flag_of (read_flag f) merged || any_live now (read_flag f) table)
unfolding merge_from
merge_from-flag f now merged [] = ground arith
merge_from-flag f now merged ((k, e) ∷ rest) =
    ground (arith, merge_from-flag f now (if is_live now e then absorb merged e else merged) rest)

-- A merged entry, if there is one, has not expired.
abbrev IsCurrent : ℕ → Option Entry → Type 0
IsCurrent now none = Unit
IsCurrent now (some e) = now < e.expires_at_ms

merge_from-IsCurrent :
    (now : ℕ) (merged : Option Entry) (table : Table)
    → IsCurrent now merged
    → IsCurrent now (merge_from now merged table)
unfolding merge_from
merge_from-IsCurrent now merged [] h = h
merge_from-IsCurrent now merged ((k, e) ∷ rest) h =
    merge_from-IsCurrent now (if is_live now e then absorb merged e else merged) rest (ground arith)

live_content-clamp :
    (now : ℕ) (merged : Option Entry)
    → IsCurrent now merged
    → content_clamp (live_content now merged) ≡ clamp_of merged
live_content-clamp now merged h = ground arith

live_content-flag :
    (f : Flag) (now : ℕ) (merged : Option Entry)
    → IsCurrent now merged
    → content_flag (read_flag f) (live_content now merged) ≡ flag_of (read_flag f) merged
live_content-flag f now merged h = ground arith

-- The active override clamps to the least clamp of the entries that have not expired, and not at all
-- if none of them clamps; and each flag of it is set exactly if one of those entries sets it.
pub get_active_override_merges :
    (now : ℕ) (table : Table)
    → let active = (get_active_override now table).1 in
      (content_clamp active ≡ least_clamp now table)
      × ((f : Flag) → content_flag (read_flag f) active ≡ any_live now (read_flag f) table)
unfolding get_active_override
get_active_override_merges now table =
    let current = merge_from-IsCurrent now none table tt in
    (
      live_content-clamp now (merge_from now none table) current ∙ merge_from-clamp now none table,
      λ f.
          live_content-flag f now (merge_from now none table) current
          ∙ merge_from-flag f now none table,
    )

-- Merging again later sees what it would have seen without the merges before it.
pub purge-purge :
    (early late : ℕ) (table : Table)
    → early ≤ late
    → purge late (purge early table) ≡ purge late table
unfolding purge
purge-purge early late [] h = refl
purge-purge early late ((k, e) ∷ rest) h = ground (arith, purge-purge early late rest h)
