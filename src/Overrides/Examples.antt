-- ===== src/Overrides/Examples.antt =====
-- Tests of the override table of src/client/lib/qos/controller.js and its theorems at concrete keys.
use mediasoup_cpp.Shared.{ℕ, ◌≡◌, true, false, none, some, [], ◌∷◌, Text, codes}
use mediasoup_cpp.Overrides.{Override, Table, peer, get_active_override}
use mediasoup_cpp.Overrides.Merge.{
  Flag, read_flag, any_live, least_clamp, content_clamp, content_flag, get_active_override_merges,
}

abbrev clamping : ℕ → ℕ → Text → Override
clamping clamp ttl reason = record {
  scope = peer;
  track_id = none;
  max_level_clamp = some clamp;
  force_audio_only = false;
  disable_recovery = true;
  pause_upstream = false;
  resume_upstream = false;
  ttl_ms = ttl;
  reason = reason;
}

abbrev poor : Text
poor = codes "server_auto_poor"

abbrev table : Table
table =
    (poor, record { content = clamping 2 4000 poor; expires_at_ms = 5000 })
    ∷ (codes "app", record { content = clamping 1 9000 (codes "app"); expires_at_ms = 9000 })
    ∷ []

abbrev own : Text
own = codes "track-1"

get_active_override_merges_example :
    let active = (get_active_override 6000 table).1 in
    (content_clamp active ≡ least_clamp 6000 table)
    × ((f : Flag) → content_flag (read_flag f) active ≡ any_live 6000 (read_flag f) table)
get_active_override_merges_example = get_active_override_merges 6000 table
