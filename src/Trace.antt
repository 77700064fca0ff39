-- ===== src/Trace.antt =====
-- src/client/lib/qos/trace.js: a buffer that keeps the latest entries up to its capacity.
pub mod Window
mod Examples
use mediasoup_cpp.Shared.{
  ℕ, ◌-◌, ℤ, non_negative, max, Option, none, some, List, [], ◌∷◌, ◌++◌, length, drop, ltb,
  if◌then◌else◌,
}

abbrev pub default_trace_buffer_size : ℕ
default_trace_buffer_size = 256

pub record TraceBuffer (A : Type 0) : Type 0 where
  pub entries : List A
  pub capacity : ℕ

-- `Math.max(1, Math.floor(capacity))`, of the default where there is no argument.
abbrev pub capacity_of : Option ℤ → ℕ
capacity_of none = default_trace_buffer_size
capacity_of (some capacity) = max 1 (non_negative capacity)

unfoldable pub create : {A : Type 0} → Option ℤ → TraceBuffer A
create capacity = record { entries = []; capacity = capacity_of capacity }

module _ {A : Type 0} where
  unfoldable pub append : TraceBuffer A → A → TraceBuffer A
  append b entry =
      let entries = b.entries ++ (entry ∷ []) in
      let size = length entries in
      record b {
        entries = if ltb b.capacity size then drop (size - b.capacity) entries else entries;
      }

  unfoldable pub append_all : TraceBuffer A → List A → TraceBuffer A
  append_all b [] = b
  append_all b (x ∷ xs) = append_all (append b x) xs

  unfoldable pub size : TraceBuffer A → ℕ
  size b = length b.entries

  unfoldable pub get_entries : TraceBuffer A → List A
  get_entries b = b.entries

  unfoldable pub clear : TraceBuffer A → TraceBuffer A
  clear b = record b { entries = [] }
