-- ===== src/Trace/Examples.antt =====
-- Tests of src/client/lib/qos/trace.js and its theorem at concrete entries.
use mediasoup_cpp.Shared.{ℕ, ◌≤◌, ◌≡◌, refl, min, length, pos, some, List, [], ◌∷◌}
use mediasoup_cpp.Trace.{create, append, append_all, get_entries, size, capacity_of}
use mediasoup_cpp.Trace.Window.{last, append_all-create}

abbrev three : List ℕ
three = 1 ∷ 2 ∷ 3 ∷ []

append_all-create_example :
    let b = append_all (create (some (pos 2))) three in
    (get_entries b ≡ last (capacity_of (some (pos 2))) three)
    × (size b ≡ min (length three) (capacity_of (some (pos 2))))
    × (1 ≤ capacity_of (some (pos 2)))
append_all-create_example = append_all-create (some (pos 2)) three

keeps_two : get_entries (append_all (create (some (pos 2))) three) ≡ 2 ∷ 3 ∷ []
unfolding create append append_all get_entries
keeps_two = refl
