-- ===== src/Profile.antt =====
-- The counters that UI/TreeModel.cpp, UI/FlatModel.cpp and UI/TraceData.cpp add up. Those of a node of a capture file are a
-- list of `kAccessResultCount` words of 32 bits.
pub mod Sums
pub mod Rows
pub mod Nodes
use ig_cachesim.Common.{ℕ, ◌+◌, ◌%◌, ◌^◌, ◌≡◌, List, [], ◌∷◌, replicate, length}

abbrev pub no_counters : List ℕ
no_counters = replicate 8 0

-- The loop over `kAccessResultCount` that adds `m_Stats` of a node to those of a target.
unfoldable pub add_stats : List ℕ → List ℕ → List ℕ
add_stats [] ss = []
add_stats (t ∷ ts) [] = t ∷ ts
add_stats (t ∷ ts) (s ∷ ss) = ((t + s) % 2 ^ 32) ∷ add_stats ts ss
