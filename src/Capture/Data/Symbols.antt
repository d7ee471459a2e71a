-- ===== src/Capture/Data/Symbols.antt =====
-- `FindSymbol` of CacheSim/CacheSimData.h. `std::lower_bound` gives the first symbol that is not before the
-- address.
use ig_cachesim.Common.{
  ℕ, suc, ◌≤◌, ◌<◌, ◌≡◌, refl, All, List, [], ◌∷◌, Option, none, some, ◌==◌, ltb, if◌then◌else◌,
  get_elem?, arith,
}
use ig_cachesim.Capture.Data.{SerializedSymbol, get_symbols}

unfoldable pub lower_bound : List SerializedSymbol → ℕ → ℕ
lower_bound [] rip = 0
lower_bound (s ∷ ss) rip = let rest = lower_bound ss rip in if ltb s.rip rip then suc rest else 0

-- The search in the symbols of a file; a null pointer is `none`.
unfoldable pub find_among : List SerializedSymbol → ℕ → Option SerializedSymbol
find_among ss rip = elim (get_elem? ss (lower_bound ss rip)) [
  | none ↦ none
  | some s ↦ if s.rip == rip then some s else none
]

unfoldable pub find_symbol : List ℕ → ℕ → Option SerializedSymbol
find_symbol f rip = find_among (get_symbols f) rip

-- A search through all symbols.
unfoldable pub search : List SerializedSymbol → ℕ → Option SerializedSymbol
search [] rip = none
search (s ∷ ss) rip = if s.rip == rip then some s else search ss rip

-- The symbols by address.
abbrev pub IsSorted : List SerializedSymbol → Type 0
IsSorted [] = Unit
IsSorted (s ∷ ss) = All (λ x. s.rip ≤ x.rip) ss × IsSorted ss

search_above :
    (ss : List SerializedSymbol) (a rip : ℕ)
    → All (λ x. a ≤ x.rip) ss
    → rip < a
    → search ss rip ≡ none
unfolding search
search_above [] a rip h l = refl
search_above (s ∷ ss) a rip h l = ground (arith, search_above ss a rip h.1, h.0)

find_among-search :
    (ss : List SerializedSymbol) (rip : ℕ) → IsSorted ss → find_among ss rip ≡ search ss rip
unfolding find_among lower_bound search
find_among-search [] rip h = refl
find_among-search (s ∷ ss) rip h =
    ground (arith, find_among-search ss rip h.1, search_above ss s.rip rip h.0)

-- In a file whose symbols are ordered by address, `FindSymbol` gives what a search through all
-- symbols gives: the first symbol of that address, or none.
pub find_symbol-search :
    (f : List ℕ) (rip : ℕ)
    → IsSorted (get_symbols f)
    → find_symbol f rip ≡ search (get_symbols f) rip
unfolding find_symbol
find_symbol-search f rip h = find_among-search (get_symbols f) rip h
