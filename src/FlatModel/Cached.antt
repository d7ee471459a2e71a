-- ===== src/FlatModel/Cached.antt =====
-- The loops of the flat profile with the caches of `internedSymbolString`, beside those with the names of the file.
use ig_cachesim.Common.{ℕ, ◌≡◌, refl, ap, none, inl, inr, List, [], ◌∷◌, Option-cases}
use ig_cachesim.Capture.{File}
use ig_cachesim.Capture.Data.{SerializedNode, get_stats}
use ig_cachesim.Capture.Data.Symbols.{find_symbol}
use ig_cachesim.FileData.{Caches}
use ig_cachesim.FileData.Cached.{AreCached}
use ig_cachesim.FileData.Resolved.{symbol_name_for_address-AreCached, symbol_name_for_address_lem}
use ig_cachesim.FlatModel.{
  FlatRows, add_flat, add_flat_cached, data_store_changed, data_store_changed_cached,
}

add_flat_cached_lem :
    (f : File) (ns : List SerializedNode) (st : FlatRows) (c : Caches)
    → AreCached f c
    → (add_flat_cached f ns st c).0 ≡ add_flat f ns st
unfolding add_flat_cached add_flat
add_flat_cached_lem f [] st c v = refl
add_flat_cached_lem f (n ∷ ns) st c v = elim (Option-cases (find_symbol f n.rip)) [
  | inl e ↦ rw (e, add_flat_cached, add_flat) (add_flat_cached_lem f ns st c v)
  | inr (s, e) ↦
      rw (e, add_flat_cached, add_flat, symbol_name_for_address_lem f n.rip c v)
        (add_flat_cached_lem f ns _ _ (symbol_name_for_address-AreCached f n.rip c v))
]

-- Where the caches hold strings of the file, the rows are those with the names of the file.
pub data_store_changed_cached_lem :
    (f : File) (c : Caches)
    → AreCached f c
    → (data_store_changed_cached f c).0 ≡ data_store_changed f
unfolding data_store_changed_cached data_store_changed
data_store_changed_cached_lem f c v =
    ap (λ (st : FlatRows). st.rows) (add_flat_cached_lem f (get_stats f) _ c v)

add_flat_cached_unresolved :
    (f : File) (ns : List SerializedNode) (st : FlatRows) (c : Caches)
    → ((rip : ℕ) → find_symbol f rip ≡ none)
    → (add_flat_cached f ns st c).0 ≡ st
unfolding add_flat_cached
add_flat_cached_unresolved f [] st c h = refl
add_flat_cached_unresolved f (n ∷ ns) st c h =
    rw (h n.rip, add_flat_cached) (add_flat_cached_unresolved f ns st c h)

-- A file without symbols has no rows.
pub data_store_changed_cached_unresolved :
    (f : File) (c : Caches)
    → ((rip : ℕ) → find_symbol f rip ≡ none)
    → (data_store_changed_cached f c).0 ≡ []
unfolding data_store_changed_cached
data_store_changed_cached_unresolved f c h =
    ap (λ (st : FlatRows). st.rows) (add_flat_cached_unresolved f (get_stats f) _ c h)
