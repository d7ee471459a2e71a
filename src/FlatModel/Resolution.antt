-- ===== src/FlatModel/Resolution.antt =====
-- The rows of a capture whose symbols have been resolved, by what was resolved.
use mathlib.Core.Option.{map}
use ig_cachesim.Common.{
  ℕ, ◌+◌, ◌*◌, ◌%◌, ◌^◌, ◌<◌, ◌≡◌, ap, ◌∙◌, All, Option, some, false, [], List, get_or, length,
}
use ig_cachesim.Capture.{File}
use ig_cachesim.Capture.Data.{SerializedNode, get_stats}
use ig_cachesim.TraceData.{
  Text, same_text, ResolvedSymbol, symbol_resolve_task, is_resolved, resized, symbols_resolved,
}
use ig_cachesim.TraceData.Serialized.{ResolvedOnce, resolved_at, text_size}
use ig_cachesim.TraceData.Resolved.{FitsResolved, small_result, address_name-resolved}
use ig_cachesim.TraceData.Kept.{IsLaidOut, symbols_resolved-keeps}
use ig_cachesim.Profile.Rows.{row_stats}
use ig_cachesim.Profile.Nodes.{total_of}
use ig_cachesim.FileData.{Caches, Lookup, symbols_resolved_store}
use ig_cachesim.FileData.Resolved.{
  find_symbol-resized, resolved_file, caches_after, caches_after-AreCached,
}
use ig_cachesim.FlatModel.{data_store_changed, data_store_changed_cached}
use ig_cachesim.FlatModel.Cached.{
  data_store_changed_cached_lem, data_store_changed_cached_unresolved,
}
use ig_cachesim.FlatModel.Listed.{node_name, data_store_changed-totals}

-- The name that was resolved for the address of a node.
abbrev pub resolved_name : List ResolvedSymbol → SerializedNode → Option Text
resolved_name rs n = map (λ r. r.symbol_name) (resolved_at rs n.rip)

module _ (f : File) (rs : List ResolvedSymbol) (laid : IsLaidOut f) (fits : All FitsResolved rs)
    (once : ResolvedOnce rs) (small : length f + length rs * 32 + (1 + text_size rs) * 2 < 2 ^ 32)
    (new : is_resolved f ≡ false) (during after : List Lookup) where
  total_resolved :
      (name : Text) (k : ℕ)
      → k < 8
      → get_or
          (row_stats same_text name
            (data_store_changed (symbols_resolved (symbol_resolve_task (some rs)) f)))
          k
          0
        ≡ total_of same_text (resolved_name rs) name k (get_stats f) % 2 ^ 32
  total_resolved name k k_small =
      let g = symbols_resolved (symbol_resolve_task (some rs)) f in
      let kept =
        symbols_resolved-keeps f (symbol_resolve_task (some rs)) laid
          (small_result f rs laid.header fits once small) in
      data_store_changed-totals g name k k_small
      ∙ ap (λ ns. total_of same_text (node_name g) name k ns % 2 ^ 32) kept.2
      ∙ ap (λ key. total_of same_text key name k (get_stats f) % 2 ^ 32)
          (λ i n. address_name-resolved f rs laid.header fits once small n.rip i)

  -- When a file that was not resolved before is resolved, a flat profile that is open is made again
  -- without rows, before the symbols are written. In a profile that is made after the resolution,
  -- through the cache and whatever has been looked up, the row of a name has in each of the eight
  -- counters the sum, to 32 bits, over the nodes of the file before the resolution whose address
  -- was resolved to the name. The tables of the file lie behind its header and inside it, no
  -- address is resolved twice, the values fit their fields, the names have no zero inside, and the
  -- file stays smaller than 2^32 bytes.
  pub data_store_changed-resolved :
      (c : Caches) (name : Text) (k : ℕ)
      → k < 8
      → ((data_store_changed_cached (resized (symbol_resolve_task (some rs)) f) c).0 ≡ [])
        × (get_or
              (row_stats same_text name
                (data_store_changed_cached
                  (resolved_file f rs laid.header fits once small new during after)
                  (caches_after f rs laid.header fits once small new during after)).0)
              k
              0
            ≡ total_of same_text (resolved_name rs) name k (get_stats f) % 2 ^ 32)
  unfolding symbols_resolved_store
  data_store_changed-resolved c name k k_small =
      let g = resolved_file f rs laid.header fits once small new during after in
      let after_all = caches_after f rs laid.header fits once small new during after in
      let r = symbol_resolve_task (some rs) in
      (
        data_store_changed_cached_unresolved (resized r f) c (λ rip.
            find_symbol-resized f r rip laid.header (small_result f rs laid.header fits once small)
              new),
        ap (λ rows. get_or (row_stats same_text name rows) k 0)
              (data_store_changed_cached_lem g after_all
                (caches_after-AreCached f rs laid.header fits once small new during after))
            ∙ total_resolved name k k_small,
      )
