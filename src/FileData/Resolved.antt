-- ===== src/FileData/Resolved.antt =====
-- The names that are looked up through the caches after `symbolsResolved` of UI/TraceData.cpp.
use mathlib.Core.Option.{map}
use ig_cachesim.Common.{
  ℕ, ◌+◌, ◌*◌, ◌%◌, ◌^◌, ◌≤◌, ◌<◌, ◌≡◌, All, refl, ap, ◌∙◌, false, Option, none, some, inl, inr,
  List, [], ◌∷◌, arith, length, take, take_all, Option-cases,
}
use ig_cachesim.Capture.{File}
use ig_cachesim.Capture.Bytes.{read_table}
use ig_cachesim.Capture.Data.{SerializedSymbol, get_symbols, symbol_count}
use ig_cachesim.Capture.Data.Symbols.{find_symbol, find_among}
use ig_cachesim.TraceData.{
  ResolvedSymbol, ResolveResult, symbol_resolve_task, address_name, is_resolved, resize, resized,
  symbols_resolved,
}
use ig_cachesim.TraceData.Kept.{word-front}
use ig_cachesim.TraceData.Serialized.{ResolvedOnce, resolved_at, text_size}
use ig_cachesim.TraceData.Resolved.{FitsResolved, small_result, address_name-resolved}
use ig_cachesim.FileData.{
  Caches, no_caches, symbol_text, symbol_name_for_address, file_name_for_address, Lookup, name_at,
  file_at, look_up, look_ups, symbols_resolved_store,
}
use ig_cachesim.FileData.Cached.{AreCached, interned_symbol_string-Reads}

pub no_caches-AreCached : (f : File) → AreCached f no_caches
no_caches-AreCached f = record { strings = tt; index = tt }

symbol_text-AreCached :
    (f : File) (offset : SerializedSymbol → ℕ) (o : Option SerializedSymbol) (c : Caches)
    → AreCached f c
    → AreCached f (symbol_text f offset o c).1
unfolding symbol_text
symbol_text-AreCached f offset none c v = v
symbol_text-AreCached f offset (some s) c v = (interned_symbol_string-Reads f (offset s) c v).cached

pub symbol_name_for_address-AreCached :
    (f : File) (rip : ℕ) (c : Caches)
    → AreCached f c
    → AreCached f (symbol_name_for_address f rip c).1
unfolding symbol_name_for_address
symbol_name_for_address-AreCached f rip c v =
    symbol_text-AreCached f (λ s. s.symbol_name) (find_symbol f rip) c v

-- Where the caches hold strings of the file, the name is that of the file.
pub symbol_name_for_address_lem :
    (f : File) (rip : ℕ) (c : Caches)
    → AreCached f c
    → (symbol_name_for_address f rip c).0 ≡ address_name f rip
unfolding symbol_name_for_address address_name symbol_text
symbol_name_for_address_lem f rip c v = elim (Option-cases (find_symbol f rip)) [
  | inl e ↦ rw (e, symbol_text, address_name) refl
  | inr (s, e) ↦
      rw (e, symbol_text, address_name)
        (ap some (interned_symbol_string-Reads f s.symbol_name c v).text)
]

pub look_ups-AreCached :
    (f : File) (ls : List Lookup) (c : Caches) → AreCached f c → AreCached f (look_ups f ls c)
unfolding look_ups look_up file_name_for_address
look_ups-AreCached f [] c v = v
look_ups-AreCached f (name_at rip ∷ ls) c v =
    look_ups-AreCached f ls _ (symbol_name_for_address-AreCached f rip c v)
look_ups-AreCached f (file_at rip ∷ ls) c v =
    look_ups-AreCached f ls _ (symbol_text-AreCached f (λ s. s.file_name) (find_symbol f rip) c v)

look_up_unresolved :
    (f : File) (l : Lookup) (c : Caches)
    → ((rip : ℕ) → find_symbol f rip ≡ none)
    → look_up f l c ≡ c
unfolding look_up symbol_name_for_address file_name_for_address symbol_text
look_up_unresolved f (name_at rip) c h =
    ap (λ o. (symbol_text f (λ s. s.symbol_name) o c).1) (h rip)
look_up_unresolved f (file_at rip) c h = ap (λ o. (symbol_text f (λ s. s.file_name) o c).1) (h rip)

-- A file without symbols leaves the caches as they are.
look_ups_unresolved :
    (f : File) (ls : List Lookup) (c : Caches)
    → ((rip : ℕ) → find_symbol f rip ≡ none)
    → look_ups f ls c ≡ c
unfolding look_ups
look_ups_unresolved f [] c h = refl
look_ups_unresolved f (l ∷ ls) c h =
    ap (look_ups f ls) (look_up_unresolved f l c h) ∙ look_ups_unresolved f ls c h

find_symbol_empty : (f : File) (rip : ℕ) → symbol_count f ≡ 0 → find_symbol f rip ≡ none
unfolding find_symbol get_symbols read_table find_among
find_symbol_empty f rip e =
    let none_read : get_symbols f ≡ [] = rw (e, read_table) refl in rw (none_read, find_among) refl

symbol_count-resized :
    (f : File) (r : ResolveResult)
    → 48 ≤ length f
    → length f + length r.symbols * 32 + length r.string_data * 2 < 2 ^ 32
    → symbol_count (resized r f) ≡ symbol_count f
unfolding symbol_count resized resize
symbol_count-resized f r header small =
    let total =
      ((length f + length r.symbols % 2 ^ 32 * 32) % 2 ^ 32 + length r.string_data * 2) % 2 ^ 32 in
    let whole : take total f ≡ f = take_all total f (omega arith) in
    rw whole (word-front 4 f _ 40 (omega arith))

-- Before its header is written, a file that was not resolved has no symbol for any address.
pub find_symbol-resized :
    (f : File) (r : ResolveResult) (rip : ℕ)
    → 48 ≤ length f
    → length f + length r.symbols * 32 + length r.string_data * 2 < 2 ^ 32
    → is_resolved f ≡ false
    → find_symbol (resized r f) rip ≡ none
unfolding is_resolved
find_symbol-resized f r rip header small new =
    let zero_count : symbol_count f ≡ 0 = ground (arith, new) in
    find_symbol_empty (resized r f) rip (symbol_count-resized f r header small ∙ zero_count)

module _ (f : File) (rs : List ResolvedSymbol) (header : 48 ≤ length f) (fits : All FitsResolved rs)
    (once : ResolvedOnce rs) (small : length f + length rs * 32 + (1 + text_size rs) * 2 < 2 ^ 32)
    (new : is_resolved f ≡ false) (during after : List Lookup) where
  -- The file and the caches when names have been looked up during and after a resolution.
  abbrev pub resolved_file : File
  resolved_file = (symbols_resolved_store during (symbol_resolve_task (some rs)) f).0

  abbrev pub caches_after : Caches
  caches_after =
      look_ups resolved_file after
        (symbols_resolved_store during (symbol_resolve_task (some rs)) f).1

  pub caches_after-AreCached : AreCached resolved_file caches_after
  unfolding symbols_resolved_store
  caches_after-AreCached =
      let r = symbol_resolve_task (some rs) in
      let empty = look_ups_unresolved (resized r f) during no_caches (λ rip.
        find_symbol-resized f r rip header (small_result f rs header fits once small) new) in
      look_ups-AreCached (symbols_resolved r f) after _
        (rw empty (no_caches-AreCached (symbols_resolved r f)))

  -- After `symbolResolveTask` and `symbolsResolved` of a file that was not resolved before,
  -- `symbolNameForAddress` gives, through its cache, the name that was resolved for an address, and
  -- a null string if none was, whatever names the views have looked up before the symbols were
  -- written and since. The file has its header of 48 bytes, no address is resolved twice, the
  -- values fit their fields, the names have no zero inside, and the file stays smaller than 2^32
  -- bytes.
  pub symbol_name_for_address-resolved :
      (rip : ℕ)
      → (symbol_name_for_address resolved_file rip caches_after).0
        ≡ map (λ r. r.symbol_name) (resolved_at rs rip)
  unfolding symbols_resolved_store
  symbol_name_for_address-resolved rip =
      symbol_name_for_address_lem resolved_file rip caches_after caches_after-AreCached
      ∙ address_name-resolved f rs header fits once small rip
