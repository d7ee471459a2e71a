-- ===== src/TraceData/Resolved.antt =====
-- The names that a file has after a resolution, see UI/TraceData.cpp.
use mathlib.Core.Path.{subst}
use mathlib.Core.Option.{map}
use ig_cachesim.Common.{
  ℕ, ◌+◌, ◌*◌, ◌^◌, ◌≤◌, ◌<◌, ◌≡◌, All, refl, ap, sym, ◌∙◌, Option, none, some, inl, inr, List, [],
  ◌∷◌, ◌++◌, arith, length, length-append, Bool-cases, ◌==◌,
}
use ig_cachesim.Capture.{File}
use ig_cachesim.Capture.Data.{SerializedSymbol, get_symbols}
use ig_cachesim.Capture.Data.Symbols.{IsSorted, find_symbol, search, find_symbol-search}
use ig_cachesim.TraceData.{
  Text, ResolvedSymbol, first_strings, serialize_symbols, sort_symbols, symbol_resolve_task,
  symbols_resolved, symbol_string, address_name, address_file,
}
use ig_cachesim.TraceData.Interned.{Holds}
use ig_cachesim.TraceData.Sorted.{
  All-sort_symbols, sort_symbols-IsSorted, search-sort_symbols, length-sort_symbols,
}
use ig_cachesim.TraceData.Serialized.{
  Serves, AllServe, text_size, SerializesAll, serialize_symbols-SerializesAll, resolved_at,
  FoundServes, search-FoundServes, ResolvedOnce, AllServe-AreDistinct,
}
use ig_cachesim.TraceData.Encoded.{FitsSymbol, IsText}
use ig_cachesim.TraceData.Written.{header_parts, symbols_resolved-parts}
use ig_cachesim.TraceData.Names.{written, get_symbols-written, symbol_string-written}

-- Values that a serialized symbol can hold, and names without an end inside.
pub record FitsResolved (r : ResolvedSymbol) : Type 0 where
  pub rip : r.rip < 2 ^ 64
  pub symbol_name : IsText r.symbol_name
  pub file_name : IsText r.file_name
  pub module_index : r.module_index < 2 ^ 32
  pub line_number : r.line_number < 2 ^ 32
  pub displacement : r.displacement < 2 ^ 32

Holds-bound :
    (units : List ℕ) (s : Text) (offset : ℕ) → Holds units s offset → offset < length units
Holds-bound units s offset h = omega (
  arith,
  h.place,
  ap length h.split,
  length-append h.front (s ++ (0 ∷ h.back)),
  length-append s (0 ∷ h.back),
)

Serves-FitsSymbol :
    (units : List ℕ) (r : ResolvedSymbol) (s : SerializedSymbol)
    → length units < 2 ^ 32
    → FitsResolved r
    → Serves units r s
    → FitsSymbol s
Serves-FitsSymbol units r s small f h = record {
  rip = omega (arith, f.rip, h.rip);
  file_name = omega (arith, small, Holds-bound units r.file_name s.file_name h.file_name);
  symbol_name = omega (arith, small, Holds-bound units r.symbol_name s.symbol_name h.symbol_name);
  module_index = omega (arith, f.module_index, h.module_index);
  line_number = omega (arith, f.line_number, h.line_number);
  displacement = omega (arith, f.displacement, h.displacement);
}

All-FitsSymbol :
    (units : List ℕ) (rs : List ResolvedSymbol) (ss : List SerializedSymbol)
    → length units < 2 ^ 32
    → All FitsResolved rs
    → AllServe units rs ss
    → All FitsSymbol ss
All-FitsSymbol units [] [] small f h = tt
All-FitsSymbol units [] (s ∷ ss) small f h = absurd (omega (arith, h))
All-FitsSymbol units (r ∷ rs) [] small f h = tt
All-FitsSymbol units (r ∷ rs) (s ∷ ss) small f h =
    (Serves-FitsSymbol units r s small f.0 h.0, All-FitsSymbol units rs ss small f.1 h.1)

-- What holds of all symbols holds of the one that is found.
Found : (ResolvedSymbol → Type 0) → Option ResolvedSymbol → Type 0
Found P none = Unit
Found P (some r) = P r

All-resolved_at :
    (rs : List ResolvedSymbol) (rip : ℕ)
    → All FitsResolved rs
    → Found FitsResolved (resolved_at rs rip)
unfolding resolved_at Found
All-resolved_at [] rip h = tt
All-resolved_at (r ∷ rs) rip h = elim (Bool-cases (r.rip == rip)) [
  | inl e ↦ rw e h.0
  | inr e ↦ rw e (All-resolved_at rs rip h.1)
]

module _ (f : File) (rs : List ResolvedSymbol) (header : 48 ≤ length f) (fits : All FitsResolved rs)
    (once : ResolvedOnce rs)
    (small : length f + length rs * 32 + (1 + text_size rs) * 2 < 2 ^ 32) where
  abbrev pub resolved : File
  resolved = symbols_resolved (symbol_resolve_task (some rs)) f

  all : SerializesAll rs first_strings (serialize_symbols rs first_strings)
  all = serialize_symbols-SerializesAll rs first_strings tt (omega (arith, small))

  units : List ℕ
  units = (serialize_symbols rs first_strings).1.string_data

  found : List SerializedSymbol
  found = sort_symbols (serialize_symbols rs first_strings).0

  small_file : length f + length found * 32 + length units * 2 < 2 ^ 32
  unfolding found units
  small_file = omega (
    arith,
    small,
    all.bound,
    all.count,
    length-sort_symbols (serialize_symbols rs first_strings).0,
  )

  pub small_result :
      length f
        + length (symbol_resolve_task (some rs)).symbols * 32
        + length (symbol_resolve_task (some rs)).string_data * 2
      < 2 ^ 32
  unfolding symbol_resolve_task found units
  small_result = small_file

  resolved-written : resolved ≡ written f (header_parts f header) found units small_file
  unfolding symbol_resolve_task found units
  resolved-written =
      symbols_resolved-parts f (header_parts f header)
        (record { string_data = units; symbols = found }) small_file

  fits_found : All FitsSymbol found
  unfolding found units
  fits_found = All-sort_symbols FitsSymbol (serialize_symbols rs first_strings).0 (
      All-FitsSymbol units rs (serialize_symbols rs first_strings).0 (omega (arith, small_file))
        fits all.serves)

  get_symbols-resolved : get_symbols resolved ≡ found
  get_symbols-resolved =
      ap get_symbols resolved-written
      ∙ get_symbols-written f (header_parts f header) found units small_file fits_found

  find_symbol-resolved :
      (rip : ℕ) → FoundServes units (resolved_at rs rip) (find_symbol resolved rip)
  unfolding found units
  find_symbol-resolved rip =
      let raw = (serialize_symbols rs first_strings).0 in
      let sorted : IsSorted (get_symbols resolved) =
        subst IsSorted (sym get_symbols-resolved) (sort_symbols-IsSorted raw) in
      let same : find_symbol resolved rip ≡ search raw rip =
        find_symbol-search resolved rip sorted
        ∙ ap (λ l. search l rip) get_symbols-resolved
        ∙ search-sort_symbols raw rip (AllServe-AreDistinct units rs raw all.serves once) in
      subst (FoundServes units (resolved_at rs rip)) (sym same)
        (search-FoundServes units rs raw rip all.serves)

  symbol_string-resolved :
      (s : Text) (offset : ℕ) → IsText s → Holds units s offset → symbol_string resolved offset ≡ s
  symbol_string-resolved s offset t h =
      ap (λ g. symbol_string g offset) resolved-written
      ∙ symbol_string-written f (header_parts f header) found units small_file s offset t h

  -- A name of the symbol that is found, from the name that was resolved.
  name_found :
      (name : ResolvedSymbol → Text) (offset : SerializedSymbol → ℕ)
      → ((r : ResolvedSymbol) (s : SerializedSymbol)
          → Serves units r s
          → Holds units (name r) (offset s))
      → ((r : ResolvedSymbol) → FitsResolved r → IsText (name r))
      → (o : Option ResolvedSymbol) (q : Option SerializedSymbol) → FoundServes units o q
      → Found FitsResolved o
      → map (λ s. symbol_string resolved (offset s)) q ≡ map name o
  unfolding Found
  name_found name offset held is_text none none h k = refl
  name_found name offset held is_text none (some s) h k = absurd (omega (arith, h))
  name_found name offset held is_text (some r) none h k = absurd (omega (arith, h))
  name_found name offset held is_text (some r) (some s) h k =
      ap some (symbol_string-resolved (name r) (offset s) (is_text r k) (held r s h))

  -- After `symbolResolveTask` and `symbolsResolved` the file has the name that was
  -- resolved for an address, and a null string if none was. The file has its header of 48 bytes, no
  -- address is resolved twice, the values fit their fields, the names have no zero inside, and the
  -- file stays smaller than 2^32 bytes.
  pub address_name-resolved :
      (rip : ℕ) → address_name resolved rip ≡ map (λ r. r.symbol_name) (resolved_at rs rip)
  unfolding address_name
  address_name-resolved rip =
      name_found (λ r. r.symbol_name) (λ s. s.symbol_name) (λ r s h. h.symbol_name)
        (λ r h. h.symbol_name) (resolved_at rs rip) (find_symbol resolved rip)
        (find_symbol-resolved rip) (All-resolved_at rs rip fits)

  -- The same for `fileNameForAddress`.
  pub address_file-resolved :
      (rip : ℕ) → address_file resolved rip ≡ map (λ r. r.file_name) (resolved_at rs rip)
  unfolding address_file
  address_file-resolved rip =
      name_found (λ r. r.file_name) (λ s. s.file_name) (λ r s h. h.file_name) (λ r h. h.file_name)
        (resolved_at rs rip) (find_symbol resolved rip) (find_symbol-resolved rip)
        (All-resolved_at rs rip fits)
