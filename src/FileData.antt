-- ===== src/FileData.antt =====
-- UI/TraceData.cpp: the strings that are read from a capture file through caches, and the lines of a symbol, `findFileData`. An
-- `int` is kept as its word of 32 bits.
pub mod Cached
pub mod Lines
pub mod Sorted
pub mod Found
pub mod Resolved
use ig_cachesim.Common.{
  ℕ, ◌+◌, ◌-◌, ◌*◌, ◌%◌, ◌^◌, Bool, true, false, Option, none, some, List, [], ◌∷◌, ◌==◌, ltb,
  if◌then◌else◌,
}
use ig_cachesim.Capture.{File}
use ig_cachesim.Capture.Data.{SerializedNode, SerializedSymbol, get_stats}
use ig_cachesim.Capture.Data.Symbols.{find_symbol}
use ig_cachesim.TraceData.{
  Text, same_text, find_string, symbol_string, ResolveResult, resized, symbols_resolved,
}
use ig_cachesim.Profile.Rows.{Row, tally}

-- `m_SymbolStringCache` and `m_StringToSymbolNameIndex`
pub record Caches : Type 0 where
  pub symbol_string_cache : List (ℕ × Text)
  pub string_to_symbol_name_index : List (Text × ℕ)

unfoldable pub find_offset : List (ℕ × Text) → ℕ → Option Text
find_offset [] offset = none
find_offset (e ∷ es) offset = if e.0 == offset then some e.1 else find_offset es offset

-- `internedSymbolString`
unfoldable pub interned_symbol_string : File → ℕ → Caches → Text × Caches
interned_symbol_string f offset c = elim (find_offset c.symbol_string_cache offset) [
  | some s ↦ (s, c)
  | none ↦
      let result = symbol_string f offset in
      (
        result,
        record {
          symbol_string_cache = (offset, result) ∷ c.symbol_string_cache;
          string_to_symbol_name_index = (result, offset) ∷ c.string_to_symbol_name_index;
        },
      )
]

-- After `clear`.
abbrev pub no_caches : Caches
no_caches = record { symbol_string_cache = []; string_to_symbol_name_index = [] }

-- The string of a symbol, or a null `QString`, which is `none`.
unfoldable pub symbol_text :
    File → (SerializedSymbol → ℕ) → Option SerializedSymbol → Caches → Option Text × Caches
symbol_text f offset none c = (none, c)
symbol_text f offset (some symbol) c =
    let (s, c') = interned_symbol_string f (offset symbol) c in (some s, c')

-- `symbolNameForAddress`
unfoldable pub symbol_name_for_address : File → ℕ → Caches → Option Text × Caches
symbol_name_for_address f rip c = symbol_text f (λ s. s.symbol_name) (find_symbol f rip) c

-- `fileNameForAddress`
unfoldable pub file_name_for_address : File → ℕ → Caches → Option Text × Caches
file_name_for_address f rip c = symbol_text f (λ s. s.file_name) (find_symbol f rip) c

-- What the views look up.
pub data Lookup : Type 0 where
  name_at file_at : ℕ → Lookup

unfoldable pub look_up : File → Lookup → Caches → Caches
look_up f (name_at rip) c = (symbol_name_for_address f rip c).1
look_up f (file_at rip) c = (file_name_for_address f rip c).1

unfoldable pub look_ups : File → List Lookup → Caches → Caches
look_ups f [] c = c
look_ups f (l ∷ ls) c = look_ups f ls (look_up f l c)

-- `symbolsResolved` with the caches. They are cleared, and the listeners of `memoryMappedDataChanged` look names up
-- in the resized file before the symbols, the strings and the new header are written.
unfoldable pub symbols_resolved_store : List Lookup → ResolveResult → File → File × Caches
symbols_resolved_store lookups r f =
    (symbols_resolved r f, look_ups (resized r f) lookups no_caches)

-- The lines of a symbol, `LineData` by their number; no line has the words `first_line` and `last_line` of
-- `INT_MAX` and `INT_MIN`.
pub record FileInfo : Type 0 where
  pub file_name : Text
  pub first_line : ℕ
  pub last_line : ℕ
  pub samples : List (Row ℕ)

-- The order of `int`.
unfoldable pub int_below : ℕ → ℕ → Bool
int_below a b = ltb ((a + 2 ^ 31) % 2 ^ 32) ((b + 2 ^ 31) % 2 ^ 32)

-- `fileName`, which is set while it is empty.
unfoldable pub set_file_name : File → ℕ → Text → Caches → Text × Caches
set_file_name f offset [] c = interned_symbol_string f offset c
set_file_name f offset (x ∷ xs) c = (x ∷ xs, c)

-- What is added for a node whose symbol is at a line.
unfoldable pub add_line : Text → ℕ → List ℕ → FileInfo → FileInfo
add_line file_name line_no stats info = record {
  file_name = file_name;
  first_line = if int_below line_no info.first_line then line_no else info.first_line;
  last_line = if int_below info.last_line line_no then line_no else info.last_line;
  samples = tally (λ a b. a == b) line_no stats info.samples;
}

-- What a round of the loop over the nodes does with the symbol of the node.
unfoldable pub add_symbol :
    File → Text → Option SerializedSymbol → List ℕ → FileInfo → Caches → FileInfo × Caches
add_symbol f symbol none stats info c = (info, c)
add_symbol f symbol (some sym) stats info c =
    let (name, c1) = interned_symbol_string f sym.symbol_name c in
    let (file, c2) = set_file_name f sym.file_name info.file_name c1 in
    if same_text name symbol then (add_line file sym.line_number stats info, c2) else (info, c1)

unfoldable pub add_file_nodes :
    File → Text → List SerializedNode → FileInfo → Caches → FileInfo × Caches
add_file_nodes f symbol [] info c = (info, c)
add_file_nodes f symbol (n ∷ ns) info c =
    let (info1, c1) = add_symbol f symbol (find_symbol f n.rip) n.stats info c in
    add_file_nodes f symbol ns info1 c1

-- `std::sort` by line, no two of which are equal.
unfoldable pub insert_line : Row ℕ → List (Row ℕ) → List (Row ℕ)
insert_line x [] = x ∷ []
insert_line x (y ∷ ys) =
    let rest = insert_line x ys in if int_below x.key y.key then x ∷ (y ∷ ys) else y ∷ rest

unfoldable pub sort_lines : List (Row ℕ) → List (Row ℕ)
sort_lines [] = []
sort_lines (x ∷ xs) = insert_line x (sort_lines xs)

-- `m_StringToSymbolNameIndex.value(symbol)`
unfoldable pub string_index : Caches → Text → ℕ
string_index c symbol = elim (find_string c.string_to_symbol_name_index symbol) [
  | none ↦ 0
  | some i ↦ i
]

-- `findFileData`
unfoldable pub find_file_data : File → Text → Caches → FileInfo × Caches
find_file_data f symbol c =
    let start : FileInfo = record {
      file_name = [];
      first_line = 2 ^ 31 - 1;
      last_line = 2 ^ 31;
      samples = [];
    } in
    let (info, c1) = add_file_nodes f symbol (get_stats f) start c in
    if string_index c symbol == 0
    then (record { file_name = []; first_line = 0; last_line = 0; samples = [] }, c)
    else (record info { samples = sort_lines info.samples }, c1)
