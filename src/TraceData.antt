-- ===== src/TraceData.antt =====
-- UI/TraceData.cpp: the resolution of the symbols of a capture file, and what is looked up in it. A `QString` is
-- the list of its code units, a `QHash` an association list, and the mapped file the list of its bytes. What
-- `ResolveSymbols` finds is an argument.
pub mod Interned
pub mod Sorted
pub mod Serialized
pub mod Encoded
pub mod Overwrite
pub mod Written
pub mod Names
pub mod Resolved
pub mod Kept
use ig_cachesim.Common.{
  ℕ, zero, suc, ◌+◌, ◌*◌, ◌%◌, ◌^◌, Bool, true, false, Option, none, some, List, [], ◌∷◌, ◌++◌,
  ◌==◌, leb, ltb, if◌then◌else◌, take, replicate, length, ◌&&◌, ◌-◌,
}
use ig_cachesim.Stacks.{copy}
use ig_cachesim.Capture.{File, update}
use ig_cachesim.Capture.Bytes.{le, word, write_table}
use ig_cachesim.Capture.Data.{SerializedSymbol, symbol_count}
use ig_cachesim.Capture.Data.Symbols.{find_symbol}

abbrev pub Text : Type 0
Text = List ℕ

-- `operator==` of two `QString`.
abbrev pub same_text : Text → Text → Bool
same_text [] [] = true
same_text [] (d ∷ ds) = false
same_text (c ∷ cs) [] = false
same_text (c ∷ cs) (d ∷ ds) = c == d && same_text cs ds

-- `ResolvedSymbol` of UI/SymbolResolver.h
pub record ResolvedSymbol : Type 0 where
  pub rip : ℕ
  pub file_name : Text
  pub symbol_name : Text
  pub module_index : ℕ
  pub line_number : ℕ
  pub displacement : ℕ

-- `ResolveResult`
pub record ResolveResult : Type 0 where
  pub string_data : List ℕ
  pub symbols : List SerializedSymbol

-- `stringData` and `stringLookup`
pub record Strings : Type 0 where
  pub string_data : List ℕ
  pub string_lookup : List (Text × ℕ)

unfoldable pub find_string : List (Text × ℕ) → Text → Option ℕ
find_string [] s = none
find_string (e ∷ es) s = if same_text e.0 s then some e.1 else find_string es s

-- `intern_qstring`
unfoldable pub intern_qstring : Text → Strings → ℕ × Strings
intern_qstring s st = elim (find_string st.string_lookup s) [
  | some offset ↦ (offset, st)
  | none ↦
      let result = length st.string_data % 2 ^ 32 in
      (
        result,
        record {
          string_data = st.string_data ++ (s ++ (0 ∷ []));
          string_lookup = (s, result) ∷ st.string_lookup;
        },
      )
]

-- One round of the loop over the resolved symbols.
unfoldable pub serialize_symbol : ResolvedSymbol → Strings → SerializedSymbol × Strings
serialize_symbol symbol st =
    let (name, st1) = intern_qstring symbol.symbol_name st in
    let (file, st2) = intern_qstring symbol.file_name st1 in
    (
      record {
        rip = symbol.rip;
        file_name = file;
        symbol_name = name;
        module_index = symbol.module_index;
        line_number = symbol.line_number;
        displacement = symbol.displacement;
      },
      st2,
    )

unfoldable pub serialize_symbols : List ResolvedSymbol → Strings → List SerializedSymbol × Strings
serialize_symbols [] st = ([], st)
serialize_symbols (r ∷ rs) st =
    let (s, st1) = serialize_symbol r st in
    let (ss, st2) = serialize_symbols rs st1 in (s ∷ ss, st2)

-- `std::sort` by address. Symbols of one address may come in any order.
unfoldable pub insert_sorted : SerializedSymbol → List SerializedSymbol → List SerializedSymbol
insert_sorted x [] = x ∷ []
insert_sorted x (y ∷ ys) = if leb y.rip x.rip then y ∷ insert_sorted x ys else x ∷ y ∷ ys

unfoldable pub sort_symbols : List SerializedSymbol → List SerializedSymbol
sort_symbols [] = []
sort_symbols (x ∷ xs) = insert_sorted x (sort_symbols xs)

abbrev pub first_strings : Strings
first_strings = record { string_data = 0 ∷ []; string_lookup = [] }

-- `symbolResolveTask`; `none` is a failure of `ResolveSymbols`.
unfoldable pub symbol_resolve_task : Option (List ResolvedSymbol) → ResolveResult
symbol_resolve_task none = record { string_data = []; symbols = [] }
symbol_resolve_task (some resolved) =
    let (symbols, st) = serialize_symbols resolved first_strings in
    record { string_data = st.string_data; symbols = sort_symbols symbols }

-- The bytes of a `SerializedSymbol`, with its padding, and of a `QChar`.
abbrev pub encode_symbol : SerializedSymbol → List ℕ
encode_symbol s =
    le 8 s.rip
    ++ (le 4 0
        ++ (le 4 s.file_name
            ++ (le 4 s.symbol_name
                ++ (le 4 s.module_index ++ (le 4 s.line_number ++ le 4 s.displacement)))))

-- `m_File.resize`
unfoldable pub resize : ℕ → File → File
resize size f = take size f ++ replicate (size - length f) 0

-- `newHeader`, as the bytes of the old header with three new words.
unfoldable pub new_header : ℕ → ℕ → ℕ → File → File
new_header symbol_offset symbol_count symbol_text_offset f =
    update 44 symbol_text_offset (update 40 symbol_count (update 36 symbol_offset (take 48 f)))

-- The file when `symbolsResolved` has resized it, before it writes to it.
unfoldable pub resized : ResolveResult → File → File
resized r f =
    let text = (length f + length r.symbols % 2 ^ 32 * 32) % 2 ^ 32 in
    resize ((text + length r.string_data * 2) % 2 ^ 32) f

-- `symbolsResolved`: the file afterwards. Sizes and offsets are of 32 bits.
unfoldable pub symbols_resolved : ResolveResult → File → File
symbols_resolved r f =
    let offset = length f % 2 ^ 32 in
    let count = length r.symbols % 2 ^ 32 in
    let text = (length f + count * 32) % 2 ^ 32 in
    let total = (text + length r.string_data * 2) % 2 ^ 32 in
    let resized = resize total f in
    let with_symbols = copy resized offset (write_table encode_symbol r.symbols) in
    let with_strings = copy with_symbols text (write_table (le 2) r.string_data) in
    copy with_strings 0 (new_header offset count text f)

-- `isResolved`
unfoldable pub is_resolved : File → Bool
is_resolved f = ltb 0 (symbol_count f)

-- `m_SymbolTextOffset`
unfoldable pub symbol_text_offset : File → ℕ
symbol_text_offset f = word 4 f 44

-- `QString(const QChar*)` at an offset, in a file with the rounds left.
unfoldable pub qstring_at : ℕ → File → ℕ → Text
qstring_at zero f i = []
qstring_at (suc n) f i =
    let rest = qstring_at n f (i + 2) in if word 2 f i == 0 then [] else word 2 f i ∷ rest

-- The string that `internedSymbolString` reads when it is not in its cache.
unfoldable pub symbol_string : File → ℕ → Text
symbol_string f offset = qstring_at (length f) f (symbol_text_offset f + 2 * offset)

-- The names that a file has for an address, where no string is kept from before; a null `QString` is `none`. See
-- `symbol_name_for_address` of FileData.antt for the look-up with its cache.
unfoldable pub address_name : File → ℕ → Option Text
address_name f rip = elim (find_symbol f rip) [
  | none ↦ none
  | some s ↦ some (symbol_string f s.symbol_name)
]

unfoldable pub address_file : File → ℕ → Option Text
address_file f rip = elim (find_symbol f rip) [
  | none ↦ none
  | some s ↦ some (symbol_string f s.file_name)
]
