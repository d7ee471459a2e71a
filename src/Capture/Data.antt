-- ===== src/Capture/Data.antt =====
-- CacheSim/CacheSimData.h: the structures of a capture file, and how the header finds them.
pub mod Symbols
use ig_cachesim.Common.{
  ℕ, zero, suc, ◌+◌, ◌%◌, ◌^◌, List, [], ◌∷◌, ◌==◌, if◌then◌else◌, get_or, length,
}
use ig_cachesim.Capture.Bytes.{word, read_table}

pub record SerializedModuleEntry : Type 0 where
  pub image_base : ℕ
  pub image_segment_offset : ℕ
  pub size_bytes : ℕ
  pub string_offset : ℕ

pub record SerializedNode : Type 0 where
  pub rip : ℕ
  pub stack_index : ℕ
  pub stats : List ℕ

pub record SerializedSymbol : Type 0 where
  pub rip : ℕ
  pub file_name : ℕ
  pub symbol_name : ℕ
  pub module_index : ℕ
  pub line_number : ℕ
  pub displacement : ℕ

-- The structures at an offset of the file.
unfoldable pub module_entry_at : List ℕ → ℕ → SerializedModuleEntry
module_entry_at f off = record {
  image_base = word 8 f off;
  image_segment_offset = word 8 f (off + 8);
  size_bytes = word 4 f (off + 16);
  string_offset = word 4 f (off + 20);
}

unfoldable pub node_at : List ℕ → ℕ → SerializedNode
node_at f off = record {
  rip = word 8 f off;
  stack_index = word 4 f (off + 8);
  stats = read_table 4 (word 4) 8 f (off + 12);
}

unfoldable pub symbol_at : List ℕ → ℕ → SerializedSymbol
symbol_at f off = record {
  rip = word 8 f off;
  file_name = word 4 f (off + 12);
  symbol_name = word 4 f (off + 16);
  module_index = word 4 f (off + 20);
  line_number = word 4 f (off + 24);
  displacement = word 4 f (off + 28);
}

-- The fields of `SerializedHeader`.
unfoldable pub magic : List ℕ → ℕ
magic f = word 4 f 0

unfoldable pub version : List ℕ → ℕ
version f = word 4 f 4

unfoldable pub module_offset : List ℕ → ℕ
module_offset f = word 4 f 8

unfoldable pub module_count : List ℕ → ℕ
module_count f = word 4 f 12

unfoldable pub module_string_offset : List ℕ → ℕ
module_string_offset f = word 4 f 16

unfoldable pub frame_offset : List ℕ → ℕ
frame_offset f = word 4 f 20

unfoldable pub frame_count : List ℕ → ℕ
frame_count f = word 4 f 24

unfoldable pub stats_offset : List ℕ → ℕ
stats_offset f = word 4 f 28

unfoldable pub stats_count : List ℕ → ℕ
stats_count f = word 4 f 32

unfoldable pub symbol_offset : List ℕ → ℕ
symbol_offset f = word 4 f 36

unfoldable pub symbol_count : List ℕ → ℕ
symbol_count f = word 4 f 40

-- The arrays that the header points to, each of its count.
unfoldable pub get_modules : List ℕ → List SerializedModuleEntry
get_modules f = read_table 24 module_entry_at (module_count f) f (module_offset f)

unfoldable pub get_stacks : List ℕ → List ℕ
get_stacks f = read_table 8 (word 8) (frame_count f) f (frame_offset f)

unfoldable pub get_stats : List ℕ → List SerializedNode
get_stats f = read_table 48 node_at (stats_count f) f (stats_offset f)

unfoldable pub get_symbols : List ℕ → List SerializedSymbol
get_symbols f = read_table 32 symbol_at (symbol_count f) f (symbol_offset f)

-- The bytes of a C string, with the bytes left in the file.
unfoldable pub c_string : ℕ → List ℕ → ℕ → List ℕ
c_string zero f i = []
c_string (suc n) f i =
    let rest = c_string n f (suc i) in if get_or f i 0 == 0 then [] else get_or f i 0 ∷ rest

unfoldable pub get_module_name : List ℕ → SerializedModuleEntry → List ℕ
get_module_name f m = c_string (length f) f ((module_string_offset f + m.string_offset) % 2 ^ 32)
