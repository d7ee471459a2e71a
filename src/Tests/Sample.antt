-- ===== src/Tests/Sample.antt =====
-- A small capture file and the symbols of its addresses, for the tests of what the viewer reads.
use ig_cachesim.Common.{ℕ, ◌+◌, ◌*◌, ◌^◌, ◌<◌, All, some, List, [], ◌∷◌, ◌++◌, length, arith}
use ig_cachesim.Capture.{File}
use ig_cachesim.Capture.Bytes.{le, word, write_table}
use ig_cachesim.Capture.Data.{
  module_offset, module_count, frame_offset, frame_count, stats_offset, stats_count,
}
use ig_cachesim.TraceData.{Text, ResolvedSymbol, symbol_resolve_task, symbols_resolved}
use ig_cachesim.TraceData.Serialized.{ResolvedOnce, text_size}
use ig_cachesim.TraceData.Resolved.{FitsResolved}
use ig_cachesim.TraceData.Kept.{IsLaidOut}

abbrev pub leaf_text : Text
leaf_text = 102 ∷ []

abbrev pub main_text : Text
main_text = 109 ∷ 97 ∷ 105 ∷ 110 ∷ []

abbrev pub file_text : Text
file_text = 97 ∷ 46 ∷ 99 ∷ []

-- One module, a stack of one frame, and one node.
abbrev pub header_words : List ℕ
header_words = 0xbeefcace ∷ 1 ∷ 48 ∷ 1 ∷ 136 ∷ 72 ∷ 2 ∷ 88 ∷ 1 ∷ 0 ∷ 0 ∷ 0 ∷ []

unfoldable pub sample : File
unfolding le write_table
sample =
    write_table (le 4) header_words
    ++ (le 8 0x400000
        ++ (le 8 0
            ++ (le 4 0x2000
                ++ (le 4 0
                    ++ (le 8 0x401100
                        ++ (le 8 0
                            ++ (le 8 0x401000
                                ++ (le 4 0
                                    ++ write_table (le 4)
                                        (5 ∷ 1 ∷ 0 ∷ 0 ∷ 2 ∷ 0 ∷ 0 ∷ 1 ∷ 0 ∷ [])))))))))

abbrev pub leaf_symbol : ResolvedSymbol
leaf_symbol = record {
  rip = 0x401000;
  file_name = file_text;
  symbol_name = 102 ∷ [];
  module_index = 0;
  line_number = 10;
  displacement = 0;
}

abbrev pub main_symbol : ResolvedSymbol
main_symbol = record {
  rip = 0x401100;
  file_name = file_text;
  symbol_name = main_text;
  module_index = 0;
  line_number = 20;
  displacement = 0;
}

abbrev pub resolved_symbols : List ResolvedSymbol
resolved_symbols = leaf_symbol ∷ main_symbol ∷ []

pub sample-IsLaidOut : IsLaidOut sample
unfolding module_offset module_count frame_offset frame_count stats_offset stats_count word sample
sample-IsLaidOut = record {
  header = omega arith;
  modules = (omega arith, omega arith);
  frames = (omega arith, omega arith);
  stats = (omega arith, omega arith);
}

pub symbols-FitsResolved : All FitsResolved resolved_symbols
symbols-FitsResolved = (
  record {
    rip = omega arith;
    symbol_name = ((omega arith, omega arith), tt);
    file_name = (
      (omega arith, omega arith),
      ((omega arith, omega arith), ((omega arith, omega arith), tt)),
    );
    module_index = omega arith;
    line_number = omega arith;
    displacement = omega arith;
  },
  (
    record {
      rip = omega arith;
      symbol_name = (
        (omega arith, omega arith),
        (
          (omega arith, omega arith),
          ((omega arith, omega arith), ((omega arith, omega arith), tt)),
        ),
      );
      file_name = (
        (omega arith, omega arith),
        ((omega arith, omega arith), ((omega arith, omega arith), tt)),
      );
      module_index = omega arith;
      line_number = omega arith;
      displacement = omega arith;
    },
    tt,
  ),
)

pub symbols-ResolvedOnce : ResolvedOnce resolved_symbols
symbols-ResolvedOnce = ((λ e. absurd (omega (arith, e)), tt), (tt, tt))

pub symbols_small :
    length sample + length resolved_symbols * 32 + (1 + text_size resolved_symbols) * 2 < 2 ^ 32
unfolding text_size sample
symbols_small = omega arith

-- The file after the resolution.
abbrev pub resolved_sample : File
resolved_sample = symbols_resolved (symbol_resolve_task (some resolved_symbols)) sample
