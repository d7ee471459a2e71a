-- ===== src/FileData/Found.antt =====
-- The result of `findFileData` in UI/TraceData.cpp.
use mathlib.Core.Path.{subst}
use ig_cachesim.Common.{
  ℕ, ◌-◌, ◌%◌, ◌^◌, ◌<◌, ◌≡◌, refl, ap, sym, ◌∙◌, true, false, [], ◌==◌, arith, get_or,
  get_or-replicate,
}
use ig_cachesim.Capture.{File}
use ig_cachesim.Capture.Data.{get_stats, stats_count, stats_offset}
use ig_cachesim.TraceData.{Text}
use ig_cachesim.Profile.{no_counters}
use ig_cachesim.Profile.Rows.{row_stats, AreRows}
use ig_cachesim.Profile.Nodes.{total_of, tally_nodes, tally_nodes-totals, tally_nodes-AreRows}
use ig_cachesim.TreeModel.Totals.{All-width}
use ig_cachesim.FileData.{Caches, FileInfo, string_index, add_file_nodes, find_file_data}
use ig_cachesim.FileData.Cached.{AreCached}
use ig_cachesim.FileData.Lines.{same_line, node_line, add_file_nodes-AddsAll}
use ig_cachesim.FileData.Sorted.{AreInOrder, sort_lines-AreInOrder, sort_lines-row_stats}

same_line-eq : (a b : ℕ) → same_line a b ≡ true → a ≡ b
same_line-eq a b e = ground (arith, e)

same_line_refl : (a : ℕ) → same_line a a ≡ true
same_line_refl a = ground arith

-- The lines of a symbol in their order, with the sums of the counters of its nodes.
pub record Finds (f : File) (symbol : Text) (o : FileInfo × Caches) : Type 0 where
  pub in_order : AreInOrder o.0.samples
  pub totals :
      (line k : ℕ)
      → k < 8
      → get_or (row_stats same_line line o.0.samples) k 0
        ≡ total_of same_line (node_line f symbol) line k (get_stats f) % 2 ^ 32
  pub cached : AreCached f o.1

lines_totals :
    (f : File) (symbol : Text) (line k : ℕ)
    → k < 8
    → get_or
        (row_stats same_line line (tally_nodes same_line (node_line f symbol) (get_stats f) []))
        k
        0
      ≡ total_of same_line (node_line f symbol) line k (get_stats f) % 2 ^ 32
unfolding get_stats row_stats
lines_totals f symbol line k small =
    let zero_at : get_or no_counters k 0 ≡ 0 = get_or-replicate 8 k 0 in
    omega (
      arith,
      zero_at,
      tally_nodes-totals same_line (node_line f symbol) same_line-eq same_line_refl line k
          (get_stats f) [] small (All-width f (stats_count f) (stats_offset f)) refl
          (omega (arith, zero_at)),
    )

-- For a symbol that the index of strings has at an offset other than 0, with caches that hold
-- strings of the file: `findFileData` gives the lines in the order of `int`, in the row of each
-- line the eight counters are the sums, to 32 bits, over the nodes whose symbol has the name and
-- the line, and the caches again hold strings of the file.
pub find_file_data-Finds :
    (f : File) (symbol : Text) (c : Caches)
    → AreCached f c
    → (string_index c symbol == 0) ≡ false
    → Finds f symbol (find_file_data f symbol c)
unfolding find_file_data AreRows
find_file_data-Finds f symbol c v known =
    let start : FileInfo = record {
      file_name = [];
      first_line = 2 ^ 31 - 1;
      last_line = 2 ^ 31;
      samples = [];
    } in
    let all = add_file_nodes-AddsAll f symbol (get_stats f) start c v in
    let rows = (add_file_nodes f symbol (get_stats f) start c).0.samples in
    let distinct : AreRows same_line rows = subst (AreRows same_line) (sym all.samples) (
      tally_nodes-AreRows same_line (node_line f symbol) same_line-eq same_line_refl (get_stats f)
        [] tt) in
    rw (known, find_file_data)
      (record {
        in_order = sort_lines-AreInOrder rows;
        totals = λ line k small.
            ap (λ s. get_or s k 0)
              (sort_lines-row_stats line rows distinct ∙ ap (row_stats same_line line) all.samples)
            ∙ lines_totals f symbol line k small;
        cached = all.cached;
      })
