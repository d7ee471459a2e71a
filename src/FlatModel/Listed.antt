-- ===== src/FlatModel/Listed.antt =====
-- The rows of a capture against sums over its nodes.
use mathlib.Core.Path.{subst}
use ig_cachesim.Common.{
  ℕ, ◌%◌, ◌^◌, ◌<◌, ◌≡◌, refl, ap, sym, ◌∙◌, Option-cases, inl, inr, Option, none, some, List, [],
  ◌∷◌, arith, get_or, get_or-replicate,
}
use ig_cachesim.Capture.{File}
use ig_cachesim.Capture.Data.{
  SerializedNode, SerializedSymbol, get_stats, stats_count, stats_offset,
}
use ig_cachesim.Capture.Data.Symbols.{find_symbol}
use ig_cachesim.TraceData.{Text, same_text, find_string, symbol_string, address_name}
use ig_cachesim.TraceData.Interned.{same_text-eq, same_text_refl}
use ig_cachesim.Profile.{no_counters}
use ig_cachesim.Profile.Rows.{row_stats, has_row, AreRows}
use ig_cachesim.Profile.Nodes.{
  tally_if, tally_nodes, total_of, is_key_of, tally_nodes-totals, tally_nodes-AreRows,
  has_row-tally_nodes,
}
use ig_cachesim.TreeModel.Totals.{All-width}
use ig_cachesim.FlatModel.{FlatRows, name_of, add_flat, data_store_changed}
use ig_cachesim.FlatModel.Indexed.{IsIndexed, index_of, step, step-Steps}

-- The name that a node is listed under, if its address has a symbol.
abbrev pub node_name : File → SerializedNode → Option Text
node_name f n = address_name f n.rip

pub name_none : (f : File) (rip : ℕ) → find_symbol f rip ≡ none → address_name f rip ≡ none
unfolding address_name
name_none f rip e = rw (e, address_name)

pub name_some :
    (f : File) (rip : ℕ) (s : SerializedSymbol)
    → find_symbol f rip ≡ some s
    → address_name f rip ≡ some (symbol_string f s.symbol_name)
unfolding address_name
name_some f rip s e = rw (e, address_name)

add_flat-tally :
    (f : File) (ns : List SerializedNode) (st : FlatRows)
    → IsIndexed st
    → (add_flat f ns st).rows ≡ tally_nodes same_text (node_name f) ns st.rows
unfolding add_flat tally_nodes tally_if name_of
add_flat-tally f [] st v = refl
add_flat-tally f (n ∷ ns) st v = elim (Option-cases (find_symbol f n.rip)) [
  | inl e ↦ rw (e, add_flat) (rw (name_none f n.rip e, tally_nodes) (add_flat-tally f ns st v))
  | inr (s, e) ↦
      let h = step-Steps (symbol_string f s.symbol_name) n.stats st v in
      rw (e, add_flat)
        (rw (name_some f n.rip s e, tally_nodes)
          (add_flat-tally f ns (step (symbol_string f s.symbol_name) n.stats st) h.indexed
            ∙ ap (tally_nodes same_text (node_name f) ns) h.rows))
]

rows-tally :
    (f : File) → data_store_changed f ≡ tally_nodes same_text (node_name f) (get_stats f) []
unfolding data_store_changed IsIndexed find_string index_of
rows-tally f =
    add_flat-tally f (get_stats f) (record { rows = []; symbol_name_to_row = [] }) (λ q. refl)

-- In the row of a name each of the eight counters is the sum, to 32 bits, over the nodes whose
-- address has a symbol of the name.
pub data_store_changed-totals :
    (f : File) (name : Text) (k : ℕ)
    → k < 8
    → get_or (row_stats same_text name (data_store_changed f)) k 0
      ≡ total_of same_text (node_name f) name k (get_stats f) % 2 ^ 32
unfolding get_stats row_stats
data_store_changed-totals f name k small =
    let zero_at : get_or no_counters k 0 ≡ 0 = get_or-replicate 8 k 0 in
    ap (λ rs. get_or (row_stats same_text name rs) k 0) (rows-tally f)
    ∙ omega (
      arith,
      zero_at,
      tally_nodes-totals same_text (node_name f) same_text-eq same_text_refl name k (get_stats f) []
          small (All-width f (stats_count f) (stats_offset f)) refl (omega (arith, zero_at)),
    )

-- No two rows of the flat profile have one name, and a name has a row exactly if the address of
-- some node has a symbol of the name.
pub data_store_changed-names :
    (f : File)
    → AreRows same_text (data_store_changed f)
      × ((name : Text)
          → has_row same_text name (data_store_changed f)
            ≡ is_key_of same_text (node_name f) name (get_stats f))
unfolding AreRows has_row
data_store_changed-names f = (
  subst (AreRows same_text) (sym (rows-tally f))
      (tally_nodes-AreRows same_text (node_name f) same_text-eq same_text_refl (get_stats f) [] tt),
  λ name.
      ap (has_row same_text name) (rows-tally f)
      ∙ has_row-tally_nodes same_text (node_name f) same_text-eq same_text_refl name (get_stats f)
          [],
)
