-- ===== src/FlatModel.antt =====
-- UI/FlatModel.cpp: one row for each symbol of a capture file. `m_Rows` is a list, and `symbolNameToRow` an association list.
pub mod Indexed
pub mod Listed
pub mod Reverse
pub mod Cached
pub mod Resolution
use ig_cachesim.Common.{
  ℕ, zero, suc, ◌+◌, Bool, true, false, Option, none, some, List, [], ◌∷◌, ◌++◌, if◌then◌else◌,
  length,
}
use ig_cachesim.Capture.{File}
use ig_cachesim.Capture.Data.{SerializedNode, get_stats}
use ig_cachesim.Capture.Data.Symbols.{find_symbol}
use ig_cachesim.TraceData.{Text, find_string, address_name}
use ig_cachesim.FileData.{Caches, symbol_name_for_address}
use ig_cachesim.Profile.{no_counters, add_stats}
use ig_cachesim.Profile.Rows.{Row}

pub record FlatRows : Type 0 where
  pub rows : List (Row Text)
  pub symbol_name_to_row : List (Text × ℕ)

-- `symbolNameForAddress` as a `QString`, which is empty where it is null.
unfoldable pub name_of : Option Text → Text
name_of none = []
name_of (some name) = name

-- The loop over the counters, at the row of an index.
unfoldable pub add_at : ℕ → List ℕ → List (Row Text) → List (Row Text)
add_at row ss [] = []
add_at zero ss (r ∷ rs) = record { key = r.key; stats = add_stats r.stats ss } ∷ rs
add_at (suc row) ss (r ∷ rs) = r ∷ add_at row ss rs

-- The row of a name, which is made where there is none.
unfoldable pub row_of : Text → FlatRows → ℕ × FlatRows
row_of name st = elim (find_string st.symbol_name_to_row name) [
  | some row ↦ (row, st)
  | none ↦
      let row = length st.rows in
      (
        row,
        record {
          rows = st.rows ++ (record { key = name; stats = no_counters } ∷ []);
          symbol_name_to_row = (name, row) ∷ st.symbol_name_to_row;
        },
      )
]

-- The loop over the nodes, with the names that the file has.
unfoldable pub add_flat : File → List SerializedNode → FlatRows → FlatRows
add_flat f [] st = st
add_flat f (n ∷ ns) st = elim (find_symbol f n.rip) [
  | none ↦ add_flat f ns st
  | some symbol ↦
      let (row, st1) = row_of (name_of (address_name f n.rip)) st in
      add_flat f ns (record st1 { rows = add_at row n.stats st1.rows })
]

-- `dataStoreChanged`: the rows afterwards, with the names that the file has.
unfoldable pub data_store_changed : File → List (Row Text)
data_store_changed f =
    (add_flat f (get_stats f) (record { rows = []; symbol_name_to_row = [] })).rows

-- The loop over the nodes, with the names that `symbolNameForAddress` gives.
unfoldable pub add_flat_cached : File → List SerializedNode → FlatRows → Caches → FlatRows × Caches
add_flat_cached f [] st c = (st, c)
add_flat_cached f (n ∷ ns) st c = elim (find_symbol f n.rip) [
  | none ↦ add_flat_cached f ns st c
  | some symbol ↦
      let (name, c1) = symbol_name_for_address f n.rip c in
      let (row, st1) = row_of (name_of name) st in
      add_flat_cached f ns (record st1 { rows = add_at row n.stats st1.rows }) c1
]

-- `dataStoreChanged`, with the caches that it uses.
unfoldable pub data_store_changed_cached : File → Caches → List (Row Text) × Caches
data_store_changed_cached f c =
    let (st, c1) =
      add_flat_cached f (get_stats f) (record { rows = []; symbol_name_to_row = [] }) c in
    (st.rows, c1)
