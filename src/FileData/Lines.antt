-- ===== src/FileData/Lines.antt =====
-- The lines of a symbol against sums over the nodes of the capture.
use ig_cachesim.Common.{
  ℕ, ◌≡◌, refl, ap, ◌∙◌, Bool, Bool-cases, inl, inr, Option, none, some, List, [], ◌∷◌, ◌==◌,
  if◌then◌else◌,
}
use ig_cachesim.Capture.{File}
use ig_cachesim.Capture.Data.{SerializedNode, SerializedSymbol}
use ig_cachesim.Capture.Data.Symbols.{find_symbol}
use ig_cachesim.TraceData.{Text, same_text, symbol_string}
use ig_cachesim.Profile.Nodes.{tally_if, tally_nodes}
use ig_cachesim.FileData.{Caches, FileInfo, add_line, add_symbol, add_file_nodes}
use ig_cachesim.FileData.Cached.{AreCached, interned_symbol_string-Reads, set_file_name-AreCached}

abbrev pub same_line : ℕ → ℕ → Bool
same_line a b = a == b

-- The line that a node counts at, if its symbol has the name.
line_of_symbol : File → Text → Option SerializedSymbol → Option ℕ
line_of_symbol f symbol none = none
line_of_symbol f symbol (some s) =
    if same_text (symbol_string f s.symbol_name) symbol then some s.line_number else none

unfoldable pub node_line : File → Text → SerializedNode → Option ℕ
unfolding line_of_symbol
node_line f symbol n = line_of_symbol f symbol (find_symbol f n.rip)

record Adds (f : File) (key : Option ℕ) (stats : List ℕ) (info : FileInfo) (o : FileInfo × Caches)
    : Type 0 where
  samples : o.0.samples ≡ tally_if same_line key stats info.samples
  cached : AreCached f o.1

add_symbol-Adds :
    (f : File) (symbol : Text) (o : Option SerializedSymbol) (stats : List ℕ) (info : FileInfo)
    (c : Caches)
    → AreCached f c
    → Adds f (line_of_symbol f symbol o) stats info (add_symbol f symbol o stats info c)
unfolding add_symbol line_of_symbol tally_if
add_symbol-Adds f symbol none stats info c v = record { samples = refl; cached = v }
add_symbol-Adds f symbol (some s) stats info c v =
    let r = interned_symbol_string-Reads f s.symbol_name c v in
    let t = ap (λ name. same_text name symbol) r.text in
    elim (Bool-cases (same_text (symbol_string f s.symbol_name) symbol)) [
      | inl e ↦
          rw (t ∙ e, e)
            (record {
              samples = unfold add_line in refl;
              cached = set_file_name-AreCached f s.file_name info.file_name _ r.cached;
            })
      | inr e ↦ rw (t ∙ e, e) (record { samples = refl; cached = r.cached })
    ]

pub record AddsAll (f : File) (symbol : Text) (ns : List SerializedNode) (info : FileInfo)
    (o : FileInfo × Caches) : Type 0 where
  pub samples : o.0.samples ≡ tally_nodes same_line (node_line f symbol) ns info.samples
  pub cached : AreCached f o.1

pub add_file_nodes-AddsAll :
    (f : File) (symbol : Text) (ns : List SerializedNode) (info : FileInfo) (c : Caches)
    → AreCached f c
    → AddsAll f symbol ns info (add_file_nodes f symbol ns info c)
unfolding add_file_nodes tally_nodes node_line
add_file_nodes-AddsAll f symbol [] info c v = record { samples = refl; cached = v }
add_file_nodes-AddsAll f symbol (n ∷ ns) info c v =
    let one = add_symbol-Adds f symbol (find_symbol f n.rip) n.stats info c v in
    let o = add_symbol f symbol (find_symbol f n.rip) n.stats info c in
    let all = add_file_nodes-AddsAll f symbol ns o.0 o.1 one.cached in
    record {
      samples = all.samples ∙ ap (tally_nodes same_line (node_line f symbol) ns) one.samples;
      cached = all.cached;
    }
