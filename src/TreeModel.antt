-- ===== src/TreeModel.antt =====
-- UI/TreeModel.cpp: the call tree of a capture file. A child points to its parent only for the view, and the parents are left
-- out; the children of a node are a list.
pub mod Paths
pub mod Totals
pub mod Shape
use ig_cachesim.Common.{
  ℕ, zero, suc, ◌+◌, ◌*◌, ◌/◌, ◌%◌, Bool, true, false, Option, none, some, List, [], ◌∷◌, ◌++◌,
  ◌==◌, ltb, if◌then◌else◌, length, map, not, ◌||◌,
}
use ig_cachesim.Capture.{File}
use ig_cachesim.Capture.Bytes.{word}
use ig_cachesim.Capture.Data.{SerializedNode, frame_offset, get_stats}
use ig_cachesim.Capture.Data.Symbols.{find_symbol}
use ig_cachesim.TraceData.{Text, same_text, symbol_string, address_name}
use ig_cachesim.Profile.{no_counters, add_stats}

-- `TreeModel::Node`, and the list of its children.
mutual
  pub data Node : Type 0 where
    node : (symbol_name file_name : Text) → (stats : List ℕ) → (children : Nodes) → Node

  pub data Nodes : Type 0 where
    nil : Nodes
    cons : Node → Nodes → Nodes

-- What the tree shows of a frame: `symbolName`, and the file of its symbol, empty without one.
pub record Label : Type 0 where
  pub symbol_name : Text
  pub file_name : Text

-- A child of a name, `Node::child`, with the file that a new one gets, the counters that are added to it, and what is
-- done below it.
unfoldable pub child : Label → (Nodes → Nodes) → List ℕ → Nodes → Nodes
child l below ss nil =
    cons (node l.symbol_name l.file_name (add_stats no_counters ss) (below nil)) nil
child l below ss (cons (node name file ts children) ns) =
    let rest = child l below ss ns in
    if same_text name l.symbol_name
    then cons (node name file (add_stats ts ss) (below children)) ns
    else cons (node name file ts children) rest

-- The loop over the frames of a node.
unfoldable pub add_frames : List Label → List ℕ → Nodes → Nodes
add_frames [] ss ns = ns
add_frames (l ∷ ls) ss ns = child l (add_frames ls ss) ss ns

-- The characters of a number to the base 16 in a field of a width that is filled with zeros.
abbrev pub hex_digit : ℕ → ℕ
hex_digit d = if ltb d 10 then 48 + d else 87 + d

unfoldable pub hex_text : ℕ → ℕ → Text
hex_text zero v = []
hex_text (suc width) v = hex_text width (v / 16) ++ (hex_digit (v % 16) ∷ [])

unfoldable pub frame_label : File → ℕ → Label
frame_label f rip = elim (find_symbol f rip) [
  | some sym ↦ record {
    symbol_name = symbol_string f sym.symbol_name;
    file_name = symbol_string f sym.file_name;
  }
  | none ↦ record { symbol_name = 91 ∷ (hex_text 16 rip ++ (93 ∷ [])); file_name = [] }
]

-- The frames of a stack up to its end, which is 0, in a file with the rounds left.
unfoldable pub frames_at : ℕ → File → ℕ → List ℕ
frames_at zero f i = []
frames_at (suc n) f i =
    let rest = frames_at n f (i + 8) in if word 8 f i == 0 then [] else word 8 f i ∷ rest

unfoldable pub reverse : List ℕ → List ℕ
reverse [] = []
reverse (x ∷ xs) = reverse xs ++ (x ∷ [])

-- `frames` of a node: reversed unless a symbol is the root.
unfoldable pub node_frames : File → Text → SerializedNode → List ℕ
node_frames f root n =
    let frames = n.rip ∷ frames_at (length f) f (frame_offset f + 8 * n.stack_index) in
    elim root [ [] ↦ reverse frames | c ∷ cs ↦ frames ]

-- Whether a node is in the tree of a symbol; an empty one asks for all nodes.
unfoldable pub is_selected : File → Text → SerializedNode → Bool
is_selected f [] n = true
is_selected f (c ∷ cs) n = elim (address_name f n.rip) [
  | some name ↦ same_text (c ∷ cs) name
  | none ↦ false
]

unfoldable pub labels : File → List ℕ → List Label
labels f [] = []
labels f (rip ∷ rips) = frame_label f rip ∷ labels f rips

-- `createTree`: the loop over the nodes, and the root.
unfoldable pub add_nodes : File → Text → List SerializedNode → Nodes → Nodes
add_nodes f root [] t = t
add_nodes f root (n ∷ ns) t =
    let added = add_frames (labels f (node_frames f root n)) n.stats t in
    add_nodes f root ns (if is_selected f root n then added else t)

unfoldable pub create_tree : File → Text → Node
create_tree f root = node [] [] no_counters (add_nodes f root (get_stats f) nil)
