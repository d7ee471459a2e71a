-- ===== src/TreeModel/Shape.antt =====
-- The nodes of the tree of `createTree` in UI/TreeModel.cpp.
use ig_cachesim.Common.{
  ℕ, arith, ◌≡◌, refl, ap, ap₂, sym, ◌∙◌, Bool, false, Bool-cases, inl, inr, List, [], ◌∷◌, ◌||◌,
}
use ig_cachesim.Capture.{File}
use ig_cachesim.Capture.Data.{SerializedNode, get_stats}
use ig_cachesim.TraceData.{Text, same_text}
use ig_cachesim.TraceData.Interned.{same_text_refl}
use ig_cachesim.TreeModel.{
  node, Nodes, nil, cons, Label, child, add_frames, labels, node_frames, is_selected, add_nodes,
  create_tree,
}
use ig_cachesim.TreeModel.Paths.{
  child_children, child_children-child, starts_with, same_text_other, same_text_apart,
}
use ig_cachesim.TreeModel.Totals.{counts_at, top}

unfoldable pub has_child : Text → Nodes → Bool
has_child p nil = false
has_child p (cons (node name file ts children) ns) = same_text name p || has_child p ns

-- A node stands at a path, of which `p` is the first name.
unfoldable pub has_at : Text → List Text → Nodes → Bool
has_at p [] ns = has_child p ns
has_at p (q ∷ ps) ns = has_at q ps (child_children p ns)

-- The children of a node have different names, at every level.
unfoldable pub IsTree : Nodes → Type 0
IsTree nil = Unit
IsTree (cons (node name file ts children) ns) =
    (has_child name ns ≡ false) × (IsTree children × IsTree ns)

module _ (l : Label) (below : Nodes → Nodes) (ss : List ℕ) where
  has_child-child :
      (p : Text) (ns : Nodes)
      → has_child p (child l below ss ns) ≡ (has_child p ns || same_text l.symbol_name p)
  unfolding has_child child
  has_child-child p nil = ground arith
  has_child-child p (cons (node name file ts children) ns) =
      elim (Bool-cases (same_text name l.symbol_name)) [
        | inl e ↦ rw (e, sym (same_text_other name l.symbol_name p e)) (ground arith)
        | inr e ↦ rw e (ground (arith, has_child-child p ns))
      ]

  child-IsTree :
      ((ns : Nodes) → IsTree ns → IsTree (below ns))
      → (ns : Nodes) → IsTree ns
      → IsTree (child l below ss ns)
  unfolding IsTree child has_child
  child-IsTree keeps nil h = (refl, (keeps nil tt, tt))
  child-IsTree keeps (cons (node name file ts children) ns) h =
      elim (Bool-cases (same_text name l.symbol_name)) [
        | inl e ↦ rw e (h.0, (keeps children h.1.0, h.1.1))
        | inr e ↦
            let other = same_text_apart name l.symbol_name name e (same_text_refl name) in
            let apart : has_child name (child l below ss ns) ≡ false =
              has_child-child name ns ∙ ap₂ (λ a b. a || b) h.0 other in
            rw e (apart, (h.1.0, child-IsTree keeps ns h.1.1))
      ]

add_frames-IsTree :
    (ls : List Label) (ss : List ℕ) (ns : Nodes) → IsTree ns → IsTree (add_frames ls ss ns)
unfolding add_frames
add_frames-IsTree [] ss ns h = h
add_frames-IsTree (l ∷ ls) ss ns h =
    child-IsTree l (add_frames ls ss) ss (add_frames-IsTree ls ss) ns h

has_at-add_frames :
    (p : Text) (ps : List Text) (ls : List Label) (ss : List ℕ) (ns : Nodes)
    → has_at p ps (add_frames ls ss ns) ≡ (has_at p ps ns || starts_with p ps ls)
unfolding has_at add_frames starts_with
has_at-add_frames p [] [] ss ns = ground arith
has_at-add_frames p (q ∷ ps) [] ss ns = ground arith
has_at-add_frames p [] (l ∷ ls) ss ns = has_child-child l (add_frames ls ss) ss p ns
has_at-add_frames p (q ∷ ps) (l ∷ ls) ss ns =
    ap (has_at q ps) (child_children-child l (add_frames ls ss) ss p ns)
    ∙ elim (Bool-cases (same_text l.symbol_name p)) [
      | inl e ↦ rw e (has_at-add_frames q ps ls ss (child_children p ns))
      | inr e ↦ rw e (ground arith)
    ]

-- Some node counts at a path.
unfoldable pub any_counts : File → Text → Text → List Text → List SerializedNode → Bool
any_counts f root p ps [] = false
any_counts f root p ps (n ∷ ns) = counts_at f root p ps n || any_counts f root p ps ns

module _ (f : File) (root : Text) where
  add_nodes-IsTree :
      (ns : List SerializedNode) (t : Nodes) → IsTree t → IsTree (add_nodes f root ns t)
  unfolding add_nodes
  add_nodes-IsTree [] t h = h
  add_nodes-IsTree (n ∷ ns) t h = elim (Bool-cases (is_selected f root n)) [
    | inl e ↦
        rw e
          (add_nodes-IsTree ns _ (add_frames-IsTree (labels f (node_frames f root n)) n.stats t h))
    | inr e ↦ rw e (add_nodes-IsTree ns t h)
  ]

  has_at-add_nodes :
      (p : Text) (ps : List Text) (ns : List SerializedNode) (t : Nodes)
      → has_at p ps (add_nodes f root ns t) ≡ (has_at p ps t || any_counts f root p ps ns)
  unfolding add_nodes any_counts
  has_at-add_nodes p ps [] t = ground arith
  has_at-add_nodes p ps (n ∷ ns) t = elim (Bool-cases (is_selected f root n)) [
    | inl e ↦
        let ls = labels f (node_frames f root n) in
        rw e (
          ground (
            arith,
            has_at-add_nodes p ps ns (add_frames ls n.stats t),
            has_at-add_frames p ps ls n.stats t,
          ))
    | inr e ↦ rw e (has_at-add_nodes p ps ns t)
  ]

has_at-nil : (p : Text) (ps : List Text) → has_at p ps nil ≡ false
unfolding has_at has_child child_children
has_at-nil p [] = refl
has_at-nil p (q ∷ ps) = has_at-nil q ps

-- The children of every node of a tree have different names.
pub create_tree-IsTree : (f : File) (root : Text) → IsTree (top (create_tree f root))
unfolding create_tree IsTree
create_tree-IsTree f root = add_nodes-IsTree f root (get_stats f) nil tt

-- The tree of `createTree` has a node at a path exactly if the frames of some node of the capture
-- in the tree start with the path.
pub create_tree-nodes :
    (f : File) (root p : Text) (ps : List Text)
    → has_at p ps (top (create_tree f root)) ≡ any_counts f root p ps (get_stats f)
unfolding create_tree
create_tree-nodes f root p ps =
    has_at-add_nodes f root p ps (get_stats f) nil
    ∙ ap (λ b. b || any_counts f root p ps (get_stats f)) (has_at-nil p ps)
