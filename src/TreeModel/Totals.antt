-- ===== src/TreeModel/Totals.antt =====
-- The counters of a tree against sums over the nodes of the capture.
use ig_cachesim.Common.{
  ℕ, zero, suc, ◌+◌, ◌%◌, ◌^◌, ◌<◌, ◌≡◌, refl, ap, sym, ◌∙◌, All, Bool, Bool-cases, inl, inr, List,
  [], ◌∷◌, if◌then◌else◌, ◌&&◌, get_or, length, arith, get_or-replicate,
}
use ig_cachesim.Capture.{File}
use ig_cachesim.Capture.Bytes.{read_table}
use ig_cachesim.Capture.Data.{SerializedNode, node_at, get_stats, stats_count, stats_offset}
use ig_cachesim.TraceData.{Text}
use ig_cachesim.Profile.{no_counters, add_stats}
use ig_cachesim.Profile.Sums.{length-add_stats, get_or-add_stats}
use ig_cachesim.TreeModel.{
  Node, node, Nodes, nil, add_frames, labels, node_frames, is_selected, add_nodes, create_tree,
}
use ig_cachesim.TreeModel.Paths.{
  child_stats, child_children, stats_at, starts_with, stats_at-add_frames,
}

-- A node counts at a path if it is in the tree and its stack starts with the path.
abbrev pub counts_at : File → Text → Text → List Text → SerializedNode → Bool
counts_at f root p ps n = is_selected f root n && starts_with p ps (labels f (node_frames f root n))

-- The sum of a counter over the nodes that count at a path.
unfoldable pub total_at : File → Text → Text → List Text → ℕ → List SerializedNode → ℕ
total_at f root p ps k [] = 0
total_at f root p ps k (n ∷ ns) =
    (if counts_at f root p ps n then get_or n.stats k 0 else 0) + total_at f root p ps k ns

-- The children of the root.
abbrev pub top : Node → Nodes
top (node name file ts children) = children

module _ (f : File) (root p : Text) (ps : List Text) (k : ℕ) (small : k < 8) where
  counter : Nodes → ℕ
  counter t = get_or (stats_at p ps t) k 0

  add_node : SerializedNode → Nodes → Nodes
  add_node n t =
      if is_selected f root n then add_frames (labels f (node_frames f root n)) n.stats t else t

  stats_at-add_node :
      (n : SerializedNode) (t : Nodes)
      → stats_at p ps (add_node n t)
        ≡ (if counts_at f root p ps n then add_stats (stats_at p ps t) n.stats else stats_at p ps t)
  unfolding add_node
  stats_at-add_node n t = elim (Bool-cases (is_selected f root n)) [
    | inl e ↦ rw e (stats_at-add_frames p ps (labels f (node_frames f root n)) n.stats t)
    | inr e ↦ rw e
  ]

  add_nodes-counter :
      (ns : List SerializedNode) (t : Nodes)
      → All (λ n. length n.stats ≡ 8) ns
      → length (stats_at p ps t) ≡ 8
      → counter t < 2 ^ 32
      → counter (add_nodes f root ns t) ≡ (counter t + total_at f root p ps k ns) % 2 ^ 32
  unfolding counter add_node add_nodes total_at
  add_nodes-counter [] t h w v = omega (arith, v)
  add_nodes-counter (n ∷ ns) t h w v =
      let e = stats_at-add_node n t in
      elim (Bool-cases (counts_at f root p ps n)) [
        | inl c ↦
            let e1 : stats_at p ps (add_node n t) ≡ add_stats (stats_at p ps t) n.stats =
              e ∙ (rw c) in
            let w1 : length (stats_at p ps (add_node n t)) ≡ 8 =
              ap length e1 ∙ length-add_stats (stats_at p ps t) n.stats ∙ w in
            let c1 : get_or (stats_at p ps (add_node n t)) k 0
                ≡ (get_or (stats_at p ps t) k 0 + get_or n.stats k 0) % 2 ^ 32 =
              ap (λ l. get_or l k 0) e1
              ∙ get_or-add_stats (stats_at p ps t) n.stats k (omega (arith, small, w))
                  (h.0 ∙ sym w) in
            rw c (omega (arith, add_nodes-counter ns (add_node n t) h.1 w1 (omega (arith, c1)), c1))
        | inr c ↦
            let e1 : stats_at p ps (add_node n t) ≡ stats_at p ps t = e ∙ (rw c) in
            let c1 : get_or (stats_at p ps (add_node n t)) k 0 ≡ get_or (stats_at p ps t) k 0 =
              ap (λ l. get_or l k 0) e1 in
            rw c (
              omega (
                arith,
                add_nodes-counter ns (add_node n t) h.1 (ap length e1 ∙ w) (omega (arith, c1, v)),
                c1,
              ))
      ]

stats_at-nil : (p : Text) (ps : List Text) → stats_at p ps nil ≡ no_counters
unfolding stats_at child_stats child_children
stats_at-nil p [] = refl
stats_at-nil p (q ∷ ps) = stats_at-nil q ps

pub All-width :
    (f : File) (n off : ℕ) → All (λ m. length m.stats ≡ 8) (read_table 48 node_at n f off)
unfolding read_table node_at
All-width f zero off = tt
All-width f (suc n) off = (refl, All-width f n (off + 48))

-- In the tree of `createTree`, each of the eight counters at a path of names is the sum, to 32
-- bits, over the nodes of the capture in the tree whose frames start with the path; it is 0 where
-- no node of the tree stands.
pub create_tree-totals :
    (f : File) (root p : Text) (ps : List Text) (k : ℕ)
    → k < 8
    → get_or (stats_at p ps (top (create_tree f root))) k 0
      ≡ total_at f root p ps k (get_stats f) % 2 ^ 32
unfolding create_tree get_stats counter
create_tree-totals f root p ps k small =
    let none : stats_at p ps nil ≡ no_counters = stats_at-nil p ps in
    let zero_at : get_or (stats_at p ps nil) k 0 ≡ 0 =
      ap (λ l. get_or l k 0) none ∙ get_or-replicate 8 k 0 in
    omega (
      arith,
      zero_at,
      add_nodes-counter f root p ps k small (get_stats f) nil
          (All-width f (stats_count f) (stats_offset f)) (ap length none) (omega (arith, zero_at)),
    )
