-- ===== src/TreeModel/Paths.antt =====
-- The counters of the node at a path of names, before and after a stack is added.
use ig_cachesim.Common.{
  ℕ, ◌≡◌, refl, ap, sym, ◌∙◌, Bool, true, false, Bool-cases, inl, inr, List, [], ◌∷◌, if◌then◌else◌,
  ◌&&◌,
}
use ig_cachesim.TraceData.{Text, same_text}
use ig_cachesim.TraceData.Interned.{same_text-eq, same_text_refl}
use ig_cachesim.Profile.{no_counters, add_stats}
use ig_cachesim.TreeModel.{node, Nodes, nil, cons, Label, child, add_frames}

-- The first child of a name.
unfoldable pub child_stats : Text → Nodes → List ℕ
child_stats p nil = no_counters
child_stats p (cons (node name file ts children) ns) =
    if same_text name p then ts else child_stats p ns

unfoldable pub child_children : Text → Nodes → Nodes
child_children p nil = nil
child_children p (cons (node name file ts children) ns) =
    if same_text name p then children else child_children p ns

-- The counters at a path, of which `p` is the first name; zeros where no node is.
unfoldable pub stats_at : Text → List Text → Nodes → List ℕ
stats_at p [] ns = child_stats p ns
stats_at p (q ∷ ps) ns = stats_at q ps (child_children p ns)

-- The frames start with the names of a path.
unfoldable pub starts_with : Text → List Text → List Label → Bool
starts_with p ps [] = false
starts_with p [] (l ∷ ls) = same_text l.symbol_name p
starts_with p (q ∷ ps) (l ∷ ls) = same_text l.symbol_name p && starts_with q ps ls

pub same_text_other : (n a p : Text) → same_text n a ≡ true → same_text n p ≡ same_text a p
same_text_other n a p h = ap (λ t. same_text t p) (same_text-eq n a h)

pub same_text_apart :
    (n a p : Text) → same_text n a ≡ false → same_text n p ≡ true → same_text a p ≡ false
same_text_apart n a p h k = elim (Bool-cases (same_text a p)) [
  | inl e ↦
      let n_a : n ≡ a = same_text-eq n p k ∙ sym (same_text-eq a p e) in
      let t : same_text n a ≡ true = ap (λ m. same_text m a) n_a ∙ same_text_refl a in cc
  | inr e ↦ e
]

module _ (l : Label) (below : Nodes → Nodes) (ss : List ℕ) where
  child_stats-child :
      (p : Text) (ns : Nodes)
      → child_stats p (child l below ss ns)
        ≡ (if same_text l.symbol_name p then add_stats (child_stats p ns) ss else child_stats p ns)
  unfolding child_stats child
  child_stats-child p nil = refl
  child_stats-child p (cons (node name file ts children) ns) =
      elim (Bool-cases (same_text name l.symbol_name)) [
        | inl e ↦
            rw (e, sym (same_text_other name l.symbol_name p e))
              (elim (Bool-cases (same_text name p)) [ inl k ↦ rw k | inr k ↦ rw k ])
        | inr e ↦ rw e (elim (Bool-cases (same_text name p)) [
          | inl k ↦ rw (k, same_text_apart name l.symbol_name p e k)
          | inr k ↦ rw k (child_stats-child p ns)
        ])
      ]

  pub child_children-child :
      (p : Text) (ns : Nodes)
      → child_children p (child l below ss ns)
        ≡ (if same_text l.symbol_name p then below (child_children p ns) else child_children p ns)
  unfolding child_children child
  child_children-child p nil = refl
  child_children-child p (cons (node name file ts children) ns) =
      elim (Bool-cases (same_text name l.symbol_name)) [
        | inl e ↦
            rw (e, sym (same_text_other name l.symbol_name p e))
              (elim (Bool-cases (same_text name p)) [ inl k ↦ rw k | inr k ↦ rw k ])
        | inr e ↦ rw e (elim (Bool-cases (same_text name p)) [
          | inl k ↦ rw (k, same_text_apart name l.symbol_name p e k)
          | inr k ↦ rw k (child_children-child p ns)
        ])
      ]

-- The loop over the frames of a node adds its counters at each path that the frames start with, and
-- nowhere else.
pub stats_at-add_frames :
    (p : Text) (ps : List Text) (ls : List Label) (ss : List ℕ) (ns : Nodes)
    → stats_at p ps (add_frames ls ss ns)
      ≡ (if starts_with p ps ls then add_stats (stats_at p ps ns) ss else stats_at p ps ns)
unfolding stats_at add_frames starts_with
stats_at-add_frames p [] [] ss ns = refl
stats_at-add_frames p (q ∷ ps) [] ss ns = refl
stats_at-add_frames p [] (l ∷ ls) ss ns = child_stats-child l (add_frames ls ss) ss p ns
stats_at-add_frames p (q ∷ ps) (l ∷ ls) ss ns =
    ap (stats_at q ps) (child_children-child l (add_frames ls ss) ss p ns)
    ∙ elim (Bool-cases (same_text l.symbol_name p)) [
      | inl e ↦ rw e (stats_at-add_frames q ps ls ss (child_children p ns))
      | inr e ↦ rw e
    ]
