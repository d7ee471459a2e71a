-- ===== src/FlatModel/Reverse.antt =====
-- The row of a symbol against the reversed tree of the symbol, which a view opens from the row.
use ig_cachesim.Common.{
  ℕ, ◌+◌, ◌%◌, ◌^◌, ◌<◌, ◌≡◌, refl, ap, ap₂, sym, ◌∙◌, Bool, true, false, Bool-cases, Option-cases,
  inl, inr, none, some, List, [], ◌∷◌, if◌then◌else◌, ◌&&◌, get_or,
}
use ig_cachesim.Capture.{File}
use ig_cachesim.Capture.Data.{SerializedNode, get_stats}
use ig_cachesim.Capture.Data.Symbols.{find_symbol}
use ig_cachesim.TraceData.{Text, same_text, symbol_string}
use ig_cachesim.TraceData.Interned.{same_text-eq, same_text_refl}
use ig_cachesim.Profile.Rows.{row_stats}
use ig_cachesim.Profile.Nodes.{is_key, total_of}
use ig_cachesim.TreeModel.{frame_label, labels, node_frames, is_selected, create_tree}
use ig_cachesim.TreeModel.Paths.{stats_at, starts_with, same_text_apart}
use ig_cachesim.TreeModel.Totals.{counts_at, total_at, top, create_tree-totals}
use ig_cachesim.FlatModel.{data_store_changed}
use ig_cachesim.FlatModel.Listed.{node_name, name_none, name_some, data_store_changed-totals}

same_text_sym : (s t : Text) → same_text s t ≡ same_text t s
same_text_sym s t = elim (Bool-cases (same_text s t)) [
  | inl e ↦ ap₂ same_text (same_text-eq s t e) (sym (same_text-eq s t e))
  | inr e ↦ e ∙ sym (same_text_apart s t s e (same_text_refl s))
]

both : (b : Bool) → (b && b) ≡ b
both true = refl
both false = refl

label_name :
    (f : File) (rip : ℕ) (s : _)
    → find_symbol f rip ≡ some s
    → (frame_label f rip).symbol_name ≡ symbol_string f s.symbol_name
unfolding frame_label
label_name f rip s e = rw (e, frame_label)

module _ (f : File) (c : ℕ) (cs : Text) where
  abbrev name : Text
  name = c ∷ cs

  selected_none : (n : SerializedNode) → node_name f n ≡ none → is_selected f name n ≡ false
  unfolding is_selected
  selected_none n e = rw (e, is_selected)

  selected_some :
      (n : SerializedNode) (s : Text)
      → node_name f n ≡ some s
      → is_selected f name n ≡ same_text name s
  unfolding is_selected
  selected_some n s e = rw (e, is_selected)

  counts_at-is_key :
      (n : SerializedNode) → counts_at f name name [] n ≡ is_key same_text (node_name f n) name
  unfolding node_frames labels starts_with
  counts_at-is_key n = elim (Option-cases (find_symbol f n.rip)) [
    | inl e ↦
        let unnamed = name_none f n.rip e in
        ap (λ b. b && same_text (frame_label f n.rip).symbol_name name) (selected_none n unnamed)
        ∙ ap (λ o. is_key same_text o name) (sym unnamed)
    | inr (s, e) ↦
        let t = symbol_string f s.symbol_name in
        let named = name_some f n.rip s e in
        ap₂ (λ a b. a && b) (selected_some n t named ∙ same_text_sym name t)
          (ap (λ l. same_text l name) (label_name f n.rip s e))
        ∙ both (same_text t name)
        ∙ ap (λ o. is_key same_text o name) (sym named)
  ]

  totals :
      (k : ℕ) (ns : List SerializedNode)
      → total_at f name name [] k ns ≡ total_of same_text (node_name f) name k ns
  unfolding total_at total_of
  totals k [] = refl
  totals k (n ∷ ns) =
      ap₂ (λ b t. (if b then get_or n.stats k 0 else 0) + t) (counts_at-is_key n) (totals k ns)

  -- The reversed tree that is opened for a symbol with a name that is not empty has, at its top,
  -- the same counters for the name as the row of the name in the flat profile.
  pub create_tree-row :
      (k : ℕ)
      → k < 8
      → get_or (stats_at name [] (top (create_tree f name))) k 0
        ≡ get_or (row_stats same_text name (data_store_changed f)) k 0
  create_tree-row k small =
      create_tree-totals f name name [] k small
      ∙ ap (λ t. t % 2 ^ 32) (totals k (get_stats f))
      ∙ sym (data_store_changed-totals f name k small)
