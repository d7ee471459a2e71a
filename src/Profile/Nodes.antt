-- ===== src/Profile/Nodes.antt =====
-- The nodes of a capture, added up by a key that some of them have.
use ig_cachesim.Common.{
  ℕ, ◌+◌, ◌%◌, ◌^◌, ◌<◌, ◌≡◌, refl, ap, sym, ◌∙◌, All, Bool, true, false, Bool-cases, inl, inr,
  List, [], ◌∷◌, if◌then◌else◌, get_or, length, arith, ◌||◌, Option, none, some,
}
use ig_cachesim.Capture.Data.{SerializedNode}
use ig_cachesim.Profile.{add_stats}
use ig_cachesim.Profile.Sums.{length-add_stats, get_or-add_stats}
use ig_cachesim.Profile.Rows.{
  Row, tally, row_stats, has_row, AreRows, row_stats-tally, has_row-tally, tally-AreRows,
}

module _ {K : Type 0} (same : K → K → Bool) where
  -- What a node with a key, or with none, does to the rows.
  unfoldable pub tally_if : Option K → List ℕ → List (Row K) → List (Row K)
  tally_if none ss rs = rs
  tally_if (some k) ss rs = tally same k ss rs

  abbrev pub is_key : Option K → K → Bool
  is_key none k = false
  is_key (some q) k = same q k

module _ {K : Type 0} (same : K → K → Bool) (key : SerializedNode → Option K) where
  unfoldable pub tally_nodes : List SerializedNode → List (Row K) → List (Row K)
  tally_nodes [] rs = rs
  tally_nodes (n ∷ ns) rs = tally_nodes ns (tally_if same (key n) n.stats rs)

  -- The sum of a counter over the nodes of a key.
  unfoldable pub total_of : K → ℕ → List SerializedNode → ℕ
  total_of k c [] = 0
  total_of k c (n ∷ ns) =
      (if is_key same (key n) k then get_or n.stats c 0 else 0) + total_of k c ns

  -- Some node has the key.
  unfoldable pub is_key_of : K → List SerializedNode → Bool
  is_key_of k [] = false
  is_key_of k (n ∷ ns) = is_key same (key n) k || is_key_of k ns

  module _ (same-eq : (a b : K) → same a b ≡ true → a ≡ b)
      (same_refl : (a : K) → same a a ≡ true) where
    row_stats-tally_if :
        (o : Option K) (q : K) (ss : List ℕ) (rs : List (Row K))
        → row_stats same q (tally_if same o ss rs)
          ≡ (if is_key same o q then add_stats (row_stats same q rs) ss else row_stats same q rs)
    unfolding tally_if
    row_stats-tally_if none q ss rs = refl
    row_stats-tally_if (some k) q ss rs = row_stats-tally same same-eq same_refl k q ss rs

    has_row-tally_if :
        (o : Option K) (q : K) (ss : List ℕ) (rs : List (Row K))
        → has_row same q (tally_if same o ss rs) ≡ (has_row same q rs || is_key same o q)
    unfolding tally_if
    has_row-tally_if none q ss rs = ground arith
    has_row-tally_if (some k) q ss rs = has_row-tally same same-eq same_refl k q ss rs

    tally_if-AreRows :
        (o : Option K) (ss : List ℕ) (rs : List (Row K))
        → AreRows same rs
        → AreRows same (tally_if same o ss rs)
    unfolding tally_if
    tally_if-AreRows none ss rs h = h
    tally_if-AreRows (some k) ss rs h = tally-AreRows same same-eq same_refl k ss rs h

    pub tally_nodes-AreRows :
        (ns : List SerializedNode) (rs : List (Row K))
        → AreRows same rs
        → AreRows same (tally_nodes ns rs)
    unfolding tally_nodes
    tally_nodes-AreRows [] rs h = h
    tally_nodes-AreRows (n ∷ ns) rs h =
        tally_nodes-AreRows ns (tally_if same (key n) n.stats rs)
          (tally_if-AreRows (key n) n.stats rs h)

    pub has_row-tally_nodes :
        (q : K) (ns : List SerializedNode) (rs : List (Row K))
        → has_row same q (tally_nodes ns rs) ≡ (has_row same q rs || is_key_of q ns)
    unfolding tally_nodes is_key_of
    has_row-tally_nodes q [] rs = ground arith
    has_row-tally_nodes q (n ∷ ns) rs = ground (
      arith,
      has_row-tally_nodes q ns (tally_if same (key n) n.stats rs),
      has_row-tally_if (key n) q n.stats rs,
    )

    -- A sum that starts with counters of 32 bits.
    pub tally_nodes-totals :
        (q : K) (c : ℕ) (ns : List SerializedNode) (rs : List (Row K))
        → c < 8
        → All (λ n. length n.stats ≡ 8) ns
        → length (row_stats same q rs) ≡ 8
        → get_or (row_stats same q rs) c 0 < 2 ^ 32
        → get_or (row_stats same q (tally_nodes ns rs)) c 0
          ≡ (get_or (row_stats same q rs) c 0 + total_of q c ns) % 2 ^ 32
    unfolding tally_nodes total_of
    tally_nodes-totals q c [] rs small h w v = omega (arith, v)
    tally_nodes-totals q c (n ∷ ns) rs small h w v =
        let next = tally_if same (key n) n.stats rs in
        let e = row_stats-tally_if (key n) q n.stats rs in
        elim (Bool-cases (is_key same (key n) q)) [
          | inl b ↦
              let e1 : row_stats same q next ≡ add_stats (row_stats same q rs) n.stats =
                e ∙ (rw b) in
              let c1 : get_or (row_stats same q next) c 0
                  ≡ (get_or (row_stats same q rs) c 0 + get_or n.stats c 0) % 2 ^ 32 =
                ap (λ l. get_or l c 0) e1
                ∙ get_or-add_stats (row_stats same q rs) n.stats c (omega (arith, small, w))
                    (h.0 ∙ sym w) in
              let w1 : length (row_stats same q next) ≡ 8 =
                ap length e1 ∙ length-add_stats (row_stats same q rs) n.stats ∙ w in
              rw b
                (omega (arith, tally_nodes-totals q c ns next small h.1 w1 (omega (arith, c1)), c1))
          | inr b ↦
              let e1 : row_stats same q next ≡ row_stats same q rs = e ∙ (rw b) in
              let c1 : get_or (row_stats same q next) c 0 ≡ get_or (row_stats same q rs) c 0 =
                ap (λ l. get_or l c 0) e1 in
              rw b (
                omega (
                  arith,
                  tally_nodes-totals q c ns next small h.1 (ap length e1 ∙ w)
                      (omega (arith, c1, v)),
                  c1,
                ))
        ]
