-- ===== src/Profile/Rows.antt =====
-- Counters that are added up by a key, in the order in which the keys come up.
use ig_cachesim.Common.{
  ℕ, ◌≡◌, refl, ap, ap₂, sym, ◌∙◌, Bool, true, false, Bool-cases, inl, inr, List, [], ◌∷◌,
  if◌then◌else◌, arith, ◌||◌,
}
use ig_cachesim.Profile.{no_counters, add_stats}

-- A key and its counters: `FlatModel::Node` by its symbol, and `LineData` by its line.
pub record Row (K : Type 0) : Type 0 where
  pub key : K
  pub stats : List ℕ

module _ {K : Type 0} (same : K → K → Bool) where
  -- The counters of the first row of a key, which starts with none.
  unfoldable pub tally : K → List ℕ → List (Row K) → List (Row K)
  tally k ss [] = record { key = k; stats = add_stats no_counters ss } ∷ []
  tally k ss (r ∷ rs) =
      let rest = tally k ss rs in
      if same r.key k then record { key = r.key; stats = add_stats r.stats ss } ∷ rs else r ∷ rest

  unfoldable pub row_stats : K → List (Row K) → List ℕ
  row_stats k [] = no_counters
  row_stats k (r ∷ rs) = if same r.key k then r.stats else row_stats k rs

  unfoldable pub has_row : K → List (Row K) → Bool
  has_row k [] = false
  has_row k (r ∷ rs) = same r.key k || has_row k rs

  -- No two rows have one key.
  unfoldable pub AreRows : List (Row K) → Type 0
  AreRows [] = Unit
  AreRows (r ∷ rs) = (has_row r.key rs ≡ false) × AreRows rs

  module _ (same-eq : (a b : K) → same a b ≡ true → a ≡ b)
      (same_refl : (a : K) → same a a ≡ true) where
    other : (n a p : K) → same n a ≡ true → same n p ≡ same a p
    other n a p h = ap (λ t. same t p) (same-eq n a h)

    apart : (n a p : K) → same n a ≡ false → same n p ≡ true → same a p ≡ false
    apart n a p h k = elim (Bool-cases (same a p)) [
      | inl e ↦
          let n_a : n ≡ a = same-eq n p k ∙ sym (same-eq a p e) in
          let t : same n a ≡ true = ap (λ m. same m a) n_a ∙ same_refl a in cc
      | inr e ↦ e
    ]

    pub row_stats-tally :
        (k q : K) (ss : List ℕ) (rs : List (Row K))
        → row_stats q (tally k ss rs)
          ≡ (if same k q then add_stats (row_stats q rs) ss else row_stats q rs)
    unfolding row_stats tally
    row_stats-tally k q ss [] = refl
    row_stats-tally k q ss (r ∷ rs) = elim (Bool-cases (same r.key k)) [
      | inl e ↦
          rw (e, sym (other r.key k q e))
            (elim (Bool-cases (same r.key q)) [ inl h ↦ rw h | inr h ↦ rw h ])
      | inr e ↦ rw e (elim (Bool-cases (same r.key q)) [
        | inl h ↦ rw (h, apart r.key k q e h)
        | inr h ↦ rw h (row_stats-tally k q ss rs)
      ])
    ]

    pub has_row-tally :
        (k q : K) (ss : List ℕ) (rs : List (Row K))
        → has_row q (tally k ss rs) ≡ (has_row q rs || same k q)
    unfolding has_row tally
    has_row-tally k q ss [] = ground arith
    has_row-tally k q ss (r ∷ rs) = elim (Bool-cases (same r.key k)) [
      | inl e ↦ rw (e, sym (other r.key k q e)) (ground arith)
      | inr e ↦ rw e (ground (arith, has_row-tally k q ss rs))
    ]

    pub tally-AreRows :
        (k : K) (ss : List ℕ) (rs : List (Row K)) → AreRows rs → AreRows (tally k ss rs)
    unfolding AreRows tally has_row
    tally-AreRows k ss [] h = (refl, tt)
    tally-AreRows k ss (r ∷ rs) h = elim (Bool-cases (same r.key k)) [
      | inl e ↦ rw e h
      | inr e ↦
          let new : has_row r.key (tally k ss rs) ≡ false =
            has_row-tally k r.key ss rs
            ∙ ap₂ (λ a b. a || b) h.0 (apart r.key k r.key e (same_refl r.key)) in
          rw e (new, tally-AreRows k ss rs h.1)
    ]
