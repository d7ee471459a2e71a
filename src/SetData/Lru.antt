-- ===== src/SetData/Lru.antt =====
-- A set under a sequence of `Cache::Access`, beside the unbounded list of all the lines accessed, the
-- most recent first.
use ig_cachesim.Common.{
  ℕ, zero, suc, ◌+◌, ◌≤◌, ◌≡◌, refl, ap, true, false, List, [], ◌∷◌, arith, ◌==◌, take, length,
  ==_refl, length-take, Bool-cases, inl, inr,
}
use ig_cachesim.SetData.{SetData, access_set}
use ig_cachesim.SetData.Loops.{mem, remove, access_set_lem, length-remove}

-- The set after a sequence of accesses, the first in front.
unfoldable pub accesses : ℕ → SetData → List ℕ → SetData
accesses ways s [] = s
accesses ways s (b ∷ h) = accesses ways (access_set ways s b).1 h

-- The specification: a list of lines by recency, from which nothing falls out.
unfoldable pub recency : List ℕ → List ℕ → List ℕ
recency l [] = l
recency l (b ∷ h) = recency (b ∷ remove b l) h

take-remove-take : (w b : ℕ) (l : List ℕ) → take w (remove b (take (suc w) l)) ≡ take w (remove b l)
take-remove-take w b [] = refl
take-remove-take zero b (x ∷ l) = refl
take-remove-take (suc w) b (x ∷ l) = elim (Bool-cases (x == b)) [
  | inl e ↦ rw e (take-take (suc w) l)
  | inr e ↦ rw e (ap (λ (m : List ℕ). x ∷ m) (take-remove-take w b l))
]
  where
    take-take : (n : ℕ) (m : List ℕ) → take n (take n m) ≡ take n m
    take-take zero m = refl
    take-take (suc n) [] = refl
    take-take (suc n) (y ∷ m) = ap (λ (r : List ℕ). y ∷ r) (take-take n m)

module _ (w : ℕ) where
  pub length-access_set :
      (s : SetData) (b : ℕ) → length s ≡ suc w → length (access_set (suc w) s b).1 ≡ suc w
  length-access_set s b h =
      rw (access_set_lem w b s h) (ground (arith, length-take w (remove b s), length-remove b s))

  -- The set is the front of the list by recency, after any sequence of accesses.
  pub accesses-recency :
      (l h : List ℕ)
      → suc w ≤ length l
      → accesses (suc w) (take (suc w) l) h ≡ take (suc w) (recency l h)
  unfolding accesses recency
  accesses-recency l [] long = refl
  accesses-recency l (b ∷ h) long =
      rw
        (
          access_set_lem w b (take (suc w) l) (omega (arith, length-take (suc w) l)),
          take-remove-take w b l,
        )
        (accesses-recency (b ∷ remove b l) h (ground (arith, length-remove b l)))

mem-take_mono :
    (k w b : ℕ) (s : List ℕ)
    → k ≤ w
    → mem b (take k s) ≡ true
    → mem b (take (suc k) (take (suc w) s)) ≡ true
mem-take_mono zero w b s h m = cc
mem-take_mono (suc k) w b [] h m = cc
mem-take_mono (suc k) zero b (y ∷ s) h m = absurd (omega arith)
mem-take_mono (suc k) (suc w) b (y ∷ s) h m = ground (arith, mem-take_mono k w b s)

-- Taking one other line out moves nothing back.
mem-take-remove :
    (k w b x : ℕ) (s : List ℕ)
    → k ≤ w
    → (x == b) ≡ false
    → mem b (take k s) ≡ true
    → mem b (take k (take w (remove x s))) ≡ true
mem-take-remove zero w b x s h n m = cc
mem-take-remove (suc k) w b x [] h n m = cc
mem-take-remove (suc k) zero b x (y ∷ s) h n m = absurd (omega arith)
mem-take-remove (suc k) (suc w) b x (y ∷ s) h n m =
    ground (arith, mem-take-remove k w b x s, mem-take_mono k w b s)

mem_weaken : (k b : ℕ) (s : List ℕ) → mem b (take k s) ≡ true → mem b s ≡ true
mem_weaken zero b s m = cc
mem_weaken (suc k) b [] m = cc
mem_weaken (suc k) b (y ∷ s) m = ground (arith, mem_weaken k b s)

module _ (w b : ℕ) where
  -- An access moves another line back by one place at most.
  access_set-keeps :
      (k x : ℕ) (s : SetData)
      → length s ≡ suc w
      → k ≤ w
      → mem b (take k s) ≡ true
      → mem b (take (suc k) (access_set (suc w) s x).1) ≡ true
  access_set-keeps k x s e h m =
      rw (access_set_lem w x s e) (ground (arith, mem-take-remove k w b x s))

  accesses-keeps :
      (k : ℕ) (s : SetData) (h : List ℕ)
      → length s ≡ suc w
      → k + length h ≤ suc w
      → mem b (take k s) ≡ true
      → (mem b (accesses (suc w) s h) ≡ true) × (length (accesses (suc w) s h) ≡ suc w)
  unfolding accesses
  accesses-keeps k s [] e h m = (mem_weaken k b s m, e)
  accesses-keeps k s (x ∷ xs) e h m =
      accesses-keeps (suc k) (access_set (suc w) s x).1 xs (length-access_set w s x e) (omega arith)
        (access_set-keeps k x s e (omega arith) m)

  -- A line that was accessed is hit again after any `w` further accesses to a set of `w + 1` ways,
  -- whatever the set held.
  pub access_set-accesses :
      (s : SetData) (h : List ℕ)
      → length s ≡ suc w
      → length h ≤ w
      → (access_set (suc w) (accesses (suc w) (access_set (suc w) s b).1 h) b).0 ≡ true
  access_set-accesses s h e short =
      let first = access_set-front s e in
      let r =
        accesses-keeps 1 (access_set (suc w) s b).1 h (length-access_set w s b e) (omega arith)
          first in
      rw (access_set_lem w b _ r.1) r.0
    where
      access_set-front :
          (t : SetData) → length t ≡ suc w → mem b (take 1 (access_set (suc w) t b).1) ≡ true
      access_set-front t q = rw (access_set_lem w b t q, ==_refl b)
