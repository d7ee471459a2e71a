-- ===== src/SetData/Unique.antt =====
-- How often a line stands in the ways of a set.
use ig_cachesim.Common.{
  ℕ, zero, suc, ◌+◌, ◌≤◌, ◌≡◌, ◌≢◌, refl, true, false, List, [], ◌∷◌, ◌++◌, arith, ◌==◌,
  if◌then◌else◌, take, length, replicate, length-append,
}
use ig_cachesim.SetData.{SetData, access_set, invalidate_set}
use ig_cachesim.SetData.Loops.{mem, remove, access_set_lem, invalidate_set_lem, length-remove}

abbrev pub count : ℕ → List ℕ → ℕ
count b [] = 0
count b (x ∷ xs) = (if x == b then 1 else 0) + count b xs

abbrev pub IsUnique : SetData → Type 0
IsUnique s = (b : ℕ) → b ≢ 0 → count b s ≤ 1

pub count-eq-zero : (b : ℕ) (s : List ℕ) → count b s ≡ 0 → mem b s ≡ false
count-eq-zero b [] h = refl
count-eq-zero b (x ∷ s) h = ground (arith, count-eq-zero b s)

pub count-absent : (b : ℕ) (s : List ℕ) → mem b s ≡ false → count b s ≡ 0
count-absent b [] h = refl
count-absent b (x ∷ s) h = ground (arith, count-absent b s)

pub count-ne-zero : (b : ℕ) (s : List ℕ) → mem b s ≡ true → 1 ≤ count b s
count-ne-zero b [] h = cc
count-ne-zero b (x ∷ s) h = ground (arith, count-ne-zero b s)

pub count-remove :
    (q b : ℕ) (s : List ℕ)
    → count q (remove b s) + (if b == q then (if mem b s then 1 else 0) else 0) ≡ count q s
count-remove q b [] = ground arith
count-remove q b (x ∷ s) = ground (arith, count-remove q b s)

pub count-take : (q n : ℕ) (s : List ℕ) → count q (take n s) ≤ count q s
count-take q zero s = omega arith
count-take q (suc n) [] = omega arith
count-take q (suc n) (x ∷ s) = omega (arith, count-take q n s)

pub count-append : (q : ℕ) (s t : List ℕ) → count q (s ++ t) ≡ count q s + count q t
count-append q [] t = omega arith
count-append q (x ∷ s) t = omega (arith, count-append q s t)

pub count-replicate : (q n : ℕ) → q ≢ 0 → count q (replicate n 0) ≡ 0
count-replicate q zero h = refl
count-replicate q (suc n) h = ground (arith, count-replicate q n)

module _ (w b : ℕ) (s : SetData) (wide : length s ≡ suc w) where
  pub length-invalidate_set : length (invalidate_set (suc w) s b) ≡ suc w
  length-invalidate_set =
      rw (invalidate_set_lem w b s wide)
        (ground (arith, length-remove b s, length-append {0} (remove b s) (0 ∷ [])))

  -- What an operation adds: no line but the accessed one.
  pub count-access_set : (q : ℕ) → q ≢ b → count q (access_set (suc w) s b).1 ≤ count q s
  count-access_set q n =
      rw (access_set_lem w b s wide)
        (ground (arith, count-take q w (remove b s), count-remove q b s))

  pub access_set-IsUnique : IsUnique s → IsUnique (access_set (suc w) s b).1
  access_set-IsUnique u q n =
      rw (access_set_lem w b s wide)
        (ground (arith, u q n, count-take q w (remove b s), count-remove q b s, count-absent q s))

  pub count-invalidate_set : (q : ℕ) → q ≢ 0 → count q (invalidate_set (suc w) s b) ≤ count q s
  count-invalidate_set q n =
      rw (invalidate_set_lem w b s wide)
        (ground (arith, count-append q (remove b s) (0 ∷ []), count-remove q b s))

  pub invalidate_set-IsUnique : IsUnique s → IsUnique (invalidate_set (suc w) s b)
  invalidate_set-IsUnique u q n = omega (arith, u q n, count-invalidate_set q n)

  -- Once invalidated, a line is not found.
  pub count-invalidate_set_self : IsUnique s → b ≢ 0 → count b (invalidate_set (suc w) s b) ≡ 0
  count-invalidate_set_self u n = rw (invalidate_set_lem w b s wide) (
      ground
        (arith, u b n, count-append b (remove b s) (0 ∷ []), count-remove b b s, count-absent b s))
