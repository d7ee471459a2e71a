-- ===== src/SetData/Loops.antt =====
-- What the loops over a set compute, as operations on lists.
use mathlib.Core.Option
use ig_cachesim.Common.{
  ℕ, zero, suc, ◌+◌, ◌-◌, ◌<◌, ◌≡◌, refl, ap, sym, ◌∙◌, Bool, true, false, ◌||◌, Option, none,
  Option-cases, some, List, [], ◌∷◌, ◌++◌, arith, ◌==◌, if◌then◌else◌, get_or, set, take, length,
  inl, inr, take_all,
}
use ig_cachesim.SetData.{
  SetData, find_way, swap, move_front, shift_right, shift_left, access_set, invalidate_set,
}

abbrev pub mem : ℕ → List ℕ → Bool
mem b [] = false
mem b (x ∷ xs) = x == b || mem b xs

-- The list without the first occurrence of `b`.
abbrev pub remove : ℕ → List ℕ → List ℕ
remove b [] = []
remove b (x ∷ xs) = if x == b then xs else x ∷ remove b xs

abbrev index_of : ℕ → List ℕ → Option ℕ
index_of b [] = none
index_of b (x ∷ xs) = if x == b then some 0 else Option.map suc (index_of b xs)

abbrev remove_at : ℕ → List ℕ → List ℕ
remove_at n [] = []
remove_at zero (x ∷ xs) = xs
remove_at (suc n) (x ∷ xs) = x ∷ remove_at n xs

find_way-cons :
    (n w x b : ℕ) (s : List ℕ) → find_way n (suc w) (x ∷ s) b ≡ Option.map suc (find_way n w s b)
unfolding find_way
find_way-cons zero w x b s = refl
find_way-cons (suc n) w x b s = ground (arith, find_way-cons n (suc w) x b s)

find_way-index_of : (b : ℕ) (s : List ℕ) → find_way (length s) 0 s b ≡ index_of b s
unfolding find_way
find_way-index_of b [] = refl
find_way-index_of b (x ∷ s) = rw (find_way-cons (length s) 0 x b s, find_way-index_of b s)

move_front-cons :
    (n x : ℕ) (s : List ℕ) → move_front (suc n) (x ∷ s) ≡ swap (x ∷ move_front n s) 1 0
unfolding move_front swap
move_front-cons zero x s = refl
move_front-cons (suc n) x s = move_front-cons n x (swap s (suc n) n)

move_front_lem : (n : ℕ) (s : List ℕ) → n < length s → move_front n s ≡ get_or s n 0 ∷ remove_at n s
unfolding move_front swap
move_front_lem n [] h = absurd (omega arith)
move_front_lem zero (x ∷ s) h = refl
move_front_lem (suc n) (x ∷ s) h =
    move_front-cons n x s ∙ ap (λ (l : List ℕ). swap (x ∷ l) 1 0) (move_front_lem n s (omega arith))

shift_right-cons :
    (n x : ℕ) (s : List ℕ) → shift_right (suc n) (x ∷ s) ≡ x ∷ set (shift_right n s) 0 x
unfolding shift_right
shift_right-cons zero x s = refl
shift_right-cons (suc n) x s = shift_right-cons n x (set s (suc n) (get_or s n 0))

shift_right_lem :
    (n b : ℕ) (s : List ℕ) → length s ≡ suc n → set (shift_right n s) 0 b ≡ b ∷ take n s
shift_right_lem n b [] h = absurd (omega arith)
shift_right_lem zero b (x ∷ []) h = unfold shift_right in refl
shift_right_lem zero b (x ∷ y ∷ s) h = absurd (omega arith)
shift_right_lem (suc n) b (x ∷ s) h =
    rw (shift_right-cons n x s) (ap (λ (l : List ℕ). b ∷ l) (shift_right_lem n x s (omega arith)))

shift_left-cons : (n r x : ℕ) (s : List ℕ) → shift_left n (suc r) (x ∷ s) ≡ x ∷ shift_left n r s
unfolding shift_left
shift_left-cons zero r x s = refl
shift_left-cons (suc n) r x s = shift_left-cons n (suc r) x (set s r (get_or s (suc r) 0))

shift_left_start :
    (n x : ℕ) (s : List ℕ) → length s ≡ n → set (shift_left n 0 (x ∷ s)) n 0 ≡ s ++ (0 ∷ [])
unfolding shift_left
shift_left_start zero x [] h = refl
shift_left_start zero x (y ∷ s) h = absurd (omega arith)
shift_left_start (suc n) x [] h = absurd (omega arith)
shift_left_start (suc n) x (y ∷ s) h =
    rw (shift_left-cons n 0 y (y ∷ s))
      (ap (λ (l : List ℕ). y ∷ l) (shift_left_start n y s (omega arith)))

shift_left_lem :
    (k n : ℕ) (s : List ℕ)
    → length s ≡ suc (n + k)
    → set (shift_left n k s) (n + k) 0 ≡ remove_at k s ++ (0 ∷ [])
shift_left_lem k n [] h = absurd (omega arith)
shift_left_lem zero n (x ∷ s) h =
    let e : n + 0 ≡ n = omega arith in rw e (shift_left_start n x s (omega arith))
shift_left_lem (suc k) n (x ∷ s) h =
    let e : n + suc k ≡ suc (n + k) = omega arith in
    rw (e, shift_left-cons n k x s)
      (ap (λ (l : List ℕ). x ∷ l) (shift_left_lem k n s (omega arith)))

pred_suc : (w : ℕ) → suc w - 1 ≡ w
pred_suc w = omega arith

-- What a found index says.
record Found (b n : ℕ) (s : List ℕ) : Type 0 where
  within : n < length s
  value : get_or s n 0 ≡ b
  rest : remove_at n s ≡ remove b s
  present : mem b s ≡ true

map-suc-some :
    (o : Option ℕ) (n : ℕ) → Option.map suc o ≡ some n → (m : ℕ) × (n ≡ suc m) × (o ≡ some m)
map-suc-some none n e = cc
map-suc-some (some m) n e = (m, cc, refl)

index_of-Found : (b n : ℕ) (s : List ℕ) → index_of b s ≡ some n → Found b n s
index_of-Found b n [] e = cc
index_of-Found b n (x ∷ s) e = go (λ m i. index_of-Found b m s i) (x == b) refl e
  where
    go :
        ((m : ℕ) → index_of b s ≡ some m → Found b m s)
        → (t : Bool) → (x == b) ≡ t
        → (if t then some 0 else Option.map suc (index_of b s)) ≡ some n
        → Found b n (x ∷ s)
    go ih true q e' = let z : n ≡ 0 = cc in rw z (ground arith)
    go ih false q e' =
        let (m, p, i) = map-suc-some (index_of b s) n e' in rw p (ground (arith, ih m i))

index_of-none : (b : ℕ) (s : List ℕ) → index_of b s ≡ none → (mem b s ≡ false) × (remove b s ≡ s)
index_of-none b [] e = (refl, refl)
index_of-none b (x ∷ s) e = ground (arith, index_of-none b s)

pub length-remove :
    (b : ℕ) (s : List ℕ) → length (remove b s) + (if mem b s then 1 else 0) ≡ length s
length-remove b [] = omega arith
length-remove b (x ∷ s) = ground (arith, length-remove b s)

-- `Access` on a set of `w + 1` ways reports whether the line is there, and puts it in front of the
-- others, of which the last falls out if the line is new.
pub access_set_lem :
    (w b : ℕ) (s : SetData)
    → length s ≡ suc w
    → access_set (suc w) s b ≡ (mem b s, b ∷ take w (remove b s))
unfolding access_set
access_set_lem w b s h = elim (Option-cases (index_of b s)) [
  | inl e ↦
      rw (seek ∙ e, access_set, pred_suc w, (index_of-none b s e).0, (index_of-none b s e).1)
        (ap (λ (l : List ℕ). (false, l)) (shift_right_lem w b s h))
  | inr (n, e) ↦
      let f = index_of-Found b n s e in
      rw (seek ∙ e, access_set, move_front_lem n s f.within, f.present, f.value, f.rest)
        (ap (λ (l : List ℕ). (true, b ∷ l))
          (sym (take_all w (remove b s) (ground (arith, length-remove b s, f)))))
]
  where
    seek : find_way (suc w) 0 s b ≡ index_of b s
    seek = rw h at (find_way-index_of b s)

-- `Invalidate` on a set of `w + 1` ways takes the line out, and an empty way comes in at the end.
pub invalidate_set_lem :
    (w b : ℕ) (s : SetData)
    → length s ≡ suc w
    → invalidate_set (suc w) s b ≡ (if mem b s then remove b s ++ (0 ∷ []) else s)
unfolding invalidate_set
invalidate_set_lem w b s h = elim (Option-cases (index_of b s)) [
  | inl e ↦ rw (seek ∙ e, invalidate_set, (index_of-none b s e).0)
  | inr (n, e) ↦
      let f = index_of-Found b n s e in
      let split : w - n + n ≡ w = omega (arith, f.within) in
      rw (seek ∙ e, invalidate_set, pred_suc w, f.present, ← f.rest)
        (rw split at (shift_left_lem n (w - n) s (omega (arith, f.within))))
]
  where
    seek : find_way (suc w) 0 s b ≡ index_of b s
    seek = rw h at (find_way-index_of b s)
