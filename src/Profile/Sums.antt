-- ===== src/Profile/Sums.antt =====
-- The sum of counters, one by one.
use ig_cachesim.Common.{
  ℕ, zero, suc, ◌+◌, ◌%◌, ◌^◌, ◌<◌, ◌≡◌, refl, ap, List, [], ◌∷◌, get_or, length, arith,
}
use ig_cachesim.Profile.{add_stats}

pub length-add_stats : (ts ss : List ℕ) → length (add_stats ts ss) ≡ length ts
unfolding add_stats
length-add_stats [] ss = refl
length-add_stats (t ∷ ts) [] = refl
length-add_stats (t ∷ ts) (s ∷ ss) = ap suc (length-add_stats ts ss)

pub get_or-add_stats :
    (ts ss : List ℕ) (k : ℕ)
    → k < length ts
    → length ss ≡ length ts
    → get_or (add_stats ts ss) k 0 ≡ (get_or ts k 0 + get_or ss k 0) % 2 ^ 32
unfolding add_stats
get_or-add_stats [] ss k h e = absurd (omega (arith, h))
get_or-add_stats (t ∷ ts) [] k h e = absurd (omega (arith, e))
get_or-add_stats (t ∷ ts) (s ∷ ss) zero h e = refl
get_or-add_stats (t ∷ ts) (s ∷ ss) (suc k) h e =
    get_or-add_stats ts ss k (omega (arith, h)) (omega (arith, e))
