-- ===== src/Lock/Progress.antt =====
-- A thread that waits for the lock can get it.
use ig_cachesim.Common.{
  ℕ, suc, ◌≤◌, ◌<◌, ◌≡◌, ◌≢◌, refl, ap, sym, ◌∙◌, List, [], ◌∷◌, ◌==◌, get_or, set, length,
  get_or-set_self, get_or-set_ne, arith, inl, inr, Bool-cases, length-set,
}
use ig_cachesim.Lock.{
  Phase, outside, inside, spinning, Threads, atomic_compare_exchange, try_lock, act, step, run,
}
use ig_cachesim.Lock.Exclusion.{is_inside, count_inside, IsExclusive}

-- Where the sum is not zero, a thread is inside.
find_inside :
    (ps : List Phase)
    → 0 < count_inside ps
    → (j : ℕ) × (j < length ps) × (get_or ps j outside ≡ inside)
unfolding count_inside is_inside
find_inside [] h = absurd (omega arith)
find_inside (inside ∷ ps) h = (0, omega arith, refl)
find_inside (outside ∷ ps) h =
    let r = find_inside ps (omega (arith, h)) in (suc r.0, omega (arith, r.1), r.2)
find_inside (spinning count ∷ ps) h =
    let r = find_inside ps (omega (arith, h)) in (suc r.0, omega (arith, r.1), r.2)

step-acquires :
    (s : Threads) (i count : ℕ)
    → i < length s.phases
    → get_or s.phases i outside ≡ spinning count
    → s.lock ≡ 0
    → get_or (step s i).phases i outside ≡ inside
unfolding step act try_lock atomic_compare_exchange
step-acquires s i count h e free = rw (e, free) (get_or-set_self s.phases i inside outside h)

step-releases :
    (s : Threads) (j : ℕ)
    → get_or s.phases j outside ≡ inside
    → step s j ≡ record { lock = 0; phases = set s.phases j outside }
unfolding step act
step-releases s j e = rw e

inside-ne-spinning : (count : ℕ) → inside ≢ spinning count
unfolding is_inside
inside-ne-spinning count e = let f : 1 ≡ 0 = ap is_inside e in omega (arith, f)

-- Whenever one thread is inside exactly if the lock is taken, a thread that waits in the loop can
-- be brought inside by at most two actions: that of the thread inside, if there is one, and its
-- own.
pub run-acquires :
    (s : Threads) (i count : ℕ)
    → IsExclusive s
    → i < length s.phases
    → get_or s.phases i outside ≡ spinning count
    → (is : List ℕ) × (length is ≤ 2) × (get_or (run s is).phases i outside ≡ inside)
unfolding run
run-acquires s i count v h e = elim (Bool-cases (s.lock == 0)) [
  | inl free ↦ (i ∷ [], omega arith, step-acquires s i count h e (ground (arith, free)))
  | inr taken ↦
      let busy : 0 < count_inside s.phases = ground (arith, v.holder, taken) in
      let (j, small, here) = find_inside s.phases busy in
      let ne : j ≢ i =
        λ p. inside-ne-spinning count (sym here ∙ ap (λ k. get_or s.phases k outside) p ∙ e) in
      let after : Threads = record { lock = 0; phases = set s.phases j outside } in
      let waits : get_or (set s.phases j outside) i outside ≡ spinning count =
        get_or-set_ne s.phases j i outside outside ne ∙ e in
      let wide : i < length (set s.phases j outside) =
        omega (arith, length-set s.phases j outside, h) in
      (
        j ∷ i ∷ [],
        omega arith,
        ap (λ (t : Threads). get_or (step t i).phases i outside) (step-releases s j here)
            ∙ step-acquires after i count wide waits refl,
      )
]
