-- ===== src/Lock/Exclusion.antt =====
-- Who is inside, after any interleaving.
use ig_cachesim.Common.{
  All-map, get_or-set_ne, ℕ, zero, suc, ◌+◌, ◌≤◌, ◌<◌, ◌≡◌, ◌≢◌, refl, ◌∙◌, All, List, [], ◌∷◌,
  get_or, set, replicate, length, length-set, length-replicate, arith,
}
use ig_cachesim.Lock.{
  Phase, outside, inside, spinning, Threads, atomic_compare_exchange, next_count, try_lock, act,
  step, run, idle,
}

unfoldable pub is_inside : Phase → ℕ
is_inside outside = 0
is_inside inside = 1
is_inside (spinning count) = 0

unfoldable pub count_inside : List Phase → ℕ
count_inside [] = 0
count_inside (p ∷ ps) = is_inside p + count_inside ps

abbrev pub IsCounting : Phase → Type 0
IsCounting outside = Unit
IsCounting inside = Unit
IsCounting (spinning count) = count ≤ 1000

-- One thread is inside where the lock is taken, and none where it is free.
pub record IsExclusive (s : Threads) : Type 0 where
  pub holder : count_inside s.phases ≡ s.lock
  pub binary : s.lock ≤ 1
  pub counting : All IsCounting s.phases

count_inside-set :
    (ps : List Phase) (i : ℕ) (p : Phase)
    → i < length ps
    → count_inside (set ps i p) + is_inside (get_or ps i outside) ≡ count_inside ps + is_inside p
unfolding count_inside
count_inside-set [] i p h = absurd (omega arith)
count_inside-set (q ∷ ps) zero p h = omega arith
count_inside-set (q ∷ ps) (suc i) p h = omega (arith, count_inside-set ps i p (omega (arith, h)))

pub is_inside-get_or : (ps : List Phase) (i : ℕ) → is_inside (get_or ps i outside) ≤ count_inside ps
unfolding count_inside is_inside
is_inside-get_or [] i = omega arith
is_inside-get_or (q ∷ ps) zero = omega arith
is_inside-get_or (q ∷ ps) (suc i) = omega (arith, is_inside-get_or ps i)

All-set :
    (ps : List Phase) (i : ℕ) (p : Phase)
    → All IsCounting ps
    → IsCounting p
    → All IsCounting (set ps i p)
All-set [] i p h k = tt
All-set (q ∷ ps) zero p h k = (k, h.1)
All-set (q ∷ ps) (suc i) p h k = (h.0, All-set ps i p h.1 k)

All-get : (ps : List Phase) (i : ℕ) → All IsCounting ps → IsCounting (get_or ps i outside)
All-get [] i h = tt
All-get (q ∷ ps) zero h = h.0
All-get (q ∷ ps) (suc i) h = All-get ps i h.1

-- What an action does to the lock and to the number of threads inside.
pub record Acts (p : Phase) (lock : ℕ) (r : ℕ × Phase) : Type 0 where
  pub balance : is_inside r.1 + lock ≡ is_inside p + r.0
  pub binary : r.0 ≤ 1
  pub counting : IsCounting r.1

pub act-Acts :
    (p : Phase) (lock : ℕ) → lock ≤ 1 → is_inside p ≤ lock → IsCounting p → Acts p lock (act p lock)
unfolding act is_inside try_lock atomic_compare_exchange next_count
act-Acts outside lock b h k = record { balance = omega arith; binary = b; counting = omega arith }
act-Acts inside lock b h k = record {
  balance = omega (arith, b, h);
  binary = omega arith;
  counting = tt;
}
act-Acts (spinning count) zero b h k = record {
  balance = omega arith;
  binary = omega arith;
  counting = tt;
}
act-Acts (spinning count) (suc zero) b h k = record {
  balance = omega arith;
  binary = omega arith;
  counting = ground (arith, k);
}
act-Acts (spinning count) (suc (suc lock)) b h k = absurd (omega (arith, b))

pub step-IsExclusive :
    (s : Threads) (i : ℕ) → i < length s.phases → IsExclusive s → IsExclusive (step s i)
unfolding step
step-IsExclusive s i h v =
    let p = get_or s.phases i outside in
    let r = act p s.lock in
    let n = count_inside-set s.phases i r.1 h in
    let a =
      act-Acts p s.lock v.binary (omega (arith, is_inside-get_or s.phases i, v.holder))
        (All-get s.phases i v.counting) in
    record {
      holder = omega (arith, n, a.balance, v.holder);
      binary = a.binary;
      counting = All-set s.phases i r.1 v.counting a.counting;
    }

length-step : (s : Threads) (i : ℕ) → length (step s i).phases ≡ length s.phases
unfolding step
length-step s i = length-set s.phases i (act (get_or s.phases i outside) s.lock).1

length-run : (s : Threads) (is : List ℕ) → length (run s is).phases ≡ length s.phases
unfolding run
length-run s [] = refl
length-run s (i ∷ is) = length-run (step s i) is ∙ length-step s i

pub run-IsExclusive :
    (s : Threads) (is : List ℕ)
    → IsExclusive s
    → All (λ i. i < length s.phases) is
    → IsExclusive (run s is)
unfolding run
run-IsExclusive s [] v h = v
run-IsExclusive s (i ∷ is) v h =
    run-IsExclusive (step s i) is (step-IsExclusive s i h.0 v)
      (All-map {P = λ j. j < length s.phases} (λ j k. omega (arith, k, length-step s i)) is h.1)

idle_phases :
    (n : ℕ) → (count_inside (replicate n outside) ≡ 0) × All IsCounting (replicate n outside)
unfolding count_inside is_inside
idle_phases zero = (refl, tt)
idle_phases (suc n) = (omega (arith, (idle_phases n).0), (tt, (idle_phases n).1))

pub idle-IsExclusive : (n : ℕ) → IsExclusive (idle n)
idle-IsExclusive n = record {
  holder = (idle_phases n).0;
  binary = omega arith;
  counting = (idle_phases n).1;
}

-- Two places that hold 1 make a sum of 2.
two_inside :
    (ps : List Phase) (i j : ℕ)
    → get_or ps i outside ≡ inside
    → get_or ps j outside ≡ inside
    → i ≢ j
    → i < length ps
    → 2 ≤ count_inside ps
two_inside ps i j e f ne h =
    let other : get_or (set ps i outside) j outside ≡ inside =
      get_or-set_ne ps i j outside outside ne ∙ f in
    let one : is_inside (get_or ps i outside) ≡ 1 = rw e (unfold is_inside in refl) in
    let also : is_inside (get_or (set ps i outside) j outside) ≡ 1 =
      rw other (unfold is_inside in refl) in
    let none_left : is_inside outside ≡ 0 = unfold is_inside in refl in
    omega (
      arith,
      one,
      also,
      none_left,
      count_inside-set ps i outside h,
      is_inside-get_or (set ps i outside) j,
    )

-- After any interleaving of the actions of any number of threads that start outside, no two
-- different threads are inside the lock.
pub run-exclusive :
    (n : ℕ) (is : List ℕ) (i j : ℕ)
    → All (λ k. k < n) is
    → i < n
    → i ≢ j
    → get_or (run (idle n) is).phases i outside ≡ inside
    → get_or (run (idle n) is).phases j outside ≢ inside
run-exclusive n is i j h k ne e f =
    let s = run (idle n) is in
    let wide : length (idle n).phases ≡ n = length-replicate {A = Phase} n outside in
    let v =
      run-IsExclusive (idle n) is (idle-IsExclusive n)
        (All-map {P = λ k. k < n} (λ k l. omega (arith, l, wide)) is h) in
    let here : i < length s.phases = omega (arith, length-run (idle n) is, wide, k) in
    omega (arith, two_inside s.phases i j e f ne here, v.holder, v.binary)
