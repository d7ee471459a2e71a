-- ===== src/Stacks/Memory.antt =====
-- What the memory of the frames holds after a copy and after a growth.
use ig_cachesim.Common.{
  ℕ, zero, suc, ◌+◌, ◌-◌, ◌*◌, ◌%◌, ◌^◌, ◌≤◌, ◌<◌, ◌≡◌, ◌⊎◌, inl, inr, refl, ap, ap₂, ◌∙◌, List, [],
  ◌∷◌, ◌++◌, arith, get_or, set, take, take_all, length, length-set, length-append,
  length-replicate, replicate, ltb, not, ◌==◌, Bool-cases, if◌then◌else◌, get_or-set_self,
  get_or-set_ne, get_or-replicate, min,
}
use ig_cachesim.Stacks.{StackData, copy, virtual_memory_realloc, reserve}

-- The `n` frames from an offset.
unfoldable pub segment : List ℕ → ℕ → ℕ → List ℕ
segment mem offset zero = []
segment mem offset (suc n) = get_or mem offset 0 ∷ segment mem (suc offset) n

pub segment_congr :
    (a b : List ℕ) (offset n : ℕ)
    → ((j : ℕ) → j < offset + n → get_or a j 0 ≡ get_or b j 0)
    → segment a offset n ≡ segment b offset n
unfolding segment
segment_congr a b offset zero h = refl
segment_congr a b offset (suc n) h =
    ap₂ (λ x (xs : List ℕ). x ∷ xs) (h offset (omega arith))
      (segment_congr a b (suc offset) n (λ j l. h j (omega arith)))

pub length-copy :
    (mem : List ℕ) (offset : ℕ) (fs : List ℕ) → length (copy mem offset fs) ≡ length mem
unfolding copy
length-copy mem offset [] = refl
length-copy mem offset (f ∷ fs) =
    length-copy (set mem offset f) (suc offset) fs ∙ length-set mem offset f

pub get_or-copy :
    (mem : List ℕ) (offset : ℕ) (fs : List ℕ) (j : ℕ)
    → j < offset
    → get_or (copy mem offset fs) j 0 ≡ get_or mem j 0
unfolding copy
get_or-copy mem offset [] j h = refl
get_or-copy mem offset (f ∷ fs) j h =
    get_or-copy (set mem offset f) (suc offset) fs j (omega arith)
    ∙ get_or-set_ne mem offset j f 0 (omega arith)

pub segment-copy :
    (mem : List ℕ) (offset : ℕ) (fs : List ℕ)
    → offset + length fs ≤ length mem
    → segment (copy mem offset fs) offset (length fs) ≡ fs
unfolding segment copy
segment-copy mem offset [] h = refl
segment-copy mem offset (f ∷ fs) h =
    ap₂ (λ x (xs : List ℕ). x ∷ xs)
      (get_or-copy (set mem offset f) (suc offset) fs offset (omega arith)
        ∙ get_or-set_self mem offset f 0 (omega arith))
      (segment-copy (set mem offset f) (suc offset) fs (omega (arith, length-set mem offset f)))

get_or-append_zeros : (xs : List ℕ) (n j : ℕ) → get_or (xs ++ replicate n 0) j 0 ≡ get_or xs j 0
get_or-append_zeros [] n j = get_or-replicate n j 0
get_or-append_zeros (x ∷ xs) n zero = refl
get_or-append_zeros (x ∷ xs) n (suc j) = get_or-append_zeros xs n j

-- Memory that grows keeps its contents.
module _ (old : List ℕ) (new_size : ℕ) (h : length old ≤ new_size) where
  kept : take (min (length old) new_size) old ≡ old
  kept = take_all (min (length old) new_size) old (omega arith)

  get_or-realloc : (j : ℕ) → get_or (virtual_memory_realloc old new_size) j 0 ≡ get_or old j 0
  unfolding virtual_memory_realloc
  get_or-realloc j = rw kept (get_or-append_zeros old (new_size - min (length old) new_size) j)

  length-realloc : length (virtual_memory_realloc old new_size) ≡ new_size
  unfolding virtual_memory_realloc
  length-realloc = omega (
    arith,
    ap length kept,
    length-append (take (min (length old) new_size) old)
        (replicate (new_size - min (length old) new_size) 0),
    length-replicate {A = ℕ} (new_size - min (length old) new_size) 0,
  )

-- The memory is as long as the reserve, which is none at all or at least 65,536 frames.
pub record IsData (d : StackData) : Type 0 where
  pub width : length d.frames ≡ d.reserve_count
  pub fits : d.count ≤ d.reserve_count
  pub least : (d.reserve_count ≡ 0) ⊎ (65536 ≤ d.reserve_count)

-- The memory that `reserve` gives has room for a stack and its end, and is otherwise as it was.
pub record Reserved (d : StackData) (n : ℕ) (r : StackData) : Type 0 where
  pub valid : IsData r
  pub room : d.count + n + 1 ≤ r.reserve_count
  pub reads : (j : ℕ) → get_or r.frames j 0 ≡ get_or d.frames j 0
  pub count : r.count ≡ d.count

module _ (d : StackData) (v : IsData d) (n : ℕ) (few : n ≤ 128) (small : d.count < 2 ^ 30) where
  abbrev size : ℕ
  size = if not (d.reserve_count == 0) then 2 * d.reserve_count % 2 ^ 32 else 65536

  size_fits :
      d.reserve_count < d.count + n + 1
      → (d.count + n + 1 ≤ size) × (d.reserve_count ≤ size) × (65536 ≤ size)
  size_fits h = ground (arith, v.least, v.fits)

  pub reserve-Reserved : Reserved d n (reserve d n)
  unfolding reserve
  reserve-Reserved = elim (Bool-cases (ltb d.reserve_count ((d.count + n + 1) % 2 ^ 32))) [
    | inl e ↦
        let z = size_fits (ground arith) in
        rw e (record {
          valid = record {
            width = length-realloc d.frames size (omega (arith, v.width, z.1));
            fits = omega (arith, v.fits, z.1);
            least = inr z.2;
          };
          room = z.0;
          reads = get_or-realloc d.frames size (omega (arith, v.width, z.1));
          count = refl;
        })
    | inr e ↦ rw e (record { valid = v; room = ground arith; reads = λ j. refl; count = refl })
  ]
