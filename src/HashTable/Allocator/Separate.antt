-- ===== src/HashTable/Allocator/Separate.antt =====
-- The elements that are in use, and those that are free.
use mathlib.Core.Path.{subst}
use ig_cachesim.Common.{
  ℕ, zero, suc, ◌+◌, ◌-◌, ◌≤◌, ◌<◌, ◌≡◌, refl, ◌⊎◌, inl, inr, All, All-map, true, some, List, [],
  ◌∷◌, ltb, Bool-cases, arith,
}
use ig_cachesim.HashTable.Allocator.{Allocator, carve, alloc_internal, alloc_element, free_element}

module _ (sz : ℕ) where
  -- Two elements that do not overlap.
  abbrev pub AreApart : ℕ → ℕ → Type 0
  AreApart x y = sz ≤ (x - y) + (y - x)

  abbrev pub ArePairwise : List ℕ → Type 0
  ArePairwise [] = Unit
  ArePairwise (x ∷ xs) = All (AreApart x) xs × ArePairwise xs

  -- Where an element lies in one of the blocks, before its last pointer.
  abbrev pub IsWithin : List ℕ → ℕ → Type 0
  IsWithin [] y = 1 ≤ 0
  IsWithin (b ∷ bs) y = ((b ≤ y) × (y + sz ≤ b + 4088)) ⊎ IsWithin bs y

  -- A block that overlaps none of a list.
  abbrev pub IsNewBlock : ℕ → List ℕ → Type 0
  IsNewBlock b bs = All (λ c. 4096 ≤ (b - c) + (c - b)) bs

  pub record IsAllocator (used : List ℕ) (a : Allocator) : Type 0 where
    pub used_apart : ArePairwise used
    pub free_apart : ArePairwise a.free_list
    pub apart : All (λ x. All (AreApart x) a.free_list) used
    pub used_within : All (IsWithin a.block_list) used
    pub free_within : All (IsWithin a.block_list) a.free_list

  within_new :
      (b x y : ℕ) (bs : List ℕ)
      → IsNewBlock b bs
      → b ≤ x
      → x + sz ≤ b + 4088
      → IsWithin bs y
      → AreApart x y
  within_new b x y [] h p q w = absurd (omega (arith, w))
  within_new b x y (c ∷ bs) h p q (inl w) = omega (arith, h.0, p, q, w.0, w.1)
  within_new b x y (c ∷ bs) h p q (inr w) = within_new b x y bs h.1 p q w

  -- The free list of a block that is being carved, up to `element`.
  record Carved (b element : ℕ) (bs used free : List ℕ) : Type 0 where
    pairwise : ArePairwise free
    crossed : All (λ x. All (AreApart x) free) used
    before : All (λ y. ((b ≤ y) × (y + sz ≤ element)) ⊎ IsWithin bs y) free
    within : All (IsWithin (b ∷ bs)) free

  apart_before :
      (b element y : ℕ) (bs : List ℕ)
      → IsNewBlock b bs
      → b ≤ element
      → element + sz ≤ b + 4088
      → ((b ≤ y) × (y + sz ≤ element)) ⊎ IsWithin bs y
      → AreApart element y
  apart_before b element y bs new p q (inl w) = omega (arith, w.1)
  apart_before b element y bs new p q (inr w) = within_new b element y bs new p q w

  still_before :
      (b element y : ℕ) (bs : List ℕ)
      → ((b ≤ y) × (y + sz ≤ element)) ⊎ IsWithin bs y
      → ((b ≤ y) × (y + sz ≤ element + sz)) ⊎ IsWithin bs y
  still_before b element y bs (inl w) = inl (w.0, omega (arith, w.1))
  still_before b element y bs (inr w) = inr w

  cross_new :
      (b element : ℕ) (bs free us : List ℕ)
      → IsNewBlock b bs
      → b ≤ element
      → element + sz ≤ b + 4088
      → All (IsWithin bs) us
      → All (λ x. All (AreApart x) free) us
      → All (λ x. All (AreApart x) (element ∷ free)) us
  cross_new b element bs free [] new p q w h = tt
  cross_new b element bs free (x ∷ us) new p q w h =
      let far = within_new b element x bs new p q w.0 in
      ((omega (arith, far), h.0), cross_new b element bs free us new p q w.1 h.1)

  carve_one :
      (b element : ℕ) (bs used free : List ℕ)
      → IsNewBlock b bs
      → All (IsWithin bs) used
      → b ≤ element
      → element + sz ≤ b + 4088
      → Carved b element bs used free
      → Carved b (element + sz) bs used (element ∷ free)
  carve_one b element bs used free new u p q c = record {
    pairwise = (
      All-map {P = λ y. ((b ≤ y) × (y + sz ≤ element)) ⊎ IsWithin bs y}
          (λ y. apart_before b element y bs new p q) free c.before,
      c.pairwise,
    );
    crossed = cross_new b element bs free used new p q u c.crossed;
    before = (
      inl (p, omega (arith)),
      All-map {P = λ y. ((b ≤ y) × (y + sz ≤ element)) ⊎ IsWithin bs y}
          (λ y. still_before b element y bs) free c.before,
    );
    within = (inl (p, q), c.within);
  }

  carve-Carved :
      (n b element : ℕ) (bs used free : List ℕ)
      → IsNewBlock b bs
      → All (IsWithin bs) used
      → b ≤ element
      → Carved b element bs used free
      → (last : ℕ) × Carved b last bs used (carve sz n (b + 4088) element free)
  unfolding carve
  carve-Carved zero b element bs used free new u p c = (element, c)
  carve-Carved (suc n) b element bs used free new u p c =
      elim (Bool-cases (ltb (element + sz) (b + 4088))) [
        | inl e ↦
            let q : element + sz ≤ b + 4088 = ground (arith, e) in
            rw e (
              carve-Carved n b (element + sz) bs used (element ∷ free) new u (omega (arith, p))
                (carve_one b element bs used free new u p q c))
        | inr e ↦ rw e (element, c)
      ]

  none_free : (us : List ℕ) → All (λ x. All (AreApart x) []) us
  none_free [] = tt
  none_free (x ∷ us) = (tt, none_free us)

  within_more : (b : ℕ) (bs us : List ℕ) → All (IsWithin bs) us → All (IsWithin (b ∷ bs)) us
  within_more b bs us h = All-map {P = IsWithin bs} (λ y w. inr w) us h

  carve_more :
      (n next element e : ℕ) (es : List ℕ)
      → (f : ℕ) × (fs : List ℕ) × (carve sz n next element (e ∷ es) ≡ f ∷ fs)
  unfolding carve
  carve_more zero next element e es = (e, es, refl)
  carve_more (suc n) next element e es = elim (Bool-cases (ltb (element + sz) next)) [
    | inl p ↦ rw p (carve_more n next (element + sz) element (e ∷ es))
    | inr p ↦ rw p (e, es, refl)
  ]

  -- Taking the first free element, and giving one back.
  taken :
      (used : List ℕ) (e : ℕ) (es bs : List ℕ)
      → IsAllocator used (record { free_list = e ∷ es; block_list = bs })
      → IsAllocator (e ∷ used) (record { free_list = es; block_list = bs })
  taken used e es bs v = record {
    used_apart = (
      All-map {P = λ x. All (AreApart x) (e ∷ es)} (λ x h. omega (arith, h.0)) used v.apart,
      v.used_apart,
    );
    free_apart = v.free_apart.1;
    apart =
        (v.free_apart.0, All-map {P = λ x. All (AreApart x) (e ∷ es)} (λ x h. h.1) used v.apart);
    used_within = (v.free_within.0, v.used_within);
    free_within = v.free_within.1;
  }

  add_free :
      (e : ℕ) (es us : List ℕ)
      → All (AreApart e) us
      → All (λ x. All (AreApart x) es) us
      → All (λ x. All (AreApart x) (e ∷ es)) us
  add_free e es [] h k = tt
  add_free e es (x ∷ us) h k = ((omega (arith, h.0), k.0), add_free e es us h.1 k.1)

  -- An element in use that is given back is free again, and overlaps no other.
  pub free_element-IsAllocator :
      (e : ℕ) (used : List ℕ) (a : Allocator)
      → IsAllocator (e ∷ used) a
      → IsAllocator used (free_element e a)
  unfolding free_element
  free_element-IsAllocator e used a v = record {
    used_apart = v.used_apart.1;
    free_apart = (v.apart.0, v.free_apart);
    apart = add_free e a.free_list used v.used_apart.0 v.apart.1;
    used_within = v.used_within.1;
    free_within = (v.used_within.0, v.free_within);
  }

  -- A block that is carved when nothing is free.
  filled-IsAllocator :
      (block : ℕ) (used bs : List ℕ)
      → IsAllocator used (record { free_list = []; block_list = bs })
      → IsNewBlock block bs
      → IsAllocator used (alloc_internal sz block (record { free_list = []; block_list = bs }))
  unfolding alloc_internal
  filled-IsAllocator block used bs v new =
      let start : Carved block block bs used [] = record {
        pairwise = tt;
        crossed = none_free used;
        before = tt;
        within = tt;
      } in
      let end : block + 4096 - 8 ≡ block + 4088 = omega arith in
      let c = (carve-Carved 4096 block block bs used [] new v.used_within (omega arith) start).1 in
      rw end (record {
        used_apart = v.used_apart;
        free_apart = c.pairwise;
        apart = c.crossed;
        used_within = within_more block bs used v.used_within;
        free_within = c.within;
      })

  carve_starts :
      (n next element : ℕ)
      → element + sz < next
      → (e : ℕ) × (es : List ℕ) × (carve sz (suc n) next element [] ≡ e ∷ es)
  unfolding carve
  carve_starts n next element h =
      let first : ltb (element + sz) next ≡ true = ground (arith, h) in
      rw first (carve_more n next (element + sz) element [])

  filled_some :
      (block : ℕ) (bs : List ℕ)
      → sz < 4088
      → (e : ℕ) × (es : List ℕ) × (alloc_internal sz block
            (record { free_list = []; block_list = bs })
          ≡ record { free_list = e ∷ es; block_list = block ∷ bs })
  unfolding alloc_internal
  filled_some block bs small =
      let (e, es, p) = carve_starts 4095 (block + 4096 - 8) block (omega (arith, small)) in
      (e, es, λ i. record { free_list = p i; block_list = block ∷ bs })

  alloc_element-from :
      (block : ℕ) (used free bs : List ℕ)
      → sz < 4088
      → IsAllocator used (record { free_list = free; block_list = bs })
      → IsNewBlock block bs
      → (r : ℕ × Allocator) × (alloc_element sz block (record { free_list = free; block_list = bs })
          ≡ some r)
        × IsAllocator (r.0 ∷ used) r.1
  unfolding alloc_element
  alloc_element-from block used [] bs small v new =
      let (e, es, p) = filled_some block bs small in
      let w : IsAllocator used (record { free_list = e ∷ es; block_list = block ∷ bs }) =
        subst (IsAllocator used) p (filled-IsAllocator block used bs v new) in
      (
        (e, record { free_list = es; block_list = block ∷ bs }),
        rw (p, alloc_element) (unfold alloc_internal in refl),
        taken used e es (block ∷ bs) w,
      )
  alloc_element-from block used (e ∷ es) bs small v new =
      ((e, record { free_list = es; block_list = bs }), refl, taken used e es bs v)

  -- Where the elements in use and the free ones lie in the allocator's blocks without overlap,
  -- elements are smaller than 4088 bytes, and the address for a new block overlaps no block:
  -- `AllocElement` gives an element that overlaps none in use, and the elements in use and the free
  -- ones again lie in the blocks without overlap.
  pub alloc_element-IsAllocator :
      (block : ℕ) (used : List ℕ) (a : Allocator)
      → sz < 4088
      → IsAllocator used a
      → IsNewBlock block a.block_list
      → (r : ℕ × Allocator) × (alloc_element sz block a ≡ some r) × IsAllocator (r.0 ∷ used) r.1
  alloc_element-IsAllocator block used a small v new =
      alloc_element-from block used a.free_list a.block_list small v new
