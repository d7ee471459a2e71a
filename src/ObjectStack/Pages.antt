-- ===== src/ObjectStack/Pages.antt =====
-- `allocRaw` of UI/ObjectStack.cpp: the parts of the pages that are taken.
use ig_cachesim.Common.{
  ℕ, suc, ◌+◌, ◌-◌, ◌*◌, ◌/◌, ◌≤◌, ◌<◌, ◌≡◌, refl, All, All-map, Bool-cases, inl, inr, ◌⊎◌, List,
  [], ◌∷◌, ltb, length, arith,
}
use ig_cachesim.ObjectStack.{
  Page, Address, ObjectStack, avail, alloc_page, with_room, take_bytes, allocated_in, alloc_raw,
}

-- Allocations in their order, of these sizes.
unfoldable pub alloc_all : List ℕ → ObjectStack → List (Address × ℕ) × ObjectStack
alloc_all [] st = ([], st)
alloc_all (b ∷ bs) st =
    let (a, st1) = alloc_raw b st in let (rest, st2) = alloc_all bs st1 in ((a, b) ∷ rest, st2)

-- A size that one page holds.
abbrev pub IsSmall : ℕ → Type 0
IsSmall b = b ≤ 1048552

-- A page of the default size, up to its last whole 16 bytes.
pub record IsPage (p : Page) : Type 0 where
  pub size : p.size ≡ 1048576
  pub room : p.allocated ≤ 1048576
  pub aligned : p.allocated ≡ p.allocated / 16 * 16

abbrev pub IsCurrent : List Page → Type 0
IsCurrent [] = Unit
IsCurrent (p ∷ ps) = IsPage p

-- Memory that a stack has not yet taken.
unfoldable pub IsFree : List Page → Address → Type 0
IsFree ps a = (length ps < a.page) ⊎ ((length ps ≡ a.page) × (allocated_in ps ≤ a.offset))

pub record Takes (b : ℕ) (ps : List Page) (a : Address) (qs : List Page) : Type 0 where
  pub valid : IsCurrent qs
  pub page : a.page ≡ length qs
  pub within : a.offset + b ≤ allocated_in qs
  pub bound : allocated_in qs ≤ 1048576
  pub free : IsFree ps a

module _ (b : ℕ) (small : b ≤ 1048552) where
  avail_lem : (p : Page) → IsPage p → avail p ≡ 1048576 - p.allocated
  unfolding avail
  avail_lem p v = omega (arith, v.size, v.room)

  fresh_page : (ps : List Page) → IsPage (alloc_page b)
  unfolding alloc_page
  fresh_page ps = record { size = omega (arith, small); room = omega arith; aligned = refl }

  take_bytes-Takes :
      (ps : List Page) (p : Page) (rest : List Page)
      → IsPage p
      → b ≤ 1048576 - p.allocated
      → IsFree ps (record { page = suc (length rest); offset = p.allocated })
      → Takes b ps
          (record { page = suc (length rest); offset = p.allocated })
          (take_bytes b (p ∷ rest))
  unfolding take_bytes allocated_in
  take_bytes-Takes ps p rest v h free = record {
    valid = record {
      size = v.size;
      room = omega (arith, h, v.room, v.aligned);
      aligned = omega (arith, h, v.room, v.aligned);
    };
    page = refl;
    within = omega (arith, h, v.room, v.aligned);
    bound = omega (arith, h, v.room, v.aligned);
    free = free;
  }

  with_room-Takes :
      (ps : List Page)
      → IsCurrent ps
      → Takes b ps
          (record { page = length (with_room b ps); offset = allocated_in (with_room b ps) })
          (take_bytes b (with_room b ps))
  unfolding with_room allocated_in IsFree alloc_page
  with_room-Takes [] v =
      take_bytes-Takes [] (alloc_page b) [] (fresh_page []) (omega (arith, small))
        (inl (omega arith))
  with_room-Takes (p ∷ ps) v = elim (Bool-cases (ltb (avail p) b)) [
    | inl e ↦ rw e (
        take_bytes-Takes (p ∷ ps) (alloc_page b) (p ∷ ps) (fresh_page (p ∷ ps))
          (omega (arith, small)) (inl (omega arith)))
    | inr e ↦
        let room : b ≤ 1048576 - p.allocated = ground (arith, e, avail_lem p v) in
        rw e (take_bytes-Takes (p ∷ ps) p ps v room (inr (refl, omega arith)))
  ]

  pub alloc_raw-Takes :
      (st : ObjectStack)
      → IsCurrent st.pages
      → Takes b st.pages (alloc_raw b st).0 (alloc_raw b st).1.pages
  unfolding alloc_raw
  alloc_raw-Takes st v = with_room-Takes st.pages v

pub Takes-IsFree :
    (b : ℕ) (ps : List Page) (a : Address) (qs : List Page) (x : Address)
    → Takes b ps a qs
    → IsFree qs x
    → IsFree ps x
unfolding IsFree
Takes-IsFree b ps a qs x h (inl later) = elim h.free [
  | inl new ↦ inl (omega (arith, new, later, h.page))
  | inr same ↦ inl (omega (arith, same.0, later, h.page))
]
Takes-IsFree b ps a qs x h (inr (here, after)) = elim h.free [
  | inl new ↦ inl (omega (arith, new, here, h.page))
  | inr (same, past) ↦ inr (omega (arith, same, here, h.page), omega (arith, past, h.within, after))
]

-- Two parts of the memory on different pages, or one after the other.
pub Apart : Address × ℕ → Address × ℕ → Type 0
Apart x y = (x.0.page < y.0.page) ⊎ ((x.0.page ≡ y.0.page) × (x.0.offset + x.1 ≤ y.0.offset))

abbrev pub AreApart : List (Address × ℕ) → Type 0
AreApart [] = Unit
AreApart (x ∷ xs) = All (Apart x) xs × AreApart xs

pub Takes-Apart :
    (b : ℕ) (ps : List Page) (a : Address) (qs : List Page) (x : Address × ℕ)
    → Takes b ps a qs
    → IsFree qs x.0
    → Apart (a, b) x
unfolding IsFree Apart
Takes-Apart b ps a qs x h (inl later) = inl (omega (arith, later, h.page))
Takes-Apart b ps a qs x h (inr (here, after)) =
    inr (omega (arith, here, h.page), omega (arith, h.within, after))

pub record Allocates (st : ObjectStack) (o : List (Address × ℕ) × ObjectStack) : Type 0 where
  pub valid : IsCurrent o.1.pages
  pub free : All (λ x. IsFree st.pages x.0) o.0
  pub apart : AreApart o.0
  pub inside : All (λ x. x.0.offset + x.1 ≤ 1048576) o.0

-- Allocations of at most 1048552 bytes each, from a stack whose current page has the default size,
-- take parts of memory that do not meet, begin in memory the stack had not taken, and end at most
-- 1048576 bytes behind the start of the data of their page.
pub alloc_all-Allocates :
    (bs : List ℕ) (st : ObjectStack)
    → All IsSmall bs
    → IsCurrent st.pages
    → Allocates st (alloc_all bs st)
unfolding alloc_all
alloc_all-Allocates [] st h v = record { valid = v; free = tt; apart = tt; inside = tt }
alloc_all-Allocates (b ∷ bs) st h v =
    let a = (alloc_raw b st).0 in
    let st1 = (alloc_raw b st).1 in
    let one = alloc_raw-Takes b h.0 st v in
    let all = alloc_all-Allocates bs st1 h.1 one.valid in
    record {
      valid = all.valid;
      free = (
        one.free,
        All-map (λ x. Takes-IsFree b st.pages a st1.pages x.0 one) (alloc_all bs st1).0 all.free,
      );
      apart = (
        All-map (λ x. Takes-Apart b st.pages a st1.pages x one) (alloc_all bs st1).0 all.free,
        all.apart,
      );
      inside = (omega (arith, one.within, one.bound), all.inside);
    }
