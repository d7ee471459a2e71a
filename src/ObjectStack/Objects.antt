-- ===== src/ObjectStack/Objects.antt =====
-- The nodes of a tree in the memory of an `ObjectStack`, and the destructors that run for them.
use ig_cachesim.Common.{
  ℕ, zero, suc, ◌+◌, ◌-◌, ◌*◌, ◌/◌, ◌≤◌, ◌≡◌, refl, ap, ◌∙◌, All, All-map, Bool-cases, inl, inr,
  List, [], ◌∷◌, ltb, arith,
}
use ig_cachesim.ObjectStack.{
  Page, Address, ObjectStack, no_objects, avail, alloc_page, with_room, take_bytes, allocated_in,
  alloc_raw, alloc_finalized, destroy, destroy_chain, reset,
}
use ig_cachesim.ObjectStack.Pages.{
  IsCurrent, IsFree, Takes, alloc_raw-Takes, Takes-IsFree, Takes-Apart, AreApart,
}

-- `alloc<Node>` as often as there are nodes, each of 64 bytes, by the address of their destructor: the nodes with their sizes.
unfoldable pub alloc_nodes : ℕ → ℕ → ObjectStack → List (Address × ℕ) × ObjectStack
alloc_nodes dtor zero st = ([], st)
alloc_nodes dtor (suc n) st =
    let (a, st1) = alloc_finalized 64 1 dtor st in
    let (rest, st2) = alloc_nodes dtor n st1 in ((a, 64) ∷ rest, st2)

alloc_finalized-Takes :
    (dtor : ℕ) (st : ObjectStack)
    → IsCurrent st.pages
    → Takes 64 st.pages (alloc_finalized 64 1 dtor st).0 (alloc_finalized 64 1 dtor st).1.pages
unfolding alloc_finalized IsFree
alloc_finalized-Takes dtor st v =
    let h = alloc_raw-Takes 96 (omega arith) st v in
    record {
      valid = h.valid;
      page = h.page;
      within = omega (arith, h.within);
      bound = h.bound;
      free = elim h.free [ inl new ↦ inl new | inr (same, past) ↦ inr (same, omega (arith, past)) ];
    }

-- A page that holds nodes and their finalizers, of 96 bytes together.
NodePage : List Page → Type 0
NodePage [] = Unit
NodePage (p ∷ ps) =
    (p.size ≡ 1048576) × (p.allocated ≡ p.allocated / 96 * 96) × (p.allocated ≤ 1048512)

with_room-NodePage :
    (ps : List Page)
    → NodePage ps
    → NodePage (take_bytes 96 (with_room 96 ps)) × (allocated_in (with_room 96 ps) + 96 ≤ 1048512)
unfolding NodePage with_room take_bytes allocated_in alloc_page
with_room-NodePage [] h = ((refl, refl, omega arith), omega arith)
with_room-NodePage (p ∷ ps) h = elim (Bool-cases (ltb (avail p) 96)) [
  | inl e ↦ rw e ((refl, refl, omega arith), omega arith)
  | inr e ↦
      let room : avail p ≡ 1048576 - p.allocated = unfold avail in omega (arith, h.0, h.2) in
      let few : p.allocated + 96 ≤ 1048576 = ground (arith, e, room, h.2) in
      rw e ((h.0, omega (arith, few, h.1), omega (arith, few, h.1)), omega (arith, few, h.1))
]

alloc_finalized-NodePage :
    (dtor : ℕ) (st : ObjectStack)
    → NodePage st.pages
    → NodePage (alloc_finalized 64 1 dtor st).1.pages
      × ((alloc_finalized 64 1 dtor st).0.offset + 64 ≤ 1048552)
unfolding alloc_finalized alloc_raw
alloc_finalized-NodePage dtor st w =
    let next = with_room-NodePage st.pages w in (next.0, omega (arith, next.1))

pub record Builds (st : ObjectStack) (o : List (Address × ℕ) × ObjectStack) : Type 0 where
  pub free : All (λ x. IsFree st.pages x.0) o.0
  pub apart : AreApart o.0
  -- The block of a page ends 1048552 bytes behind the start of its `m_Data`.
  pub inside : All (λ x. x.0.offset + x.1 ≤ 1048552) o.0

alloc_nodes-Builds :
    (dtor n : ℕ) (st : ObjectStack)
    → IsCurrent st.pages
    → NodePage st.pages
    → Builds st (alloc_nodes dtor n st)
unfolding alloc_nodes
alloc_nodes-Builds dtor zero st v w = record { free = tt; apart = tt; inside = tt }
alloc_nodes-Builds dtor (suc n) st v w =
    let a = (alloc_finalized 64 1 dtor st).0 in
    let st1 = (alloc_finalized 64 1 dtor st).1 in
    let one = alloc_finalized-Takes dtor st v in
    let next = alloc_finalized-NodePage dtor st w in
    let all = alloc_nodes-Builds dtor n st1 one.valid next.0 in
    record {
      free = (
        one.free,
        All-map (λ x. Takes-IsFree 64 st.pages a st1.pages x.0 one) (alloc_nodes dtor n st1).0
            all.free,
      );
      apart = (
        All-map (λ x. Takes-Apart 64 st.pages a st1.pages x one) (alloc_nodes dtor n st1).0
            all.free,
        all.apart,
      );
      inside = (next.1, all.inside);
    }

-- The nodes of 64 bytes that `alloc` gives one after the other on an empty `ObjectStack`, any
-- number of them, do not overlap, and each lies inside the block of its page.
pub alloc_nodes-inside : (dtor n : ℕ) → Builds no_objects (alloc_nodes dtor n no_objects)
unfolding NodePage
alloc_nodes-inside dtor n = alloc_nodes-Builds dtor n no_objects tt tt

-- The calls of the destructor for nodes, the last one first, and then those that were due before.
unfoldable pub last_first : ℕ → List (Address × ℕ) → List (ℕ × Address) → List (ℕ × Address)
last_first dtor [] before = before
last_first dtor (x ∷ xs) before = last_first dtor xs ((dtor, x.0) ∷ before)

destroy_chain-finalized :
    (dtor : ℕ) (st : ObjectStack)
    → destroy_chain (alloc_finalized 64 1 dtor st).1.finalizer_chain
      ≡ (dtor, (alloc_finalized 64 1 dtor st).0) ∷ destroy_chain st.finalizer_chain
unfolding destroy_chain destroy alloc_finalized alloc_raw
destroy_chain-finalized dtor st =
    let raw = (alloc_raw 96 st).0 in
    let start : raw.offset + 32 + 0 ≡ raw.offset + 32 = omega arith in
    ap
      (λ offset.
        (dtor, record { page = raw.page; offset = offset }) ∷ destroy_chain st.finalizer_chain)
      start

destroy_chain-nodes :
    (dtor n : ℕ) (st : ObjectStack)
    → destroy_chain (alloc_nodes dtor n st).1.finalizer_chain
      ≡ last_first dtor (alloc_nodes dtor n st).0 (destroy_chain st.finalizer_chain)
unfolding alloc_nodes last_first
destroy_chain-nodes dtor zero st = refl
destroy_chain-nodes dtor (suc n) st =
    let st1 = (alloc_finalized 64 1 dtor st).1 in
    destroy_chain-nodes dtor n st1
    ∙ ap (last_first dtor (alloc_nodes dtor n st1).0) (destroy_chain-finalized dtor st)

-- `reset` after nodes have been allocated calls the destructor once for each of them, the last one
-- first, then makes the calls that were due before, and leaves an empty stack.
pub reset-nodes :
    (dtor n : ℕ) (st : ObjectStack)
    → reset (alloc_nodes dtor n st).1
      ≡ (last_first dtor (alloc_nodes dtor n st).0 (reset st).0, no_objects)
unfolding reset
reset-nodes dtor n st = ap (λ d. (d, no_objects)) (destroy_chain-nodes dtor n st)
