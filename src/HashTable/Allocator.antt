-- ===== src/HashTable/Allocator.antt =====
-- `HashTableAllocator` of CacheSim/GenericHashTable.h: the memory of the elements. A pointer is its address, and the
-- list that runs through the free elements is the list of their addresses. `sz` is the size of an
-- `ElemTypeBlock`, and `block` the address that `VirtualMemoryAlloc` gives when it is called.
pub mod Separate
use ig_cachesim.Common.{
  ℕ, zero, suc, ◌+◌, ◌-◌, Bool, Option, none, some, List, [], ◌∷◌, ltb, if◌then◌else◌,
}

-- `BLOCK_SIZE`, and the size of the pointer at the end of a block.
abbrev pub block_size : ℕ
block_size = 4096

abbrev pub pointer_size : ℕ
pointer_size = 8

pub record Allocator : Type 0 where
  pub free_list : List ℕ
  pub block_list : List ℕ

abbrev pub no_blocks : Allocator
no_blocks = record { free_list = []; block_list = [] }

module _ (sz : ℕ) where
  -- The loop of `AllocInternal`, with the rounds left.
  unfoldable pub carve : ℕ → ℕ → ℕ → List ℕ → List ℕ
  carve zero next element free = free
  carve (suc n) next element free =
      let rest = carve n next (element + sz) (element ∷ free) in
      if ltb (element + sz) next then rest else free

  unfoldable pub alloc_internal : ℕ → Allocator → Allocator
  alloc_internal block a = record {
    free_list = carve block_size (block + block_size - pointer_size) block a.free_list;
    block_list = block ∷ a.block_list;
  }

  -- `AllocElement`; `none` is a null pointer that is read.
  unfoldable pub alloc_element : ℕ → Allocator → Option (ℕ × Allocator)
  alloc_element block a =
      let filled : Allocator = elim a.free_list [ [] ↦ alloc_internal block a | e ∷ es ↦ a ] in
      elim filled.free_list [
        | [] ↦ none
        | e ∷ es ↦ some (e, record { free_list = es; block_list = filled.block_list })
      ]

-- `FreeElement`
unfoldable pub free_element : ℕ → Allocator → Allocator
free_element element a = record { free_list = element ∷ a.free_list; block_list = a.block_list }
