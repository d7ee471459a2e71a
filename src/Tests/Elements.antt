-- ===== src/Tests/Elements.antt =====
-- The theorem about the memory of a hash table's elements, at concrete addresses.
use ig_cachesim.Common.{ℕ, ◌≡◌, some, [], ◌∷◌, arith}
use ig_cachesim.HashTable.Allocator.{Allocator, no_blocks, alloc_element}
use ig_cachesim.HashTable.Allocator.Separate.{IsAllocator, alloc_element-IsAllocator}

no_blocks-IsAllocator : IsAllocator 48 [] no_blocks
no_blocks-IsAllocator = record {
  used_apart = tt;
  free_apart = tt;
  apart = tt;
  used_within = tt;
  free_within = tt;
}

alloc_element-IsAllocator_example :
    (r : ℕ × Allocator) × (alloc_element 48 0x10000 no_blocks ≡ some r)
    × IsAllocator 48 (r.0 ∷ []) r.1
alloc_element-IsAllocator_example =
    alloc_element-IsAllocator 48 0x10000 [] no_blocks (omega arith) no_blocks-IsAllocator tt
