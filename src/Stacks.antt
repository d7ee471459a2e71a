-- ===== src/Stacks.antt =====
-- The keys and the stores of CacheSim/CacheSimCommon.inl: `StackKey`, `RipKey`, the statistics of an
-- instruction (`GetRipNode`) and the call stacks (`InsertStack`). `md5` stands for external/md5, which
-- gives the sixteen bytes of a digest, here as its two little-endian `uint64_t` halves. An index that
-- is out of range leaves the memory as it is.
pub mod Keys
pub mod Memory
pub mod Appending
pub mod Insertion
use ig_cachesim.Common.{
  ℕ, zero, suc, ◌+◌, ◌*◌, ◌/◌, ◌%◌, ◌^◌, ◌≡◌, ◌↔◌, Bool, true, false, ◌&&◌, not, Option, none, some,
  List, [], ◌∷◌, ◌++◌, ◌-◌, ◌==◌, ltb, if◌then◌else◌, set, take, length, replicate, min,
}
use ig_cachesim.HashTable.{HashTable, reset, find, insert, store}
use ig_cachesim.Stacks.Keys.{StackKey, RipKey, stack_key, rip_key}

-- `StackValue`
pub record StackValue : Type 0 where
  pub offset : ℕ
  pub count : ℕ

-- `StackValue()`
abbrev pub no_stack : StackValue
no_stack = record { offset = 0; count = 0 }

-- `g_StackData`; `m_Frames` is null while `m_ReserveCount` is 0.
pub record StackData : Type 0 where
  pub frames : List ℕ
  pub count : ℕ
  pub reserve_count : ℕ

-- `g_Stacks` and `g_StackData`
pub record StackStore : Type 0 where
  pub stacks : HashTable StackKey StackValue
  pub stack_data : StackData

abbrev pub no_stacks : StackStore
no_stacks = record {
  stacks = reset;
  stack_data = record { frames = []; count = 0; reserve_count = 0 };
}

-- `memcpy` of frames to an offset.
unfoldable pub copy : List ℕ → ℕ → List ℕ → List ℕ
copy mem offset [] = mem
copy mem offset (f ∷ fs) = copy (set mem offset f) (suc offset) fs

-- `VirtualMemoryRealloc` of CacheSim/Platform.h, in frames: new memory is zero.
unfoldable pub virtual_memory_realloc : List ℕ → ℕ → List ℕ
virtual_memory_realloc old new_size =
    let copy_length = min (length old) new_size in
    take copy_length old ++ replicate (new_size - copy_length) 0

-- The growth in `InsertStack`; `VirtualMemoryAlloc` is the growth from no memory.
unfoldable pub reserve : StackData → ℕ → StackData
reserve d frame_count =
    let new_reserve = if not (d.reserve_count == 0) then 2 * d.reserve_count % 2 ^ 32 else 65536 in
    if ltb d.reserve_count ((d.count + frame_count + 1) % 2 ^ 32)
    then record {
      frames = virtual_memory_realloc d.frames new_reserve;
      count = d.count;
      reserve_count = new_reserve;
    }
    else d

-- The copy of the frames, the zero after them, and the count.
unfoldable pub append : StackData → List ℕ → StackData
append d frames = record {
  frames = set (copy d.frames d.count frames) ((d.count + length frames) % 2 ^ 32) 0;
  count = (d.count + (length frames + 1)) % 2 ^ 32;
  reserve_count = d.reserve_count;
}

module _ (md5 : List ℕ → StackKey) where
  -- `InsertStack`: the offset and the store.
  unfoldable pub insert_stack : List ℕ → StackStore → ℕ × StackStore
  insert_stack frames s =
      let k = md5 frames in
      elim (find s.stacks k) [
        | some existing ↦ (existing.offset, s)
        | none ↦
            let offset = s.stack_data.count in
            (
              offset,
              record {
                stacks =
                    store (λ v. record { offset = offset; count = length frames % 2 ^ 32 })
                      (insert no_stack s.stacks k) k;
                stack_data = append (reserve s.stack_data (length frames)) frames;
              },
            )
      ]
