-- ===== src/Stacks/Keys.antt =====
-- `StackKey` and `RipKey` of CacheSim/CacheSimCommon.inl, their `operator==` and `HashTypeOverload`.
use ig_cachesim.Common.{
  ℕ, ◌+◌, ◌*◌, ◌/◌, ◌%◌, ◌^◌, ◌≡◌, ◌↔◌, Bool, true, ◌&&◌, not, arith, ◌==◌, bit_or, bit_xor,
}
use ig_cachesim.HashTable.{Key}

-- The union of `StackKey`, by its two `uint64_t`.
pub record StackKey : Type 0 where
  pub qword0 : ℕ
  pub qword1 : ℕ

unfoldable pub is_valid : StackKey → Bool
is_valid k = not (0 == bit_or k.qword0 k.qword1)

unfoldable pub invalidate : StackKey → StackKey
invalidate k = record { qword0 = 0; qword1 = 0 }

abbrev pub stack_equal : StackKey → StackKey → Bool
stack_equal l r = l.qword0 == r.qword0 && l.qword1 == r.qword1

-- `m_Dwords[0]`
abbrev pub stack_hash : StackKey → ℕ
stack_hash k = k.qword0 % 2 ^ 32

pub record RipKey : Type 0 where
  pub rip : ℕ
  pub stack_offset : ℕ

abbrev pub rip_equal : RipKey → RipKey → Bool
rip_equal l r = l.rip == r.rip && l.stack_offset == r.stack_offset

-- `uint32_t(key.m_Rip ^ (key.m_Rip >> 32) * 33 + 61 * key.m_StackOffset)`, where `^` binds last.
abbrev pub rip_hash : RipKey → ℕ
rip_hash k =
    bit_xor k.rip ((k.rip / 2 ^ 32 * 33 % 2 ^ 64 + 61 * k.stack_offset % 2 ^ 32) % 2 ^ 64) % 2 ^ 32

pub stack_equal_iff : (l r : StackKey) → (stack_equal l r ≡ true) ↔ (l ≡ r)
stack_equal_iff l r = ground arith

pub rip_equal_iff : (l r : RipKey) → (rip_equal l r ≡ true) ↔ (l ≡ r)
rip_equal_iff l r = ground arith

instance abbrev pub stack_key : Key StackKey
stack_key = record {
  equal = stack_equal;
  equal_iff = stack_equal_iff;
  hash = stack_hash;
  hash-lt = λ k. omega arith;
}

instance abbrev pub rip_key : Key RipKey
rip_key = record {
  equal = rip_equal;
  equal_iff = rip_equal_iff;
  hash = rip_hash;
  hash-lt = λ k. omega arith;
}
