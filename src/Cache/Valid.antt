-- ===== src/Cache/Valid.antt =====
-- The well-formedness of a cache, under `Init`, `Access` and `Invalidate`.
use ig_cachesim.Common.{
  ℕ, zero, suc, ◌^◌, ◌%◌, ◌≤◌, ◌<◌, ◌≡◌, ◌≢◌, ap, ◌∙◌, [], arith, get_or, set, replicate, length,
  length-set, length-replicate, get_or-set_self, get_or-set_ne, get_or-replicate_lt, bit_and_mask,
  pow_pos,
}
use native.Mathlib.Decide.{ℕ_discrete}
use ig_cachesim.SetData.{SetData, access_set, invalidate_set}
use ig_cachesim.SetData.Lru.{length-access_set}
use ig_cachesim.SetData.Unique.{
  count, IsUnique, count-access_set, access_set-IsUnique, length-invalidate_set,
  count-invalidate_set, invalidate_set-IsUnique, count-replicate,
}
use ig_cachesim.Cache.{Geometry, set_count, Cache, init, line_of, line_index, access, invalidate}

-- A power of two of sets, whose indices fit a `uint32_t`, and at least one way, as the caches of the simulator have.
pub record IsGeometry (g : Geometry) : Type 0 where
  pub bits : ℕ
  pub sets_pow : set_count g ≡ 2 ^ bits
  pub index_fits : 2 ^ bits ≤ 2 ^ 32
  pub some_way : 1 ≤ g.ways

-- A set of so many ways that holds no line twice, and only lines of index `i`.
pub record IsSetAt (ways : ℕ) (index : ℕ → ℕ) (i : ℕ) (s : SetData) : Type 0 where
  pub width : length s ≡ ways
  pub unique : IsUnique s
  pub placed : (q : ℕ) → q ≢ 0 → 1 ≤ count q s → index q ≡ i

access_set-IsSetAt :
    (ways b : ℕ) (index : ℕ → ℕ) (s : SetData)
    → 1 ≤ ways
    → IsSetAt ways index (index b) s
    → IsSetAt ways index (index b) (access_set ways s b).1
access_set-IsSetAt zero b index s pos v = absurd (omega arith)
access_set-IsSetAt (suc w) b index s pos v = record {
  width = length-access_set w s b v.width;
  unique = access_set-IsUnique w b s v.width v.unique;
  placed = λ q n h. elim (ℕ_discrete q b) [
    | yes e ↦ ap index e
    | no ne ↦ v.placed q n (omega (arith, count-access_set w b s v.width q ne))
  ];
}

invalidate_set-IsSetAt :
    (ways b : ℕ) (index : ℕ → ℕ) (i : ℕ) (s : SetData)
    → 1 ≤ ways
    → IsSetAt ways index i s
    → IsSetAt ways index i (invalidate_set ways s b)
invalidate_set-IsSetAt zero b index i s pos v = absurd (omega arith)
invalidate_set-IsSetAt (suc w) b index i s pos v = record {
  width = length-invalidate_set w b s v.width;
  unique = invalidate_set-IsUnique w b s v.width v.unique;
  placed = λ q n h. v.placed q n (omega (arith, count-invalidate_set w b s v.width q n));
}

-- Every set has its ways, holds no line twice, and holds only lines of its own index.
pub record IsValid (g : Geometry) (c : Cache) : Type 0 where
  pub width : length c.sets ≡ set_count g
  pub each : (i : ℕ) → i < set_count g → IsSetAt g.ways (line_index g) i (get_or c.sets i [])

module _ {g : Geometry} (geo : IsGeometry g) where
  -- `base & kSetMask` is the line number modulo the number of sets.
  pub line_index-mod : (base : ℕ) → line_index g base ≡ base % set_count g
  unfolding line_index
  line_index-mod base =
      rw (geo.sets_pow, bit_and_mask geo.bits base)
        (omega (arith, geo.index_fits, pow_pos geo.bits))

  pub line_index-lt : (base : ℕ) → line_index g base < set_count g
  line_index-lt base = rw (line_index-mod base) (omega (arith, geo.sets_pow, pow_pos geo.bits))

  empty : SetData
  empty = replicate g.ways 0

  pub init-IsValid : IsValid g (init g)
  unfolding init empty
  init-IsValid = record {
    width = length-replicate (set_count g) empty;
    each = λ i h. rw (get_or-replicate_lt (set_count g) i empty [] h) (record {
      width = length-replicate {0} {A = ℕ} g.ways 0;
      unique = λ q n. omega (arith, count-replicate q g.ways n);
      placed = λ q n p. absurd (omega (arith, count-replicate q g.ways n));
    });
  }

  -- A write of one well-formed set keeps the cache well formed.
  set-IsValid :
      {c : Cache} (i : ℕ) (s : SetData)
      → IsValid g c
      → IsSetAt g.ways (line_index g) i s
      → IsValid g (record { sets = set c.sets i s })
  set-IsValid {c} i s v good = record {
    width = length-set c.sets i s ∙ v.width;
    each = λ j h. elim (ℕ_discrete i j) [
      | yes e ↦ rw (← e, get_or-set_self c.sets i s [] (omega (arith, v.width))) good
      | no n ↦ rw (get_or-set_ne c.sets i j s [] n) (v.each j h)
    ];
  }

  -- `Access` keeps a well-formed cache well formed, where the number of sets is a power of two up
  -- to 2^32 and there is at least one way.
  pub access-IsValid : {c : Cache} (addr : ℕ) → IsValid g c → IsValid g (access g c addr).1
  unfolding access
  access-IsValid {c} addr v = set-IsValid (line_index g (line_of addr)) _ v (
      access_set-IsSetAt g.ways (line_of addr) (line_index g) _ geo.some_way
        (v.each _ (line_index-lt (line_of addr))))

  -- `Invalidate` keeps a well-formed cache well formed, where the number of sets is a power of two
  -- up to 2^32 and there is at least one way.
  pub invalidate-IsValid : {c : Cache} (addr : ℕ) → IsValid g c → IsValid g (invalidate g c addr)
  unfolding invalidate
  invalidate-IsValid {c} addr v = set-IsValid (line_index g (line_of addr)) _ v (
      invalidate_set-IsSetAt g.ways (line_of addr) (line_index g) _ _ geo.some_way
        (v.each _ (line_index-lt (line_of addr))))
