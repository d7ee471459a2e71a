-- ===== src/CoreMapping/Laws.antt =====
-- The table of mappings as a map from threads to cores.
use native.Mathlib.Decide.{ℕ_discrete}
use ig_cachesim.Common.{
  ℕ, zero, suc, ◌+◌, ◌≤◌, ◌<◌, ◌≡◌, ◌≢◌, inl, inr, ap, sym, ◌∙◌, none, some, List, get_or, length,
  length-replicate, arith, Option-cases,
}
use ig_cachesim.CoreMapping.{
  CoreMapping, empty_mapping, CoreMappings, max_mappings, no_mappings, minus_one, find_mapping,
  find_logical_core_index,
}

-- The thread and the core of the mapping at an index.
abbrev pub thread_at : List CoreMapping → ℕ → ℕ
thread_at ms i = (get_or ms i empty_mapping).thread_id

abbrev pub core_at : List CoreMapping → ℕ → ℕ
core_at ms i = (get_or ms i empty_mapping).logical_core

-- The array has its size, the count is within it, and no thread is mapped twice.
pub record IsMapping (s : CoreMappings) : Type 0 where
  pub width : length s.mappings ≡ max_mappings
  pub fits : s.count ≤ max_mappings
  pub unique :
      (i j : ℕ)
      → i < s.count
      → j < s.count
      → thread_at s.mappings i ≡ thread_at s.mappings j
      → i ≡ j

pub find_mapping-some :
    (n i t : ℕ) (ms : List CoreMapping) (k : ℕ)
    → find_mapping n i t ms ≡ some k
    → (i ≤ k) × (k < i + n) × (thread_at ms k ≡ t)
unfolding find_mapping
find_mapping-some zero i t ms k h = ground arith
find_mapping-some (suc n) i t ms k h = ground (arith, find_mapping-some n (suc i) t ms k)

pub find_mapping-none :
    (n i t : ℕ) (ms : List CoreMapping) (j : ℕ)
    → find_mapping n i t ms ≡ none
    → i ≤ j
    → j < i + n
    → thread_at ms j ≢ t
unfolding find_mapping
find_mapping-none zero i t ms j h l u = absurd (omega arith)
find_mapping-none (suc n) i t ms j h l u = elim (ℕ_discrete i j) [
  | yes e ↦ λ q. ground (arith, h, ap (thread_at ms) e, q)
  | no ne ↦ find_mapping-none n (suc i) t ms j (ground arith) (omega (arith, ne)) (omega arith)
]

module _ (s : CoreMappings) (v : IsMapping s) (t : ℕ) where
  -- A mapping of the thread is the one that is found.
  pub find-mapped :
      (i : ℕ)
      → i < s.count
      → thread_at s.mappings i ≡ t
      → find_logical_core_index s t ≡ core_at s.mappings i
  unfolding find_logical_core_index
  find-mapped i h e = elim (Option-cases (find_mapping s.count 0 t s.mappings)) [
    | inr (k, found) ↦
        let z = find_mapping-some s.count 0 t s.mappings k found in
        rw (found, find_logical_core_index)
          (ap (core_at s.mappings) (v.unique k i (omega (arith, z.1)) h (z.2 ∙ sym e)))
    | inl gone ↦
        absurd (find_mapping-none s.count 0 t s.mappings i gone (omega arith) (omega (arith, h)) e)
  ]

  pub find-unmapped :
      ((i : ℕ) → i < s.count → thread_at s.mappings i ≢ t) → find_logical_core_index s t ≡ minus_one
  unfolding find_logical_core_index
  find-unmapped h = elim (Option-cases (find_mapping s.count 0 t s.mappings)) [
    | inr (k, found) ↦
        let z = find_mapping-some s.count 0 t s.mappings k found in
        absurd (h k (omega (arith, z.1)) z.2)
    | inl gone ↦ rw (gone, find_logical_core_index)
  ]

-- A thread has a core in a table.
pub record Maps (s : CoreMappings) (t c : ℕ) : Type 0 where
  pub place : ℕ
  pub inside : place < s.count
  pub thread : thread_at s.mappings place ≡ t
  pub core : core_at s.mappings place ≡ c

-- What is found, and that nothing is mapped where nothing is found.
pub find-Maps :
    (s : CoreMappings) → IsMapping s → (t c : ℕ) → Maps s t c → find_logical_core_index s t ≡ c
find-Maps s v t c m = find-mapped s v t m.place m.inside m.thread ∙ m.core

-- The table that the program starts with is well formed.
pub no_mappings-IsMapping : IsMapping no_mappings
no_mappings-IsMapping = record {
  width = length-replicate max_mappings empty_mapping;
  fits = omega arith;
  unique = λ i j hi hj e. absurd (omega (arith, hi));
}
