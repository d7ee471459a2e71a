-- ===== src/CoreMapping/Setting.antt =====
-- `CacheSimSetThreadCoreMapping` on the table as a map.
use ig_cachesim.Common.{
  ℕ, ◌<◌, ◌≡◌, ◌≢◌, ◌⊎◌, inl, inr, refl, sym, ◌∙◌, false, none, some, ◌==◌, arith, Bool-cases,
  Option-cases,
}
use ig_cachesim.CoreMapping.{
  CoreMappings, max_mappings, minus_one, find_mapping, find_logical_core_index,
  set_thread_core_mapping,
}
use ig_cachesim.CoreMapping.Laws.{
  thread_at, core_at, IsMapping, Maps, find_mapping-some, find_mapping-none, find-Maps,
  find-unmapped,
}
use ig_cachesim.CoreMapping.Changed.{Changed}
use ig_cachesim.CoreMapping.Changes.{
  updated, update-Changed, update-Maps, removed, remove-Changed, removed-unmapped,
}
use ig_cachesim.CoreMapping.Extension.{extended, extend-Changed, extend-Maps}

-- Other threads find what they found.
find-Changed :
    (s r : CoreMappings) (t q : ℕ)
    → IsMapping s
    → Changed s t r
    → q ≢ t
    → find_logical_core_index r q ≡ find_logical_core_index s q
find-Changed s r t q v ch ne = elim (Option-cases (find_mapping s.count 0 q s.mappings)) [
  | inr (k, found) ↦
      let z = find_mapping-some s.count 0 q s.mappings k found in
      let m : Maps s q (core_at s.mappings k) = record {
        place = k;
        inside = omega (arith, z.1);
        thread = z.2;
        core = refl;
      } in
      find-Maps r ch.valid q (core_at s.mappings k) (ch.others q (core_at s.mappings k) ne m)
      ∙ sym (find-Maps s v q (core_at s.mappings k) m)
  | inl gone ↦
      let absent : (j : ℕ) → j < s.count → thread_at s.mappings j ≢ q =
        λ j u. find_mapping-none s.count 0 q s.mappings j gone (omega arith) (omega (arith, u)) in
      find-unmapped r ch.valid q (λ j u e.
        let m =
          ch.back q (core_at r.mappings j) ne
            (record { place = j; inside = u; thread = e; core = refl }) in
        absent m.place m.inside m.thread)
      ∙ sym (find-unmapped s v q absent)
]

-- A table `r`, against `s` before the thread was given a core.
pub record Sets (s : CoreMappings) (t c : ℕ) (r : CoreMappings) : Type 0 where
  pub valid : IsMapping r
  pub own : find_logical_core_index r t ≡ c
  pub others : (q : ℕ) → q ≢ t → find_logical_core_index r q ≡ find_logical_core_index s q

Changed-Sets :
    (s r : CoreMappings) (t c : ℕ)
    → IsMapping s
    → Changed s t r
    → find_logical_core_index r t ≡ c
    → Sets s t c r
Changed-Sets s r t c v ch own = record {
  valid = ch.valid;
  own = own;
  others = λ q ne. find-Changed s r t q v ch ne;
}

mapped-Sets :
    (t c : ℕ) (s : CoreMappings) (k : ℕ)
    → IsMapping s
    → find_mapping s.count 0 t s.mappings ≡ some k
    → Sets s t c (set_thread_core_mapping t c s)
unfolding set_thread_core_mapping
mapped-Sets t c s k v found =
    let z = find_mapping-some s.count 0 t s.mappings k found in
    let u : k < s.count = omega (arith, z.1) in
    elim (Bool-cases (c == minus_one)) [
      | inl e ↦
          let ch = remove-Changed s v t k u z.2 in
          let same : minus_one ≡ c = ground (arith, e) in
          rw (found, e, set_thread_core_mapping)
            (Changed-Sets s (removed s v t k u z.2) t c v ch (
              find-unmapped (removed s v t k u z.2) ch.valid t (removed-unmapped s v t k u z.2)
              ∙ same))
      | inr e ↦
          let ch = update-Changed s v t c k u z.2 in
          rw (found, e, set_thread_core_mapping)
            (Changed-Sets s (updated s v t c k u z.2) t c v ch
              (find-Maps (updated s v t c k u z.2) ch.valid t c (update-Maps s v t c k u z.2)))
    ]

new-Sets :
    (t c : ℕ) (s : CoreMappings)
    → IsMapping s
    → find_mapping s.count 0 t s.mappings ≡ none
    → s.count ≢ max_mappings
    → Sets s t c (set_thread_core_mapping t c s)
unfolding set_thread_core_mapping
new-Sets t c s v gone room =
    let absent : (j : ℕ) → j < s.count → thread_at s.mappings j ≢ t =
      λ j u. find_mapping-none s.count 0 t s.mappings j gone (omega arith) (omega (arith, u)) in
    let ch = extend-Changed s v t c room absent in
    let e : (s.count == max_mappings) ≡ false = ground (arith, room) in
    rw (gone, e, set_thread_core_mapping)
      (Changed-Sets s (extended s v t c room absent) t c v ch
        (find-Maps (extended s v t c room absent) ch.valid t c (extend-Maps s v t c room absent)))

-- Where a well-formed table has room or finds a core for the thread, `CacheSimSetThreadCoreMapping`
-- keeps it well formed, the thread has the core that it is given, -1 included, and every other
-- thread keeps what it had.
pub set-Sets :
    (t c : ℕ) (s : CoreMappings)
    → IsMapping s
    → (s.count ≢ max_mappings) ⊎ (find_logical_core_index s t ≢ minus_one)
    → Sets s t c (set_thread_core_mapping t c s)
set-Sets t c s v h = elim (Option-cases (find_mapping s.count 0 t s.mappings)) [
  | inr (k, found) ↦ mapped-Sets t c s k v found
  | inl gone ↦ elim h [
    | inl room ↦ new-Sets t c s v gone room
    | inr had ↦ absurd (
        had (
          find-unmapped s v t (λ j u.
            find_mapping-none s.count 0 t s.mappings j gone (omega arith) (omega (arith, u)))))
  ]
]
