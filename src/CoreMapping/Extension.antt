-- ===== src/CoreMapping/Extension.antt =====
-- What a new mapping in `CacheSimSetThreadCoreMapping` does to the table.
use native.Mathlib.Decide.{ℕ_discrete}
use ig_cachesim.Common.{
  ℕ, ◌+◌, ◌<◌, ◌≡◌, ◌≢◌, refl, ap, sym, ◌∙◌, get_or, set, length, length-set, arith,
}
use ig_cachesim.CoreMapping.{CoreMapping, empty_mapping, CoreMappings, max_mappings}
use ig_cachesim.CoreMapping.Laws.{thread_at, core_at, IsMapping, Maps}
use ig_cachesim.CoreMapping.Changed.{Changed, at_self, at_other}

-- A new mapping is put after the others.
module _ (s : CoreMappings) (v : IsMapping s) (t c : ℕ) (room : s.count ≢ max_mappings)
    (absent : (j : ℕ) → j < s.count → thread_at s.mappings j ≢ t) where
  abbrev new_mapping : CoreMapping
  new_mapping = record { thread_id = t; logical_core = c }

  abbrev pub extended : CoreMappings
  extended = record { mappings = set s.mappings s.count new_mapping; count = s.count + 1 }

  in_room : s.count < length s.mappings
  in_room = omega (arith, v.width, v.fits, room)

  mapping_extended :
      (j : ℕ)
      → j < s.count
      → get_or extended.mappings j empty_mapping ≡ get_or s.mappings j empty_mapping
  mapping_extended j u = at_other s.mappings s.count new_mapping in_room j (omega (arith, u))

  thread_extended : (j : ℕ) → j < s.count → thread_at extended.mappings j ≡ thread_at s.mappings j
  thread_extended j u = ap (λ (m : CoreMapping). m.thread_id) (mapping_extended j u)

  core_extended : (j : ℕ) → j < s.count → core_at extended.mappings j ≡ core_at s.mappings j
  core_extended j u = ap (λ (m : CoreMapping). m.logical_core) (mapping_extended j u)

  thread_new : thread_at extended.mappings s.count ≡ t
  thread_new =
      ap (λ (m : CoreMapping). m.thread_id) (at_self s.mappings s.count new_mapping in_room)

  pub extend-Maps : Maps extended t c
  extend-Maps = record {
    place = s.count;
    inside = omega arith;
    thread = thread_new;
    core =
        ap (λ (m : CoreMapping). m.logical_core) (at_self s.mappings s.count new_mapping in_room);
  }

  -- A place before the new mapping, or the new mapping.
  old_or_new : (j q : ℕ) → j < s.count + 1 → thread_at extended.mappings j ≡ q → q ≢ t → j < s.count
  old_or_new j q u e ne = elim (ℕ_discrete j s.count) [
    | yes y ↦ absurd (ne (sym e ∙ ap (thread_at extended.mappings) y ∙ thread_new))
    | no n ↦ omega (arith, n, u)
  ]

  unique_extended :
      (j k : ℕ)
      → j < s.count + 1
      → k < s.count + 1
      → thread_at extended.mappings j ≡ thread_at extended.mappings k
      → j ≡ k
  unique_extended j k hj hk e = elim (ℕ_discrete (thread_at extended.mappings j) t) [
    | yes y ↦ last_of j hj y ∙ sym (last_of k hk (sym e ∙ y))
    | no n ↦
        let oj = old_or_new j (thread_at extended.mappings j) hj refl n in
        let ok = old_or_new k (thread_at extended.mappings j) hk (sym e) n in
        v.unique j k oj ok (sym (thread_extended j oj) ∙ e ∙ thread_extended k ok)
  ]
    where
      last_of : (j : ℕ) → j < s.count + 1 → thread_at extended.mappings j ≡ t → j ≡ s.count
      last_of j u y = elim (ℕ_discrete j s.count) [
        | yes z ↦ z
        | no n ↦
            let before : j < s.count = omega (arith, n, u) in
            absurd (absent j before (sym (thread_extended j before) ∙ y))
      ]

  pub extend-Changed : Changed s t extended
  extend-Changed = record {
    valid = record {
      width = length-set s.mappings s.count new_mapping ∙ v.width;
      fits = omega (arith, v.fits, room);
      unique = unique_extended;
    };
    others = λ q d ne m. record {
      place = m.place;
      inside = omega (arith, m.inside);
      thread = thread_extended m.place m.inside ∙ m.thread;
      core = core_extended m.place m.inside ∙ m.core;
    };
    back = λ q d ne m.
        let old = old_or_new m.place q m.inside m.thread ne in
        record {
          place = m.place;
          inside = old;
          thread = sym (thread_extended m.place old) ∙ m.thread;
          core = sym (core_extended m.place old) ∙ m.core;
        };
  }
