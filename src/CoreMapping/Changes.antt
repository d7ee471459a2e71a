-- ===== src/CoreMapping/Changes.antt =====
-- What the change and the removal of a mapping in `CacheSimSetThreadCoreMapping` do to the table.
use native.Mathlib.Decide.{ℕ_discrete}
use ig_cachesim.Common.{
  ℕ, ◌-◌, ◌<◌, ◌≡◌, ◌≢◌, ap, sym, ◌∙◌, ◌==◌, if◌then◌else◌, get_or, set, length, length-set, arith,
}
use ig_cachesim.CoreMapping.{CoreMapping, empty_mapping, CoreMappings}
use ig_cachesim.CoreMapping.Laws.{thread_at, core_at, IsMapping, Maps}
use ig_cachesim.CoreMapping.Changed.{Changed, at_self, at_other}

-- The thread of the mapping at `i` stays, and its core is another.
module _ (s : CoreMappings) (v : IsMapping s) (t c i : ℕ) (h : i < s.count)
    (own : thread_at s.mappings i ≡ t) where
  abbrev changed_core : CoreMapping
  changed_core = record { thread_id = thread_at s.mappings i; logical_core = c }

  abbrev pub updated : CoreMappings
  updated = record { mappings = set s.mappings i changed_core; count = s.count }

  in_range : i < length s.mappings
  in_range = omega (arith, v.width, v.fits, h)

  thread_updated : (j : ℕ) → thread_at updated.mappings j ≡ thread_at s.mappings j
  thread_updated j = elim (ℕ_discrete i j) [
    | yes e ↦
        rw (← e)
          (ap (λ (m : CoreMapping). m.thread_id) (at_self s.mappings i changed_core in_range))
    | no ne ↦
        ap (λ (m : CoreMapping). m.thread_id) (at_other s.mappings i changed_core in_range j ne)
  ]

  core_updated :
      (j : ℕ) → thread_at s.mappings j ≢ t → core_at updated.mappings j ≡ core_at s.mappings j
  core_updated j ne =
      ap (λ (m : CoreMapping). m.logical_core)
        (at_other s.mappings i changed_core in_range j
          (λ e. ne (ap (thread_at s.mappings) (sym e) ∙ own)))

  pub update-Changed : Changed s t updated
  update-Changed = record {
    valid = record {
      width = length-set s.mappings i changed_core ∙ v.width;
      fits = v.fits;
      unique = λ j k hj hk e. v.unique j k hj hk (sym (thread_updated j) ∙ e ∙ thread_updated k);
    };
    others = λ q d ne m. record {
      place = m.place;
      inside = m.inside;
      thread = thread_updated m.place ∙ m.thread;
      core = core_updated m.place (λ e. ne (sym m.thread ∙ e)) ∙ m.core;
    };
    back = λ q d ne m.
        let thread : thread_at s.mappings m.place ≡ q = sym (thread_updated m.place) ∙ m.thread in
        record {
          place = m.place;
          inside = m.inside;
          thread = thread;
          core = sym (core_updated m.place (λ e. ne (sym thread ∙ e))) ∙ m.core;
        };
  }

  pub update-Maps : Maps updated t c
  update-Maps = record {
    place = i;
    inside = h;
    thread = thread_updated i ∙ own;
    core = ap (λ (m : CoreMapping). m.logical_core) (at_self s.mappings i changed_core in_range);
  }

-- The last mapping takes the place of the one at `i`.
module _ (s : CoreMappings) (v : IsMapping s) (t i : ℕ) (h : i < s.count)
    (own : thread_at s.mappings i ≡ t) where
  abbrev last : CoreMapping
  last = get_or s.mappings (s.count - 1) empty_mapping

  abbrev pub removed : CoreMappings
  removed = record { mappings = set s.mappings i last; count = s.count - 1 }

  -- Where the mapping at a place came from.
  abbrev origin : ℕ → ℕ
  origin j = if i == j then s.count - 1 else j

  mapping_removed :
      (j : ℕ) → get_or removed.mappings j empty_mapping ≡ get_or s.mappings (origin j) empty_mapping
  mapping_removed j = elim (ℕ_discrete i j) [
    | yes e ↦
        let here : get_or removed.mappings j empty_mapping ≡ last =
          rw (← e) (at_self s.mappings i last (omega (arith, v.width, v.fits, h))) in
        here ∙ ap (λ k. get_or s.mappings k empty_mapping) (ground (arith, e))
    | no ne ↦
        at_other s.mappings i last (omega (arith, v.width, v.fits, h)) j ne
        ∙ ap (λ k. get_or s.mappings k empty_mapping) (ground (arith, ne))
  ]

  thread_removed : (j : ℕ) → thread_at removed.mappings j ≡ thread_at s.mappings (origin j)
  thread_removed j = ap (λ (m : CoreMapping). m.thread_id) (mapping_removed j)

  core_removed : (j : ℕ) → core_at removed.mappings j ≡ core_at s.mappings (origin j)
  core_removed j = ap (λ (m : CoreMapping). m.logical_core) (mapping_removed j)

  -- Where a mapping goes.
  abbrev moved : ℕ → ℕ
  moved j = if j == s.count - 1 then i else j

  origin-moved : (j : ℕ) → i ≢ j → j < s.count → (origin (moved j) ≡ j) × (moved j < s.count - 1)
  origin-moved j ne u = ground (arith, h)

  pub remove-Changed : Changed s t removed
  remove-Changed = record {
    valid = record {
      width = length-set s.mappings i last ∙ v.width;
      fits = omega (arith, v.fits);
      unique = λ j k hj hk e.
          let o : origin j ≡ origin k =
            v.unique (origin j) (origin k) (ground arith) (ground arith)
              (sym (thread_removed j) ∙ e ∙ thread_removed k) in
          ground (arith, o);
    };
    others = λ q d ne m.
        let z =
          origin-moved m.place (λ e. ne (sym m.thread ∙ ap (thread_at s.mappings) (sym e) ∙ own))
            m.inside in
        record {
          place = moved m.place;
          inside = z.1;
          thread = thread_removed (moved m.place) ∙ ap (thread_at s.mappings) z.0 ∙ m.thread;
          core = core_removed (moved m.place) ∙ ap (core_at s.mappings) z.0 ∙ m.core;
        };
    back = λ q d ne m. record {
      place = origin m.place;
      inside = ground (arith, m.inside);
      thread = sym (thread_removed m.place) ∙ m.thread;
      core = sym (core_removed m.place) ∙ m.core;
    };
  }

  pub removed-unmapped : (j : ℕ) → j < removed.count → thread_at removed.mappings j ≢ t
  removed-unmapped j u e =
      let o : origin j ≡ i =
        v.unique (origin j) i (ground arith) h (sym (thread_removed j) ∙ e ∙ sym own) in
      ground (arith, o)
