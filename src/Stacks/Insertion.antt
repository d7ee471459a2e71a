-- ===== src/Stacks/Insertion.antt =====
-- `InsertStack`: the well-formed stores, and the store before and after a stack.
use ig_cachesim.Common.{
  ℕ, ◌+◌, ◌%◌, ◌^◌, ◌≤◌, ◌<◌, ◌≡◌, refl, ap, sym, ◌∙◌, false, none, some, List, arith, get_or,
  length, Bool-cases, inl, inr,
}
use ig_cachesim.HashTable.{HashTable, find, insert, store}
use ig_cachesim.HashTable.Chain.{equal_refl}
use ig_cachesim.HashTable.Growth.{IsValid}
use ig_cachesim.HashTable.Laws.{Inserts, insert-Inserts, reset-IsValid}
use ig_cachesim.HashTable.Writes.{Stores, store-Stores}
use ig_cachesim.Stacks.{
  StackValue, no_stack, StackData, StackStore, no_stacks, reserve, append, insert_stack,
}
use ig_cachesim.Stacks.Keys.{StackKey, stack_key, stack_equal, stack_equal_iff}
use ig_cachesim.Stacks.Appending.{Appended, append-Appended}
use ig_cachesim.Stacks.Memory.{segment, segment_congr, IsData, Reserved, reserve-Reserved}

-- A key's stack stands in the memory, has the key as its digest, and ends in a zero.
pub record IsHeld (md5 : List ℕ → StackKey) (d : StackData) (k : StackKey) (v : StackValue)
    : Type 0 where
  pub inside : v.offset + v.count < d.count
  pub digest : md5 (segment d.frames v.offset v.count) ≡ k
  pub ended : get_or d.frames (v.offset + v.count) 0 ≡ 0

pub record IsStore (md5 : List ℕ → StackKey) (s : StackStore) : Type 0 where
  pub table : IsValid s.stacks
  pub memory : IsData s.stack_data
  pub held :
      (k : StackKey) (v : StackValue) → find s.stacks k ≡ some v → IsHeld md5 s.stack_data k v

-- A store without stacks is well formed.
pub no_stacks-IsStore : (md5 : List ℕ → StackKey) → IsStore md5 no_stacks
no_stacks-IsStore md5 = record {
  table = reset-IsValid.0;
  memory = record { width = refl; fits = omega arith; least = inl refl };
  held = λ k v h.
      let e : none ≡ some v = sym ((reset-IsValid {V = StackValue}).1 k) ∙ h in ground (arith, e);
}

-- The frames of a held stack are before the count, and stay as memory is written after it.
IsHeld-kept :
    {md5 : List ℕ → StackKey} {d r : StackData} {k : StackKey} {v : StackValue}
    → ((j : ℕ) → j < d.count → get_or r.frames j 0 ≡ get_or d.frames j 0)
    → d.count ≤ r.count
    → IsHeld md5 d k v
    → IsHeld md5 r k v
IsHeld-kept {md5} {d} {r} {k} {v} keep more h = record {
  inside = omega (arith, h.inside);
  digest =
      ap md5
        (segment_congr r.frames d.frames v.offset v.count (λ j l. keep j (omega (arith, h.inside))))
      ∙ h.digest;
  ended = keep (v.offset + v.count) h.inside ∙ h.ended;
}

module _ (md5 : List ℕ → StackKey) (s : StackStore) (fs : List ℕ) where
  -- The bounds that a call meets: a stack of at most `kMaxCalls` frames, and stores that are not full.
  pub record IsSmall : Type 0 where
    pub few : length fs ≤ 128
    pub frames : s.stack_data.count < 2 ^ 30
    pub stacks : s.stacks.count < 2 ^ 59

  -- The value of the new stack, and the two stores after it.
  abbrev added : StackValue
  added = record { offset = s.stack_data.count; count = length fs % 2 ^ 32 }

  abbrev added_to : HashTable StackKey StackValue
  added_to = store (λ v. added) (insert no_stack s.stacks (md5 fs)) (md5 fs)

  abbrev added_data : StackData
  added_data = append (reserve s.stack_data (length fs)) fs

  module _ (v : IsStore md5 s) (small : IsSmall) where
    inserts : Inserts no_stack s.stacks (md5 fs) (insert no_stack s.stacks (md5 fs))
    inserts = insert-Inserts no_stack s.stacks (md5 fs) v.table small.stacks

    stores : Stores (λ v. added) (insert no_stack s.stacks (md5 fs)) (md5 fs) added_to
    stores = store-Stores (λ v. added) (insert no_stack s.stacks (md5 fs)) (md5 fs) inserts.valid

    find-added : find added_to (md5 fs) ≡ some added
    find-added = stores.reads (md5 fs) ∙ rw (equal_refl (md5 fs), inserts.own)

    find-others :
        (q : StackKey) → stack_equal q (md5 fs) ≡ false → find added_to q ≡ find s.stacks q
    find-others q ne = stores.reads q ∙ rw ne (inserts.others q ne)

    reserved : Reserved s.stack_data (length fs) (reserve s.stack_data (length fs))
    reserved = reserve-Reserved s.stack_data v.memory (length fs) small.few small.frames

    appended : Appended (reserve s.stack_data (length fs)) fs added_data
    appended =
        append-Appended (reserve s.stack_data (length fs)) fs reserved.valid
          (omega (arith, reserved.room, reserved.count))
          (omega (arith, reserved.count, small.few, small.frames))

    kept :
        (j : ℕ)
        → j < s.stack_data.count
        → get_or added_data.frames j 0 ≡ get_or s.stack_data.frames j 0
    kept j h = appended.kept j (omega (arith, reserved.count)) ∙ reserved.reads j

    written : segment added_data.frames s.stack_data.count (length fs) ≡ fs
    written =
        ap (λ o. segment added_data.frames o (length fs)) (sym reserved.count) ∙ appended.written

    added-IsHeld : IsHeld md5 added_data (md5 fs) added
    added-IsHeld =
        let short : length fs % 2 ^ 32 ≡ length fs = omega (arith, small.few) in
        record {
          inside = omega (arith, short, appended.count, reserved.count);
          digest = rw short (ap md5 written);
          ended = rw short (
              ap (λ o. get_or added_data.frames (o + length fs) 0) (sym reserved.count)
              ∙ appended.ended);
        }

    IsHeld-after :
        (q : StackKey) (w : StackValue) → find added_to q ≡ some w → IsHeld md5 added_data q w
    IsHeld-after q w h = elim (Bool-cases (stack_equal q (md5 fs))) [
      | inl same ↦
          let qk : q ≡ md5 fs = (stack_equal_iff q (md5 fs)).0 same in
          let e : some added ≡ some w = sym find-added ∙ ap (find added_to) (sym qk) ∙ h in
          let ww : added ≡ w = ground (arith, e) in rw (qk, ← ww) added-IsHeld
      | inr other ↦
          IsHeld-kept kept (omega (arith, appended.count, reserved.count))
            (v.held q w (sym (find-others q other) ∙ h))
    ]

    added-IsStore : IsStore md5 (record { stacks = added_to; stack_data = added_data })
    added-IsStore = record { table = stores.valid; memory = appended.valid; held = IsHeld-after }

-- A new offset and store, against the store before the stack was inserted.
pub record Adds (md5 : List ℕ → StackKey) (s : StackStore) (fs : List ℕ) (r : ℕ × StackStore)
    : Type 0 where
  pub valid : IsStore md5 r.1
  pub frames : segment r.1.stack_data.frames r.0 (length fs) ≡ fs
  pub ended : get_or r.1.stack_data.frames (r.0 + length fs) 0 ≡ 0
  pub own : find r.1.stacks (md5 fs) ≡ some (record { offset = r.0; count = length fs })
  pub others : (q : StackKey) → stack_equal q (md5 fs) ≡ false → find r.1.stacks q ≡ find s.stacks q

-- `InsertStack` of at most 128 frames whose digest is not known, into a well-formed store of fewer
-- than 2^30 frames and 2^59 stacks: the store stays well formed, the frames and a zero stand at the
-- offset that is returned, the digest maps to that offset, and all other digests keep their values.
pub insert_stack-Adds :
    (md5 : List ℕ → StackKey) (s : StackStore) (fs : List ℕ)
    → IsStore md5 s
    → IsSmall md5 s fs
    → find s.stacks (md5 fs) ≡ none
    → Adds md5 s fs (insert_stack md5 fs s)
unfolding insert_stack
insert_stack-Adds md5 s fs v small h =
    let short : length fs % 2 ^ 32 ≡ length fs = omega (arith, small.few) in
    let own = added-IsHeld md5 s fs v small in
    rw (h, insert_stack)
      (record {
        valid = added-IsStore md5 s fs v small;
        frames = written md5 s fs v small;
        ended =
            ap (λ n. get_or (added_data md5 s fs).frames (s.stack_data.count + n) 0) (sym short)
            ∙ own.ended;
        own = find-added md5 s fs v small ∙ rw short;
        others = find-others md5 s fs v small;
      })

-- `InsertStack` of a stack whose digest a well-formed store knows leaves the store and returns the
-- known offset, where frames of the same digest stand.
pub insert_stack-known :
    (md5 : List ℕ → StackKey) (s : StackStore) (fs : List ℕ) (w : StackValue)
    → IsStore md5 s
    → find s.stacks (md5 fs) ≡ some w
    → (insert_stack md5 fs s ≡ (w.offset, s))
      × (md5 (segment s.stack_data.frames w.offset w.count) ≡ md5 fs)
unfolding insert_stack
insert_stack-known md5 s fs w v h = (rw (h, insert_stack), (v.held (md5 fs) w h).digest)
