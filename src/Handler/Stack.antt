-- ===== src/Handler/Stack.antt =====
-- The index of a thread's call stack, when a handler needs it.
use ig_cachesim.Common.{
  ℕ, ◌^◌, ◌<◌, ◌≡◌, ◌≢◌, refl, some, List, false, ◌==◌, drop, length, length-drop, Bool-cases,
  Option-cases, inl, inr, arith,
}
use ig_cachesim.HashTable.{find}
use ig_cachesim.Stacks.{StackValue, StackStore, insert_stack}
use ig_cachesim.Stacks.Keys.{StackKey, stack_key}
use ig_cachesim.Stacks.Insertion.{IsHeld, IsStore, IsSmall, insert_stack-Adds, insert_stack-known}
use ig_cachesim.Accesses.{no_stack_index}
use ig_cachesim.Handler.{find_stack, max_calls}

-- The store holds at `index` a stack with the digest of `frames`.
pub record Holds (md5 : List ℕ → StackKey) (frames : List ℕ) (index : ℕ) (s : StackStore)
    : Type 0 where
  pub value : StackValue
  pub found : find s.stacks (md5 frames) ≡ some value
  pub offset : value.offset ≡ index
  pub held : IsHeld md5 s.stack_data (md5 frames) value

insert_stack-Holds :
    (md5 : List ℕ → StackKey) (s : StackStore) (fs : List ℕ)
    → IsStore md5 s
    → IsSmall md5 s fs
    → IsStore md5 (insert_stack md5 fs s).1
      × Holds md5 fs (insert_stack md5 fs s).0 (insert_stack md5 fs s).1
insert_stack-Holds md5 s fs v small = elim (Option-cases (find s.stacks (md5 fs))) [
  | inl n ↦
      let a = insert_stack-Adds md5 s fs v small n in
      (
        a.valid,
        record {
          value = record { offset = (insert_stack md5 fs s).0; count = length fs };
          found = a.own;
          offset = refl;
          held =
              a.valid.held (md5 fs)
                (record { offset = (insert_stack md5 fs s).0; count = length fs }) a.own;
        },
      )
  | inr w ↦
      let k = insert_stack-known md5 s fs w.0 v w.1 in
      rw k.0 (v, record { value = w.0; found = w.1; offset = refl; held = v.held (md5 fs) w.0 w.1 })
]

-- A stack that is known, or the callers of a thread that has none.
pub record Stacked (md5 : List ℕ → StackKey) (callstack : List ℕ) (stack_index : ℕ) (s : StackStore)
    (r : ℕ × StackStore) : Type 0 where
  pub valid : IsStore md5 r.1
  pub known : stack_index ≢ no_stack_index → r ≡ (stack_index, s)
  pub found : stack_index ≡ no_stack_index → Holds md5 (drop 1 callstack) r.0 r.1

pub find_stack-Stacked :
    (md5 : List ℕ → StackKey) (callstack : List ℕ) (stack_index : ℕ) (s : StackStore)
    → IsStore md5 s
    → 0 < length callstack
    → length callstack < 128
    → s.stack_data.count < 2 ^ 30
    → s.stacks.count < 2 ^ 59
    → (r : ℕ × StackStore) × (find_stack md5 callstack stack_index s ≡ some r)
      × Stacked md5 callstack stack_index s r
unfolding find_stack
find_stack-Stacked md5 callstack stack_index s v some_frames few frames stacks =
    elim (Bool-cases (stack_index == no_stack_index)) [
      | inl e ↦
          let fs = drop 1 callstack in
          let empty : (length callstack == 0) ≡ false = ground (arith, some_frames) in
          let full : (length callstack == max_calls) ≡ false = ground (arith, few) in
          let a = insert_stack-Holds md5 s fs v (record {
            few = omega (arith, length-drop 1 callstack, few);
            frames = frames;
            stacks = stacks;
          }) in
          (
            insert_stack md5 fs s,
            rw (e, empty, full),
            record { valid = a.0; known = λ n. absurd (ground (arith, n, e)); found = λ q. a.1 },
          )
      | inr e ↦ (
        (stack_index, s),
        rw e,
        record { valid = v; known = λ n. refl; found = λ q. absurd (ground (arith, q, e)) },
      )
    ]
