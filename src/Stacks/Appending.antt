-- ===== src/Stacks/Appending.antt =====
-- What `append` writes into memory that has room.
use ig_cachesim.Common.{
  ℕ, ◌+◌, ◌%◌, ◌^◌, ◌≤◌, ◌<◌, ◌≡◌, ap, sym, ◌∙◌, List, arith, get_or, length, length-set,
  get_or-set_self, get_or-set_ne,
}
use ig_cachesim.Stacks.{StackData, copy, append}
use ig_cachesim.Stacks.Memory.{
  segment, segment_congr, segment-copy, get_or-copy, length-copy, IsData,
}

-- The memory after `append`, where there is room.
pub record Appended (d : StackData) (fs : List ℕ) (r : StackData) : Type 0 where
  pub valid : IsData r
  pub written : segment r.frames d.count (length fs) ≡ fs
  pub ended : get_or r.frames (d.count + length fs) 0 ≡ 0
  pub kept : (j : ℕ) → j < d.count → get_or r.frames j 0 ≡ get_or d.frames j 0
  pub count : r.count ≡ d.count + length fs + 1

module _ (d : StackData) (fs : List ℕ) (v : IsData d)
    (room : d.count + length fs + 1 ≤ d.reserve_count)
    (small : d.count + length fs + 1 < 2 ^ 32) where
  at_end : (d.count + length fs) % 2 ^ 32 ≡ d.count + length fs
  at_end = omega arith

  before_end :
      (j : ℕ)
      → j < d.count + length fs
      → get_or (append d fs).frames j 0 ≡ get_or (copy d.frames d.count fs) j 0
  unfolding append
  before_end j h =
      get_or-set_ne (copy d.frames d.count fs) ((d.count + length fs) % 2 ^ 32) j 0 0 (omega arith)

  pub append-Appended : Appended d fs (append d fs)
  unfolding append
  append-Appended =
      let wide : length (copy d.frames d.count fs) ≡ d.reserve_count =
        length-copy d.frames d.count fs ∙ v.width in
      let count : (d.count + (length fs + 1)) % 2 ^ 32 ≡ d.count + length fs + 1 = omega arith in
      record {
        valid = record {
          width = length-set (copy d.frames d.count fs) ((d.count + length fs) % 2 ^ 32) 0 ∙ wide;
          fits = omega (arith, count, room);
          least = v.least;
        };
        written =
            segment_congr _ _ d.count (length fs) before_end
            ∙ segment-copy d.frames d.count fs (omega (arith, room, v.width));
        ended =
            ap (λ j. get_or (append d fs).frames j 0) (sym at_end)
            ∙ get_or-set_self (copy d.frames d.count fs) ((d.count + length fs) % 2 ^ 32) 0 0
                (omega (arith, wide, room, at_end));
        kept = λ j h. before_end j (omega arith) ∙ get_or-copy d.frames d.count fs j h;
        count = count;
      }
