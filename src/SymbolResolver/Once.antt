-- ===== src/SymbolResolver/Once.antt =====
-- The addresses of `ResolveSymbols` in UI/SymbolResolverLinux.cpp and the symbols that are resolved for them.
use mathlib.Core.Path.{subst}
use ig_cachesim.Common.{
  ℕ, ◌+◌, ◌≡◌, ◌≢◌, ◌≤◌, refl, ap, sym, ◌∙◌, All, true, Bool-cases, inl, inr, List, [], ◌∷◌, ◌++◌,
  ◌==◌, map, arith,
}
use ig_cachesim.Capture.{File}
use ig_cachesim.TraceData.{ResolvedSymbol}
use ig_cachesim.TraceData.Serialized.{ResolvedOnce}
use ig_cachesim.SymbolResolver.{ModuleFrames, module_frames}
use ig_cachesim.SymbolResolver.Frames.{count, count_frames, module_frames-once}

-- The addresses of all modules, in the order in which their symbols are asked for.
unfoldable pub all_frames : List ModuleFrames → List ℕ
all_frames [] = []
all_frames (m ∷ ms) = m.frames ++ all_frames ms

count-append : (q : ℕ) (xs ys : List ℕ) → count q (xs ++ ys) ≡ count q xs + count q ys
unfolding count
count-append q [] ys = omega arith
count-append q (x ∷ xs) ys = omega (arith, count-append q xs ys)

count-all_frames : (q : ℕ) (ms : List ModuleFrames) → count q (all_frames ms) ≡ count_frames q ms
unfolding count all_frames count_frames
count-all_frames q [] = refl
count-all_frames q (m ∷ ms) =
    count-append q m.frames (all_frames ms) ∙ ap (λ n. count q m.frames + n) (count-all_frames q ms)

not_counted :
    (a : ℕ) (rs : List ResolvedSymbol) → count a (map (λ r. r.rip) rs) ≤ 0 → All (λ q. a ≢ q.rip) rs
unfolding count
not_counted a [] h = tt
not_counted a (r ∷ rs) h = elim (Bool-cases (r.rip == a)) [
  | inl e ↦ absurd (ground (arith, e, h))
  | inr e ↦ (ground (arith, e), not_counted a rs (omega (arith, h)))
]

counted_once :
    (rs : List ResolvedSymbol) → ((q : ℕ) → count q (map (λ r. r.rip) rs) ≤ 1) → ResolvedOnce rs
unfolding count
counted_once [] h = tt
counted_once (r ∷ rs) h =
    let self : (r.rip == r.rip) ≡ true = ground arith in
    let first = h r.rip in
    (not_counted r.rip rs (ground (arith, self, first)), counted_once rs (λ q. omega (arith, h q)))

frames_once : (f : File) (q : ℕ) → count q (all_frames (module_frames f)) ≤ 1
frames_once f q =
    let n = count-all_frames q (module_frames f) ∙ module_frames-once f q in ground (arith, n)

-- Where one symbol is resolved for each of the sorted addresses, in their order, no address is
-- resolved twice.
pub module_frames-ResolvedOnce :
    (f : File) (rs : List ResolvedSymbol)
    → map (λ r. r.rip) rs ≡ all_frames (module_frames f)
    → ResolvedOnce rs
module_frames-ResolvedOnce f rs e =
    counted_once rs (λ q. subst (λ l. count q l ≤ 1) (sym e) (frames_once f q))
