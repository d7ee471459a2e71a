-- ===== src/Capture/Names.antt =====
-- The file names of the modules in a capture file, as `GetModuleName` reads them.
use mathlib.Core.List.{append_assoc}
use ig_cachesim.Common.{
  ℕ, zero, suc, ◌+◌, ◌%◌, ◌^◌, ◌≤◌, ◌<◌, ◌≡◌, All, refl, ap, ap₂, sym, ◌∙◌, List, [], ◌∷◌, ◌++◌,
  map, arith, length, length-append, get_or,
}
use ig_cachesim.Capture.{ModuleInfo}
use ig_cachesim.Capture.Bytes.{get_or-append}
use ig_cachesim.Capture.Data.{c_string}
use ig_cachesim.Capture.Sections.{entries, names}

-- A name without a terminator in it.
abbrev pub IsName : List ℕ → Type 0
IsName bs = All (λ b. 0 < b) bs

c_string-terminated :
    (n : ℕ) (a bs c : List ℕ)
    → IsName bs
    → length bs < n
    → c_string n (a ++ (bs ++ (0 ∷ c))) (length a) ≡ bs
unfolding c_string
c_string-terminated zero a bs c h k = absurd (omega arith)
c_string-terminated (suc n) a [] c h k =
    let e : get_or (a ++ (0 ∷ c)) (length a) 0 ≡ 0 = get_or-append a (0 ∷ c) in rw e
c_string-terminated (suc n) a (b ∷ bs) c h k =
    let e : get_or (a ++ (b ∷ (bs ++ (0 ∷ c)))) (length a) 0 ≡ b =
      get_or-append a (b ∷ (bs ++ (0 ∷ c))) in
    let two : a ++ (b ∷ (bs ++ (0 ∷ c))) ≡ (a ++ (b ∷ [])) ++ (bs ++ (0 ∷ c)) =
      sym (append_assoc a (b ∷ []) (bs ++ (0 ∷ c))) in
    let far : suc (length a) ≡ length (a ++ (b ∷ [])) = omega (arith, length-append a (b ∷ [])) in
    let rest : c_string n (a ++ (b ∷ (bs ++ (0 ∷ c)))) (suc (length a)) ≡ bs =
      ap₂ (c_string n) two far
      ∙ c_string-terminated n (a ++ (b ∷ [])) bs c h.1 (omega (arith, k)) in
    rw (e, rest) (ground (arith, h.0))

pub names-read :
    (ms : List ModuleInfo) (n base str : ℕ) (a c : List ℕ)
    → All (λ m. IsName m.filename) ms
    → length a ≡ base + str
    → base + str + length (names ms) < 2 ^ 32
    → length (names ms) ≤ n
    → map
        (λ e. c_string n (a ++ (names ms ++ c)) ((base + e.string_offset) % 2 ^ 32))
        (entries str ms)
      ≡ map (λ m. m.filename) ms
unfolding entries names
names-read [] n base str a c h w k l = refl
names-read (m ∷ ms) n base str a c h w k l =
    let one = m.filename ++ (0 ∷ []) in
    let s = (str + (length m.filename + 1) % 2 ^ 32) % 2 ^ 32 in
    let size = length-append one (names ms) in
    let size1 = length-append m.filename (0 ∷ []) in
    let here : (base + str) % 2 ^ 32 ≡ length a = omega (arith, w, k) in
    let f1 : a ++ ((one ++ names ms) ++ c) ≡ a ++ (m.filename ++ (0 ∷ (names ms ++ c))) =
      simp append_assoc in
    let f2 : a ++ ((one ++ names ms) ++ c) ≡ (a ++ one) ++ (names ms ++ c) = simp append_assoc in
    ap₂ (λ (x : List ℕ) (xs : List (List ℕ)). x ∷ xs)
      (ap₂ (c_string n) f1 here
        ∙ c_string-terminated n a m.filename (names ms ++ c) h.0 (omega (arith, size, size1, l)))
      (ap (λ f. map (λ e. c_string n f ((base + e.string_offset) % 2 ^ 32)) (entries s ms)) f2
        ∙ names-read ms n base s (a ++ one) c h.1
            (omega (arith, length-append a one, size1, size, k, w))
            (omega (arith, size, size1, k, w)) (omega (arith, size, size1, l)))
