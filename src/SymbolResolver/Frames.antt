-- ===== src/SymbolResolver/Frames.antt =====
-- The addresses of a capture in the modules that they are sorted into.
use mathlib.Core.Path.{subst}
use ig_cachesim.Common.{
  ℕ, ◌+◌, ◌≡◌, refl, ap, sym, ◌∙◌, Bool, true, false, Bool-cases, inl, inr, List, [], ◌∷◌, ◌++◌,
  ◌==◌, leb, ltb, if◌then◌else◌, ◌||◌, ◌&&◌, not, arith,
}
use ig_cachesim.Capture.{File}
use ig_cachesim.Capture.Data.{
  SerializedModuleEntry, SerializedNode, get_modules, get_stacks, get_stats,
}
use ig_cachesim.SymbolResolver.{
  ModuleFrames, Lookup, insert_module, sort_modules, module_start, module_end, add_frame, contains,
  add_rip_to_module_frames, add_stack_frames, add_node_frames, module_frames,
}

-- An address is in a module.
abbrev pub is_in : ℕ → SerializedModuleEntry → Bool
is_in rip m = leb (module_start m) rip && ltb rip (module_end m)

-- An address is in some module.
unfoldable pub in_module : ℕ → List ModuleFrames → Bool
in_module rip [] = false
in_module rip (m ∷ ms) = is_in rip m.entry || in_module rip ms

unfoldable pub count : ℕ → List ℕ → ℕ
count rip [] = 0
count rip (x ∷ xs) = (if x == rip then 1 else 0) + count rip xs

-- How often an address stands among the frames of the modules.
unfoldable pub count_frames : ℕ → List ModuleFrames → ℕ
count_frames rip [] = 0
count_frames rip (m ∷ ms) = count rip m.frames + count_frames rip ms

count-snoc :
    (q rip : ℕ) (xs : List ℕ)
    → count q (xs ++ (rip ∷ [])) ≡ count q xs + (if rip == q then 1 else 0)
unfolding count
count-snoc q rip [] = omega arith
count-snoc q rip (x ∷ xs) = omega (arith, count-snoc q rip xs)

add_frame-count :
    (q rip : ℕ) (ms : List ModuleFrames)
    → count_frames q (add_frame rip ms)
      ≡ count_frames q ms + (if rip == q && in_module rip ms then 1 else 0)
unfolding count_frames add_frame in_module
add_frame-count q rip [] = ground arith
add_frame-count q rip (m ∷ ms) = ground (arith, add_frame-count q rip ms, count-snoc q rip m.frames)

add_frame-in_module :
    (q rip : ℕ) (ms : List ModuleFrames) → in_module q (add_frame rip ms) ≡ in_module q ms
unfolding add_frame in_module
add_frame-in_module q rip [] = refl
add_frame-in_module q rip (m ∷ ms) = ground (arith, add_frame-in_module q rip ms)

-- An address is in a module of a capture.
unfoldable pub in_entry : ℕ → List SerializedModuleEntry → Bool
in_entry q [] = false
in_entry q (m ∷ ms) = is_in q m || in_entry q ms

insert_module-in_module :
    (q : ℕ) (x : ModuleFrames) (ms : List ModuleFrames)
    → in_module q (insert_module x ms) ≡ (is_in q x.entry || in_module q ms)
unfolding insert_module in_module
insert_module-in_module q x [] = refl
insert_module-in_module q x (m ∷ ms) = ground (arith, insert_module-in_module q x ms)

insert_module-count :
    (q : ℕ) (x : ModuleFrames) (ms : List ModuleFrames)
    → count_frames q (insert_module x ms) ≡ count q x.frames + count_frames q ms
unfolding insert_module count_frames
insert_module-count q x [] = omega arith
insert_module-count q x (m ∷ ms) = ground (arith, insert_module-count q x ms)

sort_modules-in_module :
    (q : ℕ) (ms : List SerializedModuleEntry) → in_module q (sort_modules ms) ≡ in_entry q ms
unfolding sort_modules in_entry in_module
sort_modules-in_module q [] = refl
sort_modules-in_module q (m ∷ ms) =
    insert_module-in_module q (record { entry = m; frames = [] }) (sort_modules ms)
    ∙ ap (λ b. is_in q m || b) (sort_modules-in_module q ms)

sort_modules-count :
    (q : ℕ) (ms : List SerializedModuleEntry) → count_frames q (sort_modules ms) ≡ 0
unfolding sort_modules count_frames count
sort_modules-count q [] = refl
sort_modules-count q (m ∷ ms) =
    insert_module-count q (record { entry = m; frames = [] }) (sort_modules ms)
    ∙ ap (λ n. 0 + n) (sort_modules-count q ms)

-- An address of a stack, and of a node.
unfoldable pub in_stacks : ℕ → List ℕ → Bool
in_stacks q [] = false
in_stacks q (x ∷ xs) = (not (x == 0) && x == q) || in_stacks q xs

unfoldable pub in_nodes : ℕ → List SerializedNode → Bool
in_nodes q [] = false
in_nodes q (n ∷ ns) = n.rip == q || in_nodes q ns

module _ (q : ℕ) where
  -- The frames hold `q` once if it has come up, and is in a module.
  record Holds (st : Lookup) (up inside : Bool) : Type 0 where
    seen : contains q st.rip_lookup ≡ up
    modules : in_module q st.module_frame_list ≡ inside
    once : count_frames q st.module_frame_list ≡ (if up && inside then 1 else 0)

  same_address : (rip : ℕ) → (rip == q) ≡ true → q ≡ rip
  same_address rip k = ground (arith, k)

  add_rip-Holds :
      (rip : ℕ) (st : Lookup) (up inside : Bool)
      → Holds st up inside
      → Holds (add_rip_to_module_frames rip st) (up || rip == q) inside
  unfolding add_rip_to_module_frames contains
  add_rip-Holds rip st up inside h = elim (Bool-cases (contains rip st.rip_lookup)) [
    | inl e ↦
        let known : (up || rip == q) ≡ up = elim (Bool-cases (rip == q)) [
          | inl k ↦
              let t : up ≡ true =
                sym h.seen ∙ ap (λ r. contains r st.rip_lookup) (same_address rip k) ∙ e in
              ground (arith, t, k)
          | inr k ↦ ground (arith, k)
        ] in
        let stays : add_rip_to_module_frames rip st ≡ st = rw (e, add_rip_to_module_frames) in
        subst (λ t. Holds t (up || rip == q) inside) (sym stays)
          (subst (λ b. Holds st b inside) (sym known) h)
    | inr e ↦
        let st1 : Lookup = record {
          rip_lookup = rip ∷ st.rip_lookup;
          module_frame_list = add_frame rip st.module_frame_list;
        } in
        let grows : add_rip_to_module_frames rip st ≡ st1 = rw (e, add_rip_to_module_frames) in
        subst (λ t. Holds t (up || rip == q) inside) (sym grows)
          (record {
            seen = ground (arith, h.seen);
            modules = add_frame-in_module q rip st.module_frame_list ∙ h.modules;
            once = add_frame-count q rip st.module_frame_list ∙ elim (Bool-cases (rip == q)) [
              | inl k ↦
                  let new : up ≡ false =
                    sym h.seen ∙ ap (λ r. contains r st.rip_lookup) (same_address rip k) ∙ e in
                  let here : in_module rip st.module_frame_list ≡ inside =
                    ap (λ r. in_module r st.module_frame_list) (sym (same_address rip k))
                    ∙ h.modules in
                  ground (arith, new, k, here, h.once)
              | inr k ↦ ground (arith, k, h.once)
            ];
          })
  ]

  add_stack_frames-Holds :
      (rips : List ℕ) (st : Lookup) (up inside : Bool)
      → Holds st up inside
      → Holds (add_stack_frames rips st) (up || in_stacks q rips) inside
  unfolding add_stack_frames in_stacks
  add_stack_frames-Holds [] st up inside h = subst (λ b. Holds st b inside) (ground arith) h
  add_stack_frames-Holds (rip ∷ rips) st up inside h = elim (Bool-cases (rip == 0)) [
    | inl e ↦ rw e (add_stack_frames-Holds rips st up inside h)
    | inr e ↦
        let next = add_rip_to_module_frames rip st in
        let join : ((up || rip == q) || in_stacks q rips) ≡ (up || (rip == q || in_stacks q rips)) =
          ground arith in
        rw e (
          subst (λ b. Holds (add_stack_frames rips next) b inside) join
            (add_stack_frames-Holds rips next (up || rip == q) inside
              (add_rip-Holds rip st up inside h)))
  ]

  add_node_frames-Holds :
      (ns : List SerializedNode) (st : Lookup) (up inside : Bool)
      → Holds st up inside
      → Holds (add_node_frames ns st) (up || in_nodes q ns) inside
  unfolding add_node_frames in_nodes
  add_node_frames-Holds [] st up inside h = subst (λ b. Holds st b inside) (ground arith) h
  add_node_frames-Holds (n ∷ ns) st up inside h =
      let next = add_rip_to_module_frames n.rip st in
      let join : ((up || n.rip == q) || in_nodes q ns) ≡ (up || (n.rip == q || in_nodes q ns)) =
        ground arith in
      subst (λ b. Holds (add_node_frames ns next) b inside) join
        (add_node_frames-Holds ns next (up || n.rip == q) inside
          (add_rip-Holds n.rip st up inside h))

-- `ResolveSymbols` on Linux sorts each address that is a frame other than 0, or the address of a
-- node, into the frames of the modules exactly once if some module contains it; any other address
-- is in none of them.
pub module_frames-once :
    (f : File) (q : ℕ)
    → count_frames q (module_frames f) ≡ (
        if (in_stacks q (get_stacks f) || in_nodes q (get_stats f)) && in_entry q (get_modules f)
        then 1
        else 0)
unfolding module_frames contains
module_frames-once f q =
    let st : Lookup = record {
      rip_lookup = [];
      module_frame_list = sort_modules (get_modules f);
    } in
    let start : Holds q st false (in_entry q (get_modules f)) = record {
      seen = refl;
      modules = sort_modules-in_module q (get_modules f);
      once = sort_modules-count q (get_modules f);
    } in
    let stacks =
      add_stack_frames-Holds q (get_stacks f) st false (in_entry q (get_modules f)) start in
    let all =
      add_node_frames-Holds q (get_stats f) (add_stack_frames (get_stacks f) st)
        (in_stacks q (get_stacks f)) (in_entry q (get_modules f)) stacks in
    all.once
