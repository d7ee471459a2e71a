-- ===== src/SymbolResolver/Modules.antt =====
-- The order of the modules of `ResolveSymbols` in UI/SymbolResolverLinux.cpp, and where an address stands.
use mathlib.Core.Path.{subst}
use ig_cachesim.Common.{
  ℕ, ◌≡◌, ◌≤◌, refl, ap, ap₂, sym, All, All-map, true, false, Bool-cases, inl, inr, List, [], ◌∷◌,
  ◌++◌, ◌==◌, leb, ltb, ◌&&◌, arith,
}
use ig_cachesim.Capture.{File}
use ig_cachesim.Capture.Data.{
  SerializedModuleEntry, SerializedNode, get_modules, get_stacks, get_stats,
}
use ig_cachesim.SymbolResolver.{
  ModuleFrames, Lookup, insert_module, sort_modules, module_start, module_end, add_frame, contains,
  add_rip_to_module_frames, add_stack_frames, add_node_frames, module_frames,
}
use ig_cachesim.SymbolResolver.Frames.{is_in}

-- No address of these modules is in another one.
abbrev pub AreOutside : SerializedModuleEntry → List ModuleFrames → Type 0
AreOutside e [] = Unit
AreOutside e (m ∷ ms) = All (λ r. is_in r e ≡ false) m.frames × AreOutside e ms

abbrev pub AreAttributed : List ModuleFrames → Type 0
AreAttributed [] = Unit
AreAttributed (m ∷ ms) =
    All (λ r. is_in r m.entry ≡ true) m.frames × (AreOutside m.entry ms × AreAttributed ms)

-- The modules stand in the order of their image bases.
abbrev pub AreByBase : List ModuleFrames → Type 0
AreByBase [] = Unit
AreByBase (m ∷ ms) = All (λ n. m.entry.image_base ≤ n.entry.image_base) ms × AreByBase ms

All-snoc : (P : ℕ → Type 0) → (xs : List ℕ) (x : ℕ) → All P xs → P x → All P (xs ++ (x ∷ []))
All-snoc P [] x h p = (p, tt)
All-snoc P (y ∷ ys) x h p = (h.0, All-snoc P ys x h.1 p)

module _ (rip : ℕ) where
  add_frame-AreOutside :
      (e : SerializedModuleEntry) (ms : List ModuleFrames)
      → is_in rip e ≡ false
      → AreOutside e ms
      → AreOutside e (add_frame rip ms)
  unfolding add_frame
  add_frame-AreOutside e [] k h = tt
  add_frame-AreOutside e (m ∷ ms) k h = elim (Bool-cases (leb (module_start m.entry) rip)) [
    | inl a ↦ elim (Bool-cases (ltb rip (module_end m.entry))) [
      | inl b ↦ rw (a, b) (All-snoc (λ r. is_in r e ≡ false) m.frames rip h.0 k, h.1)
      | inr b ↦ rw (a, b) (h.0, add_frame-AreOutside e ms k h.1)
    ]
    | inr a ↦ rw a (h.0, add_frame-AreOutside e ms k h.1)
  ]

  add_frame-AreAttributed :
      (ms : List ModuleFrames) → AreAttributed ms → AreAttributed (add_frame rip ms)
  unfolding add_frame
  add_frame-AreAttributed [] h = tt
  add_frame-AreAttributed (m ∷ ms) h = elim (Bool-cases (leb (module_start m.entry) rip)) [
    | inl a ↦ elim (Bool-cases (ltb rip (module_end m.entry))) [
      | inl b ↦
          let here : is_in rip m.entry ≡ true = ap₂ (λ x y. x && y) a b in
          rw (a, b) (All-snoc (λ r. is_in r m.entry ≡ true) m.frames rip h.0 here, h.1)
      | inr b ↦
          let other : is_in rip m.entry ≡ false = ap₂ (λ x y. x && y) a b in
          rw (a, b)
            (h.0, (add_frame-AreOutside m.entry ms other h.1.0, add_frame-AreAttributed ms h.1.1))
    ]
    | inr a ↦
        let other : is_in rip m.entry ≡ false = ap (λ x. x && ltb rip (module_end m.entry)) a in
        rw a (h.0, (add_frame-AreOutside m.entry ms other h.1.0, add_frame-AreAttributed ms h.1.1))
  ]

  add_frame-AllEntries :
      (P : SerializedModuleEntry → Type 0) (ms : List ModuleFrames)
      → All (λ n. P n.entry) ms
      → All (λ n. P n.entry) (add_frame rip ms)
  unfolding add_frame
  add_frame-AllEntries P [] h = tt
  add_frame-AllEntries P (m ∷ ms) h = elim (Bool-cases (leb (module_start m.entry) rip)) [
    | inl a ↦ elim (Bool-cases (ltb rip (module_end m.entry))) [
      | inl b ↦ rw (a, b) h
      | inr b ↦ rw (a, b) (h.0, add_frame-AllEntries P ms h.1)
    ]
    | inr a ↦ rw a (h.0, add_frame-AllEntries P ms h.1)
  ]

  add_frame-AreByBase : (ms : List ModuleFrames) → AreByBase ms → AreByBase (add_frame rip ms)
  unfolding add_frame
  add_frame-AreByBase [] h = tt
  add_frame-AreByBase (m ∷ ms) h =
      let later = add_frame-AllEntries (λ e. m.entry.image_base ≤ e.image_base) ms h.0 in
      elim (Bool-cases (leb (module_start m.entry) rip)) [
        | inl a ↦ elim (Bool-cases (ltb rip (module_end m.entry))) [
          | inl b ↦ rw (a, b) h
          | inr b ↦ rw (a, b) (later, add_frame-AreByBase ms h.1)
        ]
        | inr a ↦ rw a (later, add_frame-AreByBase ms h.1)
      ]

-- What holds of the modules in their order.
pub record AreSorted (ms : List ModuleFrames) : Type 0 where
  pub by_base : AreByBase ms
  pub attributed : AreAttributed ms

insert_module-All :
    (P : ModuleFrames → Type 0) (x : ModuleFrames) (ms : List ModuleFrames)
    → P x
    → All P ms
    → All P (insert_module x ms)
unfolding insert_module
insert_module-All P x [] p h = (p, tt)
insert_module-All P x (m ∷ ms) p h = elim (Bool-cases (leb m.entry.image_base x.entry.image_base)) [
  | inl e ↦ rw e (h.0, insert_module-All P x ms p h.1)
  | inr e ↦ rw e (p, h)
]

insert_module-AreByBase :
    (x : ModuleFrames) (ms : List ModuleFrames) → AreByBase ms → AreByBase (insert_module x ms)
unfolding insert_module
insert_module-AreByBase x [] h = (tt, tt)
insert_module-AreByBase x (m ∷ ms) h =
    elim (Bool-cases (leb m.entry.image_base x.entry.image_base)) [
      | inl e ↦ rw e (
        insert_module-All (λ n. m.entry.image_base ≤ n.entry.image_base) x ms (ground (arith, e))
            h.0,
        insert_module-AreByBase x ms h.1,
      )
      | inr e ↦
          let le : x.entry.image_base ≤ m.entry.image_base = ground (arith, e) in
          rw e (
            (
              le,
              All-map {P = λ (n : ModuleFrames). m.entry.image_base ≤ n.entry.image_base}
                  (λ n k. omega (arith, le, k)) ms h.0,
            ),
            h,
          )
    ]

-- Modules without addresses.
AreEmpty : List ModuleFrames → Type 0
AreEmpty ms = All (λ m. m.frames ≡ []) ms

AreEmpty-AreOutside :
    (e : SerializedModuleEntry) (ms : List ModuleFrames) → AreEmpty ms → AreOutside e ms
unfolding AreEmpty
AreEmpty-AreOutside e [] h = tt
AreEmpty-AreOutside e (m ∷ ms) h =
    (subst (All (λ r. is_in r e ≡ false)) (sym h.0) tt, AreEmpty-AreOutside e ms h.1)

AreEmpty-AreAttributed : (ms : List ModuleFrames) → AreEmpty ms → AreAttributed ms
unfolding AreEmpty
AreEmpty-AreAttributed [] h = tt
AreEmpty-AreAttributed (m ∷ ms) h = (
  subst (All (λ r. is_in r m.entry ≡ true)) (sym h.0) tt,
  (AreEmpty-AreOutside m.entry ms h.1, AreEmpty-AreAttributed ms h.1),
)

sort_modules-AreEmpty : (es : List SerializedModuleEntry) → AreEmpty (sort_modules es)
unfolding AreEmpty sort_modules
sort_modules-AreEmpty [] = tt
sort_modules-AreEmpty (e ∷ es) =
    insert_module-All (λ m. m.frames ≡ []) (record { entry = e; frames = [] }) (sort_modules es)
      refl (sort_modules-AreEmpty es)

sort_modules-AreByBase : (es : List SerializedModuleEntry) → AreByBase (sort_modules es)
unfolding sort_modules
sort_modules-AreByBase [] = tt
sort_modules-AreByBase (e ∷ es) =
    insert_module-AreByBase (record { entry = e; frames = [] }) (sort_modules es)
      (sort_modules-AreByBase es)

sort_modules-AreSorted : (es : List SerializedModuleEntry) → AreSorted (sort_modules es)
sort_modules-AreSorted es = record {
  by_base = sort_modules-AreByBase es;
  attributed = AreEmpty-AreAttributed (sort_modules es) (sort_modules-AreEmpty es);
}

add_rip-AreSorted :
    (rip : ℕ) (st : Lookup)
    → AreSorted st.module_frame_list
    → AreSorted (add_rip_to_module_frames rip st).module_frame_list
unfolding add_rip_to_module_frames
add_rip-AreSorted rip st h = elim (Bool-cases (contains rip st.rip_lookup)) [
  | inl e ↦ rw (e, add_rip_to_module_frames) h
  | inr e ↦
      rw (e, add_rip_to_module_frames)
        (record {
          by_base = add_frame-AreByBase rip st.module_frame_list h.by_base;
          attributed = add_frame-AreAttributed rip st.module_frame_list h.attributed;
        })
]

add_stack_frames-AreSorted :
    (rips : List ℕ) (st : Lookup)
    → AreSorted st.module_frame_list
    → AreSorted (add_stack_frames rips st).module_frame_list
unfolding add_stack_frames
add_stack_frames-AreSorted [] st h = h
add_stack_frames-AreSorted (rip ∷ rips) st h = elim (Bool-cases (rip == 0)) [
  | inl e ↦ rw (e, add_stack_frames) (add_stack_frames-AreSorted rips st h)
  | inr e ↦
      rw (e, add_stack_frames)
        (add_stack_frames-AreSorted rips (add_rip_to_module_frames rip st)
          (add_rip-AreSorted rip st h))
]

add_node_frames-AreSorted :
    (ns : List SerializedNode) (st : Lookup)
    → AreSorted st.module_frame_list
    → AreSorted (add_node_frames ns st).module_frame_list
unfolding add_node_frames
add_node_frames-AreSorted [] st h = h
add_node_frames-AreSorted (n ∷ ns) st h =
    add_node_frames-AreSorted ns (add_rip_to_module_frames n.rip st) (add_rip-AreSorted n.rip st h)

-- The modules of `ResolveSymbols` on Linux are in the order of their image bases, and each address
-- stands with the first module in that order that contains it.
pub module_frames-AreSorted : (f : File) → AreSorted (module_frames f)
unfolding module_frames
module_frames-AreSorted f =
    let st : Lookup = record {
      rip_lookup = [];
      module_frame_list = sort_modules (get_modules f);
    } in
    add_node_frames-AreSorted (get_stats f) (add_stack_frames (get_stacks f) st)
      (add_stack_frames-AreSorted (get_stacks f) st (sort_modules-AreSorted (get_modules f)))
