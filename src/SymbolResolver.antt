-- ===== src/SymbolResolver.antt =====
-- UI/SymbolResolverLinux.cpp: how `ResolveSymbols` sorts the addresses of a capture file by module, before it asks
-- `addr2line` for their symbols. A `QSet` is a list; the counters of the progress and of failures are left out.
pub mod Frames
pub mod Modules
pub mod Once
use ig_cachesim.Common.{
  ℕ, ◌+◌, ◌%◌, ◌^◌, Bool, true, false, List, [], ◌∷◌, ◌++◌, ◌==◌, leb, ltb, if◌then◌else◌, ◌||◌,
  map,
}
use ig_cachesim.Capture.{File}
use ig_cachesim.Capture.Data.{
  SerializedModuleEntry, SerializedNode, get_modules, get_stacks, get_stats,
}

pub record ModuleFrames : Type 0 where
  pub entry : SerializedModuleEntry
  pub frames : List ℕ

-- `ripLookup` and `moduleFrameList`
pub record Lookup : Type 0 where
  pub rip_lookup : List ℕ
  pub module_frame_list : List ModuleFrames

-- `std::sort` by the image base. Modules of one base may come in any order.
unfoldable pub insert_module : ModuleFrames → List ModuleFrames → List ModuleFrames
insert_module x [] = x ∷ []
insert_module x (y ∷ ys) =
    let rest = insert_module x ys in
    if leb y.entry.image_base x.entry.image_base then y ∷ rest else x ∷ (y ∷ ys)

unfoldable pub sort_modules : List SerializedModuleEntry → List ModuleFrames
sort_modules [] = []
sort_modules (m ∷ ms) = insert_module (record { entry = m; frames = [] }) (sort_modules ms)

-- The first address of a module, and the one after its last.
unfoldable pub module_start : SerializedModuleEntry → ℕ
module_start m = (m.image_base + m.image_segment_offset) % 2 ^ 64

unfoldable pub module_end : SerializedModuleEntry → ℕ
module_end m = (m.image_base + m.image_segment_offset + m.size_bytes) % 2 ^ 64

-- The loop over the modules.
unfoldable pub add_frame : ℕ → List ModuleFrames → List ModuleFrames
add_frame rip [] = []
add_frame rip (m ∷ ms) =
    let rest = add_frame rip ms in
    if leb (module_start m.entry) rip
    then (if ltb rip (module_end m.entry)
        then record m { frames = m.frames ++ (rip ∷ []) } ∷ ms
        else m ∷ rest)
    else m ∷ rest

unfoldable pub contains : ℕ → List ℕ → Bool
contains rip [] = false
contains rip (x ∷ xs) = x == rip || contains rip xs

-- `addRipToModuleFrames`
unfoldable pub add_rip_to_module_frames : ℕ → Lookup → Lookup
add_rip_to_module_frames rip st = if contains rip st.rip_lookup then st else record {
  rip_lookup = rip ∷ st.rip_lookup;
  module_frame_list = add_frame rip st.module_frame_list;
}

-- The loops over the stacks, in which 0 ends a stack, and over the nodes.
unfoldable pub add_stack_frames : List ℕ → Lookup → Lookup
add_stack_frames [] st = st
add_stack_frames (rip ∷ rips) st =
    let added = add_rip_to_module_frames rip st in
    add_stack_frames rips (if rip == 0 then st else added)

unfoldable pub add_node_frames : List SerializedNode → Lookup → Lookup
add_node_frames [] st = st
add_node_frames (n ∷ ns) st = add_node_frames ns (add_rip_to_module_frames n.rip st)

unfoldable pub module_frames : File → List ModuleFrames
module_frames f =
    let sorted : Lookup = record {
      rip_lookup = [];
      module_frame_list = sort_modules (get_modules f);
    } in
    (add_node_frames (get_stats f) (add_stack_frames (get_stacks f) sorted)).module_frame_list
