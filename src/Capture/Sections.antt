-- ===== src/Capture/Sections.antt =====
-- The sections of a capture file as tables of records.
use mathlib.Core.List.{append-nil, append_assoc}
use ig_cachesim.Common.{
  ℕ, ◌+◌, ◌%◌, ◌^◌, ◌<◌, ◌≡◌, All, ap, sym, ◌∙◌, some, List, [], ◌∷◌, ◌++◌, map, length,
}
use ig_cachesim.HashTable.{Elem, Chain, HashTable, find}
use ig_cachesim.Stacks.Keys.{RipKey, rip_key}
use ig_cachesim.Trace.{RipStats}
use ig_cachesim.Capture.{
  ModuleInfo, File, write_modules, write_names, write_frames, write_counters, write_stats,
}
use ig_cachesim.Capture.Bytes.{le, write_table}
use ig_cachesim.Capture.Data.{SerializedModuleEntry, SerializedNode}

-- The bytes of the records, as the file has them.
abbrev pub encode_module : SerializedModuleEntry → List ℕ
encode_module e =
    le 8 e.image_base
    ++ (le 8 e.image_segment_offset ++ (le 4 e.size_bytes ++ le 4 e.string_offset))

abbrev pub encode_node : SerializedNode → List ℕ
encode_node n = le 8 n.rip ++ (le 4 n.stack_index ++ (write_table (le 4) n.stats ++ le 4 0))

-- Values that their fields can hold.
pub record FitsModule (e : SerializedModuleEntry) : Type 0 where
  pub base : e.image_base < 2 ^ 64
  pub segment : e.image_segment_offset < 2 ^ 64
  pub size : e.size_bytes < 2 ^ 32
  pub string : e.string_offset < 2 ^ 32

pub record FitsNode (n : SerializedNode) : Type 0 where
  pub rip : n.rip < 2 ^ 64
  pub stack : n.stack_index < 2 ^ 32
  pub width : length n.stats ≡ 8
  pub stats : All (λ c. c < 2 ^ 32) n.stats

-- The entries of a list of modules, with the offsets of their names.
unfoldable pub entries : ℕ → List ModuleInfo → List SerializedModuleEntry
entries str [] = []
entries str (m ∷ ms) =
    record {
      image_base = m.start_addr_in_memory;
      image_segment_offset = m.segment_offset;
      size_bytes = m.module_length;
      string_offset = str;
    }
    ∷ entries ((str + (length m.filename + 1) % 2 ^ 32) % 2 ^ 32) ms

unfoldable pub names : List ModuleInfo → List ℕ
names [] = []
names (m ∷ ms) = (m.filename ++ (0 ∷ [])) ++ names ms

pub write_modules-entries :
    (str : ℕ) (ms : List ModuleInfo) (f : File)
    → write_modules str ms f ≡ f ++ write_table encode_module (entries str ms)
unfolding write_modules entries write_table
write_modules-entries str [] f = sym (append-nil f)
write_modules-entries str (m ∷ ms) f =
    write_modules-entries ((str + (length m.filename + 1) % 2 ^ 32) % 2 ^ 32) ms _
    ∙ simp append_assoc

pub write_names-names : (ms : List ModuleInfo) (f : File) → write_names ms f ≡ f ++ names ms
unfolding write_names names
write_names-names [] f = sym (append-nil f)
write_names-names (m ∷ ms) f =
    write_names-names ms _ ∙ append_assoc f (m.filename ++ (0 ∷ [])) (names ms)

pub write_frames-table : (ps : List ℕ) (f : File) → write_frames ps f ≡ f ++ write_table (le 8) ps
unfolding write_frames write_table
write_frames-table [] f = sym (append-nil f)
write_frames-table (p ∷ ps) f =
    write_frames-table ps _ ∙ append_assoc f (le 8 p) (write_table (le 8) ps)

write_counters-table : (cs : List ℕ) (f : File) → write_counters cs f ≡ f ++ write_table (le 4) cs
unfolding write_counters write_table
write_counters-table [] f = sym (append-nil f)
write_counters-table (c ∷ cs) f =
    write_counters-table cs _ ∙ append_assoc f (le 4 c) (write_table (le 4) cs)

abbrev pub node_of : Elem RipKey RipStats → SerializedNode
node_of e = record { rip = e.key.rip; stack_index = e.key.stack_offset; stats = e.value }

pub write_stats-table :
    (t : HashTable RipKey RipStats) (es : Chain RipKey RipStats) (f : File)
    → All (λ e. find t e.key ≡ some e.value) es
    → write_stats t es f ≡ some (f ++ write_table encode_node (map node_of es))
unfolding write_stats write_table
write_stats-table t [] f h = ap some (sym (append-nil f))
write_stats-table t (e ∷ es) f h =
    rw (h.0, write_stats)
      (write_stats-table t es _ h.1
        ∙ ap some (
            rw (write_counters-table e.value ((f ++ le 8 e.key.rip) ++ le 4 e.key.stack_offset))
              (simp append_assoc)))
