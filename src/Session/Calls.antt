-- ===== src/Session/Calls.antt =====
-- Any sequence of calls, from a state that is well formed.
use ig_cachesim.Common.{
  ℕ, suc, ◌≡◌, refl, Bool, true, false, Option, some, List, ◌++◌, arith, map, ◌%◌, ◌^◌,
}
use ig_cachesim.HashTable.{HashTable, reset, free_all}
use ig_cachesim.HashTable.Growth.{IsValid}
use ig_cachesim.HashTable.Keys.{elements-Lists}
use ig_cachesim.HashTable.Listed.{Lists-found}
use ig_cachesim.Stacks.{StackData, no_stacks}
use ig_cachesim.Stacks.Keys.{StackKey, RipKey, rip_key}
use ig_cachesim.Trace.{RipStats}
use ig_cachesim.Capture.{
  ModuleInfo, File, Capture, write_header, write_module_section, write_frame_section,
  write_stats_section, write_file, release, end_capture, align, ftell, update,
}
use ig_cachesim.Capture.Bytes.{write_table}
use ig_cachesim.Capture.Sections.{encode_node, node_of, write_stats-table}
use ig_cachesim.Handler.Traced.{IsTracer}
use ig_cachesim.Session.{Session, Call, start}

-- The file is written, whatever the modules and the frames are.
write_file-some :
    (infos : List ModuleInfo) (d : StackData) (t : HashTable RipKey RipStats)
    → IsValid t
    → (f : File) × (write_file (suc t.count) infos d t ≡ some f)
unfolding write_file write_stats_section
write_file-some infos d t v =
    let (es, e, l) = elements-Lists (suc t.count) t v (omega arith) in
    let g = write_frame_section d (write_module_section infos write_header) in
    let f1 = align g in
    let f2 = update 32 (t.count % 2 ^ 32) (update 28 (ftell f1) f1) in
    (
      f2 ++ write_table encode_node (map node_of es),
      rw (e, write_stats_section) (write_stats-table t es f2 (Lists-found t es l)),
    )

-- What the end of a capture leaves.
pub record Ends (save : Bool) (c r : Capture) : Type 0 where
  pub stopped : r.trace.trace_enabled ≡ 0
  pub same_cache : r.trace.cache ≡ c.trace.cache
  pub emptied : save ≡ true → (r.trace.stats ≡ reset) × (r.store ≡ no_stacks)
  pub kept : save ≡ false → (r.trace.stats ≡ c.trace.stats) × (r.store ≡ c.store)

-- `g_TraceEnabled = 0`
abbrev stop : Capture → Capture
stop c = record c {
  trace = record { stats = c.trace.stats; cache = c.trace.cache; trace_enabled = 0 };
}

-- `CacheSimEndCapture` on a well-formed table of keys, with a round more than its count, returns,
-- whether or not it saves, the file is opened, or modules are listed. The trace is off and the
-- caches are as they were. Both tables and the frames are empty if it saves, and as they were if it
-- does not.
pub end_capture-Ends :
    (save opened : Bool) (listed : List ModuleInfo) (c : Capture)
    → IsValid c.trace.stats
    → (r : Option File × Capture) × (end_capture (suc c.trace.stats.count) save opened listed c
        ≡ some r)
      × Ends save c r.1
unfolding end_capture release free_all reset
end_capture-Ends false opened listed c v = (
  _,
  refl,
  record {
    stopped = refl;
    same_cache = refl;
    emptied = λ e. absurd (ground (arith, e));
    kept = λ e. (refl, refl);
  },
)
end_capture-Ends true true listed c v =
    let (f, e) = write_file-some listed c.store.stack_data c.trace.stats v in
    (
      (some f, release (stop c)),
      rw e,
      record {
        stopped = refl;
        same_cache = refl;
        emptied = λ p. (refl, refl);
        kept = λ p. absurd (ground (arith, p));
      },
    )
end_capture-Ends true false listed c v = (
  _,
  refl,
  record {
    stopped = refl;
    same_cache = refl;
    emptied = λ p. (refl, refl);
    kept = λ p. absurd (ground (arith, p));
  },
)

-- Both tables and the caches are well formed.
pub record IsSession (md5 : List ℕ → StackKey) (s : Session) : Type 0 where
  pub tracer : IsTracer md5 s.tracer

-- Whether the call, if it forks a child, is given the child's end.
unfoldable pub waits_return : Call → Bool
waits_return (start b) = b
waits_return _ = true
