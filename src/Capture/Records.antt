-- ===== src/Capture/Records.antt =====
-- The records of a capture file, read back where they were written.
use mathlib.Core.List.{append_assoc}
use ig_cachesim.Common.{
  ap₂, ℕ, ◌+◌, ◌*◌, ◌^◌, ◌<◌, ◌≡◌, All, refl, ap, sym, ◌∙◌, List, ◌++◌, arith, length,
  length-append,
}
use ig_cachesim.Capture.Bytes.{
  le, word, length-le, word-append_zero, word-le, word_at, write_table, length-write_table,
  read_table, read_table-write_table,
}
use ig_cachesim.Capture.Data.{SerializedModuleEntry, SerializedNode, module_entry_at, node_at}
use ig_cachesim.Capture.Sections.{encode_module, encode_node, FitsModule, FitsNode}

length-encode_module : (e : SerializedModuleEntry) → length (encode_module e) ≡ 24
unfolding le
length-encode_module e = refl

pub length-write_words :
    (n : ℕ) (cs : List ℕ)
    → All (λ v. v < 256 ^ n) cs
    → length (write_table (le n) cs) ≡ length cs * n
length-write_words n = length-write_table n (le n) (λ v. v < 256 ^ n) (λ v h. length-le n v)

pub length-write_modules :
    (es : List SerializedModuleEntry)
    → All FitsModule es
    → length (write_table encode_module es) ≡ length es * 24
length-write_modules =
    length-write_table 24 encode_module FitsModule (λ e h. length-encode_module e)

length-encode_node : (n : SerializedNode) → FitsNode n → length (encode_node n) ≡ 48
length-encode_node n h = omega (
  arith,
  h.width,
  length-append (le 8 n.rip) (le 4 n.stack_index ++ (write_table (le 4) n.stats ++ le 4 0)),
  length-append (le 4 n.stack_index) (write_table (le 4) n.stats ++ le 4 0),
  length-append (write_table (le 4) n.stats) (le 4 0),
  length-write_words 4 n.stats h.stats,
  length-le 8 n.rip,
  length-le 4 n.stack_index,
  length-le 4 0,
)

pub length-write_nodes :
    (ns : List SerializedNode)
    → All FitsNode ns
    → length (write_table encode_node ns) ≡ length ns * 48
length-write_nodes = length-write_table 48 encode_node FitsNode length-encode_node

module_entry_at-encode :
    (a c : List ℕ) (e : SerializedModuleEntry)
    → FitsModule e
    → module_entry_at (a ++ (encode_module e ++ c)) (length a) ≡ e
unfolding module_entry_at le
module_entry_at-encode a c e h =
    let p0 = word-append_zero 8 a (encode_module e ++ c) ∙ word-le 8 e.image_base _ h.base in
    let p1 = word_at 8 a (le 8 e.image_base) e.image_segment_offset _ h.segment in
    let p2 = word_at 4 a (le 8 e.image_base ++ le 8 e.image_segment_offset) e.size_bytes _ h.size in
    let p3 =
      word_at 4 a (le 8 e.image_base ++ (le 8 e.image_segment_offset ++ le 4 e.size_bytes))
        e.string_offset c h.string in
    λ i. record {
      image_base = p0 i;
      image_segment_offset = p1 i;
      size_bytes = p2 i;
      string_offset = p3 i;
    }

pub word_fits :
    (n : ℕ) (a c : List ℕ) (v : ℕ) → v < 256 ^ n → word n (a ++ (le n v ++ c)) (length a) ≡ v
word_fits n a c v h = word-append_zero n a (le n v ++ c) ∙ word-le n v c h

pub read_words :
    (n : ℕ) (xs : List ℕ) (a c : List ℕ)
    → All (λ v. v < 256 ^ n) xs
    → read_table n (word n) (length xs) (a ++ (write_table (le n) xs ++ c)) (length a) ≡ xs
read_words n =
    read_table-write_table n (le n) (word n) (λ v. v < 256 ^ n) (λ v h. length-le n v) (word_fits n)

pub read_modules :
    (es : List SerializedModuleEntry) (a c : List ℕ)
    → All FitsModule es
    → read_table 24 module_entry_at
        (length es)
        (a ++ (write_table encode_module es ++ c))
        (length a)
      ≡ es
read_modules =
    read_table-write_table 24 encode_module module_entry_at FitsModule
      (λ e h. length-encode_module e) module_entry_at-encode

stats_at :
    (a c : List ℕ) (n : SerializedNode)
    → FitsNode n
    → read_table 4 (word 4) 8 (a ++ (encode_node n ++ c)) (length a + 12) ≡ n.stats
stats_at a c n h =
    let b = le 8 n.rip ++ le 4 n.stack_index in
    let far : length (a ++ b) ≡ length a + 12 = omega (
      arith,
      length-append a b,
      length-append (le 8 n.rip) (le 4 n.stack_index),
      length-le 8 n.rip,
      length-le 4 n.stack_index,
    ) in
    let same : a ++ (encode_node n ++ c)
        ≡ (a ++ b) ++ (write_table (le 4) n.stats ++ (le 4 0 ++ c)) =
      simp append_assoc in
    ap₂ (λ f i. read_table 4 (word 4) 8 f i) same (sym far)
    ∙ ap
        (λ k.
          read_table 4 (word 4) k ((a ++ b) ++ (write_table (le 4) n.stats ++ (le 4 0 ++ c)))
            (length (a ++ b)))
        (sym h.width)
    ∙ read_words 4 n.stats (a ++ b) (le 4 0 ++ c) h.stats

node_at-encode :
    (a c : List ℕ) (n : SerializedNode)
    → FitsNode n
    → node_at (a ++ (encode_node n ++ c)) (length a) ≡ n
unfolding node_at le
node_at-encode a c n h =
    let p0 = word-append_zero 8 a (encode_node n ++ c) ∙ word-le 8 n.rip _ h.rip in
    let p1 = word_at 4 a (le 8 n.rip) n.stack_index _ h.stack in
    λ i. record { rip = p0 i; stack_index = p1 i; stats = stats_at a c n h i }

pub read_nodes :
    (ns : List SerializedNode) (a c : List ℕ)
    → All FitsNode ns
    → read_table 48 node_at (length ns) (a ++ (write_table encode_node ns ++ c)) (length a) ≡ ns
read_nodes =
    read_table-write_table 48 encode_node node_at FitsNode length-encode_node node_at-encode
