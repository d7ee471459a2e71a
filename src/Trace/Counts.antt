-- ===== src/Trace/Counts.antt =====
-- What the accesses of an instruction add to the counters of its key.
use native.Mathlib.Decide.{ℕ_discrete}
use mathlib.Core.Option
use ig_cachesim.Common.{
  ℕ, ◌+◌, ◌-◌, ◌/◌, ◌%◌, ◌^◌, ◌<◌, ◌≡◌, refl, ap, sym, ◌∙◌, false, Option, none, some, List, [],
  ◌∷◌, ◌++◌, arith, if◌then◌else◌, ◌==◌, length, length-set, get_or, get_or-set_self, get_or-set_ne,
}
use ig_cachesim.HashTable.{find}
use ig_cachesim.HashTable.Chain.{equal_refl}
use ig_cachesim.HashTable.Growth.{IsValid}
use ig_cachesim.HashTable.Writes.{store-Stores}
use ig_cachesim.Stacks.Keys.{RipKey, rip_key, rip_equal}
use ig_cachesim.Jaguar.{AccessResult, d1_hit, to_nat, AccessMode, JaguarCacheSim}
use ig_cachesim.Jaguar.Valid.{IsSim}
use ig_cachesim.Jaguar.Lines.{lines_of, touch_lines}
use ig_cachesim.Jaguar.Access.{access-touch_lines, touch_lines-IsSim}
use ig_cachesim.Trace.{RipStats, MemOp, Trace, bump, count_event, access_op, access_ops}

-- The counters after a sequence of events.
unfoldable pub bumps : List ℕ → RipStats → RipStats
bumps [] st = st
bumps (r ∷ rs) st = bumps rs (bump r st)

pub bumps-append : (rs ss : List ℕ) (st : RipStats) → bumps (rs ++ ss) st ≡ bumps ss (bumps rs st)
unfolding bumps
bumps-append [] ss st = refl
bumps-append (r ∷ rs) ss st = bumps-append rs ss (bump r st)

-- How often an event is in a sequence.
unfoldable pub occurrences : ℕ → List ℕ → ℕ
occurrences i [] = 0
occurrences i (r ∷ rs) = (if r == i then 1 else 0) + occurrences i rs

length-bump : (r : ℕ) (st : RipStats) → length (bump r st) ≡ length st
unfolding bump
length-bump r st = length-set st r ((get_or st r 0 + 1) % 2 ^ 32)

get_or-bump :
    (i r : ℕ) (st : RipStats)
    → i < length st
    → get_or (bump r st) i 0 % 2 ^ 32 ≡ (get_or st i 0 + (if r == i then 1 else 0)) % 2 ^ 32
unfolding bump
get_or-bump i r st h = elim (ℕ_discrete r i) [
  | yes e ↦
      let self = get_or-set_self st r ((get_or st r 0 + 1) % 2 ^ 32) 0 (omega (arith, e, h)) in
      rw (← e, self) (ground arith)
  | no n ↦
      let other = get_or-set_ne st r i ((get_or st r 0 + 1) % 2 ^ 32) 0 n in
      rw other (ground (arith, n))
]

-- After any sequence of events, each counter that the statistics have is its old value and the
-- number of its events, modulo 2^32.
pub get_or-bumps :
    (i : ℕ) (es : List ℕ) (st : RipStats)
    → i < length st
    → get_or (bumps es st) i 0 % 2 ^ 32 ≡ (get_or st i 0 + occurrences i es) % 2 ^ 32
unfolding bumps occurrences
get_or-bumps i [] st h = omega arith
get_or-bumps i (r ∷ rs) st h = omega (
  arith,
  get_or-bumps i rs (bump r st) (omega (arith, h, length-bump r st)),
  get_or-bump i r st h,
)

-- A well-formed table and well-formed caches.
pub record IsTrace (t : Trace) : Type 0 where
  pub table : IsValid t.stats
  pub sim : IsSim t.cache

-- `r` is `t` after events of the key `k`: its counters are bumped, all others are as they were. The caches are `sim`.
pub record Counts (k : RipKey) (t : Trace) (events : List ℕ) (sim : JaguarCacheSim) (r : Trace)
    : Type 0 where
  pub cache : r.cache ≡ sim
  pub valid : IsTrace r
  pub own : find r.stats k ≡ Option.map (bumps events) (find t.stats k)
  pub others : (q : RipKey) → rip_equal q k ≡ false → find r.stats q ≡ find t.stats q

map-bumps :
    (rs ss : List ℕ) (o : Option RipStats)
    → Option.map (bumps ss) (Option.map (bumps rs) o) ≡ Option.map (bumps (rs ++ ss)) o
map-bumps rs ss none = refl
map-bumps rs ss (some st) = ap some (sym (bumps-append rs ss st))

pub Counts-append :
    {k : RipKey} {t r w : Trace} {rs ss : List ℕ} {a_sim b_sim : JaguarCacheSim}
    → Counts k t rs a_sim r
    → Counts k r ss b_sim w
    → Counts k t (rs ++ ss) b_sim w
Counts-append {k} {t} {r} {w} {rs} {ss} a b = record {
  cache = b.cache;
  valid = b.valid;
  own = b.own ∙ ap (Option.map (bumps ss)) a.own ∙ map-bumps rs ss (find t.stats k);
  others = λ q n. b.others q n ∙ a.others q n;
}

pub map-bumps_none : (o : Option RipStats) → o ≡ Option.map (bumps []) o
unfolding bumps
map-bumps_none none = refl
map-bumps_none (some st) = refl

-- An event and a new state of the caches.
pub count_event-Counts :
    (k : RipKey) (t : Trace) (e : ℕ) (cache : JaguarCacheSim)
    → IsTrace t
    → IsSim cache
    → Counts k t (e ∷ []) cache (count_event k e (record t { cache = cache }))
unfolding count_event bumps
count_event-Counts k t e cache v c =
    let s = store-Stores (bump e) t.stats k v.table in
    record {
      cache = refl;
      valid = record { table = s.valid; sim = c };
      own = s.reads k ∙ rw (equal_refl k);
      others = λ q n. s.reads q ∙ rw n;
    }

-- The access lies below the last line of the address space, and has the fuel for its lines.
pub record IsInside (fuel : ℕ) (op : MemOp) : Type 0 where
  pub below : op.ea + op.sz < 2 ^ 64 - 64
  pub enough : (op.ea + op.sz) / 64 + 1 - op.ea / 64 < fuel

abbrev pub AllInside : ℕ → List MemOp → Type 0
AllInside fuel [] = Unit
AllInside fuel (op ∷ ops) = IsInside fuel op × AllInside fuel ops

-- The module and the core of a core index.
abbrev pub op_result : ℕ → AccessMode → MemOp → JaguarCacheSim → AccessResult × JaguarCacheSim
op_result core_index mode op sim =
    touch_lines sim (core_index / 4 % 2) (core_index % 4) mode (lines_of op.ea op.sz) d1_hit

pub op_result-IsSim :
    (core_index : ℕ) (mode : AccessMode) (op : MemOp) {sim : JaguarCacheSim}
    → IsSim sim
    → IsSim (op_result core_index mode op sim).1
op_result-IsSim core_index mode op v =
    touch_lines-IsSim (core_index / 4 % 2) (core_index % 4) mode (lines_of op.ea op.sz) d1_hit v
      (omega arith) (omega arith)

-- The results of accesses one after another, and the caches after them.
unfoldable pub op_results : ℕ → AccessMode → List MemOp → JaguarCacheSim → List ℕ × JaguarCacheSim
op_results core_index mode [] sim = ([], sim)
op_results core_index mode (op ∷ ops) sim =
    let (r, sim') = op_result core_index mode op sim in
    let (rs, last) = op_results core_index mode ops sim' in (to_nat r ∷ rs, last)

module _ (fuel : ℕ) (k : RipKey) (core_index : ℕ) (mode : AccessMode) where
  -- The trace after one access.
  abbrev pub accessed : MemOp → Trace → Trace
  accessed op t =
      let q = op_result core_index mode op t.cache in
      count_event k (to_nat q.0) (record t { cache = q.1 })

  pub access_op_lem :
      (op : MemOp) (t : Trace)
      → IsInside fuel op
      → access_op fuel k core_index mode op t ≡ some (accessed op t)
  unfolding access_op
  access_op_lem op t h =
      let eq = access-touch_lines fuel core_index op.ea op.sz t.cache mode h.below h.enough in
      rw (eq, access_op)

  pub accessed-Counts :
      (op : MemOp) (t : Trace)
      → IsTrace t
      → let q = op_result core_index mode op t.cache in
        Counts k t (to_nat q.0 ∷ []) q.1 (accessed op t)
  accessed-Counts op t v =
      let q = op_result core_index mode op t.cache in
      count_event-Counts k t (to_nat q.0) q.1 v (op_result-IsSim core_index mode op v.sim)

  pub access_ops-Counts :
      (ops : List MemOp) (t : Trace)
      → IsTrace t
      → AllInside fuel ops
      → (r : Trace) × (access_ops fuel k core_index mode ops t ≡ some r)
        × (let q = op_results core_index mode ops t.cache in Counts k t q.0 q.1 r)
  unfolding access_ops bumps op_results count_event
  access_ops-Counts [] t v h = (
    t,
    refl,
    record { cache = refl; valid = v; own = map-bumps_none (find t.stats k); others = λ q n. refl },
  )
  access_ops-Counts (op ∷ ops) t v h =
      let c = accessed-Counts op t v in
      let (w, eqs, cs) = access_ops-Counts ops (accessed op t) c.valid h.1 in
      (w, rw (access_op_lem op t h.0, access_ops) eqs, Counts-append c cs)
