-- ===== src/HashTable.antt =====
-- `GenericHashTable<KeyType, ValueType>` of CacheSim/GenericHashTable.h: a chained hash table of a
-- power-of-two capacity that doubles when it is three quarters full. The elements that a chain links by
-- `m_Next` are a list; a pointer to a value that `Find` or `Insert` returns is the key that it belongs
-- to, and a write through it is `store`. The memory of the elements is not modelled.
pub mod Chain
pub mod Buckets
pub mod Rehash
pub mod Growth
pub mod Laws
pub mod Writes
pub mod Dropping
pub mod Removal
pub mod Iteration
pub mod Keys
pub mod Listed
pub mod Allocator
use mathlib.Core.Option
use ig_cachesim.Common.{
  ℕ, zero, suc, ◌+◌, ◌-◌, ◌*◌, ◌%◌, ◌^◌, ◌<◌, ◌≡◌, ◌↔◌, Bool, true, false, ◌&&◌, Option, none, some,
  List, [], ◌∷◌, ◌==◌, leb, if◌then◌else◌, get_or, set, replicate, bit_and,
}

-- What the table asks of a key: `operator==` and `HashTypeOverload`, which gives a `uint32_t`.
pub record Key {ℓ} (K : Type ℓ) : Type ℓ where
  pub equal : K → K → Bool
  pub equal_iff : (a b : K) → (equal a b ≡ true) ↔ (a ≡ b)
  pub hash : K → ℕ
  pub hash-lt : (a : K) → hash a < 2 ^ 32

pub record Elem {ℓ} (K V : Type ℓ) : Type ℓ where
  pub hash : ℕ
  pub key : K
  pub value : V

abbrev pub Chain {ℓ} : Type ℓ → Type ℓ → Type ℓ
Chain K V = List (Elem K V)

-- `m_Table` is null until the first `Grow`.
pub record HashTable {ℓ} (K V : Type ℓ) : Type ℓ where
  pub capacity : ℕ
  pub count : ℕ
  pub table : Option (List (Chain K V))

-- `hash & (m_Capacity - 1)`, a `uint32_t`; the subtraction of a `size_t` wraps.
unfoldable pub bucket_index : ℕ → ℕ → ℕ
bucket_index capacity hash = bit_and hash ((capacity + 2 ^ 64 - 1) % 2 ^ 64) % 2 ^ 32

module _ {ℓ} {K V : Type ℓ} where
  -- `Reset`
  unfoldable pub reset : HashTable K V
  reset = record { capacity = 0; count = 0; table = none }

  -- `FreeAll`, for values that have nothing to destroy.
  unfoldable pub free_all : HashTable K V → HashTable K V
  free_all t = record t { count = 0; capacity = 0; table = none }

  abbrev pub buckets : Option (List (Chain K V)) → List (Chain K V)
  buckets none = []
  buckets (some bs) = bs

  -- The inner loop of `Grow`: each element is put in front of its new chain.
  unfoldable pub move_chain : ℕ → Chain K V → List (Chain K V) → List (Chain K V)
  move_chain capacity [] new = new
  move_chain capacity (e ∷ es) new =
      let index = bucket_index capacity e.hash in
      move_chain capacity es (set new index (e ∷ get_or new index []))

  -- `for (size_t i = 0; i < old_capacity; ++i)`, with the rounds left.
  unfoldable pub rehash : ℕ → ℕ → ℕ → List (Chain K V) → List (Chain K V) → List (Chain K V)
  rehash zero i capacity old new = new
  rehash (suc n) i capacity old new =
      rehash n (suc i) capacity old (move_chain capacity (get_or old i []) new)

  unfoldable pub grow : HashTable K V → HashTable K V
  grow t =
      let new_capacity = if t.capacity == 0 then 64 else t.capacity * 2 % 2 ^ 64 in
      record t {
        capacity = new_capacity;
        table =
            some (rehash t.capacity 0 new_capacity (buckets t.table) (replicate new_capacity []));
      }

module _ {ℓ} {K V : Type ℓ} ⦃key : Key K⦄ where
  -- The walk along a chain.
  unfoldable pub find_chain : ℕ → K → Chain K V → Option V
  find_chain hash k [] = none
  find_chain hash k (e ∷ es) =
      if hash == e.hash && key.equal k e.key then some e.value else find_chain hash k es

  unfoldable pub find_internal : HashTable K V → ℕ → K → Option V
  find_internal t hash k = elim t.table [
    | none ↦ none
    | some bs ↦ find_chain hash k (get_or bs (bucket_index t.capacity hash) [])
  ]

  unfoldable pub find : HashTable K V → K → Option V
  find t k = find_internal t (key.hash k) k

  -- The end of `Insert`: count, and put a new element in front of its chain.
  unfoldable pub link : V → HashTable K V → K → HashTable K V
  link fresh t k =
      let index = bucket_index t.capacity (key.hash k) in
      let bs = buckets t.table in
      let e : Elem K V = record { hash = key.hash k; key = k; value = fresh } in
      record t {
        count = (t.count + 1) % 2 ^ 64;
        table = some (set bs index (e ∷ get_or bs index []));
      }

  -- `Insert`: the new value is `fresh`, what the value's constructor makes.
  unfoldable pub insert : V → HashTable K V → K → HashTable K V
  insert fresh t k = elim (find_internal t (key.hash k) k) [
    | some existing ↦ t
    | none ↦
        link fresh (if leb (t.capacity * 3 % 2 ^ 64) (t.count * 4 % 2 ^ 64) then grow t else t) k
  ]

  unfoldable pub store_chain : (V → V) → K → Chain K V → Chain K V
  store_chain f k [] = []
  store_chain f k (e ∷ es) =
      if key.equal k e.key then record e { value = f e.value } ∷ es else e ∷ store_chain f k es

  -- A write through the pointer to the value of `k`.
  unfoldable pub store : (V → V) → HashTable K V → K → HashTable K V
  store f t k =
      let index = bucket_index t.capacity (key.hash k) in
      let write : List (Chain K V) → List (Chain K V) =
        λ bs. set bs index (store_chain f k (get_or bs index [])) in
      record t { table = Option.map write t.table }

  -- The search of `Remove`, which follows `m_Next` without a test: `none` is a null pointer that is read.
  unfoldable pub remove_chain : ℕ → K → Chain K V → Option (Chain K V)
  remove_chain hash k [] = none
  remove_chain hash k (e ∷ es) =
      if e.hash == hash && key.equal e.key k
      then some es
      else Option.map (λ (c : Chain K V). e ∷ c) (remove_chain hash k es)

  -- `Remove`; what it returns is `true` whenever it returns. A table that has not grown is read through the null pointer
  -- `m_Table`.
  unfoldable pub remove : HashTable K V → K → Option (Bool × HashTable K V)
  remove t k = elim t.table [
    | none ↦ none
    | some bs ↦
        let index = bucket_index t.capacity (key.hash k) in
        Option.map (λ c. (true, record t { table = some (set bs index c) }))
          (remove_chain (key.hash k) k (get_or bs index []))
  ]
