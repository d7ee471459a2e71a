-- ===== src/ObjectStack.antt =====
-- UI/ObjectStack.h and UI/ObjectStack.cpp: the memory of the nodes of a call tree. A page is known by its number, from 1 in the
-- order of `allocPage`, and an address by its page and its offset in `m_Data`; the pages and the finalizers are chains, the
-- last one first. A `size_t` has 64 bits.
pub mod Pages
pub mod Objects
use ig_cachesim.Common.{
  ℕ, zero, suc, ◌+◌, ◌-◌, ◌*◌, ◌/◌, ◌%◌, ◌^◌, max, Bool, true, false, List, [], ◌∷◌, ◌++◌, ltb,
  if◌then◌else◌, length,
}

pub record Page : Type 0 where
  pub size : ℕ
  pub allocated : ℕ

pub record Address : Type 0 where
  pub page : ℕ
  pub offset : ℕ

-- A finalizer, with the address of its `m_Object`; `destructor` is the address of a function.
pub record Finalizer : Type 0 where
  pub destructor : ℕ
  pub elem_size : ℕ
  pub elem_count : ℕ
  pub object : Address

pub record ObjectStack : Type 0 where
  pub finalizer_chain : List Finalizer
  pub pages : List Page

abbrev pub no_objects : ObjectStack
no_objects = record { finalizer_chain = []; pages = [] }

unfoldable pub avail : Page → ℕ
avail p = (p.size + 2 ^ 64 - p.allocated) % 2 ^ 64

-- `allocPage`; the header of a page has 24 bytes.
unfoldable pub alloc_page : ℕ → Page
alloc_page min_size = record { size = max ((24 + min_size) % 2 ^ 64) (1024 * 1024); allocated = 0 }

-- The pages once the current one has room.
unfoldable pub with_room : ℕ → List Page → List Page
with_room byte_count [] = alloc_page byte_count ∷ []
with_room byte_count (p ∷ ps) =
    if ltb (avail p) byte_count then alloc_page byte_count ∷ (p ∷ ps) else p ∷ ps

-- The current page, after the bytes are taken, and the offset before.
unfoldable pub take_bytes : ℕ → List Page → List Page
take_bytes byte_count [] = []
take_bytes byte_count (p ∷ ps) =
    record {
      size = p.size;
      allocated = (p.allocated + (byte_count + 15) % 2 ^ 64 / 16 * 16) % 2 ^ 64;
    }
    ∷ ps

unfoldable pub allocated_in : List Page → ℕ
allocated_in [] = 0
allocated_in (p ∷ ps) = p.allocated

-- `allocRaw`
unfoldable pub alloc_raw : ℕ → ObjectStack → Address × ObjectStack
alloc_raw byte_count st =
    let pages = with_room byte_count st.pages in
    (
      record { page = length pages; offset = allocated_in pages },
      record st { pages = take_bytes byte_count pages },
    )

-- `allocFinalized`; a finalizer has 32 bytes before its object.
unfoldable pub alloc_finalized : ℕ → ℕ → ℕ → ObjectStack → Address × ObjectStack
alloc_finalized byte_count elem_count dtor st =
    let (f, st1) = alloc_raw ((byte_count + 32) % 2 ^ 64) st in
    let object : Address = record { page = f.page; offset = f.offset + 32 } in
    let finalizer : Finalizer = record {
      destructor = dtor;
      elem_size = byte_count;
      elem_count = elem_count;
      object = object;
    } in
    (object, record st1 { finalizer_chain = finalizer ∷ st1.finalizer_chain })

-- `reset`: the calls of destructors, the elements of an object from the last to the first.
unfoldable pub destroy : Finalizer → ℕ → List (ℕ × Address)
destroy f zero = []
destroy f (suc count) =
    (f.destructor, record { page = f.object.page; offset = f.object.offset + f.elem_size * count })
    ∷ destroy f count

unfoldable pub destroy_chain : List Finalizer → List (ℕ × Address)
destroy_chain [] = []
destroy_chain (f ∷ fs) = destroy f f.elem_count ++ destroy_chain fs

unfoldable pub reset : ObjectStack → List (ℕ × Address) × ObjectStack
reset st = (destroy_chain st.finalizer_chain, no_objects)
