-- ===== src/Modules.antt =====
-- The list of modules: `RecordModule` and `GetModuleList` of CacheSim/CacheSimLinux.cpp. The objects that
-- `dl_iterate_phdr` visits are a list. A name that `strcpy` would write past the 512 bytes of `m_Filename` gives `none`.
pub mod Listing
pub mod Windows
use ig_cachesim.Common.{
  ℕ, zero, suc, ◌+◌, ◌*◌, ◌^◌, Bool, true, false, ◌&&◌, not, Option, none, some, List, [], ◌∷◌,
  ◌++◌, ◌==◌, ltb, if◌then◌else◌, length,
}
use ig_cachesim.Capture.{ModuleInfo, ModuleList}

-- `ElfW(Phdr)`, with the tests of `PF_X` and `PT_LOAD`.
pub record Segment : Type 0 where
  pub executable : Bool
  pub load : Bool
  pub vaddr : ℕ
  pub memsz : ℕ

-- `dl_phdr_info`; a name that is null is empty.
pub record Object : Type 0 where
  pub addr : ℕ
  pub name : List ℕ
  pub segments : List Segment

abbrev pub max_infos : ℕ
max_infos = 1024

abbrev pub is_empty : List ℕ → Bool
is_empty [] = true
is_empty (c ∷ cs) = false

-- The size of `m_Filename`, for the name and the 0 that ends it.
abbrev pub filename_size : ℕ
filename_size = 512

-- `module` with its `strcpy`, which is undefined where the name does not fit.
unfoldable pub add_info : ModuleInfo → ModuleList → Option ModuleList
add_info info ml =
    if ltb (length info.filename) filename_size
    then some (record { infos = ml.infos ++ (info ∷ []); module_callbacks = ml.module_callbacks })
    else none

-- `executable_filepath`, and the address of the vdso.
module _ (executable_filepath : List ℕ) (vdso : ℕ) where
  -- `ModuleInfo& module` with a name.
  abbrev pub info_of : Object → Segment → List ℕ → ModuleInfo
  info_of o s name = record {
    filename = name;
    start_addr_in_memory = o.addr;
    segment_offset = s.vaddr;
    module_length = s.memsz;
  }

  -- The loop over the segments, after the callback is counted.
  unfoldable pub record_segments : Object → List Segment → ModuleList → Option ModuleList
  record_segments o [] ml = some ml
  record_segments o (s ∷ ss) ml =
      let rest = record_segments o ss ml in
      if s.executable && s.load
      then if o.addr == vdso
        then rest
        else if is_empty o.name && ml.module_callbacks == 1
        then add_info (info_of o s executable_filepath) ml
        else if not (is_empty o.name)
        then add_info (info_of o s o.name) ml
        else rest
      else rest

  -- `RecordModule`: whether it returns 0, and the list.
  unfoldable pub record_module : Object → ModuleList → Option (Bool × ModuleList)
  record_module o ml =
      let counted : ModuleList = record {
        infos = ml.infos;
        module_callbacks = ml.module_callbacks + 1;
      } in
      if length ml.infos == max_infos
      then some (false, counted)
      else elim (record_segments o o.segments counted) [ none ↦ none | some r ↦ some (true, r) ]

  -- `dl_iterate_phdr(RecordModule, moduleList)`, which stops when the callback does not return 0.
  unfoldable pub get_module_list : List Object → ModuleList → Option ModuleList
  get_module_list [] ml = some ml
  get_module_list (o ∷ os) ml = elim (record_module o ml) [
    | none ↦ none
    | some r ↦ let rest = get_module_list os r.1 in if r.0 then rest else some r.1
  ]
