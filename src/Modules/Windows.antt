-- ===== src/Modules/Windows.antt =====
-- `GetModuleList` of CacheSim/CacheSimWindows.cpp. The list is zero before the call, as `CacheSimEndCapture` leaves it. What the
-- system says of a module is a `Module`.
pub mod Filled
use ig_cachesim.Common.{
  ℕ, zero, suc, ◌+◌, Bool, true, false, Option, none, some, List, [], ◌∷◌, set, take, replicate,
  if◌then◌else◌,
}
use ig_cachesim.Capture.{ModuleInfo}
use ig_cachesim.Modules.{is_empty, max_infos}

-- A module of `EnumProcessModules`: the size of its image, if `GetModuleInformation` succeeds, and its file name, which is empty if
-- `GetModuleFileNameExA` fails.
pub record Module : Type 0 where
  pub handle : ℕ
  pub size_of_image : Option ℕ
  pub filename : List ℕ

-- `m_Infos` and `m_Count`
pub record Infos : Type 0 where
  pub infos : List ModuleInfo
  pub count : ℕ

abbrev pub no_info : ModuleInfo
no_info = record { filename = []; start_addr_in_memory = 0; segment_offset = 0; module_length = 0 }

abbrev pub info_of : Module → ℕ → ModuleInfo
info_of m size = record {
  filename = m.filename;
  start_addr_in_memory = m.handle;
  segment_offset = 0;
  module_length = size;
}

-- One round of the loop.
unfoldable pub add_module : ℕ → Module → Option ℕ → Infos → Infos
add_module i m none st = st
add_module i m (some size) st =
    if is_empty m.filename
    then st
    else record { infos = set st.infos i (info_of m size); count = suc st.count }

unfoldable pub add_modules : ℕ → List Module → Infos → Infos
add_modules i [] st = st
add_modules i (m ∷ ms) st = add_modules (suc i) ms (add_module i m m.size_of_image st)

abbrev pub zero_infos : Infos
zero_infos = record { infos = replicate max_infos no_info; count = 0 }

-- `GetModuleList`, with the result of `EnumProcessModules`.
unfoldable pub get_module_list : Bool → List Module → Infos
get_module_list enumerated ms =
    if enumerated then add_modules 0 (take max_infos ms) zero_infos else zero_infos
