-- ===== src/Loader.antt =====
-- CacheSim/CacheSim.h, `DynamicLoader`: the functions of the library, which are looked up by name when it is loaded. An address is
-- a number, 0 where it is null; what the system's loader gives is an argument.
pub mod Ready
use ig_cachesim.Common.{
  ℕ, Bool, true, false, List, [], ◌∷◌, ◌==◌, if◌then◌else◌, ◌&&◌, not, Option, none, some,
}

-- The functions of the library, by their names.
pub data Function : Type 0 where
  cache_sim_init : Function
  start_capture : Function
  end_capture : Function
  remove_handler : Function
  set_thread_core_mapping : Function
  get_current_thread_id : Function

pub record DynamicLoader : Type 0 where
  pub module_handle : ℕ
  pub init_fn : ℕ
  pub start_capture_fn : ℕ
  pub end_capture_fn : ℕ
  pub remove_handler_fn : ℕ
  pub set_thread_core_mapping_fn : ℕ
  pub get_current_thread_id_fn : ℕ

abbrev pub no_library : DynamicLoader
no_library = record {
  module_handle = 0;
  init_fn = 0;
  start_capture_fn = 0;
  end_capture_fn = 0;
  remove_handler_fn = 0;
  set_thread_core_mapping_fn = 0;
  get_current_thread_id_fn = 0;
}

-- What `Init` does besides: the messages, the unloading of a library, and the call of a function.
pub data Event : Type 0 where
  load_error : Event
  mismatch_error : Event
  unload : ℕ → Event
  call_init : ℕ → Event

-- The addresses that `IG_GetFuncAddress` gives.
unfoldable pub with_functions : (Function → ℕ) → DynamicLoader → DynamicLoader
with_functions address l = record {
  module_handle = l.module_handle;
  init_fn = address cache_sim_init;
  start_capture_fn = address start_capture;
  end_capture_fn = address end_capture;
  remove_handler_fn = address remove_handler;
  set_thread_core_mapping_fn = address set_thread_core_mapping;
  get_current_thread_id_fn = address get_current_thread_id;
}

abbrev pub is_found : ℕ → Bool
is_found address = not (address == 0)

unfoldable pub all_found : DynamicLoader → Bool
all_found l =
    is_found l.init_fn
    && (is_found l.start_capture_fn
        && (is_found l.end_capture_fn
            && (is_found l.remove_handler_fn
                && (is_found l.set_thread_core_mapping_fn && is_found l.get_current_thread_id_fn))))

-- `Init`, with the handle that `IG_LoadLib` gives.
unfoldable pub init : ℕ → (Function → ℕ) → DynamicLoader → Bool × (DynamicLoader × List Event)
init handle address l =
    let loaded : DynamicLoader = with_functions address (record l { module_handle = handle }) in
    if not (l.module_handle == 0)
    then (true, (l, []))
    else if handle == 0
    then (false, (record l { module_handle = 0 }, load_error ∷ []))
    else if all_found loaded
    then (true, (loaded, call_init loaded.init_fn ∷ []))
    else (false, (record loaded { module_handle = 0 }, mismatch_error ∷ (unload handle ∷ [])))

-- The address that a call of the loader goes to: `Start`, `End` and `Cancel`, `RemoveHandler`, `SetThreadCoreMapping`,
-- `GetCurrentThreadId`.
unfoldable pub callee : Function → DynamicLoader → ℕ
callee cache_sim_init l = l.init_fn
callee start_capture l = l.start_capture_fn
callee end_capture l = l.end_capture_fn
callee remove_handler l = l.remove_handler_fn
callee set_thread_core_mapping l = l.set_thread_core_mapping_fn
callee get_current_thread_id l = l.get_current_thread_id_fn
