-- ===== src/Loader/Ready.antt =====
-- `DynamicLoader` of CacheSim/CacheSim.h after any calls of `Init`.
use mathlib.Core.Path.{subst}
use ig_cachesim.Common.{
  ℕ, ◌≡◌, ◌<◌, refl, ap, sym, ◌∙◌, Bool, true, false, Bool-cases, inl, inr, List, [], ◌∷◌, ◌==◌,
  not, arith,
}
use ig_cachesim.Loader.{
  Function, cache_sim_init, start_capture, end_capture, remove_handler, set_thread_core_mapping,
  get_current_thread_id, DynamicLoader, no_library, Event, load_error, mismatch_error, unload,
  call_init, with_functions, all_found, init, callee,
}

-- With a library, every function has an address.
pub IsLoader : DynamicLoader → Type 0
IsLoader l = (l.module_handle == 0) ≡ false → (e : Function) → 0 < callee e l

all_found-callee : (l : DynamicLoader) → all_found l ≡ true → (e : Function) → 0 < callee e l
unfolding all_found callee
all_found-callee l h cache_sim_init = ground (arith, h)
all_found-callee l h start_capture = ground (arith, h)
all_found-callee l h end_capture = ground (arith, h)
all_found-callee l h remove_handler = ground (arith, h)
all_found-callee l h set_thread_core_mapping = ground (arith, h)
all_found-callee l h get_current_thread_id = ground (arith, h)

flipped : (b : Bool) → not b ≡ true → b ≡ false
flipped true e = cc
flipped false e = refl

-- One call of `Init`: its result says whether there is a library.
pub record Loads (o : Bool × (DynamicLoader × List Event)) : Type 0 where
  pub valid : IsLoader o.1.0
  pub result : o.0 ≡ not (o.1.0.module_handle == 0)

module _ (handle : ℕ) (address : Function → ℕ) (l : DynamicLoader) where
  loaded : DynamicLoader
  loaded = with_functions address (record l { module_handle = handle })

  new_library :
      (l.module_handle == 0) ≡ true → (handle == 0) ≡ false → Loads (init handle address l)
  unfolding init IsLoader with_functions loaded
  new_library e h = elim (Bool-cases (all_found loaded)) [
    | inl a ↦
        let t : init handle address l ≡ (true, (loaded, call_init loaded.init_fn ∷ [])) =
          rw (e, h, a, init) in
        subst Loads (sym t)
          (record { valid = λ k. all_found-callee loaded a; result = ap not (sym h) })
    | inr a ↦
        let t : init handle address l ≡ (
          false,
          (record loaded { module_handle = 0 }, mismatch_error ∷ (unload handle ∷ [])),
        ) =
          rw (e, h, a, init) in
        subst Loads (sym t) (record { valid = λ k. cc; result = refl })
  ]

  init-Loads : IsLoader l → Loads (init handle address l)
  unfolding init IsLoader
  init-Loads v = elim (Bool-cases (l.module_handle == 0)) [
    | inr e ↦
        let t : init handle address l ≡ (true, (l, [])) = rw (e, init) in
        subst Loads (sym t) (record { valid = v; result = ap not (sym e) })
    | inl e ↦ elim (Bool-cases (handle == 0)) [
      | inl h ↦
          let t : init handle address l
              ≡ (false, (record l { module_handle = 0 }, load_error ∷ [])) =
            rw (e, h, init) in
          subst Loads (sym t) (record { valid = λ k. cc; result = refl })
      | inr h ↦ new_library e h
    ]
  ]

-- Calls of `Init` one after the other, with what the system's loader gives each time.
unfoldable pub inits : List (ℕ × (Function → ℕ)) → DynamicLoader → DynamicLoader
inits [] l = l
inits (x ∷ xs) l = inits xs (init x.0 x.1 l).1.0

inits-IsLoader :
    (xs : List (ℕ × (Function → ℕ))) (l : DynamicLoader) → IsLoader l → IsLoader (inits xs l)
unfolding inits
inits-IsLoader [] l v = v
inits-IsLoader (x ∷ xs) l v = inits-IsLoader xs (init x.0 x.1 l).1.0 (init-Loads x.0 x.1 l v).valid

-- `Init` after any other calls of it returns true exactly if there is then a library; and if it does, every function of the
-- loader goes to an address that is not null.
pub inits-ready :
    (xs : List (ℕ × (Function → ℕ))) (handle : ℕ) (address : Function → ℕ)
    → ((init handle address (inits xs no_library)).0
        ≡ not ((init handle address (inits xs no_library)).1.0.module_handle == 0))
      × ((init handle address (inits xs no_library)).0 ≡ true
          → (e : Function) → 0 < callee e (init handle address (inits xs no_library)).1.0)
unfolding IsLoader
inits-ready xs handle address =
    let h =
      init-Loads handle address (inits xs no_library) (inits-IsLoader xs no_library (λ k. cc)) in
    (h.result, λ t e. h.valid (flipped _ (sym h.result ∙ t)) e)
