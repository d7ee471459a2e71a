-- ===== src/CoreMapping/Changed.antt =====
-- A table that changes at one thread, and the array after a write.
use ig_cachesim.Common.{ℕ, ◌<◌, ◌≡◌, ◌≢◌, List, get_or, set, length, get_or-set_self, get_or-set_ne}
use ig_cachesim.CoreMapping.{CoreMapping, empty_mapping, CoreMappings}
use ig_cachesim.CoreMapping.Laws.{IsMapping, Maps}

-- A table that changes at one thread only.
pub record Changed (s : CoreMappings) (t : ℕ) (r : CoreMappings) : Type 0 where
  pub valid : IsMapping r
  pub others : (q c : ℕ) → q ≢ t → Maps s q c → Maps r q c
  pub back : (q c : ℕ) → q ≢ t → Maps r q c → Maps s q c

-- The array after a write to one place.
module _ (ms : List CoreMapping) (i : ℕ) (m : CoreMapping) (h : i < length ms) where
  pub at_self : get_or (set ms i m) i empty_mapping ≡ m
  at_self = get_or-set_self ms i m empty_mapping h

  pub at_other : (j : ℕ) → i ≢ j → get_or (set ms i m) j empty_mapping ≡ get_or ms j empty_mapping
  at_other j ne = get_or-set_ne ms i j m empty_mapping ne
