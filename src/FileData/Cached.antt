-- ===== src/FileData/Cached.antt =====
-- The caches of `internedSymbolString` in UI/TraceData.cpp.
use mathlib.Core.Option.{some-injective}
use ig_cachesim.Common.{
  ℕ, ◌≡◌, refl, ap, sym, ◌∙◌, All, Bool-cases, Option-cases, inl, inr, some, List, [], ◌∷◌, ◌==◌,
  arith,
}
use ig_cachesim.Capture.{File}
use ig_cachesim.TraceData.{Text, symbol_string}
use ig_cachesim.FileData.{Caches, find_offset, interned_symbol_string, set_file_name}

-- Every entry of both caches is a string of the file at its offset.
pub record AreCached (f : File) (c : Caches) : Type 0 where
  pub strings : All (λ e. e.1 ≡ symbol_string f e.0) c.symbol_string_cache
  pub index : All (λ e. e.0 ≡ symbol_string f e.1) c.string_to_symbol_name_index

find_offset-cached :
    (f : File) (es : List (ℕ × Text)) (offset : ℕ) (s : Text)
    → All (λ e. e.1 ≡ symbol_string f e.0) es
    → find_offset es offset ≡ some s
    → s ≡ symbol_string f offset
unfolding find_offset
find_offset-cached f [] offset s h e = cc
find_offset-cached f (x ∷ es) offset s h e = elim (Bool-cases (x.0 == offset)) [
  | inl k ↦
      let same : x.0 ≡ offset = ground (arith, k) in
      let found : some x.1 ≡ some s = rw k at e in
      sym (some-injective x.1 s found) ∙ h.0 ∙ ap (symbol_string f) same
  | inr k ↦ find_offset-cached f es offset s h.1 (rw k at e)
]

pub record Reads (f : File) (offset : ℕ) (o : Text × Caches) : Type 0 where
  pub text : o.0 ≡ symbol_string f offset
  pub cached : AreCached f o.1

-- Where the caches hold strings of the file, `internedSymbolString` gives the string of the file,
-- from the cache or not, and the caches again hold strings of the file.
pub interned_symbol_string-Reads :
    (f : File) (offset : ℕ) (c : Caches)
    → AreCached f c
    → Reads f offset (interned_symbol_string f offset c)
unfolding interned_symbol_string
interned_symbol_string-Reads f offset c v =
    elim (Option-cases (find_offset c.symbol_string_cache offset)) [
      | inl e ↦
          rw (e, interned_symbol_string)
            (record {
              text = refl;
              cached = record { strings = (refl, v.strings); index = (refl, v.index) };
            })
      | inr (s, e) ↦
          rw (e, interned_symbol_string)
            (record {
              text = find_offset-cached f c.symbol_string_cache offset s v.strings e;
              cached = v;
            })
    ]

pub set_file_name-AreCached :
    (f : File) (offset : ℕ) (s : Text) (c : Caches)
    → AreCached f c
    → AreCached f (set_file_name f offset s c).1
unfolding set_file_name
set_file_name-AreCached f offset [] c v = (interned_symbol_string-Reads f offset c v).cached
set_file_name-AreCached f offset (x ∷ xs) c v = v
