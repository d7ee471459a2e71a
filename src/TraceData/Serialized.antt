-- ===== src/TraceData/Serialized.antt =====
-- The symbols of a capture file, one for each symbol that was resolved.
use mathlib.Core.List.{append-nil}
use ig_cachesim.Common.{
  true, false, ℕ, suc, ◌+◌, ◌^◌, ◌≤◌, ◌<◌, ◌≡◌, ◌≢◌, refl, ap, sym, ◌∙◌, All, Option, none, some,
  List, [], ◌∷◌, ◌==◌, if◌then◌else◌, Bool-cases, inl, inr, length, arith,
}
use ig_cachesim.Capture.Data.{SerializedSymbol}
use ig_cachesim.Capture.Data.Symbols.{search}
use ig_cachesim.TraceData.{
  ResolvedSymbol, Strings, intern_qstring, serialize_symbol, serialize_symbols,
}
use ig_cachesim.TraceData.Interned.{
  Holds, Holds-Extends, IsInterned, Extends, Extends-trans, intern_qstring-Interns,
}
use ig_cachesim.TraceData.Sorted.{AreDistinct}

-- `s` is the serialized form of `r`, by strings that are held.
pub record Serves (units : List ℕ) (r : ResolvedSymbol) (s : SerializedSymbol) : Type 0 where
  pub rip : s.rip ≡ r.rip
  pub symbol_name : Holds units r.symbol_name s.symbol_name
  pub file_name : Holds units r.file_name s.file_name
  pub line_number : s.line_number ≡ r.line_number
  pub module_index : s.module_index ≡ r.module_index
  pub displacement : s.displacement ≡ r.displacement

Serves-Extends :
    (st t : Strings) (r : ResolvedSymbol) (s : SerializedSymbol)
    → Extends st t
    → Serves st.string_data r s
    → Serves t.string_data r s
Serves-Extends st t r s e h = record {
  rip = h.rip;
  symbol_name = Holds-Extends st t r.symbol_name s.symbol_name e h.symbol_name;
  file_name = Holds-Extends st t r.file_name s.file_name e h.file_name;
  line_number = h.line_number;
  module_index = h.module_index;
  displacement = h.displacement;
}

abbrev pub AllServe : List ℕ → List ResolvedSymbol → List SerializedSymbol → Type 0
AllServe units [] [] = Unit
AllServe units [] (s ∷ ss) = 1 ≤ 0
AllServe units (r ∷ rs) [] = 1 ≤ 0
AllServe units (r ∷ rs) (s ∷ ss) = Serves units r s × AllServe units rs ss

-- The code units that the strings of the symbols take at most, with their ends.
unfoldable pub text_size : List ResolvedSymbol → ℕ
text_size [] = 0
text_size (r ∷ rs) = (length r.symbol_name + 1) + (length r.file_name + 1) + text_size rs

record Serializes (r : ResolvedSymbol) (st : Strings) (o : SerializedSymbol × Strings)
    : Type 0 where
  valid : IsInterned o.1
  serves : Serves o.1.string_data r o.0
  extends : Extends st o.1
  bound :
      length o.1.string_data
      ≤ length st.string_data + ((length r.symbol_name + 1) + (length r.file_name + 1))

serialize_symbol-Serializes :
    (r : ResolvedSymbol) (st : Strings)
    → IsInterned st
    → length st.string_data + ((length r.symbol_name + 1) + (length r.file_name + 1)) < 2 ^ 32
    → Serializes r st (serialize_symbol r st)
unfolding serialize_symbol
serialize_symbol-Serializes r st v small =
    let i = intern_qstring-Interns r.symbol_name st v (omega (arith, small)) in
    let st1 = (intern_qstring r.symbol_name st).1 in
    let j = intern_qstring-Interns r.file_name st1 i.valid (omega (arith, small, i.bound)) in
    let st2 = (intern_qstring r.file_name st1).1 in
    record {
      valid = j.valid;
      serves = record {
        rip = refl;
        symbol_name =
            Holds-Extends st1 st2 r.symbol_name (intern_qstring r.symbol_name st).0 j.extends
              i.held;
        file_name = j.held;
        line_number = refl;
        module_index = refl;
        displacement = refl;
      };
      extends = Extends-trans st st1 st2 i.extends j.extends;
      bound = omega (arith, i.bound, j.bound);
    }

pub record SerializesAll (rs : List ResolvedSymbol) (st : Strings)
    (o : List SerializedSymbol × Strings) : Type 0 where
  pub serves : AllServe o.1.string_data rs o.0
  pub extends : Extends st o.1
  pub bound : length o.1.string_data ≤ length st.string_data + text_size rs
  pub count : length o.0 ≡ length rs

pub serialize_symbols-SerializesAll :
    (rs : List ResolvedSymbol) (st : Strings)
    → IsInterned st
    → length st.string_data + text_size rs < 2 ^ 32
    → SerializesAll rs st (serialize_symbols rs st)
unfolding serialize_symbols text_size
serialize_symbols-SerializesAll [] st v small = record {
  serves = tt;
  extends = record { more = []; extended = sym (append-nil st.string_data) };
  bound = omega arith;
  count = refl;
}
serialize_symbols-SerializesAll (r ∷ rs) st v small =
    let i = serialize_symbol-Serializes r st v (omega (arith, small)) in
    let st1 = (serialize_symbol r st).1 in
    let j = serialize_symbols-SerializesAll rs st1 i.valid (omega (arith, small, i.bound)) in
    let st2 = (serialize_symbols rs st1).1 in
    record {
      serves = (Serves-Extends st1 st2 r (serialize_symbol r st).0 j.extends i.serves, j.serves);
      extends = Extends-trans st st1 st2 i.extends j.extends;
      bound = omega (arith, i.bound, j.bound);
      count = ap suc j.count;
    }

-- The first symbol that was resolved for an address.
unfoldable pub resolved_at : List ResolvedSymbol → ℕ → Option ResolvedSymbol
resolved_at [] rip = none
resolved_at (r ∷ rs) rip = if r.rip == rip then some r else resolved_at rs rip

-- What a search among the symbols finds is the form of what was resolved.
abbrev pub FoundServes : List ℕ → Option ResolvedSymbol → Option SerializedSymbol → Type 0
FoundServes units none none = Unit
FoundServes units none (some s) = 1 ≤ 0
FoundServes units (some r) none = 1 ≤ 0
FoundServes units (some r) (some s) = Serves units r s

pub search-FoundServes :
    (units : List ℕ) (rs : List ResolvedSymbol) (ss : List SerializedSymbol) (rip : ℕ)
    → AllServe units rs ss
    → FoundServes units (resolved_at rs rip) (search ss rip)
unfolding resolved_at search
search-FoundServes units [] [] rip h = tt
search-FoundServes units [] (s ∷ ss) rip h = absurd (omega (arith, h))
search-FoundServes units (r ∷ rs) [] rip h = absurd (omega (arith, h))
search-FoundServes units (r ∷ rs) (s ∷ ss) rip h = elim (Bool-cases (r.rip == rip)) [
  | inl e ↦ let e' : (s.rip == rip) ≡ true = ground (arith, e, h.0.rip) in rw (e, e') h.0
  | inr e ↦
      let e' : (s.rip == rip) ≡ false = ground (arith, e, h.0.rip) in
      rw (e, e') (search-FoundServes units rs ss rip h.1)
]

-- Addresses that are resolved once are serialized once.
abbrev pub ResolvedOnce : List ResolvedSymbol → Type 0
ResolvedOnce [] = Unit
ResolvedOnce (r ∷ rs) = All (λ q. r.rip ≢ q.rip) rs × ResolvedOnce rs

All-AllServe :
    (units : List ℕ) (a b : ℕ) (rs : List ResolvedSymbol) (ss : List SerializedSymbol)
    → AllServe units rs ss
    → a ≡ b
    → All (λ q. a ≢ q.rip) rs
    → All (λ q. b ≢ q.rip) ss
All-AllServe units a b [] [] h e k = tt
All-AllServe units a b [] (s ∷ ss) h e k = absurd (omega (arith, h))
All-AllServe units a b (r ∷ rs) [] h e k = tt
All-AllServe units a b (r ∷ rs) (s ∷ ss) h e k =
    (λ q. k.0 (e ∙ q ∙ h.0.rip), All-AllServe units a b rs ss h.1 e k.1)

pub AllServe-AreDistinct :
    (units : List ℕ) (rs : List ResolvedSymbol) (ss : List SerializedSymbol)
    → AllServe units rs ss
    → ResolvedOnce rs
    → AreDistinct ss
AllServe-AreDistinct units [] [] h k = tt
AllServe-AreDistinct units [] (s ∷ ss) h k = absurd (omega (arith, h))
AllServe-AreDistinct units (r ∷ rs) [] h k = tt
AllServe-AreDistinct units (r ∷ rs) (s ∷ ss) h k = (
  All-AllServe units r.rip s.rip rs ss h.1 (sym h.0.rip) k.0,
  AllServe-AreDistinct units rs ss h.1 k.1,
)
