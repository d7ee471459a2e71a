-- ===== src/Modules/Windows/Filled.antt =====
-- `GetModuleList` of CacheSim/CacheSimWindows.cpp where the system can read all modules.
use mathlib.Core.List.{append_assoc}
use ig_cachesim.Common.{
  ℕ, suc, ◌+◌, ◌-◌, ◌≡◌, refl, ap, ap₂, sym, ◌∙◌, All, true, false, some, List, [], ◌∷◌, ◌++◌, set,
  take, replicate, length, length-append, if◌then◌else◌, arith, length-take,
}
use ig_cachesim.Capture.{ModuleInfo}
use ig_cachesim.Modules.{is_empty, max_infos}
use ig_cachesim.Modules.Windows.{
  Module, Infos, no_info, info_of, add_module, add_modules, zero_infos, get_module_list,
}

-- The module can be read, and this is its entry.
pub record IsRead (m : Module) : Type 0 where
  pub size : ℕ
  pub known : m.size_of_image ≡ some size
  pub named : is_empty m.filename ≡ false

-- The entries of modules that can be read.
abbrev pub entries_of : (ms : List Module) → All IsRead ms → List ModuleInfo
entries_of [] h = []
entries_of (m ∷ ms) h = info_of m h.0.size ∷ entries_of ms h.1

set_at :
    (xs ys : List ModuleInfo) (y v : ModuleInfo)
    → set (xs ++ (y ∷ ys)) (length xs) v ≡ xs ++ (v ∷ ys)
set_at [] ys y v = refl
set_at (x ∷ xs) ys y v = ap (λ (l : List ModuleInfo). x ∷ l) (set_at xs ys y v)

take_front : (xs ys : List ModuleInfo) → take (length xs) (xs ++ ys) ≡ xs
take_front [] ys = refl
take_front (x ∷ xs) ys = ap (λ (l : List ModuleInfo). x ∷ l) (take_front xs ys)

add_modules-filled :
    (ms : List Module) (h : All IsRead ms) (done : List ModuleInfo) (k : ℕ)
    → add_modules
        (length done)
        ms
        (record { infos = done ++ replicate (length ms + k) no_info; count = length done })
      ≡ record {
        infos = done ++ (entries_of ms h ++ replicate k no_info);
        count = length done + length ms;
      }
unfolding add_modules add_module
add_modules-filled [] h done k =
    let zeros : 0 + k ≡ k = omega arith in
    let count : length done ≡ length done + 0 = omega arith in
    ap₂ (λ n c. record { infos = done ++ replicate n no_info; count = c }) zeros count
add_modules-filled (m ∷ ms) h done k =
    let info = info_of m h.0.size in
    let after = done ++ (info ∷ []) in
    let st : Infos = record {
      infos = done ++ replicate (suc (length ms) + k) no_info;
      count = length done;
    } in
    let more : suc (length ms) + k ≡ suc (length ms + k) = omega arith in
    let grown : suc (length done) ≡ length after = omega (arith, length-append done (info ∷ [])) in
    let slots : set (done ++ replicate (suc (length ms) + k) no_info) (length done) info
        ≡ after ++ replicate (length ms + k) no_info =
      ap (λ n. set (done ++ replicate n no_info) (length done) info) more
      ∙ set_at done (replicate (length ms + k) no_info) no_info info
      ∙ sym (append_assoc done (info ∷ []) (replicate (length ms + k) no_info)) in
    let one : add_module (length done) m m.size_of_image st
        ≡ record { infos = after ++ replicate (length ms + k) no_info; count = length after } =
      ap (λ o. add_module (length done) m o st) h.0.known
      ∙ ap
          (λ b.
            if b
            then st
            else record { infos = set st.infos (length done) info; count = suc st.count })
          h.0.named
      ∙ ap₂ (λ (l : List ModuleInfo) (c : ℕ). record { infos = l; count = c }) slots grown in
    let total : length after + length ms ≡ length done + suc (length ms) = omega (arith, grown) in
    ap₂ (λ i s. add_modules i ms s) grown one
    ∙ add_modules-filled ms h.1 after k
    ∙ ap₂ (λ (l : List ModuleInfo) (c : ℕ). record { infos = l; count = c })
        (append_assoc done (info ∷ []) (entries_of ms h.1 ++ replicate k no_info)) total

length-entries_of : (ms : List Module) (h : All IsRead ms) → length (entries_of ms h) ≡ length ms
length-entries_of [] h = refl
length-entries_of (m ∷ ms) h = ap suc (length-entries_of ms h.1)

-- Where the system can read each of the first 1024 modules, `GetModuleList` lists these modules in their order.
pub get_module_list-filled :
    (ms : List Module) (h : All IsRead (take max_infos ms))
    → take (get_module_list true ms).count (get_module_list true ms).infos
      ≡ entries_of (take max_infos ms) h
unfolding get_module_list
get_module_list-filled ms h =
    let first = take max_infos ms in
    let k = max_infos - length first in
    let room : max_infos ≡ length first + k = omega (arith, length-take max_infos ms) in
    let all : add_modules 0 first zero_infos
        ≡ record { infos = entries_of first h ++ replicate k no_info; count = 0 + length first } =
      ap (λ n. add_modules 0 first (record { infos = replicate n no_info; count = 0 })) room
      ∙ add_modules-filled first h [] k in
    let count : 0 + length first ≡ length (entries_of first h) =
      omega (arith, length-entries_of first h) in
    ap (λ s. take s.count s.infos) all
    ∙ ap (λ n. take n (entries_of first h ++ replicate k no_info)) count
    ∙ take_front (entries_of first h) (replicate k no_info)
