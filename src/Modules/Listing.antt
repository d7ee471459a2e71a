-- ===== src/Modules/Listing.antt =====
-- The modules that are listed, beside a description of each object.
use mathlib.Core.List.{append_assoc, append-nil}
use mathlib.Core.Option
use ig_cachesim.Common.{
  ℕ, ◌+◌, ◌≤◌, ◌<◌, ◌≡◌, refl, ap, sym, ◌∙◌, Bool, true, false, ◌&&◌, ◌||◌, not, All, some, ltb,
  List, [], ◌∷◌, ◌++◌, ◌==◌, if◌then◌else◌, length, length-append, arith,
}
use ig_cachesim.Capture.{ModuleInfo, ModuleList, no_modules}
use ig_cachesim.Modules.{
  Segment, Object, filename_size, max_infos, is_empty, info_of, add_info, record_segments,
  record_module, get_module_list,
}

-- The first segment that is executable and loaded.
unfoldable pub code_segments : List Segment → List Segment
code_segments [] = []
code_segments (s ∷ ss) = if s.executable && s.load then s ∷ [] else code_segments ss

abbrev pub listed_under : Bool → List ℕ → Object → List Segment → List ModuleInfo
listed_under skipped name o [] = []
listed_under skipped name o (s ∷ ss) =
    if skipped
    then []
    else record {
      filename = name;
      start_addr_in_memory = o.addr;
      segment_offset = s.vaddr;
      module_length = s.memsz;
    }
      ∷ []

module _ (executable_filepath : List ℕ) (vdso : ℕ) where
  -- An object other than the vdso is listed by its code, under its name. The first object may do without a name.
  unfoldable pub described : Bool → Object → List ModuleInfo
  described first o =
      listed_under (o.addr == vdso || (is_empty o.name && not first))
        (if is_empty o.name then executable_filepath else o.name) o (code_segments o.segments)

  -- All objects, of which the first may be the main executable.
  unfoldable pub described_all : Bool → List Object → List ModuleInfo
  described_all first [] = []
  described_all first (o ∷ os) = described first o ++ described_all false os

  skipped_segments :
      (name : List ℕ) (o : Object) (ss : List Segment) → listed_under true name o ss ≡ []
  skipped_segments name o [] = refl
  skipped_segments name o (s ∷ ss) = refl

  -- Whether an object is passed over, and the name under which it is listed.
  abbrev is_skipped : Object → ModuleList → Bool
  is_skipped o ml = o.addr == vdso || (is_empty o.name && not (ml.module_callbacks == 1))

  abbrev name_of : Object → List ℕ
  name_of o = if is_empty o.name then executable_filepath else o.name

  -- The list with the modules after it.
  abbrev with_infos : ModuleList → List ModuleInfo → ModuleList
  with_infos ml is = record { infos = ml.infos ++ is; module_callbacks = ml.module_callbacks }

  add_info_fits :
      (i : ModuleInfo) (ml : ModuleList)
      → length i.filename < 512
      → add_info i ml ≡ some (with_infos ml (i ∷ []))
  unfolding add_info
  add_info_fits i ml h =
      let fits : ltb (length i.filename) filename_size ≡ true = ground (arith, h) in rw fits

  record_segments-described :
      (o : Object) (ss : List Segment) (ml : ModuleList)
      → length executable_filepath < 512
      → length o.name < 512
      → record_segments executable_filepath vdso o ss ml
        ≡ some (with_infos ml (listed_under (is_skipped o ml) (name_of o) o (code_segments ss)))
  unfolding record_segments code_segments
  record_segments-described o [] ml p n =
      ap (λ (is : List ModuleInfo). some (listed_as is)) (sym (append-nil ml.infos))
    where
      listed_as : List ModuleInfo → ModuleList
      listed_as is = record { infos = is; module_callbacks = ml.module_callbacks }
  record_segments-described o (s ∷ ss) ml p n = ground (
    arith,
    record_segments-described o ss ml p n,
    skipped_segments (name_of o) o (code_segments ss),
    add_info_fits (info_of executable_filepath vdso o s executable_filepath) ml p,
    add_info_fits (info_of executable_filepath vdso o s o.name) ml n,
  )

  length-listed_under :
      (skipped : Bool) (name : List ℕ) (o : Object) (ss : List Segment)
      → length (listed_under skipped name o ss) ≤ 1
  length-listed_under skipped name o [] = omega arith
  length-listed_under true name o (s ∷ ss) = omega arith
  length-listed_under false name o (s ∷ ss) = omega arith

  length-described : (first : Bool) (o : Object) → length (described first o) ≤ 1
  unfolding described
  length-described first o =
      length-listed_under (o.addr == vdso || (is_empty o.name && not first))
        (if is_empty o.name then executable_filepath else o.name) o (code_segments o.segments)

  -- What one call of `RecordModule` leaves, where there is room.
  abbrev recorded : Object → ModuleList → ModuleList
  recorded o ml = record {
    infos = ml.infos ++ described (ml.module_callbacks == 0) o;
    module_callbacks = ml.module_callbacks + 1;
  }

  record_module-described :
      (o : Object) (ml : ModuleList)
      → length ml.infos < 1024
      → length executable_filepath < 512
      → length o.name < 512
      → record_module executable_filepath vdso o ml ≡ some (true, recorded o ml)
  unfolding record_module described
  record_module-described o ml room p n =
      let counted : ModuleList = record {
        infos = ml.infos;
        module_callbacks = ml.module_callbacks + 1;
      } in
      let free : (length ml.infos == max_infos) ≡ false = ground (arith, room) in
      let first : (ml.module_callbacks + 1 == 1) ≡ (ml.module_callbacks == 0) = ground arith in
      rw (free, record_segments-described o o.segments counted p n, first)

  get_module_list-from :
      (os : List Object) (ml : ModuleList)
      → length ml.infos + length os ≤ 1024
      → length executable_filepath < 512
      → All (λ o. length o.name < 512) os
      → Option.map (λ r. r.infos) (get_module_list executable_filepath vdso os ml)
        ≡ some (ml.infos ++ described_all (ml.module_callbacks == 0) os)
  unfolding get_module_list described_all
  get_module_list-from [] ml room p ns = ap some (sym (append-nil ml.infos))
  get_module_list-from (o ∷ os) ml room p ns =
      let d = described (ml.module_callbacks == 0) o in
      let later : (ml.module_callbacks + 1 == 0) ≡ false = ground arith in
      let fits : length (ml.infos ++ d) + length os ≤ 1024 =
        omega
          (arith, room, length-append ml.infos d, length-described (ml.module_callbacks == 0) o) in
      rw (record_module-described o ml (omega (arith, room)) p ns.0, get_module_list)
        (get_module_list-from os (recorded o ml) fits p ns.1
          ∙ rw (later, append_assoc ml.infos d (described_all false os)))

  -- Of at most 1024 objects, whose names and the path of the executable are shorter than 512 bytes,
  -- each one that has an executable segment to load, is not the vdso, and has a name or is the
  -- first is listed once, in their order, by its first such segment and its name, or the path of
  -- the executable for a first object without a name.
  pub get_module_list-described :
      (os : List Object)
      → length os ≤ 1024
      → length executable_filepath < 512
      → All (λ o. length o.name < 512) os
      → Option.map (λ r. r.infos) (get_module_list executable_filepath vdso os no_modules)
        ≡ some (described_all true os)
  get_module_list-described os room p ns =
      get_module_list-from os no_modules (omega (arith, room)) p ns
