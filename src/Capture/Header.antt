-- ===== src/Capture/Header.antt =====
-- The header of a capture file: its words, and where the patches stand.
use ig_cachesim.Common.{ℕ, ◌+◌, ◌^◌, ◌≤◌, ◌<◌, ◌≡◌, ◌++◌, arith, length}
use ig_cachesim.Stacks.{copy}
use ig_cachesim.Stacks.Memory.{length-copy}
use ig_cachesim.Capture.{File, update, write_header}
use ig_cachesim.Capture.Bytes.{le, word, length-le, copy-append}
use ig_cachesim.Capture.Data.{
  magic, version, module_offset, module_count, module_string_offset, frame_offset, frame_count,
  stats_offset, stats_count, symbol_count,
}

-- The 48 bytes with all seven words patched.
unfoldable pub header : ℕ → ℕ → ℕ → ℕ → ℕ → ℕ → ℕ → File
header mo mc so fo fc to tc = update 32 tc (
    update 28 to
      (update 24 fc (update 20 fo (update 16 so (update 12 mc (update 8 mo write_header))))))

module _ (mo mc so fo fc to tc : ℕ) (rest : File) where
  pub module_offset-header : mo < 2 ^ 32 → module_offset (header mo mc so fo fc to tc ++ rest) ≡ mo
  unfolding module_offset header update copy le word
  module_offset-header h = omega (arith, h)

  pub magic-header : magic (header mo mc so fo fc to tc ++ rest) ≡ 0xcace51af
  unfolding magic header update copy le word
  magic-header = omega arith

  pub version-header : version (header mo mc so fo fc to tc ++ rest) ≡ 2
  unfolding version header update copy le word
  version-header = omega arith

  pub symbol_count-header : symbol_count (header mo mc so fo fc to tc ++ rest) ≡ 0
  unfolding symbol_count header update copy le word
  symbol_count-header = omega arith

  pub module_count-header : mc < 2 ^ 32 → module_count (header mo mc so fo fc to tc ++ rest) ≡ mc
  unfolding module_count header update copy le word
  module_count-header h = omega (arith, h)

  pub module_string_offset-header :
      so < 2 ^ 32 → module_string_offset (header mo mc so fo fc to tc ++ rest) ≡ so
  unfolding module_string_offset header update copy le word
  module_string_offset-header h = omega (arith, h)

  pub frame_offset-header : fo < 2 ^ 32 → frame_offset (header mo mc so fo fc to tc ++ rest) ≡ fo
  unfolding frame_offset header update copy le word
  frame_offset-header h = omega (arith, h)

  pub frame_count-header : fc < 2 ^ 32 → frame_count (header mo mc so fo fc to tc ++ rest) ≡ fc
  unfolding frame_count header update copy le word
  frame_count-header h = omega (arith, h)

  pub stats_offset-header : to < 2 ^ 32 → stats_offset (header mo mc so fo fc to tc ++ rest) ≡ to
  unfolding stats_offset header update copy le word
  stats_offset-header h = omega (arith, h)

  pub stats_count-header : tc < 2 ^ 32 → stats_count (header mo mc so fo fc to tc ++ rest) ≡ tc
  unfolding stats_count header update copy le word
  stats_count-header h = omega (arith, h)

-- A patch in the header leaves what follows.
pub update-append :
    (offset v : ℕ) (h b : File)
    → offset + 4 ≤ length h
    → update offset v (h ++ b) ≡ update offset v h ++ b
unfolding update
update-append offset v h b small =
    copy-append h b offset (le 4 v) (omega (arith, length-le 4 v, small))

pub length-update : (offset v : ℕ) (f : File) → length (update offset v f) ≡ length f
unfolding update
length-update offset v f = length-copy f offset (le 4 v)
