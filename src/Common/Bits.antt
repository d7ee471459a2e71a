-- ===== src/Common/Bits.antt =====
-- `bit_and` with the masks that the program uses, at a variable: `2 ^ k - 1`, which keeps the low bits,
-- and `~63`, which clears them.
use Prim.Native.Nat.{
  ℕ, zero, suc, ◌+◌, ◌-◌, ◌*◌, ◌/◌, ◌%◌, ◌^◌, ◌≤◌, ◌<◌, min, bit_and, digits, bit_and-bitwise,
}
use mathlib.Core.Path.{◌≡◌, refl, ap, sym, ◌∙◌}
use native.Mathlib.Omega.{arith}
use native.Mathlib.Nat.{pow-suc, le_refl}

-- The lowest `k` bits, one bit at a time, and the bits between `j` and `j + k`, in place.
low : ℕ → ℕ → ℕ
low zero a = 0
low (suc k) a = low k (a / 2) * 2 + a % 2

kept : ℕ → ℕ → ℕ → ℕ
unfolding low
kept zero k a = low k a
kept (suc j) k a = kept j k (a / 2) * 2

-- The mask with `k` ones above `j` zeros.
mask : ℕ → ℕ → ℕ
mask zero k = 2 ^ k - 1
mask (suc j) k = mask j k * 2

pub pow_pos : (k : ℕ) → 1 ≤ 2 ^ k
pow_pos zero = omega arith
pow_pos (suc k) = omega (arith, pow-suc 2 k, pow_pos k)

low-zero : (k : ℕ) → low k 0 ≡ 0
unfolding low
low-zero zero = refl
low-zero (suc k) = omega (arith, low-zero k)

kept-zero : (j k : ℕ) → kept j k 0 ≡ 0
unfolding kept
kept-zero zero k = low-zero k
kept-zero (suc j) k = omega (arith, kept-zero j k)

mask_half : (k : ℕ) → ((2 ^ suc k - 1) / 2 ≡ 2 ^ k - 1) × ((2 ^ suc k - 1) % 2 ≡ 1)
mask_half k = omega (arith, pow-suc 2 k, pow_pos k)

-- What `bit_and` stands for, at enough fuel.
digits-mask : (n j k a : ℕ) → a ≤ n → digits (λ b. zero) min n a (mask j k) ≡ kept j k a
unfolding kept mask
digits-mask zero j k zero h = sym (kept-zero j k)
digits-mask zero j k (suc a) h = absurd (omega arith)
digits-mask (suc n) j k zero h = sym (kept-zero j k)
digits-mask (suc n) zero zero (suc a) h =
    omega (arith, digits-mask n zero zero (suc a / 2) (omega arith))
digits-mask (suc n) zero (suc k) (suc a) h =
    let half = mask_half k in
    rw (half.0, half.1) (omega (arith, digits-mask n zero k (suc a / 2) (omega arith)))
digits-mask (suc n) (suc j) k (suc a) h =
    let half : mask j k * 2 / 2 ≡ mask j k = omega arith in
    rw half (omega (arith, digits-mask n j k (suc a / 2) (omega arith)))

low_sum : (k q r : ℕ) → r < 2 ^ k → low k (q * 2 ^ k + r) ≡ r
unfolding low
low_sum zero q r h = omega arith
low_sum (suc k) q r h =
    let shift : q * 2 ^ suc k ≡ 2 * (q * 2 ^ k) =
      omega (arith, ap (λ (t : ℕ). q * t) (pow-suc 2 k)) in
    let half : (q * 2 ^ suc k + r) / 2 ≡ q * 2 ^ k + r / 2 = omega arith in
    rw half (omega (arith, low_sum k q (r / 2) (omega (arith, pow-suc 2 k))))

low-mod : (k a : ℕ) → low k a ≡ a % 2 ^ k
low-mod k a =
    let parts : a / 2 ^ k * 2 ^ k + a % 2 ^ k ≡ a = grind arith in
    rw parts at (low_sum k (a / 2 ^ k) (a % 2 ^ k) (omega (arith, pow_pos k)))

-- `a & (2 ^ k - 1)` is `a mod 2 ^ k`.
pub bit_and_mask : (k a : ℕ) → bit_and a (2 ^ k - 1) ≡ a % 2 ^ k
unfolding kept mask
bit_and_mask k a = bit_and-bitwise a (2 ^ k - 1) ∙ digits-mask a 0 k a (le_refl a) ∙ low-mod k a

-- `x & ~63` of a 64-bit word rounds down to a multiple of 64.
pub bit_and_line_mask : (x : ℕ) → x < 2 ^ 64 → bit_and x (2 ^ 64 - 64) ≡ x / 64 * 64
unfolding kept mask
bit_and_line_mask x h = omega (
  arith,
  bit_and-bitwise x (2 ^ 64 - 64),
  digits-mask x 6 58 x (le_refl x),
  low-mod 58 (x / 2 / 2 / 2 / 2 / 2 / 2),
)
