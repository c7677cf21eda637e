-- ===== src/Network/Cidr/Bits.antt =====
-- Masks by `bit_and`: crates/jiji-network/src/cidr.rs, `prefix_mask`. The native operation stands for
-- `digits`, which takes the lowest digits of both numbers, for as many turns as its first argument.
use Prim.Native.Nat.{bit_and, digits, bit_and-bitwise}
use native.Mathlib.Nat.{div-mul-le_self, pow-suc, pow-succ', div-div-eq-div-mul}
use jiji.Common.{ℕ, zero, suc, ◌-◌, ◌*◌, ◌/◌, ◌%◌, ◌^◌, ◌≤◌, ◌<◌, ◌≡◌, refl, sym, ◌∙◌, arith, min}

pub two_pow_pos : (k : ℕ) → 0 < 2 ^ k
two_pow_pos zero = omega arith
two_pow_pos (suc k) = omega (arith, pow-suc 2 k, two_pow_pos k)

-- The digits of `a` where `mask` has ones, within `turns` digits.
abbrev masked : ℕ → ℕ → ℕ → ℕ
masked turns a mask = digits (λ rest. 0) min turns a mask

masked-le : (turns a mask : ℕ) → masked turns a mask ≤ mask
masked-le zero a mask = omega arith
masked-le (suc turns) zero mask = omega arith
masked-le (suc turns) (suc a) mask = omega (arith, masked-le turns (suc a / 2) (mask / 2))

-- A mask bounds what it leaves.
pub bit_and-le : (a mask : ℕ) → bit_and a mask ≤ mask
bit_and-le a mask = rw (bit_and-bitwise a mask) (masked-le a a mask)

-- The mask of `k` ones keeps a number of `k` digits.
keep_ones : (turns k a : ℕ) → a ≤ turns → a < 2 ^ k → masked turns a (2 ^ k - 1) ≡ a
keep_ones zero k a enough small = omega (arith, enough)
keep_ones (suc turns) k zero enough small = refl
keep_ones (suc turns) zero (suc a) enough small = absurd (omega arith)
keep_ones (suc turns) (suc k) (suc a) enough small =
    let power = pow-suc 2 k in
    let one = two_pow_pos k in
    let smaller_mask : (2 ^ suc k - 1) / 2 ≡ 2 ^ k - 1 = omega (arith, power, one) in
    let lowest : (2 ^ suc k - 1) % 2 ≡ 1 = omega (arith, power, one) in
    let higher = keep_ones turns k (suc a / 2) (omega arith) (omega (arith, power)) in
    rw (smaller_mask, lowest, higher) (omega arith)

none_rounded : (k : ℕ) → 0 / 2 ^ k * 2 ^ k ≡ 0
none_rounded k = omega (arith, div-mul-le_self 0 (2 ^ k))

-- Of a number of `j + k` digits, the mask of `j` ones over `k` zeros keeps the first `j`.
keep_high :
    (turns k j a : ℕ)
    → a ≤ turns
    → a < 2 ^ j * 2 ^ k
    → masked turns a ((2 ^ j - 1) * 2 ^ k) ≡ a / 2 ^ k * 2 ^ k
keep_high turns zero j a enough small =
    let mask : (2 ^ j - 1) * 2 ^ zero ≡ 2 ^ j - 1 = omega arith in
    rw mask (keep_ones turns j a enough (omega arith) ∙ omega arith)
keep_high zero (suc k) j a enough small =
    let nothing : a ≡ 0 = omega (arith, enough) in rw nothing (sym (none_rounded (suc k)))
keep_high (suc turns) (suc k) j zero enough small = sym (none_rounded (suc k))
keep_high (suc turns) (suc k) j (suc a) enough small =
    let m = (2 ^ j - 1) * 2 ^ k in
    let mask : (2 ^ j - 1) * 2 ^ suc k ≡ m * 2 = rw pow-suc (omega arith) in
    let smaller_mask : m * 2 / 2 ≡ m = omega arith in
    let lowest : m * 2 % 2 ≡ 0 = omega arith in
    let small_half : suc a / 2 < 2 ^ j * 2 ^ k = omega (arith, rw pow-suc at small) in
    let higher = keep_high turns k j (suc a / 2) (omega arith) small_half in
    let rounded : suc a / 2 ^ suc k * 2 ^ suc k ≡ suc a / 2 / 2 ^ k * 2 ^ k * 2 =
      rw (pow-succ' 2 k, ← div-div-eq-div-mul (suc a) 2 (2 ^ k)) (omega arith) in
    rw (mask, smaller_mask, lowest, higher) (omega (arith, rounded))

pub bit_and-high :
    (k j a : ℕ) → a < 2 ^ j * 2 ^ k → bit_and a ((2 ^ j - 1) * 2 ^ k) ≡ a / 2 ^ k * 2 ^ k
bit_and-high k j a small =
    bit_and-bitwise a ((2 ^ j - 1) * 2 ^ k) ∙ keep_high a k j a (omega arith) small
