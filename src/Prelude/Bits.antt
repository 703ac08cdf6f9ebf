-- ===== src/Prelude/Bits.antt =====
-- The laws of the bit operations that a single bit of a word needs, from the digit recursion.
use Prim.Native.Nat.{
  ℕ, zero, suc, ◌+◌, ◌-◌, ◌*◌, ◌/◌, ◌%◌, ◌^◌, ◌≤◌, ◌<◌, min, max, bit_and, bit_or, digits,
  bit_and-bitwise, bit_or-bitwise,
}
use mathlib.Core.Path.{◌≡◌, refl, sym, ap, ◌∙◌}
use native.Mathlib.Omega.{arith}
use native.Mathlib.Decide.{dec_lt}
use native.Mathlib.Nat.{
  two-pow-succ, div-div-eq-div-mul, div-add-mod, mod-lt, mod-eq_of_lt, mul-add-mod_self_left,
  one-le-pow, pow-le-pow_right,
}

-- The count of digits to go does not matter, once there are no more.
pub digits_fuel :
    (z : ℕ → ℕ) (f : ℕ → ℕ → ℕ) (n m a b : ℕ) → a ≤ n → a ≤ m → digits z f n a b ≡ digits z f m a b
digits_fuel z f zero zero a b p q = refl
digits_fuel z f zero (suc m) zero b p q = refl
digits_fuel z f zero (suc m) (suc a) b p q = absurd (omega arith)
digits_fuel z f (suc n) zero zero b p q = refl
digits_fuel z f (suc n) zero (suc a) b p q = absurd (omega arith)
digits_fuel z f (suc n) (suc m) zero b p q = refl
digits_fuel z f (suc n) (suc m) (suc a) b p q =
    omega (arith, digits_fuel z f n m (suc a / 2) (b / 2) (omega arith) (omega arith))

-- The lowest digit, and the others.
pub bit_and_step : (a b : ℕ) → bit_and a b ≡ bit_and (a / 2) (b / 2) * 2 + min (a % 2) (b % 2)
bit_and_step zero b = omega (arith, bit_and-bitwise 0 b, bit_and-bitwise 0 (b / 2))
bit_and_step (suc a) b = omega (
  arith,
  bit_and-bitwise (suc a) b,
  bit_and-bitwise (suc a / 2) (b / 2),
  digits_fuel (λ b. zero) min a (suc a / 2) (suc a / 2) (b / 2) (omega arith) (omega arith),
)

pub bit_or_step : (a b : ℕ) → bit_or a b ≡ bit_or (a / 2) (b / 2) * 2 + max (a % 2) (b % 2)
bit_or_step zero b = omega (arith, bit_or-bitwise 0 b, bit_or-bitwise 0 (b / 2))
bit_or_step (suc a) b = omega (
  arith,
  bit_or-bitwise (suc a) b,
  bit_or-bitwise (suc a / 2) (b / 2),
  digits_fuel (λ b. b) max a (suc a / 2) (suc a / 2) (b / 2) (omega arith) (omega arith),
)

-- What is left of a number with no digit of the other one.
pub bit_and-zero : (n a : ℕ) → a ≤ n → bit_and a 0 ≡ 0
bit_and-zero zero a h = let e : a ≡ 0 = omega arith in ap (λ k. bit_and k 0) e
bit_and-zero (suc n) a h = elim (dec_lt 0 a) [
  | yes p ↦ omega (arith, bit_and_step a 0, bit_and-zero n (a / 2) (omega arith))
  | no p ↦ let e : a ≡ 0 = omega arith in ap (λ k. bit_and k 0) e
]

pub bit_or-zero : (n a : ℕ) → a ≤ n → bit_or a 0 ≡ a
bit_or-zero zero a h = let e : a ≡ 0 = omega arith in rw e refl
bit_or-zero (suc n) a h = elim (dec_lt 0 a) [
  | yes p ↦ omega (arith, bit_or_step a 0, bit_or-zero n (a / 2) (omega arith))
  | no p ↦ let e : a ≡ 0 = omega arith in rw e refl
]

bit_and-ones : (k w : ℕ) → w < 2 ^ k → bit_and w (2 ^ k - 1) ≡ w
bit_and-ones zero w h = omega (arith, h, bit_and-zero w w (omega arith))
bit_and-ones (suc k) w h =
    let ones : (2 ^ suc k - 1) / 2 ≡ 2 ^ k - 1 = omega (arith, two-pow-succ k) in
    omega (
      arith,
      bit_and_step w (2 ^ suc k - 1),
      ap (bit_and (w / 2)) ones,
      bit_and-ones k (w / 2) (omega (arith, two-pow-succ k)),
      two-pow-succ k,
      one-le-pow k 2 (omega arith),
    )

double-mul : (b p : ℕ) → b * (p + p) ≡ b * p + b * p
double-mul b p = grind arith

pub div_half : (w i : ℕ) → w / 2 / 2 ^ i ≡ w / 2 ^ suc i
div_half w i =
    let e : 2 * 2 ^ i ≡ 2 ^ suc i = omega (arith, two-pow-succ i) in
    div-div-eq-div-mul w 2 (2 ^ i) ∙ ap (λ k. w / k) e

-- Doubled, a digit and what stands below it.
pub mul_pow_suc : (b i : ℕ) → b * 2 ^ suc i ≡ b * 2 ^ i + b * 2 ^ i
mul_pow_suc b i = ap (λ k. b * k) (two-pow-succ i) ∙ double-mul b (2 ^ i)

pub mod_pow_suc : (w i : ℕ) → w % 2 ^ suc i ≡ (w / 2 % 2 ^ i) * 2 + w % 2
mod_pow_suc w i =
    let p = 2 ^ i in
    let q = w / 2 / p in
    let r = w / 2 % p in
    let pos : 1 ≤ p = one-le-pow i 2 (omega arith) in
    let low = mod-lt (w / 2) {m = p} (omega (arith, pos)) in
    let parts = div-add-mod (w / 2) p in
    let twice : (p + p) * q ≡ p * q + p * q = grind arith in
    let whole : (p + p) * q + (r * 2 + w % 2) ≡ w = omega (arith, parts, twice) in
    ap (λ k. w % k) (two-pow-succ i)
    ∙ (ap (λ k. k % (p + p)) (sym whole)
        ∙ (mul-add-mod_self_left (p + p) q (r * 2 + w % 2) ∙ mod-eq_of_lt (omega (arith, low))))

-- A mask of one bit.
pub bit_and-bit : (i w : ℕ) → bit_and w (2 ^ i) ≡ (w / 2 ^ i % 2) * 2 ^ i
bit_and-bit zero w = omega (arith, bit_and_step w 1, bit_and-zero (w / 2) (w / 2) (omega arith))
bit_and-bit (suc i) w =
    let half : 2 ^ suc i / 2 ≡ 2 ^ i = omega (arith, two-pow-succ i) in
    let b = w / 2 / 2 ^ i % 2 in
    let place : b ≡ w / 2 ^ suc i % 2 = ap (λ k. k % 2) (div_half w i) in
    omega (
      arith,
      ap (λ k. k * 2 ^ suc i) place,
      bit_and_step w (2 ^ suc i),
      ap (bit_and (w / 2)) half,
      bit_and-bit i (w / 2),
      mul_pow_suc b i,
      two-pow-succ i,
    )

-- `(w & ~(1 << i)) | (b << i)` on a word of `k` bits.
abbrev pub with_bit : ℕ → ℕ → ℕ → ℕ → ℕ
with_bit k i w b = bit_or (bit_and w (2 ^ k - 1 - 2 ^ i)) (b * 2 ^ i)

with_bit_zero : (k w b : ℕ) → w < 2 ^ suc k → b < 2 → with_bit (suc k) 0 w b ≡ w / 2 * 2 + b
with_bit_zero k w b h hb =
    let mask = 2 ^ suc k - 1 - 1 in
    let ones : mask / 2 ≡ 2 ^ k - 1 = omega (arith, two-pow-succ k) in
    let cleared : bit_and w mask ≡ w / 2 * 2 = omega (
      arith,
      bit_and_step w mask,
      ap (bit_and (w / 2)) ones,
      bit_and-ones k (w / 2) (omega (arith, two-pow-succ k)),
      two-pow-succ k,
      one-le-pow k 2 (omega arith),
    ) in
    let none_left : b * 1 / 2 ≡ 0 = omega (arith, hb) in
    let rest : w / 2 * 2 / 2 ≡ w / 2 = omega arith in
    ap (λ k. bit_or k (b * 1)) cleared
    ∙ omega (
      arith,
      bit_or_step (w / 2 * 2) (b * 1),
      hb,
      ap (λ k. bit_or k (b * 1 / 2)) rest,
      ap (bit_or (w / 2)) none_left,
      bit_or-zero (w / 2) (w / 2) (omega arith),
    )

with_bit-suc :
    (k i w b : ℕ) → i < k → with_bit (suc k) (suc i) w b ≡ with_bit k i (w / 2) b * 2 + w % 2
with_bit-suc k i w b h =
    let mask = 2 ^ suc k - 1 - 2 ^ suc i in
    let below : 2 ^ suc i ≤ 2 ^ k = pow-le-pow_right (omega arith) h in
    let inner = 2 ^ k - 1 - 2 ^ i in
    let others : mask / 2 ≡ inner = omega (arith, two-pow-succ k, two-pow-succ i, below) in
    let left = bit_and (w / 2) inner in
    let cleared : bit_and w mask ≡ left * 2 + w % 2 = omega (
      arith,
      bit_and_step w mask,
      ap (bit_and (w / 2)) others,
      two-pow-succ k,
      two-pow-succ i,
      below,
      one-le-pow i 2 (omega arith),
    ) in
    let moved : b * 2 ^ suc i / 2 ≡ b * 2 ^ i = omega (arith, mul_pow_suc b i) in
    let rest : (left * 2 + w % 2) / 2 ≡ left = omega arith in
    ap (λ k. bit_or k (b * 2 ^ suc i)) cleared
    ∙ omega (
      arith,
      bit_or_step (left * 2 + w % 2) (b * 2 ^ suc i),
      ap (λ k. bit_or k (b * 2 ^ suc i / 2)) rest,
      ap (bit_or left) moved,
      mul_pow_suc b i,
    )

-- Bit `i` becomes `b`, the bits below it stay, and the word does not grow.
pub with_bit_lem :
    (k i w b : ℕ)
    → i < k
    → w < 2 ^ k
    → b < 2
    → (with_bit k i w b < 2 ^ k) × (with_bit k i w b % 2 ^ suc i ≡ w % 2 ^ i + b * 2 ^ i)
with_bit_lem zero i w b h hw hb = absurd (omega (arith, h))
with_bit_lem (suc k) zero w b h hw hb =
    let e = with_bit_zero k w b hw hb in (omega (arith, e, two-pow-succ k), omega (arith, e, hb))
with_bit_lem (suc k) (suc i) w b h hw hb =
    let e = with_bit-suc k i w b (omega (arith, h)) in
    let (small, low) =
      with_bit_lem k i (w / 2) b (omega (arith, h)) (omega (arith, two-pow-succ k, hw)) hb in
    let s = with_bit k i (w / 2) b in
    let half : with_bit (suc k) (suc i) w b / 2 ≡ s = omega (arith, e) in
    (
      omega (arith, e, two-pow-succ k, small),
      omega (
        arith,
        mod_pow_suc (with_bit (suc k) (suc i) w b) (suc i),
        ap (λ t. t % 2 ^ suc i) half,
        e,
        low,
        mod_pow_suc w i,
        mul_pow_suc b i,
      ),
    )

-- The highest digit below `2 ^ suc i`, and those below it.
pub mod_pow_top : (w i : ℕ) → w % 2 ^ suc i ≡ w % 2 ^ i + w / 2 ^ i % 2 * 2 ^ i
mod_pow_top w i =
    let p = 2 ^ i in
    let q = w / p / 2 in
    let b = w / p % 2 in
    let r = w % p in
    let pos : 1 ≤ p = one-le-pow i 2 (omega arith) in
    let low = mod-lt w {m = p} (omega (arith, pos)) in
    let bit : b < 2 = omega arith in
    let halves : p * (w / p) ≡ p * q + p * q + b * p =
      let e : w / p ≡ q + q + b = omega arith in
      let d : p * (q + q + b) ≡ p * q + p * q + b * p = grind arith in ap (λ t. p * t) e ∙ d in
    let twice : (p + p) * q ≡ p * q + p * q = grind arith in
    let whole : (p + p) * q + (r + b * p) ≡ w = omega (arith, div-add-mod w p, twice, halves) in
    let small : b * p ≤ p = grind arith in
    ap (λ k. w % k) (two-pow-succ i)
    ∙ (ap (λ k. k % (p + p)) (sym whole)
        ∙ (mul-add-mod_self_left (p + p) q (r + b * p) ∙ mod-eq_of_lt (omega (arith, low, small))))
