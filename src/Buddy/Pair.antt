-- ===== src/Buddy/Pair.antt =====
-- The buddy of a block, and the block that they make up.
use Prim.Native.Nat.{bit_xor, bit_xor-bitwise, differ}
use native.Mathlib.Nat.{two-pow-succ, div-add-mod, mul_comm, add_comm}
use system_software.Prelude.{
  ℕ, zero, suc, ◌+◌, ◌-◌, ◌*◌, ◌/◌, ◌%◌, ◌^◌, ◌≡◌, ◌<◌, ◌≤◌, refl, sym, ap, ◌∙◌, arith, dec_lt,
}
use system_software.Prelude.Bits.{digits_fuel, mod_pow_top, div_half, mul_pow_suc}
use system_software.Buddy.Areas.{block}
use system_software.Buddy.Alloc.{block-halves}

differ_zero : (x : ℕ) → differ x 0 ≡ x
differ_zero zero = refl
differ_zero (suc x) = refl

differ_one : (x : ℕ) → x < 2 → differ x 1 ≡ 1 - x
differ_one zero h = refl
differ_one (suc zero) h = refl
differ_one (suc (suc x)) h = absurd (omega (arith, h))

bit_xor_step : (a b : ℕ) → bit_xor a b ≡ bit_xor (a / 2) (b / 2) * 2 + differ (a % 2) (b % 2)
bit_xor_step zero b = omega (arith, bit_xor-bitwise 0 b, bit_xor-bitwise 0 (b / 2))
bit_xor_step (suc a) b = omega (
  arith,
  bit_xor-bitwise (suc a) b,
  bit_xor-bitwise (suc a / 2) (b / 2),
  digits_fuel (λ b. b) differ a (suc a / 2) (suc a / 2) (b / 2) (omega arith) (omega arith),
)

bit_xor-zero : (n a : ℕ) → a ≤ n → bit_xor a 0 ≡ a
bit_xor-zero zero a h = let e : a ≡ 0 = omega arith in rw e refl
bit_xor-zero (suc n) a h = elim (dec_lt 0 a) [
  | yes p ↦
      omega (arith, bit_xor_step a 0, bit_xor-zero n (a / 2) (omega arith), differ_zero (a % 2))
  | no p ↦ let e : a ≡ 0 = omega arith in rw e refl
]

-- The bit is flipped: it counts for 2 ^ i, and is added or taken away.
bit_xor-bit : (i w : ℕ) → bit_xor w (2 ^ i) + w / 2 ^ i % 2 * 2 ^ suc i ≡ w + 2 ^ i
bit_xor-bit zero w = omega (
  arith,
  bit_xor_step w 1,
  bit_xor-zero (w / 2) (w / 2) (omega arith),
  differ_one (w % 2) (omega arith),
)
bit_xor-bit (suc i) w =
    let b = w / 2 / 2 ^ i % 2 in
    let half : 2 ^ suc i / 2 ≡ 2 ^ i = omega (arith, two-pow-succ i) in
    let even : 2 ^ suc i % 2 ≡ 0 = omega (arith, two-pow-succ i) in
    let digit : w / 2 ^ suc i % 2 * 2 ^ suc (suc i) ≡ b * 2 ^ suc (suc i) =
      ap (λ t. t % 2 * 2 ^ suc (suc i)) (sym (div_half w i)) in
    omega (
      arith,
      bit_xor_step w (2 ^ suc i),
      ap (bit_xor (w / 2)) half,
      ap (differ (w % 2)) even,
      differ_zero (w % 2),
      bit_xor-bit i (w / 2),
      digit,
      mul_pow_suc b (suc i),
      two-pow-succ i,
    )

-- The buddy of a block of the order `k` at a multiple of its size is the other half of the block of the
-- next order that has it.
pub buddy-halves :
    (k q : ℕ)
    → q % 2 ^ k ≡ 0
    → (x : ℕ)
    → block (suc k) (q / 2 ^ suc k * 2 ^ suc k) x ≡ block k q x + block k (bit_xor q (2 ^ k)) x
buddy-halves k q aligned x =
    let m = q / 2 ^ suc k * 2 ^ suc k in
    let b = q / 2 ^ k % 2 in
    let swapped : m ≡ 2 ^ suc k * (q / 2 ^ suc k) = mul_comm (q / 2 ^ suc k) (2 ^ suc k) in
    let whole : m + b * 2 ^ k ≡ q =
      omega (arith, swapped, div-add-mod q (2 ^ suc k), mod_pow_top q k, aligned) in
    let flip = bit_xor-bit k q in
    elim (dec_lt b 1) [
      | yes low ↦
          let unset : b ≡ 0 = omega (arith, low) in
          let zero_bit : b * 2 ^ k ≡ 0 = ap (λ t. t * 2 ^ k) unset ∙ omega arith in
          let first : m ≡ q = omega (arith, whole, zero_bit) in
          let second : q + 2 ^ k ≡ bit_xor q (2 ^ k) =
            omega (arith, flip, zero_bit, mul_pow_suc b k) in
          ap (λ t. block (suc k) t x) first
          ∙ block-halves k q x
          ∙ ap (λ t. block k q x + block k t x) second
      | no high ↦
          let one : b ≡ 1 = omega (arith, high) in
          let one_bit : b * 2 ^ k ≡ 2 ^ k = ap (λ t. t * 2 ^ k) one ∙ omega arith in
          let second : m + 2 ^ k ≡ q = omega (arith, whole, one_bit) in
          let first : m ≡ bit_xor q (2 ^ k) =
            omega (arith, flip, one_bit, mul_pow_suc b k, second) in
          block-halves k m x
          ∙ ap (λ t. block k m x + block k t x) second
          ∙ ap (λ t. block k t x + block k q x) first
          ∙ add_comm (block k (bit_xor q (2 ^ k)) x) (block k q x)
    ]
