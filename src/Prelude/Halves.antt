-- ===== src/Prelude/Halves.antt =====
-- A number in two words of `k` bits, `hi * 2 ^ k + lo`, digit by digit.
use Prim.Native.Nat.{ℕ, zero, suc, ◌+◌, ◌*◌, ◌/◌, ◌%◌, ◌^◌, ◌≤◌, ◌<◌}
use mathlib.Core.Path.{◌≡◌, sym, ap, ◌∙◌}
use native.Mathlib.Omega.{arith}
use native.Mathlib.Nat.{two-pow-succ}
use system_software.Prelude.Bits.{mul_pow_suc, mod_pow_suc, div_half}

-- The upper digits of the number are those of its half.
half_of : (k hi lo : ℕ) → (hi * 2 ^ suc k + lo) / 2 ≡ hi * 2 ^ k + lo / 2
half_of k hi lo = omega (arith, mul_pow_suc hi k)

pub digit_low : (k i hi lo : ℕ) → i < k → (hi * 2 ^ k + lo) / 2 ^ i % 2 ≡ lo / 2 ^ i % 2
digit_low zero i hi lo h = absurd (omega (arith, h))
digit_low (suc k) zero hi lo h = omega (arith, mul_pow_suc hi k)
digit_low (suc k) (suc i) hi lo h =
    let n = hi * 2 ^ suc k + lo in
    ap (λ t. t % 2) (sym (div_half n i))
    ∙ (ap (λ t. t / 2 ^ i % 2) (half_of k hi lo)
        ∙ (digit_low k i hi (lo / 2) (omega (arith, h)) ∙ ap (λ t. t % 2) (div_half lo i)))

pub digit_high : (k j hi lo : ℕ) → lo < 2 ^ k → (hi * 2 ^ k + lo) / 2 ^ (k + j) % 2 ≡ hi / 2 ^ j % 2
digit_high zero j hi lo h =
    let n : hi * 1 + lo ≡ hi = omega (arith, h) in
    let m : 0 + j ≡ j = omega arith in ap (λ t. t / 2 ^ (0 + j) % 2) n ∙ ap (λ t. hi / 2 ^ t % 2) m
digit_high (suc k) j hi lo h =
    let n = hi * 2 ^ suc k + lo in
    let m : suc k + j ≡ suc (k + j) = omega arith in
    ap (λ t. n / 2 ^ t % 2) m
    ∙ (ap (λ t. t % 2) (sym (div_half n (k + j)))
        ∙ (ap (λ t. t / 2 ^ (k + j) % 2) (half_of k hi lo)
            ∙ digit_high k j hi (lo / 2) (omega (arith, h, two-pow-succ k))))

pub mod_low : (k i hi lo : ℕ) → i ≤ k → (hi * 2 ^ k + lo) % 2 ^ i ≡ lo % 2 ^ i
mod_low k zero hi lo h = omega arith
mod_low zero (suc i) hi lo h = absurd (omega (arith, h))
mod_low (suc k) (suc i) hi lo h =
    let n = hi * 2 ^ suc k + lo in
    omega (
      arith,
      mod_pow_suc n i,
      mod_pow_suc lo i,
      ap (λ t. t % 2 ^ i) (half_of k hi lo),
      mod_low k i hi (lo / 2) (omega (arith, h)),
      mul_pow_suc hi k,
    )

pub mod_high :
    (k j hi lo : ℕ) → lo < 2 ^ k → (hi * 2 ^ k + lo) % 2 ^ (k + j) ≡ hi % 2 ^ j * 2 ^ k + lo
mod_high zero j hi lo h =
    let n : hi * 1 + lo ≡ hi = omega (arith, h) in
    let m : 0 + j ≡ j = omega arith in
    ap (λ t. t % 2 ^ (0 + j)) n ∙ (ap (λ t. hi % 2 ^ t) m ∙ omega (arith, h))
mod_high (suc k) j hi lo h =
    let n = hi * 2 ^ suc k + lo in
    let m : suc k + j ≡ suc (k + j) = omega arith in
    ap (λ t. n % 2 ^ t) m
    ∙ omega (
      arith,
      mod_pow_suc n (k + j),
      ap (λ t. t % 2 ^ (k + j)) (half_of k hi lo),
      mod_high k j hi (lo / 2) (omega (arith, h, two-pow-succ k)),
      mul_pow_suc hi k,
      mul_pow_suc (hi % 2 ^ j) k,
    )

pub mul_pow_add : (k j b : ℕ) → b * 2 ^ j * 2 ^ k ≡ b * 2 ^ (k + j)
mul_pow_add zero j b = let m : 0 + j ≡ j = omega arith in omega (arith, ap (λ t. b * 2 ^ t) m)
mul_pow_add (suc k) j b =
    let m : suc k + j ≡ suc (k + j) = omega arith in
    omega (
      arith,
      ap (λ t. b * 2 ^ t) m,
      mul_pow_suc (b * 2 ^ j) k,
      mul_pow_suc b (k + j),
      mul_pow_add k j b,
    )
