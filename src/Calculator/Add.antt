-- ===== src/Calculator/Add.antt =====
-- `add64` adds modulo 2 ^ 64, whatever its result variable held before.
use system_software.Prelude.{
  ℕ, zero, suc, ◌+◌, ◌*◌, ◌^◌, ◌%◌, ◌≡◌, ◌<◌, refl, sym, ap, ◌∙◌, subst, arith,
}
use system_software.Prelude.Bits.{mod_pow_top, mul_pow_suc}
use system_software.Calculator.{Int64, get_bit, set_bit, carry_bit, sum_bit, add_loop}
use system_software.Calculator.Bit.{value, IsInt64, get_bit-value, set_bit-IsSetBit}

-- One digit of a sum.
abbrev IsDigitSum : ℕ → ℕ → ℕ → Type 0
IsDigitSum c a b =
    (carry_bit c a b < 2) × (sum_bit c a b < 2) × (sum_bit c a b + carry_bit c a b * 2 ≡ a + b + c)

full_adder : (c a b : ℕ) → c < 2 → a < 2 → b < 2 → IsDigitSum c a b
full_adder (suc (suc c)) a b hc ha hb = absurd (omega (arith, hc))
full_adder c (suc (suc a)) b hc ha hb = absurd (omega (arith, ha))
full_adder c a (suc (suc b)) hc ha hb = absurd (omega (arith, hb))
full_adder zero zero zero hc ha hb = omega arith
full_adder zero zero (suc zero) hc ha hb = omega arith
full_adder zero (suc zero) zero hc ha hb = omega arith
full_adder zero (suc zero) (suc zero) hc ha hb = omega arith
full_adder (suc zero) zero zero hc ha hb = omega arith
full_adder (suc zero) zero (suc zero) hc ha hb = omega arith
full_adder (suc zero) (suc zero) zero hc ha hb = omega arith
full_adder (suc zero) (suc zero) (suc zero) hc ha hb = omega arith

-- The digits below `i` are those of the sum, and the carry is what they leave over.
abbrev Added : ℕ → ℕ → Int64 → Int64 → Int64 → Type 0
Added i c x y r =
    IsInt64 r × (c < 2) × (value r % 2 ^ i + c * 2 ^ i ≡ value x % 2 ^ i + value y % 2 ^ i)

add_round :
    (i c : ℕ) (x y r : Int64)
    → IsInt64 x
    → IsInt64 y
    → i < 64
    → Added i c x y r
    → Added
        (suc i)
        (carry_bit c (get_bit x i) (get_bit y i))
        x
        y
        (set_bit r (sum_bit c (get_bit x i) (get_bit y i)) i)
add_round i c x y r hx hy l (hr, hc, e) =
    let a = get_bit x i in
    let b = get_bit y i in
    let ea = get_bit-value x i hx l in
    let eb = get_bit-value y i hy l in
    let (carry_small, sum_small, digit) =
      full_adder c a b hc (omega (arith, ea)) (omega (arith, eb)) in
    let (valid, low) = set_bit-IsSetBit r (sum_bit c a b) i hr sum_small l in
    let s = sum_bit c a b in
    let k = carry_bit c a b in
    let p = 2 ^ i in
    let spread : s * p + k * p + k * p ≡ a * p + b * p + c * p =
      let u : (s + k * 2) * p ≡ s * p + k * p + k * p = grind arith in
      let v : (a + b + c) * p ≡ a * p + b * p + c * p = grind arith in
      sym u ∙ (ap (λ t. t * p) digit ∙ v) in
    (
      valid,
      carry_small,
      omega (
        arith,
        low,
        e,
        spread,
        mod_pow_top (value x) i,
        mod_pow_top (value y) i,
        ap (λ t. t * p) ea,
        ap (λ t. t * p) eb,
        mul_pow_suc k i,
      ),
    )

pub add_loop-Added :
    (left i c : ℕ) (x y r : Int64)
    → IsInt64 x
    → IsInt64 y
    → left + i ≡ 64
    → Added i c x y r
    → (k : ℕ) × Added 64 k x y (add_loop left i c x y r)
unfolding add_loop
add_loop-Added zero i c x y r hx hy l v =
    let e : i ≡ 64 = omega (arith, l) in (c, subst (λ t. Added t c x y r) e v)
add_loop-Added (suc left) i c x y r hx hy l v =
    let a = get_bit x i in
    let b = get_bit y i in
    add_loop-Added left (suc i) (carry_bit c a b) x y (set_bit r (sum_bit c a b) i) hx hy
      (omega (arith, l)) (add_round i c x y r hx hy (omega (arith, l)) v)

-- The sum of the two numbers, modulo 2 ^ 64.
pub add_loop-value :
    (x y r : Int64)
    → IsInt64 x
    → IsInt64 y
    → IsInt64 r
    → IsInt64 (add_loop 64 0 0 x y r)
      × (value (add_loop 64 0 0 x y r) ≡ (value x + value y) % 2 ^ 64)
add_loop-value x y r hx hy hr =
    let (k, (valid, small, e)) =
      add_loop-Added 64 0 0 x y r hx hy refl (hr, omega arith, omega arith) in
    (valid, omega (arith, e, hx, hy, valid, small))
