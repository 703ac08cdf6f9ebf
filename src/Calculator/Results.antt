-- ===== src/Calculator/Results.antt =====
-- The results of the calculator and its report of overflow, as signed numbers.
use system_software.Prelude.{
  ℕ, ◌+◌, ◌-◌, ◌/◌, ◌^◌, ◌%◌, ◌≡◌, ◌<◌, ◌≤◌, ap, ◌∙◌, Bool, false, ◌&&◌, not, ◌==◌, ltb,
  if◌then◌else◌, arith, dec_lt, ◌⊎◌, Bool-cases, inl, inr,
}
use system_software.Prelude.Int.{ℤ, pos, negsuc, leb_ℤ, ◌+ℤ◌, neg}
use system_software.Calculator.{Int64, add_loop, add64, complement64, sub64, signs_overflow}
use system_software.Calculator.Bit.{value, IsInt64, get_bit-value}
use system_software.Calculator.Add.{add_loop-value}

-- The signed number of 64 bits in two's complement.
abbrev pub signed64 : ℕ → ℤ
signed64 v = if ltb v (2 ^ 63) then pos v else negsuc (2 ^ 64 - 1 - v)

-- The numbers that 64 bits can hold.
abbrev pub fits : ℤ → Bool
fits z = leb_ℤ (negsuc (2 ^ 63 - 1)) z && leb_ℤ z (pos (2 ^ 63 - 1))

-- The sign bit, and the number it stands for.
sign_cases :
    (v : ℕ)
    → v < 2 ^ 64
    → ((v / 2 ^ 63 % 2 ≡ 0) × (signed64 v ≡ pos v) × (v < 2 ^ 63))
      ⊎ ((v / 2 ^ 63 % 2 ≡ 1) × (signed64 v ≡ negsuc (2 ^ 64 - 1 - v)) × (2 ^ 63 ≤ v))
sign_cases v h = elim (dec_lt v (2 ^ 63)) [
  | yes p ↦ inl (omega (arith, p), ground (arith, p), p)
  | no n ↦ inr (omega (arith, n, h), ground (arith, n), omega (arith, n))
]

-- The test on the three signs.
signs_lem :
    (v w : ℕ)
    → v < 2 ^ 64
    → w < 2 ^ 64
    → signs_overflow (v / 2 ^ 63 % 2) (w / 2 ^ 63 % 2) ((v + w) % 2 ^ 64 / 2 ^ 63 % 2)
      ≡ not (fits (signed64 v +ℤ signed64 w))
unfolding ◌+ℤ◌
signs_lem v w hv hw =
    let c = sign_cases ((v + w) % 2 ^ 64) (omega arith) in
    ground (arith, sign_cases v hv, sign_cases w hw, c)

-- For words of 32 bits, the result of `add64` is the sum modulo 2 ^ 64, and the overflow is reported exactly if the signed sum does not
-- fit in 64 bits; otherwise the flag stays as it was.
pub add64_lem :
    (x y result : Int64) (g : ℕ)
    → IsInt64 x
    → IsInt64 y
    → IsInt64 result
    → IsInt64 (add64 x y result g).0
      × (value (add64 x y result g).0 ≡ (value x + value y) % 2 ^ 64)
      × ((add64 x y result g).1
          ≡ (if fits (signed64 (value x) +ℤ signed64 (value y)) then g else 1))
unfolding add64
add64_lem x y result g hx hy hr =
    let (valid, e) = add_loop-value x y result hx hy hr in
    let sum = add_loop 64 0 0 x y result in
    (
      valid,
      e,
      ground (
        arith,
        get_bit-value x 63 hx (omega arith),
        get_bit-value y 63 hy (omega arith),
        get_bit-value sum 63 valid (omega arith),
        ap (λ t. t / 2 ^ 63 % 2) e,
        signs_lem (value x) (value y) (omega (arith, hx)) (omega (arith, hy)),
        Bool-cases (fits (signed64 (value x) +ℤ signed64 (value y))),
      ),
    )

neg_lem :
    (v : ℕ)
    → v < 2 ^ 64
    → (v == 2 ^ 63) ≡ false
    → signed64 ((2 ^ 64 - v) % 2 ^ 64) ≡ neg (signed64 v)
unfolding neg
neg_lem v h n = ground (arith, sign_cases v h, sign_cases ((2 ^ 64 - v) % 2 ^ 64) (omega arith))

-- `complement64` is negation modulo 2 ^ 64; of all numbers only the least one overflows.
pub complement64_lem :
    (x result : Int64) (g : ℕ)
    → IsInt64 x
    → IsInt64 result
    → IsInt64 (complement64 x result g).0
      × (value (complement64 x result g).0 ≡ (2 ^ 64 - value x) % 2 ^ 64)
      × ((complement64 x result g).1 ≡ (if value x == 2 ^ 63 then 1 else g))
unfolding complement64 ◌+ℤ◌
complement64_lem x result g hx hr =
    let flipped : Int64 = record { hp = 2 ^ 32 - 1 - x.hp; lp = 2 ^ 32 - 1 - x.lp } in
    let (valid, e, f) =
      add64_lem flipped (record { hp = 0; lp = 1 }) result g (omega (arith, hx)) (omega arith) hr in
    let all : value flipped ≡ 2 ^ 64 - 1 - value x = omega (arith, hx) in
    (valid, omega (arith, e, all, hx), ground (arith, f, all))

-- For words of 32 bits, `sub64` subtracts modulo 2 ^ 64. Overflow is reported if the signed difference does not fit in 64
-- bits, and also whenever the second number is the least one, whether the difference fits or not;
-- otherwise the flag stays as it was.
pub sub64_lem :
    (x y result result' : Int64) (g : ℕ)
    → IsInt64 x
    → IsInt64 y
    → IsInt64 result
    → IsInt64 result'
    → IsInt64 (sub64 x y result result' g).0
      × (value (sub64 x y result result' g).0 ≡ (value x + 2 ^ 64 - value y) % 2 ^ 64)
      × ((sub64 x y result result' g).1 ≡ (
          if value y == 2 ^ 63
          then 1
          else if fits (signed64 (value x) +ℤ neg (signed64 (value y)))
          then g
          else 1))
unfolding sub64
sub64_lem x y result result' g hx hy hr hr' =
    let (vc, ec, fc) = complement64_lem y result g hy hr in
    let c = complement64 y result g in
    let (vs, es, fs) = add64_lem x c.0 result' c.1 hx vc hr' in
    let sum = signed64 (value x) +ℤ neg (signed64 (value y)) in
    let fs' = λ (n : (value y == 2 ^ 63) ≡ false).
      fs
      ∙ ap (λ t. if fits (signed64 (value x) +ℤ t) then c.1 else 1)
          (ap signed64 ec ∙ neg_lem (value y) (omega (arith, hy)) n) in
    (
      vs,
      omega (arith, es, ec, hx, hy),
      elim (Bool-cases (value y == 2 ^ 63)) [
        | inl e ↦
            ground
              (arith, fc, fs, e, Bool-cases (fits (signed64 (value x) +ℤ signed64 (value c.0))))
        | inr n ↦ ground (arith, fc, fs' n, n)
      ],
    )
