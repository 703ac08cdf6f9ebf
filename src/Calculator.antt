-- ===== src/Calculator.antt =====
-- The 64-bit calculator of CSE3030/calculator/hw1.c: two's complement numbers in two words of 32 bits.
pub mod Bit
pub mod Add
pub mod Results
pub mod Print
use Prim.Native.Nat.{bit_and, bit_or, bit_xor}
use system_software.Prelude.{
  ℕ, zero, suc, ◌+◌, ◌-◌, ◌*◌, ◌/◌, ◌^◌, ◌%◌, List, [], ◌∷◌, ◌++◌, Bool, true, false, ◌||◌, not,
  ltb, ◌==◌, if◌then◌else◌,
}
use system_software.Server.Text.{Bytes}
use system_software.Server.Parser.{codes}

-- `int64`
pub record Int64 : Type 0 where
  pub hp : ℕ
  pub lp : ℕ

-- `1 << i`
abbrev one_at : ℕ → ℕ
one_at i = 2 ^ i

-- `~w` on an unsigned int.
abbrev complement : ℕ → ℕ
complement w = 2 ^ 32 - 1 - w

unfoldable pub get_bit : Int64 → ℕ → ℕ
get_bit a ind =
    if ltb ind 32
    then bit_and a.lp (one_at ind) / 2 ^ ind
    else bit_and a.hp (one_at (ind - 32)) / 2 ^ (ind - 32)

unfoldable pub set_bit : Int64 → ℕ → ℕ → Int64
set_bit a bit i =
    if ltb i 32
    then record a { lp = bit_or (bit_and a.lp (complement (one_at i))) (bit * 2 ^ i) }
    else record a { hp = bit_or (bit_and a.hp (complement (one_at (i - 32)))) (bit * 2 ^ (i - 32)) }

-- `!c`
abbrev pub not_bit : ℕ → ℕ
not_bit c = if c == 0 then 1 else 0

abbrev pub carry_bit : ℕ → ℕ → ℕ → ℕ
carry_bit c a b = bit_or (bit_and c (bit_xor a b)) (bit_and a b)

abbrev pub sum_bit : ℕ → ℕ → ℕ → ℕ
sum_bit c a b = bit_xor (bit_xor a b) c

-- The loop of `add64` with `left` rounds to go, at index `i`.
unfoldable pub add_loop : ℕ → ℕ → ℕ → Int64 → Int64 → Int64 → Int64
add_loop zero i carry x y result = result
add_loop (suc left) i carry x y result =
    let a = get_bit x i in
    let b = get_bit y i in
    add_loop left (suc i) (carry_bit carry a b) x y (set_bit result (sum_bit carry a b) i)

-- The test for overflow, on the three signs.
abbrev pub signs_overflow : ℕ → ℕ → ℕ → Bool
signs_overflow a b c =
    not (bit_and (bit_and a b) (not_bit c) == 0)
    || not (bit_and (bit_and (not_bit a) (not_bit b)) c == 0)

-- `add64`; `result` is what the variable holds that is not initialised, `g_overflow` the global, which
-- is returned too.
unfoldable pub add64 : Int64 → Int64 → Int64 → ℕ → Int64 × ℕ
add64 x y result g_overflow =
    let sum = add_loop 64 0 0 x y result in
    (sum, if signs_overflow (get_bit x 63) (get_bit y 63) (get_bit sum 63) then 1 else g_overflow)

unfoldable pub complement64 : Int64 → Int64 → ℕ → Int64 × ℕ
complement64 x result g_overflow =
    add64 (record { hp = complement x.hp; lp = complement x.lp }) (record { hp = 0; lp = 1 }) result
      g_overflow

unfoldable pub sub64 : Int64 → Int64 → Int64 → Int64 → ℕ → Int64 × ℕ
sub64 x y result result' g_overflow =
    let (complement_y, g) = complement64 y result g_overflow in add64 x complement_y result' g

-- The loop of `printBinaryRepresentation` from index `left - 1` down.
unfoldable pub print_bits : ℕ → Int64 → Bytes
print_bits zero x = codes "\n"
print_bits (suc i) x =
    (if (i + 1) % 8 == 0 then codes " " else [])
    ++ ((if get_bit x i == 0 then codes "0" else codes "1") ++ print_bits i x)

unfoldable pub print_binary : Int64 → Bytes
print_binary x = print_bits 64 x

-- What `main` prints of a result.
unfoldable pub report : Int64 × ℕ → Bytes
report (res, g_overflow) = if g_overflow == 0 then print_binary res else codes "overflow!\n"

-- `main` behind its input; the last arguments are what the variables hold that are not initialised.
unfoldable pub calculate : Int64 → Int64 → Int64 → Int64 → Int64 → Int64 → Bytes
calculate op1 op2 r0 r1 r2 r3 =
    codes "A:\t"
    ++ (print_binary op1
        ++ (codes "B:\t"
            ++ (print_binary op2
                ++ (codes "ADD64:\t"
                    ++ (report (add64 op1 op2 r0 0)
                        ++ (codes "COMP64:\t"
                            ++ (report (complement64 op2 r1 0)
                                ++ (codes "SUB64:\t" ++ report (sub64 op1 op2 r2 r3 0)))))))))
