-- ===== src/Calculator/Print.antt =====
-- The binary digits that are printed are those of the number.
use system_software.Prelude.{
  ℕ, zero, suc, ◌+◌, ◌*◌, ◌^◌, ◌%◌, ◌≡◌, ◌<◌, ◌≤◌, refl, ap, ◌∙◌, [], ◌∷◌, ◌++◌, Bool, true, false,
  ◌==◌, if◌then◌else◌, arith,
}
use system_software.Prelude.Bits.{mod_pow_top, mul_pow_suc}
use system_software.Server.Text.{Bytes}
use system_software.Server.Parser.{codes}
use system_software.Calculator.{Int64, get_bit, print_bits, print_binary}
use system_software.Calculator.Bit.{value, IsInt64, get_bit-value}

-- The number that a text of binary digits stands for; blanks and the newline are passed over.
unfoldable pub read_bits : ℕ → Bytes → ℕ
read_bits acc [] = acc
read_bits acc (c ∷ s) =
    read_bits (if c == b'0' then acc * 2 else if c == b'1' then acc * 2 + 1 else acc) s

read_round :
    (acc b : ℕ) (apart : Bool) (rest : Bytes)
    → b < 2
    → read_bits acc
        ((if apart then codes " " else []) ++ ((if b == 0 then codes "0" else codes "1") ++ rest))
      ≡ read_bits (acc * 2 + b) rest
unfolding read_bits
read_round acc zero true rest h = ap (λ t. read_bits t rest) (omega arith)
read_round acc zero false rest h = ap (λ t. read_bits t rest) (omega arith)
read_round acc (suc zero) true rest h = refl
read_round acc (suc zero) false rest h = refl
read_round acc (suc (suc b)) apart rest h = absurd (omega (arith, h))

read_bits-print_bits :
    (n acc : ℕ) (x : Int64)
    → IsInt64 x
    → n ≤ 64
    → read_bits acc (print_bits n x) ≡ acc * 2 ^ n + value x % 2 ^ n
unfolding print_bits
read_bits-print_bits zero acc x h l = unfold read_bits in omega arith
read_bits-print_bits (suc i) acc x h l =
    let b = get_bit x i in
    let digit = get_bit-value x i h (omega (arith, l)) in
    let spread : (acc * 2 + b) * 2 ^ i ≡ acc * 2 ^ i + acc * 2 ^ i + b * 2 ^ i = grind arith in
    read_round acc b ((i + 1) % 8 == 0) (print_bits i x) (omega (arith, digit))
    ∙ omega (
      arith,
      read_bits-print_bits i (acc * 2 + b) x h (omega (arith, l)),
      spread,
      mul_pow_suc acc i,
      mod_pow_top (value x) i,
      ap (λ t. t * 2 ^ i) digit,
    )

-- Of a number in words of 32 bits, reading the digits that `printBinaryRepresentation` prints gives the
-- number back.
pub read_bits-print_binary : (x : Int64) → IsInt64 x → read_bits 0 (print_binary x) ≡ value x
unfolding print_binary
read_bits-print_binary x h = omega (arith, read_bits-print_bits 64 0 x h (omega arith), h)
