-- ===== src/Calculator/Bit.antt =====
-- What `getBit` and `setBit` do to the number that the two words stand for.
use Prim.Native.Nat.{bit_and}
use native.Mathlib.Nat.{mul-div_cancel, one-le-pow}
use system_software.Prelude.{
  ℕ, suc, ◌+◌, ◌-◌, ◌*◌, ◌/◌, ◌^◌, ◌%◌, ◌≡◌, ◌<◌, ap, ◌∙◌, arith, subst, not_lt→ltb, dec_lt, lt→ltb,
}
use system_software.Prelude.Bits.{bit_and-bit, with_bit, with_bit_lem}
use system_software.Prelude.Halves.{digit_low, digit_high, mod_low, mod_high, mul_pow_add}
use system_software.Calculator.{Int64, get_bit, set_bit}

abbrev pub value : Int64 → ℕ
value a = a.hp * 2 ^ 32 + a.lp

-- Both words are words of 32 bits.
abbrev pub IsInt64 : Int64 → Type 0
IsInt64 a = (a.hp < 2 ^ 32) × (a.lp < 2 ^ 32)

word_bit : (i w : ℕ) → bit_and w (2 ^ i) / 2 ^ i ≡ w / 2 ^ i % 2
word_bit i w =
    ap (λ t. t / 2 ^ i) (bit_and-bit i w)
    ∙ mul-div_cancel (w / 2 ^ i % 2) (omega (arith, one-le-pow i 2 (omega arith)))

pub get_bit-value : (a : Int64) (i : ℕ) → IsInt64 a → i < 64 → get_bit a i ≡ value a / 2 ^ i % 2
unfolding get_bit
get_bit-value a i h l = elim (dec_lt i 32) [
  | yes p ↦ ground (arith, lt→ltb i 32 p, word_bit i a.lp, digit_low 32 i a.hp a.lp p)
  | no n ↦
      let j = i - 32 in
      let e : 32 + j ≡ i = omega (arith, n) in
      ground
        (arith, n, word_bit j a.hp, digit_high 32 j a.hp a.lp h.1, ap (λ t. value a / 2 ^ t % 2) e)
]

-- Bit `i` becomes `b`, and those below it stay.
abbrev pub IsSetBit : Int64 → ℕ → ℕ → Int64 → Type 0
IsSetBit a b i c = IsInt64 c × (value c % 2 ^ suc i ≡ value a % 2 ^ i + b * 2 ^ i)

low_word :
    (a : Int64) (b i : ℕ)
    → IsInt64 a
    → b < 2
    → i < 32
    → IsSetBit a b i (record a { lp = with_bit 32 i a.lp b })
low_word a b i h hb l =
    let (small, low) = with_bit_lem 32 i a.lp b l h.1 hb in
    (
      (h.0, small),
      omega (
        arith,
        mod_low 32 (suc i) a.hp (with_bit 32 i a.lp b) l,
        low,
        mod_low 32 i a.hp a.lp (omega (arith, l)),
      ),
    )

high_word :
    (a : Int64) (b j : ℕ)
    → IsInt64 a
    → b < 2
    → j < 32
    → IsSetBit a b (32 + j) (record a { hp = with_bit 32 j a.hp b })
high_word a b j h hb l =
    let (small, low) = with_bit_lem 32 j a.hp b l h.0 hb in
    let hp' = with_bit 32 j a.hp b in
    let e : suc (32 + j) ≡ 32 + suc j = omega arith in
    (
      (small, h.1),
      ap (λ t. (hp' * 2 ^ 32 + a.lp) % 2 ^ t) e
          ∙ omega (
            arith,
            mod_high 32 (suc j) hp' a.lp h.1,
            low,
            mod_high 32 j a.hp a.lp h.1,
            mul_pow_add 32 j b,
          ),
    )

pub set_bit-IsSetBit :
    (a : Int64) (b i : ℕ) → IsInt64 a → b < 2 → i < 64 → IsSetBit a b i (set_bit a b i)
unfolding set_bit
set_bit-IsSetBit a b i h hb l = elim (dec_lt i 32) [
  | yes p ↦ rw (lt→ltb i 32 p) (low_word a b i h hb p)
  | no n ↦
      let e : 32 + (i - 32) ≡ i = omega (arith, n) in
      rw (not_lt→ltb i 32 n) (
        subst (λ t. IsSetBit a b t (record a { hp = with_bit 32 (i - 32) a.hp b })) e
          (high_word a b (i - 32) h hb (omega (arith, l))))
]
