-- ===== src/Server/Text.antt =====
-- The C library's text functions that the stock server calls, as C defines them: `isspace`,
-- `sprintf` with %d, `atoi`, and the %s of `fscanf`. A byte is a number, a text a list of bytes
-- without the final NUL.
pub mod RoundTrip
use system_software.Prelude.{
  ℕ, zero, suc, ◌+◌, ◌-◌, ◌*◌, ◌/◌, ◌%◌, ◌^◌, min, List, [], ◌∷◌, ◌++◌, Bool, true, false, ◌&&◌,
  ◌||◌, ltb, leb, ◌==◌, if◌then◌else◌,
}
use system_software.Prelude.Int.{ℤ, pos, negsuc, neg, to_int}

abbrev pub Bytes : Type 0
Bytes = List ℕ

abbrev pub is_space : ℕ → Bool
is_space c = c == 32 || (leb 9 c && leb c 13)

abbrev pub is_digit : ℕ → Bool
is_digit c = leb 48 c && leb c 57

-- The digits of `n` in front of a text; the fuel is more than `n`.
unfoldable pub digits_onto : ℕ → ℕ → Bytes → Bytes
digits_onto zero n acc = acc
digits_onto (suc f) n acc =
    let rest = digits_onto f (n / 10) ((48 + n % 10) ∷ acc) in
    if ltb n 10 then (48 + n) ∷ acc else rest

-- %d in front of a text
unfoldable pub decimal : ℤ → Bytes → Bytes
unfolding digits_onto
decimal (pos n) acc = digits_onto (suc n) n acc
decimal (negsuc n) acc = b'-' ∷ digits_onto (suc (suc n)) (suc n) acc

unfoldable pub skip_space : Bytes → Bytes
skip_space [] = []
skip_space (c ∷ cs) = if is_space c then skip_space cs else c ∷ cs

unfoldable pub digits_value : ℕ → Bytes → ℕ
digits_value n [] = n
digits_value n (c ∷ cs) =
    let more = digits_value (n * 10 + (c - 48)) cs in if is_digit c then more else n

-- `strtol` stops at the limits of a 64-bit `long`, and `atoi` keeps the low 32 bits.
unfoldable pub signed : Bytes → ℤ
unfolding digits_value to_int neg
signed [] = pos 0
signed (c ∷ cs) =
    if c == b'-'
    then to_int (neg (pos (min (digits_value 0 cs) (2 ^ 63))))
    else if c == b'+'
    then to_int (pos (min (digits_value 0 cs) (2 ^ 63 - 1)))
    else to_int (pos (min (digits_value 0 (c ∷ cs)) (2 ^ 63 - 1)))

unfoldable pub atoi : Bytes → ℤ
unfolding skip_space signed
atoi s = signed (skip_space s)

-- The bytes up to the next space, and what stands from there on.
unfoldable pub word : Bytes → Bytes × Bytes
word [] = ([], [])
word (c ∷ cs) = let (w, r) = word cs in if is_space c then ([], c ∷ cs) else (c ∷ w, r)
