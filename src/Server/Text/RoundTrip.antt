-- ===== src/Server/Text/RoundTrip.antt =====
-- `atoi` reads what %d printed, and %s takes it as one word.
use system_software.Prelude.{
  ℕ, zero, suc, ◌+◌, ◌-◌, ◌/◌, ◌%◌, ◌^◌, ◌<◌, ◌≤◌, [], ◌∷◌, ◌++◌, true, false, ◌≡◌, refl, ltb,
  arith, min, ◌∙◌, Bool-cases, inl, inr, ap,
}
use system_software.Prelude.Int.{ℤ, pos, negsuc, neg, to_int, IsInt, to_int_of_IsInt}
use system_software.Server.Text.{
  Bytes, is_space, is_digit, digits_onto, decimal, skip_space, digits_value, signed, atoi, word,
}

digits_value-digits_onto :
    (f n : ℕ) (acc : Bytes) → n < f → digits_value 0 (digits_onto f n acc) ≡ digits_value n acc
unfolding digits_value digits_onto
digits_value-digits_onto zero n acc h = elim h [ ]
digits_value-digits_onto (suc f) n acc h =
    ground (arith, digits_value-digits_onto f (n / 10) ((48 + n % 10) ∷ acc))

min_eq : (a b : ℕ) → a ≤ b → min a b ≡ a
min_eq a b h = omega arith

neg-pos_suc : (n : ℕ) → neg (pos (suc n)) ≡ negsuc n
unfolding neg
neg-pos_suc n = ground arith

-- A text with no digit in front.
abbrev pub Ends : Bytes → Type 0
Ends [] = Unit {0}
Ends (c ∷ cs) = is_space c ≡ true

digits_value-Ends : (n : ℕ) (s : Bytes) → Ends s → digits_value n s ≡ n
unfolding digits_value
digits_value-Ends n [] h = refl
digits_value-Ends n (c ∷ cs) h = ground arith

-- The digits go in front of a text that stays as it is.
pub digits_onto-append :
    (f n : ℕ) (acc rest : Bytes) → digits_onto f n (acc ++ rest) ≡ digits_onto f n acc ++ rest
unfolding digits_onto
digits_onto-append zero n acc rest = refl
digits_onto-append (suc f) n acc rest =
    ground (arith, digits_onto-append f (n / 10) ((48 + n % 10) ∷ acc) rest)

-- The first byte of a number's digits.
digits_onto-head :
    (f n : ℕ) (acc : Bytes)
    → n < f
    → (c : ℕ) × (cs : Bytes) × (digits_onto f n acc ≡ c ∷ cs) × (is_digit c ≡ true)
unfolding digits_onto
digits_onto-head zero n acc h = elim h [ ]
digits_onto-head (suc f) n acc h = elim (Bool-cases (ltb n 10)) [
  | inl e ↦ (48 + n, acc, ground arith, ground arith)
  | inr e ↦
      let (c, cs, p, q) = digits_onto-head f (n / 10) ((48 + n % 10) ∷ acc) (ground arith) in
      (c, cs, ground (arith, p), q)
]

abbrev pub NoSpace : Bytes → Type 0
NoSpace [] = Unit {0}
NoSpace (c ∷ cs) = (is_space c ≡ false) × NoSpace cs

digits_onto-NoSpace : (f n : ℕ) (acc : Bytes) → NoSpace acc → NoSpace (digits_onto f n acc)
unfolding digits_onto
digits_onto-NoSpace zero n acc h = h
digits_onto-NoSpace (suc f) n acc h =
    let last : is_space (48 + n % 10) ≡ false = ground arith in
    ground (arith, digits_onto-NoSpace f (n / 10) ((48 + n % 10) ∷ acc) (last, h))

pub decimal-NoSpace : (z : ℤ) → NoSpace (decimal z [])
unfolding decimal
decimal-NoSpace (pos n) = digits_onto-NoSpace (suc n) n [] tt
decimal-NoSpace (negsuc n) = (refl, digits_onto-NoSpace (suc (suc n)) (suc n) [] tt)

pub decimal-append : (z : ℤ) (acc : Bytes) → decimal z acc ≡ decimal z [] ++ acc
unfolding decimal
decimal-append (pos n) acc = digits_onto-append (suc n) n [] acc
decimal-append (negsuc n) acc = ap (λ t. b'-' ∷ t) (digits_onto-append (suc (suc n)) (suc n) [] acc)

-- A printed number does not start with a space, and is not empty.
pub decimal-head :
    (z : ℤ) (acc : Bytes) → (c : ℕ) × (cs : Bytes) × (decimal z acc ≡ c ∷ cs) × (is_space c ≡ false)
unfolding decimal
decimal-head (pos n) acc =
    let (c, cs, p, q) = digits_onto-head (suc n) n acc (omega arith) in (c, cs, p, ground arith)
decimal-head (negsuc n) acc = (b'-', digits_onto (suc (suc n)) (suc n) acc, refl, refl)

pub skip_space-decimal : (z : ℤ) (acc : Bytes) → skip_space (decimal z acc) ≡ decimal z acc
unfolding skip_space
skip_space-decimal z acc = let (c, cs, p, q) = decimal-head z acc in ground (arith, p, q)

-- A word without spaces is taken whole.
pub word-append : (w rest : Bytes) → NoSpace w → Ends rest → word (w ++ rest) ≡ (w, rest)
unfolding word
word-append [] [] h e = refl
word-append [] (c ∷ rest) h e = ground arith
word-append (c ∷ w) rest h e = ground (arith, word-append w rest h.1 e)

pub word-decimal : (z : ℤ) (rest : Bytes) → Ends rest → word (decimal z rest) ≡ (decimal z [], rest)
word-decimal z rest e =
    rw (decimal-append z rest) (word-append (decimal z []) rest (decimal-NoSpace z) e)

signed-digit :
    (c : ℕ) (cs : Bytes)
    → is_digit c ≡ true
    → signed (c ∷ cs) ≡ to_int (pos (min (digits_value 0 (c ∷ cs)) (2 ^ 63 - 1)))
unfolding signed
signed-digit c cs h = ground arith

signed-minus :
    (cs : Bytes) → signed (b'-' ∷ cs) ≡ to_int (neg (pos (min (digits_value 0 cs) (2 ^ 63))))
unfolding signed
signed-minus cs = refl

atoi-decimal_eq : (z : ℤ) (rest : Bytes) → atoi (decimal z rest) ≡ signed (decimal z rest)
unfolding atoi
atoi-decimal_eq z rest = ap signed (skip_space-decimal z rest)

digits_value-number :
    (n : ℕ) (rest : Bytes) → Ends rest → digits_value 0 (digits_onto (suc n) n rest) ≡ n
digits_value-number n rest e =
    digits_value-digits_onto (suc n) n rest (omega arith) ∙ digits_value-Ends n rest e

-- `atoi` reads back an `int` that %d printed, whatever follows that is no digit.
pub atoi-decimal : (z : ℤ) (rest : Bytes) → IsInt z → Ends rest → atoi (decimal z rest) ≡ z
atoi-decimal (pos n) rest h e =
    let (c, cs, p, q) = digits_onto-head (suc n) n rest (omega arith) in
    let shown : decimal (pos n) rest ≡ c ∷ cs = unfold decimal in p in
    let value : digits_value 0 (c ∷ cs) ≡ n = rw (← p) (digits_value-number n rest e) in
    rw (atoi-decimal_eq (pos n) rest, shown, signed-digit c cs q, value)
      (rw (min_eq n (2 ^ 63 - 1) (omega arith)) (to_int_of_IsInt (pos n) h))
atoi-decimal (negsuc n) rest h e =
    let shown : decimal (negsuc n) rest ≡ b'-' ∷ digits_onto (suc (suc n)) (suc n) rest =
      unfold decimal in refl in
    rw
      (
        atoi-decimal_eq (negsuc n) rest,
        shown,
        signed-minus (digits_onto (suc (suc n)) (suc n) rest),
        digits_value-number (suc n) rest e,
        min_eq (suc n) (2 ^ 63) (omega arith),
        neg-pos_suc n,
      )
      (to_int_of_IsInt (negsuc n) h)
