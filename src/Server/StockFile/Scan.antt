-- ===== src/Server/StockFile/Scan.antt =====
-- What one read takes from a file: a printed line, or at least one byte.
use system_software.Prelude.{
  ℕ, zero, suc, ◌+◌, ◌/◌, ◌%◌, ◌^◌, ◌<◌, ◌≤◌, ◌≡◌, ◌⊎◌, inl, inr, refl, [], ◌∷◌, ◌++◌, true, Option,
  none, some, leb, length, arith, Option-cases, Bool-cases, append_assoc, ◌∙◌, sym, ap,
}
use system_software.Prelude.Int.{ℤ, pos, negsuc, IsInt}
use system_software.Server.Text.{Bytes, decimal, digits_onto, skip_space, word, is_space}
use system_software.Server.Text.RoundTrip.{
  Ends, decimal-head, decimal-append, skip_space-decimal, word-decimal,
}
use system_software.Server.StockFile.{Fields, maxline, stock_line, scan_word, scan_line}
use native.Mathlib.Nat.{pow-suc}

length-digits_onto :
    (k f n : ℕ) (acc : Bytes) → n < 10 ^ suc k → length (digits_onto f n acc) ≤ suc k + length acc
unfolding digits_onto
length-digits_onto k zero n acc h = omega arith
length-digits_onto zero (suc f) n acc h = ground arith
length-digits_onto (suc k) (suc f) n acc h =
    ground (arith, pow-suc 10 (suc k), length-digits_onto k f (n / 10) ((48 + n % 10) ∷ acc))

-- A printed `int` has at most eleven bytes.
pub length-decimal : (z : ℤ) → IsInt z → length (decimal z []) ≤ 11
unfolding decimal
length-decimal (pos n) h = omega (arith, length-digits_onto 9 (suc n) n [] (omega arith))
length-decimal (negsuc n) h =
    omega (arith, length-digits_onto 9 (suc (suc n)) (suc n) [] (omega arith))

length-decimal_pos : (z : ℤ) (acc : Bytes) → 0 < length (decimal z acc)
length-decimal_pos z acc = let (c, cs, p, q) = decimal-head z acc in rw p (omega arith)

-- %s takes a printed number whole.
scan_word-decimal :
    (z : ℤ) (rest : Bytes)
    → IsInt z
    → Ends rest
    → scan_word (decimal z rest) ≡ some (some (decimal z []), rest)
unfolding scan_word
scan_word-decimal z rest h e =
    rw (skip_space-decimal z rest, word-decimal z rest e)
      (ground (arith, length-decimal z h, length-decimal_pos z []))

scan_word-space : (c : ℕ) (s : Bytes) → is_space c ≡ true → scan_word (c ∷ s) ≡ scan_word s
unfolding scan_word
scan_word-space c s h = rw h refl

decimal-++ : (z : ℤ) (acc rest : Bytes) → decimal z (acc ++ rest) ≡ decimal z acc ++ rest
decimal-++ z acc rest =
    decimal-append z (acc ++ rest)
    ∙ sym (append_assoc (decimal z []) acc rest)
    ∙ ap (λ t. t ++ rest) (sym (decimal-append z acc))

-- A stock, as `sprintf` prints it, in front of the rest of a file.
pub stock_line-append :
    (i c p : ℤ) (rest : Bytes)
    → stock_line i c p ++ rest ≡ decimal i (b' ' ∷ decimal c (b' ' ∷ decimal p (b'\n' ∷ rest)))
unfolding stock_line
stock_line-append i c p rest =
    let third = b' ' ∷ decimal p (b'\n' ∷ []) in
    rw
      (
        ← decimal-++ i (b' ' ∷ decimal c third) rest,
        ← decimal-++ c third rest,
        ← decimal-++ p (b'\n' ∷ []) rest,
      )
      refl

-- One read takes a printed line, and the spaces after it.
pub scan_line-stock_line :
    (f : Fields) (i c p : ℤ) (rest : Bytes)
    → IsInt i × IsInt c × IsInt p
    → scan_line f (stock_line i c p ++ rest)
      ≡ some (
        record { id = decimal i []; count = decimal c []; price = decimal p [] },
        skip_space rest,
      )
unfolding scan_line skip_space
scan_line-stock_line f i c p rest (hi, hc, hp) =
    let third = b'\n' ∷ rest in
    let second = b' ' ∷ decimal p third in
    let first = b' ' ∷ decimal c second in
    rw (stock_line-append i c p rest) (
      ground (
        arith,
        scan_word-decimal i first hi refl,
        scan_word-space b' ' (decimal c second) refl,
        scan_word-decimal c second hc refl,
        scan_word-space b' ' (decimal p third) refl,
        scan_word-decimal p third hp refl,
      ))

-- What a word leaves is no longer than the text, and shorter if there was a word.
length-skip_space : (s : Bytes) → length (skip_space s) ≤ length s
unfolding skip_space
length-skip_space [] = omega arith
length-skip_space (c ∷ cs) = ground (arith, length-skip_space cs)

length-word : (s : Bytes) → length (word s).0 + length (word s).1 ≡ length s
unfolding word
length-word [] = refl
length-word (c ∷ cs) = ground (arith, length-word cs)

word-nil_of_skipped :
    (s : Bytes) → length (word (skip_space s)).0 ≡ 0 → (word (skip_space s)).1 ≡ []
unfolding word skip_space
word-nil_of_skipped [] h = refl
word-nil_of_skipped (c ∷ cs) h = ground (arith, word-nil_of_skipped cs)

scan_word_total :
    (text : Bytes)
    → length text < maxline
    → (w : Option Bytes) × (r : Bytes) × (scan_word text ≡ some (w, r))
      × ((r ≡ []) ⊎ (length r < length text))
      × (length r ≤ length text)
unfolding scan_word
scan_word_total text h =
    let s = skip_space text in
    elim (Bool-cases (leb (length (word s).0) 0)) [
      | inl e ↦
          let none_left : (word s).1 ≡ [] = word-nil_of_skipped text (ground arith) in
          (none, (word s).1, ground arith, inl none_left, ground (arith, none_left))
      | inr e ↦
          let size = length-word s in
          let small = length-skip_space text in
          (
            some (word s).0,
            (word s).1,
            ground (arith, size, small),
            inr (ground (arith, size, small)),
            omega (arith, size, small),
          )
    ]

-- One read of a file that fits the buffers gives a result, and leaves nothing or fewer bytes.
pub scan_line_total :
    (f : Fields) (text : Bytes)
    → length text < maxline
    → (g : Fields) × (r : Bytes) × (scan_line f text ≡ some (g, r))
      × ((r ≡ []) ⊎ (length r < length text))
unfolding scan_line skip_space
scan_line_total f text h =
    let (a, r, ea, da, la) = scan_word_total text h in
    elim (Option-cases a) [
      | inl n ↦ (f, r, ground (arith, ea, n), da)
      | inr (x, n) ↦
          let (b, s, eb, db, lb) = scan_word_total r (omega (arith, la)) in
          elim (Option-cases b) [
            | inl m ↦
                (record f { id = x }, s, ground (arith, ea, n, eb, m), shorter r s da la db lb)
            | inr (y, m) ↦
                let (c, t, ec, dc, lc) = scan_word_total s (omega (arith, la, lb)) in
                let ds = shorter r s da la db lb in
                let ls : length s ≤ length text = omega (arith, la, lb) in
                let dt = shorter s t ds ls dc lc in
                elim (Option-cases c) [
                  | inl k ↦ (
                    record { id = x; count = y; price = f.price },
                    t,
                    ground (arith, ea, n, eb, m, ec, k),
                    dt,
                  )
                  | inr (z, k) ↦ (
                    record { id = x; count = y; price = z },
                    skip_space t,
                    ground (arith, ea, n, eb, m, ec, k),
                    skipped t dt,
                  )
                ]
          ]
    ]
  where
    shorter :
        (r s : Bytes)
        → (r ≡ []) ⊎ (length r < length text)
        → length r ≤ length text
        → (s ≡ []) ⊎ (length s < length r)
        → length s ≤ length r
        → (s ≡ []) ⊎ (length s < length text)
    shorter r s a la (inl e) l = inl e
    shorter r s a la (inr e) l = inr (omega arith)

    skipped :
        (t : Bytes)
        → (t ≡ []) ⊎ (length t < length text)
        → (skip_space t ≡ []) ⊎ (length (skip_space t) < length text)
    skipped t (inl e) = inl (rw e refl)
    skipped t (inr e) = inr (omega (arith, length-skip_space t))
