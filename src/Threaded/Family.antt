-- ===== src/Threaded/Family.antt =====
-- Threads by their number: a change of one of them, and sums over the first `n`.
use system_software.Prelude.{
  ℕ, zero, suc, ◌+◌, ◌≡◌, ◌≢◌, ◌<◌, ◌≤◌, refl, ap, arith, dec_lt, ◌==◌, if◌then◌else◌,
}

abbrev pub change {ℓ} : {A : Type ℓ} → (ℕ → A) → ℕ → A → ℕ → A
change f i a j = if i == j then a else f j

module _ {ℓ} {A : Type ℓ} (w : A → ℕ) where
  unfoldable pub sum : ℕ → (ℕ → A) → ℕ
  sum zero f = 0
  sum (suc n) f = sum n f + w (f n)

  sum-change_above : (n : ℕ) (f : ℕ → A) (i : ℕ) (a : A) → n ≤ i → sum n (change f i a) ≡ sum n f
  unfolding sum
  sum-change_above zero f i a h = refl
  sum-change_above (suc n) f i a h = ground (arith, h, sum-change_above n f i a)

  pub sum-change :
      (n : ℕ) (f : ℕ → A) (i : ℕ) (a : A) → i < n → sum n (change f i a) + w (f i) ≡ sum n f + w a
  unfolding sum
  sum-change zero f i a h = absurd (omega (arith, h))
  sum-change (suc n) f i a h = elim (dec_lt i n) [
    | yes below ↦ ground (arith, below, sum-change n f i a below)
    | no last ↦
        let e : i ≡ n = omega (arith, h, last) in
        ground (arith, e, sum-change_above n f i a (omega (arith, e)))
  ]

  pub sum-one : (n : ℕ) (f : ℕ → A) (i : ℕ) → i < n → w (f i) ≤ sum n f
  unfolding sum
  sum-one zero f i h = absurd (omega (arith, h))
  sum-one (suc n) f i h = elim (dec_lt i n) [
    | yes below ↦ omega (arith, sum-one n f i below)
    | no last ↦
        let e : i ≡ n = omega (arith, h, last) in
        let q : w (f i) ≡ w (f n) = ap (λ k. w (f k)) e in omega (arith, q)
  ]

  pub sum-two : (n : ℕ) (f : ℕ → A) (i j : ℕ) → i < n → j < n → i ≢ j → w (f i) + w (f j) ≤ sum n f
  unfolding sum
  sum-two zero f i j hi hj ne = absurd (omega (arith, hi))
  sum-two (suc n) f i j hi hj ne = elim (dec_lt i n) [
    | yes below ↦ elim (dec_lt j n) [
      | yes low ↦ omega (arith, sum-two n f i j below low ne)
      | no last ↦
          let e : j ≡ n = omega (arith, hj, last) in
          let q : w (f j) ≡ w (f n) = ap (λ k. w (f k)) e in omega (arith, q, sum-one n f i below)
    ]
    | no last ↦
        let e : i ≡ n = omega (arith, hi, last) in
        let low : j < n = omega (arith, hj, e, λ (q : j ≡ n). ne (omega (arith, e, q))) in
        let q : w (f i) ≡ w (f n) = ap (λ k. w (f k)) e in omega (arith, q, sum-one n f j low)
  ]

  -- If the sum is positive, some thread counts.
  pub sum-some : (n : ℕ) (f : ℕ → A) → 1 ≤ sum n f → (i : ℕ) × (i < n) × (1 ≤ w (f i))
  unfolding sum
  sum-some zero f h = absurd (omega (arith, h))
  sum-some (suc n) f h = elim (dec_lt 0 (w (f n))) [
    | yes here ↦ (n, omega arith, here)
    | no none_here ↦
        let (i, low, one) = sum-some n f (omega (arith, h, none_here)) in
        (i, omega (arith, low), one)
  ]

  pub sum-zero : (n : ℕ) (f : ℕ → A) → ((i : ℕ) → w (f i) ≡ 0) → sum n f ≡ 0
  unfolding sum
  sum-zero zero f h = refl
  sum-zero (suc n) f h = omega (arith, h n, sum-zero n f h)
