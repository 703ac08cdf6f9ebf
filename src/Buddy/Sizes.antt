-- ===== src/Buddy/Sizes.antt =====
-- The order of a size, and `mm_malloc`.
use system_software.Prelude.{
  ℕ, zero, suc, ◌+◌, ◌*◌, ◌^◌, ◌≡◌, ◌<◌, ◌≤◌, ◌⊎◌, inl, inr, refl, ap, ◌∙◌, subst, List, [], some,
  none, arith, dec_lt,
}
use system_software.Buddy.{Buddy, order_from, memsize_to_order, alloc_pages, mm_malloc}
use system_software.Buddy.Areas.{block, free_cover}
use system_software.Buddy.Alloc.{IsBuddy, alloc_pages_lem}

order_from_lem :
    (left i size : ℕ)
    → ((k : ℕ) × (order_from left i size ≡ some k)
        × (i ≤ k)
        × (k < i + left)
        × (size ≤ 256 * 2 ^ k)
        × ((j : ℕ) → i ≤ j → j < k → 256 * 2 ^ j < size))
      ⊎ ((order_from left i size ≡ none) × ((j : ℕ) → i ≤ j → j < i + left → 256 * 2 ^ j < size))
unfolding order_from
order_from_lem zero i size = inr (refl, λ j a b. absurd (omega (arith, a, b)))
order_from_lem (suc left) i size = elim (dec_lt (256 * 2 ^ i) size) [
  | no fits ↦ inl (
    i,
    ground (arith, fits),
    omega arith,
    omega arith,
    omega (arith, fits),
    λ j a b. absurd (omega (arith, a, b)),
  )
  | yes large ↦
      let here : (j : ℕ) → i ≤ j → (suc i ≤ j → 256 * 2 ^ j < size) → 256 * 2 ^ j < size =
        λ j a above. elim (dec_lt i j) [
          | yes up ↦ above up
          | no same ↦ subst (λ t. 256 * 2 ^ t < size) (omega (arith, a, same)) large
        ] in
      elim (order_from_lem left (suc i) size) [
        | inl (k, ran, low, high, fits, least) ↦ inl (
          k,
          ground (arith, large, ran),
          omega (arith, low),
          omega (arith, high),
          fits,
          λ j a b. here j a (λ up. least j up b),
        )
        | inr (ran, all) ↦
            inr (ground (arith, large, ran), λ j a b. here j a (λ up. all j up (omega (arith, b))))
      ]
]

-- The order is the least one, up to 16, whose block has room for the size; -1 is returned only if a
-- block of the order 16 has not.
pub memsize_to_order_lem :
    (size : ℕ)
    → ((k : ℕ) × (memsize_to_order size ≡ some k)
        × (k ≤ 16)
        × (size ≤ 256 * 2 ^ k)
        × ((j : ℕ) → j < k → 256 * 2 ^ j < size))
      ⊎ ((memsize_to_order size ≡ none) × (256 * 2 ^ 16 < size))
unfolding memsize_to_order
memsize_to_order_lem size = elim (order_from_lem 17 0 size) [
  | inl (k, ran, low, high, fits, least) ↦
      inl (k, ran, omega (arith, high), fits, λ j b. least j (omega arith) b)
  | inr (ran, all) ↦ inr (ran, all 16 (omega arith) (omega arith))
]

malloc_run :
    (s : Buddy) (size k : ℕ)
    → memsize_to_order size ≡ some k
    → mm_malloc s size ≡ alloc_pages s (some k)
unfolding mm_malloc
malloc_run s size k e = ap (λ t. alloc_pages s t) e

-- On well-formed areas, for a request of up to half the memory, `mm_malloc` returns. Either it gives
-- out a block with room for the size, of the least order for it, whose pages were free and are exactly
-- those that are free no longer; the areas stay well formed. Or it returns NULL and changes nothing,
-- and no block of that order or of a larger one is free.
pub mm_malloc-IsBuddy :
    (s : Buddy) (lists : ℕ → List ℕ) (size : ℕ)
    → IsBuddy s lists
    → size ≤ 2 ^ 23
    → (k : ℕ) × (size ≤ 256 * 2 ^ k)
      × ((j : ℕ) → j < k → 256 * 2 ^ j < size)
      × (((s' : Buddy) × (q : ℕ) × (lists' : ℕ → List ℕ) × (mm_malloc s size
              ≡ some (s', some (256 * q)))
            × IsBuddy s' lists'
            × ((x : ℕ) → free_cover lists' x + block k q x ≡ free_cover lists x)
            × (s'.order q ≡ k))
          ⊎ ((mm_malloc s size ≡ some (s, none)) × ((j : ℕ) → k ≤ j → j < 16 → lists j ≡ [])))
mm_malloc-IsBuddy s lists size v small = elim (memsize_to_order_lem size) [
  | inr (ran, large) ↦ absurd (omega (arith, small, large))
  | inl (k, ran, high, fits, least) ↦
      let h : k < 16 = elim (dec_lt k 16) [
        | yes y ↦ y
        | no n ↦ absurd (omega (arith, least 15 (omega (arith, n)), small))
      ] in
      (
        k,
        fits,
        least,
        elim (alloc_pages_lem s lists k v h) [
          | inl (s', q, lists', got, w, total, ordered) ↦
              inl (s', q, lists', malloc_run s size k ran ∙ got, w, total, ordered)
          | inr (got, empty) ↦ inr (malloc_run s size k ran ∙ got, empty)
        ],
      )
]
