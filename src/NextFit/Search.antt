-- ===== src/NextFit/Search.antt =====
-- The two searches of `next_fit`.
use Prim.{tt}
use system_software.Prelude.{
  ℕ, zero, suc, ◌+◌, ◌*◌, ◌≡◌, ◌<◌, ◌≤◌, ◌⊎◌, inl, inr, refl, sym, ap, ◌∙◌, subst, List, [], ◌∷◌,
  ◌++◌, true, false, not, ◌&&◌, some, none, get_elem?, length, arith, Bool-cases, ltb, leb, ◌==◌,
}
use system_software.NextFit.{Mem, get, get_size, scan_up, scan_to}
use system_software.NextFit.Layout.{Block, span, width, At, alloc-At, next_block_bp-At}
use system_software.NextFit.Merge.{header_p-suc}
use system_software.NextFit.Coalesce.{Closed, Closed-tail, epilogue-alloc}

-- No free block is larger.
abbrev pub NoneLarger : ℕ → List Block → Type 0
NoneLarger adj [] = Unit {0}
NoneLarger adj (b ∷ bs) = (b.used ≡ false → 8 * b.units ≤ adj) × NoneLarger adj bs

-- A free block of the list that is large enough, with its address when the list starts at `h`.
abbrev pub Fit : ℕ → ℕ → List Block → ℕ → Type 0
Fit adj h bs bp =
    (l : List Block) × (f : Block) × (r : List Block) × (bs ≡ l ++ f ∷ r)
    × (f.used ≡ false)
    × (adj ≤ 8 * f.units)
    × (bp ≡ h + width l + 1)

pub size-At : (mem : Mem) (h : ℕ) (b : Block) → At mem h b → get_size mem h ≡ some (8 * b.units)
unfolding get_size get
size-At mem h b v = ground (arith, v.header)

epilogue-size : (mem : Mem) (i : ℕ) → get_elem? mem i ≡ some 1 → get_size mem i ≡ some 0
unfolding get_size get
epilogue-size mem i h = ground (arith, h)

pub Fit-cons :
    (adj h k : ℕ) (b : Block) (bs : List Block) (bp : ℕ)
    → h + span b ≡ k
    → Fit adj k bs bp
    → Fit adj h (b ∷ bs) bp
Fit-cons adj h k b bs bp e (l, f, r, q, u, s, p) =
    (b ∷ l, f, r, ap (λ t. b ∷ t) q, u, s, omega (arith, p, e))

-- From a block on, the search ends: with a free block behind it that is larger, or at the end of the
-- heap if there is none.
pub scan_up_lem :
    (fuel : ℕ) (mem : Mem) (adj h : ℕ) (b : Block) (r : List Block)
    → Closed mem h (b ∷ r)
    → length r < fuel
    → ((bp : ℕ) × (scan_up fuel mem adj (h + 1) ≡ some (some bp)) × Fit adj (h + span b) r bp)
      ⊎ ((scan_up fuel mem adj (h + 1) ≡ some none) × NoneLarger adj r)
unfolding scan_up
scan_up_lem zero mem adj h b r v l = absurd (omega (arith, l))
scan_up_lem (suc fuel) mem adj h b [] v l =
    let at_b = v.0.0 in
    let k = h + span b in
    let e : h + width (b ∷ []) ≡ k = omega arith in
    let last = subst (λ i. get_elem? mem i ≡ some 1) e v.1 in
    inr (
      ground (
        arith,
        next_block_bp-At mem h b at_b,
        header_p-suc k,
        epilogue-alloc mem k last,
        epilogue-size mem k last,
      ),
      tt,
    )
scan_up_lem (suc fuel) mem adj h b (n ∷ r) v l =
    let at_b = v.0.0 in
    let k = h + span b in
    let rest = Closed-tail mem h b (n ∷ r) v in
    let at_n = rest.0.0 in
    let pos = at_n.pos in
    let go = scan_up_lem fuel mem adj k n r rest (omega (arith, l)) in
    let next = next_block_bp-At mem h b at_b in
    let head = header_p-suc k in
    let alloc = alloc-At mem k n at_n in
    let size = size-At mem k n at_n in
    let some_size : (8 * n.units == 0) ≡ false = ground (arith, pos) in
    elim (Bool-cases (not n.used && ltb adj (8 * n.units))) [
      | inl hit ↦ inl (
        k + 1,
        ground (arith, next, head, alloc, size, hit),
        ([], n, r, refl, ground (arith, hit), ground (arith, hit), omega arith),
      )
      | inr miss ↦
          let step : scan_up (suc fuel) mem adj (h + 1) ≡ scan_up fuel mem adj (k + 1) =
            ground (arith, next, head, alloc, size, miss, some_size) in
          elim go [
            | inl (bp, e, fit) ↦ inl (bp, step ∙ e, Fit-cons adj k (k + span n) n r bp refl fit)
            | inr (e, all) ↦ inr (step ∙ e, (λ u. ground (arith, miss, u), all))
          ]
    ]

-- The loop ends at the last block.
pub scan_to-end : (fuel : ℕ) (mem : Mem) (adj bp : ℕ) → scan_to (suc fuel) mem adj bp bp ≡ some none
unfolding scan_to
scan_to-end fuel mem adj bp = ground arith

-- A round of the loop, with the block behind.
scan_to-round :
    (fuel : ℕ) (mem : Mem) (adj last h : ℕ) (b n : Block) (r : List Block)
    → Closed mem h (b ∷ n ∷ r)
    → h + 1 < last
    → ((not n.used && leb adj (8 * n.units) ≡ true)
        × (scan_to (suc fuel) mem adj last (h + 1) ≡ some (some (h + span b + 1))))
      ⊎ ((not n.used && leb adj (8 * n.units) ≡ false)
          × (scan_to (suc fuel) mem adj last (h + 1) ≡ scan_to fuel mem adj last (h + span b + 1)))
unfolding scan_to
scan_to-round fuel mem adj last h b n r v lt =
    let at_b = v.0.0 in
    let k = h + span b in
    let at_n = (Closed-tail mem h b (n ∷ r) v).0.0 in
    let next = next_block_bp-At mem h b at_b in
    let head = header_p-suc k in
    let alloc = alloc-At mem k n at_n in
    let size = size-At mem k n at_n in
    elim (Bool-cases (not n.used && leb adj (8 * n.units))) [
      | inl hit ↦ inl (hit, ground (arith, lt, next, head, alloc, size, hit))
      | inr miss ↦ inr (miss, ground (arith, lt, next, head, alloc, size, miss))
    ]

-- From a block up to another one, likewise.
pub scan_to_lem :
    (fuel : ℕ) (mem : Mem) (adj h last : ℕ) (b : Block) (l : List Block) (c : Block)
    (t : List Block)
    → Closed mem h (b ∷ (l ++ c ∷ t))
    → last ≡ h + span b + width l + 1
    → length l + 1 < fuel
    → ((bp : ℕ) × (scan_to fuel mem adj last (h + 1) ≡ some (some bp))
        × Fit adj (h + span b) (l ++ c ∷ t) bp)
      ⊎ ((scan_to fuel mem adj last (h + 1) ≡ some none) × NoneLarger adj (l ++ c ∷ []))
scan_to_lem zero mem adj h last b l c t v e f = absurd (omega (arith, f))
scan_to_lem (suc zero) mem adj h last b l c t v e f = absurd (omega (arith, f))
scan_to_lem (suc (suc fuel)) mem adj h last b [] c t v e f =
    let k = h + span b in
    let at_end : last ≡ k + 1 = omega (arith, e) in
    let pos = v.0.0.pos in
    elim (scan_to-round (suc fuel) mem adj last h b c t v (omega (arith, e, pos))) [
      | inl (hit, ran) ↦
          inl (k + 1, ran, ([], c, t, refl, ground (arith, hit), ground (arith, hit), omega arith))
      | inr (miss, ran) ↦ inr (
        ran
            ∙ subst (λ i. scan_to (suc fuel) mem adj i (k + 1) ≡ some none) (sym at_end)
                (scan_to-end fuel mem adj (k + 1)),
        (λ u. ground (arith, miss, u), tt),
      )
    ]
scan_to_lem (suc (suc fuel)) mem adj h last b (n ∷ l) c t v e f =
    let k = h + span b in
    let pos = v.0.0.pos in
    let rest = Closed-tail mem h b (n ∷ (l ++ c ∷ t)) v in
    let go =
      scan_to_lem (suc fuel) mem adj k last n l c t rest (omega (arith, e)) (omega (arith, f)) in
    elim (scan_to-round (suc fuel) mem adj last h b n (l ++ c ∷ t) v (omega (arith, e, pos))) [
      | inl (hit, ran) ↦ inl (
        k + 1,
        ran,
        ([], n, l ++ c ∷ t, refl, ground (arith, hit), ground (arith, hit), omega arith),
      )
      | inr (miss, ran) ↦ elim go [
        | inl (bp, found, fit) ↦
            inl (bp, ran ∙ found, Fit-cons adj k (k + span n) n (l ++ c ∷ t) bp refl fit)
        | inr (found, all) ↦ inr (ran ∙ found, (λ u. ground (arith, miss, u), all))
      ]
    ]
