-- ===== src/NextFit/Invariant.antt =====
-- The heap of the allocator as a list of blocks, and `next_fit` on it.
use system_software.Prelude.{
  ℕ, zero, suc, ◌+◌, ◌*◌, ◌^◌, ◌≡◌, ◌<◌, ◌≤◌, ◌⊎◌, inl, inr, refl, sym, ap, ◌∙◌, subst, List, [],
  ◌∷◌, ◌++◌, true, some, none, get_elem?, length, arith, append_assoc, length-append,
}
use system_software.NextFit.{Mem, Heap, scan_up, scan_to, next_fit}
use system_software.NextFit.Layout.{Block, used_block, span, width, Laid, Same}
use system_software.NextFit.Write.{width-append, Laid-append, Laid-split, Laid-Same}
use system_software.NextFit.Coalesce.{Closed, rest-Same}
use system_software.NextFit.Search.{
  NoneLarger, Fit, Fit-cons, scan_up_lem, scan_to_lem, scan_to-end,
}

-- The first block is 8 bytes and in use, and never freed.
abbrev pub prologue : Block
prologue = used_block 1

-- The address `bp` is that of a block of the list.
abbrev pub Starts : List Block → ℕ → Type 0
Starts bs bp =
    (l : List Block) × (b : Block) × (r : List Block) × (bs ≡ l ++ b ∷ r) × (bp ≡ width l + 2)

-- The heap consists of the blocks, and the variables stand at blocks.
pub record IsHeap (s : Heap) (bs : List Block) : Type 0 where
  pub first : (r : List Block) × (bs ≡ prologue ∷ r)
  pub closed : Closed s.mem 1 bs
  pub ends : length s.mem ≡ 2 + width bs
  pub room : 4 * length s.mem < 2 ^ 31
  pub start : s.start_bp ≡ 2
  pub roving : Starts bs s.last_bp

pub Closed-append :
    (mem : Mem) (h : ℕ) (l r : List Block)
    → Laid mem h l
    → Closed mem (h + width l) r
    → Closed mem h (l ++ r)
Closed-append mem h l r v (w, last) =
    let e : h + width l + width r ≡ h + width (l ++ r) = omega (arith, width-append l r) in
    (Laid-append mem h l r v w, subst (λ i. get_elem? mem i ≡ some 1) e last)

pub Closed-split :
    (mem : Mem) (h : ℕ) (l r : List Block)
    → Closed mem h (l ++ r)
    → Laid mem h l × Closed mem (h + width l) r
Closed-split mem h l r (v, last) =
    let (vl, vr) = Laid-split mem h l r v in
    let e : h + width (l ++ r) ≡ h + width l + width r = omega (arith, width-append l r) in
    (vl, (vr, subst (λ i. get_elem? mem i ≡ some 1) e last))

-- A change behind the blocks `l`.
pub change-behind :
    (mem m : Mem) (h hi : ℕ) (l r r' : List Block)
    → Closed mem h (l ++ r)
    → Same mem m (h + width l) hi
    → Closed m (h + width l) r'
    → Closed m h (l ++ r')
change-behind mem m h hi l r r' v same w =
    let (vl, vr) = Closed-split mem h l r v in
    Closed-append m h l r' (Laid-Same mem m (h + width l) hi h l same (inl (omega arith)) vl) w

-- A block that is replaced by others of the same width.
pub change-block :
    (mem m : Mem) (h : ℕ) (b : Block) (bs r : List Block)
    → Closed mem h (b ∷ r)
    → Same mem m h (h + span b)
    → Laid m h bs
    → width bs ≡ span b
    → Closed m h (bs ++ r)
change-block mem m h b bs r ((at_b, v), last) same w e =
    let q : h + width (b ∷ r) ≡ h + span b + width r = omega arith in
    let rest =
      rest-Same mem m h (h + span b) (h + span b) r same (omega arith)
        (v, subst (λ i. get_elem? mem i ≡ some 1) q last) in
    let at_r : h + span b ≡ h + width bs = omega (arith, e) in
    Closed-append m h bs r w (subst (λ k. Closed m k r) at_r rest)

pub length-le-width : (mem : Mem) (h : ℕ) (bs : List Block) → Laid mem h bs → length bs ≤ width bs
length-le-width mem h [] v = omega arith
length-le-width mem h (b ∷ bs) (at_b, v) =
    omega (arith, at_b.pos, length-le-width mem (h + span b) bs v)

Fit-append :
    (adj h : ℕ) (l r : List Block) (bp : ℕ) → Fit adj (h + width l) r bp → Fit adj h (l ++ r) bp
Fit-append adj h l r bp (l', f, r', q, u, s, p) = (
  l ++ l',
  f,
  r',
  ap (λ t. l ++ t) q ∙ sym (append_assoc l l' (f ∷ r')),
  u,
  s,
  omega (arith, p, width-append l l'),
)

NoneLarger-append :
    (adj : ℕ) (l r : List Block) → NoneLarger adj l → NoneLarger adj r → NoneLarger adj (l ++ r)
NoneLarger-append adj [] r a b = b
NoneLarger-append adj (x ∷ l) r a b = (a.0, NoneLarger-append adj l r a.1 b)

-- The search from the first block to `last_bp`.
below_lem :
    (fuel : ℕ) (mem : Mem) (adj last : ℕ) (l : List Block) (c : Block) (r : List Block)
    → Closed mem 1 (l ++ c ∷ r)
    → ((t : List Block) × (l ++ c ∷ r ≡ prologue ∷ t))
    → last ≡ width l + 2
    → length l < fuel
    → NoneLarger adj r
    → ((bp : ℕ) × (scan_to fuel mem adj last 2 ≡ some (some bp)) × Fit adj 1 (l ++ c ∷ r) bp)
      ⊎ ((scan_to fuel mem adj last 2 ≡ some none) × NoneLarger adj (l ++ c ∷ r))
below_lem zero mem adj last l c r v f e fu all = absurd (omega (arith, fu))
below_lem (suc fuel) mem adj last [] c r v (t, f) e fu all =
    let at_start : last ≡ 2 = omega (arith, e) in
    let used : c.used ≡ true = ground (arith, f) in
    inr (
      subst (λ i. scan_to (suc fuel) mem adj i 2 ≡ some none) (sym at_start)
          (scan_to-end fuel mem adj 2),
      ((λ u. ground (arith, used, u)), all),
    )
below_lem (suc fuel) mem adj last (x ∷ l) c r v (t, f) e fu all =
    let used : x.used ≡ true = ground (arith, f) in
    elim (scan_to_lem (suc fuel) mem adj 1 last x l c r v (omega (arith, e)) (omega (arith, fu))) [
      | inl (bp, ran, fit) ↦ inl (bp, ran, Fit-cons adj 1 (1 + span x) x (l ++ c ∷ r) bp refl fit)
      | inr (ran, some_left) ↦ inr (
        ran,
        (
          (λ u. ground (arith, used, u)),
          subst (λ k. NoneLarger adj k) (append_assoc l (c ∷ []) r)
              (NoneLarger-append adj (l ++ c ∷ []) r some_left all),
        ),
      )
    ]

-- On a well-formed heap `next_fit` ends. It returns a free block that is large enough, which becomes
-- `last_bp`, or NULL if no free block is larger than the size; the heap stays.
pub next_fit_lem :
    (s : Heap) (bs : List Block) (adj : ℕ)
    → IsHeap s bs
    → ((bp : ℕ) × (next_fit s adj ≡ some (record s { last_bp = bp }, some bp)) × Fit adj 1 bs bp)
      ⊎ ((next_fit s adj ≡ some (s, none)) × NoneLarger adj bs)
unfolding next_fit
next_fit_lem s bs adj v =
    let (l, c, r, q, p) = v.roving in
    let fuel = length s.mem + 1 in
    let closed = subst (λ k. Closed s.mem 1 k) q v.closed in
    let (t, f) = v.first in
    let few = length-le-width s.mem 1 bs v.closed.0 in
    let parts : length bs ≡ length l + suc (length r) = ap length q ∙ length-append l (c ∷ r) in
    let up =
      scan_up_lem fuel s.mem adj (1 + width l) c r (Closed-split s.mem 1 l (c ∷ r) closed).1
        (omega (arith, few, parts, v.ends)) in
    let here : 1 + width l + 1 ≡ s.last_bp = omega (arith, p) in
    let down = λ (all : NoneLarger adj r).
      below_lem fuel s.mem adj s.last_bp l c r closed (t, sym q ∙ f) p
        (omega (arith, few, parts, v.ends)) all in
    elim up [
      | inl (bp, ran, fit) ↦ inl (
        bp,
        ground (arith, subst (λ i. scan_up fuel s.mem adj i ≡ some (some bp)) here ran),
        subst (λ k. Fit adj 1 k bp) (sym q)
            (Fit-append adj 1 l (c ∷ r) bp
              (Fit-cons adj (1 + width l) (1 + width l + span c) c r bp refl fit)),
      )
      | inr (ran, all) ↦
          let ran' = subst (λ i. scan_up fuel s.mem adj i ≡ some none) here ran in
          elim (down all) [
            | inl (bp, ran'', fit) ↦
                inl (
                  bp,
                  ground (arith, ran', ran'', v.start),
                  subst (λ k. Fit adj 1 k bp) (sym q) fit,
                )
            | inr (ran'', none_left) ↦ inr (
              ground (arith, ran', ran'', v.start),
              subst (λ k. NoneLarger adj k) (sym q) none_left,
            )
          ]
    ]
