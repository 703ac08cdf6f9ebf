-- ===== src/NextFit/Malloc.antt =====
-- `mm_malloc` finds or makes a free block, and takes what it needs of it.
use system_software.Prelude.{
  ℕ, ◌+◌, ◌-◌, ◌*◌, ◌/◌, ◌%◌, ◌^◌, ◌==◌, ◌≡◌, ◌<◌, ◌≤◌, ◌⊎◌, inl, inr, refl, sym, ap, ◌∙◌, subst,
  List, [], ◌∷◌, ◌++◌, true, false, some, none, arith, if◌then◌else◌, Option-cases, ltb, dec_lt,
}
use system_software.NextFit.{
  Heap, Sbrk, chunk_size, add32, mark, next_fit, extend_heap, adjusted, hand_out, mm_malloc,
}
use system_software.NextFit.Layout.{Block, free_block, used_block, span, width}
use system_software.NextFit.Write.{width-append}
use system_software.NextFit.Mark.{placed, mark_lem}
use system_software.NextFit.Coalesce.{Closed}
use system_software.NextFit.Invariant.{
  prologue, IsHeap, Closed-split, change-behind, change-block, next_fit_lem,
}
use system_software.NextFit.Search.{NoneLarger, Fit}
use system_software.NextFit.Grow.{Grows, grow, extend_heap_lem}

-- The blocks that take the place of a block begin with one in use, of `a` double words at least.
placed-used :
    (a : ℕ) (f : Block)
    → a ≤ f.units
    → (u : ℕ) × (t : List Block) × (placed a f ≡ used_block u ∷ t)
      × (a ≤ u)
      × (width (placed a f) ≡ span f)
placed-used a f le = elim (dec_lt (f.units - a) 2) [
  | yes few ↦ (f.units, [], ground (arith, few), le, ground (arith, few))
  | no many ↦ (
    a,
    free_block (f.units - a) ∷ [],
    ground (arith, many),
    omega arith,
    ground (arith, many, le),
  )
]

-- A free block is not the first.
behind_first :
    (l : List Block) (f : Block) (r t k : List Block)
    → l ++ f ∷ r ≡ prologue ∷ t
    → f.used ≡ false
    → (t' : List Block) × (l ++ k ≡ prologue ∷ t')
behind_first [] f r t k e u =
    let used : f.used ≡ true = ground (arith, e) in absurd (ground (arith, used, u))
behind_first (x ∷ l) f r t k e u = let q : x ≡ prologue = ground (arith, e) in (l ++ k, rw q)

-- A free block of the list `old` is given out at `bp`, for a request of `size` bytes.
abbrev pub GivenOut : ℕ → ℕ → List Block → Heap → ℕ → Type 0
GivenOut size a old s bp =
    (l : List Block) × (f : Block) × (r : List Block) × (u : ℕ) × (t : List Block) × (old
      ≡ l ++ f ∷ r)
    × (f.used ≡ false)
    × (placed a f ++ r ≡ used_block u ∷ t)
    × (size + 8 ≤ 8 * u)
    × (bp ≡ width l + 2)
    × IsHeap s (l ++ used_block u ∷ t)

pub hand_out_lem :
    (s : Heap) (bs : List Block) (size a bp other : ℕ)
    → IsHeap s bs
    → 1 ≤ a
    → size + 8 ≤ 8 * a
    → Fit (8 * a) 1 bs bp
    → (s' : Heap) × (hand_out (record s { last_bp = other }) bp (8 * a) ≡ some (s', some bp))
      × GivenOut size a bs s' bp
unfolding hand_out
hand_out_lem s bs size a bp other v pos room (l, f, r, q, free, le, p) =
    let (u, t, e, big, wide) = placed-used a f (omega (arith, le)) in
    let h = 1 + width l in
    let closed = subst (λ k. Closed s.mem 1 k) q v.closed in
    let (vl, vr) = Closed-split s.mem 1 l (f ∷ r) closed in
    let (m, ran, laid, same) = mark_lem s.mem h a f vr.0.0 pos (omega (arith, le)) in
    let here : h + 1 ≡ bp = omega (arith, p) in
    let back = change-block s.mem m h f (placed a f) r vr same laid wide in
    let e' : placed a f ++ r ≡ used_block u ∷ (t ++ r) = ap (λ k. k ++ r) e in
    let back' = subst (λ k. Closed m h k) e' back in
    let first = behind_first l f r v.first.0 (used_block u ∷ (t ++ r)) (sym q ∙ v.first.1) free in
    let s' : Heap = record s { mem = m; last_bp = bp } in
    let same_width : width (used_block u ∷ (t ++ r)) ≡ width (f ∷ r) =
      ap width (sym e') ∙ omega (arith, width-append (placed a f) r, wide) in
    (
      s',
      ground (arith, subst (λ i. mark s.mem i (8 * a) ≡ some m) here ran),
      (
        l,
        f,
        r,
        u,
        t ++ r,
        q,
        free,
        e',
        omega (arith, room, big),
        omega (arith, p),
        record {
          first = first;
          closed =
              change-behind s.mem m 1 (h + span f) l (f ∷ r) (used_block u ∷ (t ++ r)) closed same
                back';
          ends = omega (
            arith,
            same.size,
            v.ends,
            ap width q,
            width-append l (f ∷ r),
            width-append l (used_block u ∷ (t ++ r)),
            same_width,
          );
          room = omega (arith, same.size, v.room);
          start = v.start;
          roving = (l, used_block u, t ++ r, refl, omega (arith, p));
        },
      ),
    )

-- The size of the block: a multiple of 8, with room for the request and for header and footer.
pub adjusted_lem :
    (size : ℕ)
    → 1 ≤ size
    → size + 15 < 2 ^ 32
    → (adjusted size ≡ 8 * (adjusted size / 8))
      × (2 ≤ adjusted size / 8)
      × (size + 8 ≤ adjusted size)
      × (adjusted size ≤ size + 15)
unfolding adjusted
adjusted_lem size pos small = elim (dec_lt 8 size) [
  | yes more ↦
      let wide : add32 size 15 ≡ size + 15 = omega (arith, small) in
      (
        ground (arith, more),
        ground (arith, more, wide),
        ground (arith, more, wide),
        ground (arith, more, wide),
      )
  | no few ↦
      (ground (arith, few), ground (arith, few), ground (arith, few), ground (arith, few, pos))
]

-- The double words that the heap is extended by.
abbrev pub more_units : ℕ → ℕ
more_units a = if ltb 512 a then a else 512

more_units_lem :
    (a : ℕ)
    → 2 ≤ a
    → ((if ltb chunk_size (8 * a) then 8 * a else chunk_size) / 4 ≡ 2 * more_units a)
      × (a ≤ more_units a)
more_units_lem a pos = elim (dec_lt 512 a) [
  | yes more ↦ (ground (arith, more), ground (arith, more))
  | no few ↦ (ground (arith, few), ground (arith, few))
]

-- `mm_malloc` when the search has found a block, and when it has not.
module _ (mem_sbrk : Sbrk) (s : Heap) (size a : ℕ) (pos : 1 ≤ size)
    (e : adjusted size ≡ 8 * a) where
  found_run :
      (s0 s' : Heap) (bp : ℕ)
      → next_fit s (8 * a) ≡ some (s0, some bp)
      → hand_out s0 bp (8 * a) ≡ some (s', some bp)
      → mm_malloc mem_sbrk s size ≡ some (s', some bp)
  unfolding mm_malloc
  found_run s0 s' bp found out = ground (arith, pos, e, found, out)

  module _ (u : ℕ) (words : (if ltb chunk_size (8 * a) then 8 * a else chunk_size) / 4 ≡ 2 * u)
      (missed : next_fit s (8 * a) ≡ some (s, none)) where
    grown_run :
        (s0 s' : Heap) (bp : ℕ)
        → extend_heap mem_sbrk s (2 * u) ≡ some (s0, some bp)
        → hand_out s0 bp (8 * a) ≡ some (s', some bp)
        → mm_malloc mem_sbrk s size ≡ some (s', some bp)
    unfolding mm_malloc
    grown_run s0 s' bp grown out = ground (arith, pos, e, missed, words, grown, out)

    refused_run : mem_sbrk s.mem (8 * u) ≡ none → mm_malloc mem_sbrk s size ≡ some (s, none)
    unfolding mm_malloc extend_heap
    refused_run gave =
        let even : (2 * u % 2 == 0) ≡ true = ground arith in
        let bytes : (if 2 * u % 2 == 0 then 2 * u * 4 else (2 * u + 1) * 4) ≡ 8 * u =
          ap (λ c. if c then 2 * u * 4 else (2 * u + 1) * 4) even ∙ omega arith in
        ground (arith, pos, e, missed, words, bytes, gave)

-- On a well-formed heap, with a `mem_sbrk` that does what memlib.c says: for a request of at least a
-- byte, of a size that does not wrap around, `mm_malloc` returns. Either it gives out the front of a
-- free block, with room for the bytes and for header and footer; the block is one of the heap, or of
-- the heap with a free block put at its end. All other blocks stay as they are, and the heap stays well
-- formed. Or it returns NULL and changes nothing: no free block of the heap is larger than the adjusted
-- size, and `mem_sbrk` has refused the bytes.
pub mm_malloc_lem :
    (mem_sbrk : Sbrk) (s : Heap) (bs : List Block) (size : ℕ)
    → Grows mem_sbrk
    → IsHeap s bs
    → 1 ≤ size
    → size + 15 < 2 ^ 32
    → ((s' : Heap) × (bp : ℕ) × (old : List Block) × (mm_malloc mem_sbrk s size
          ≡ some (s', some bp))
        × ((old ≡ bs) ⊎ (old ≡ grow bs (more_units (adjusted size / 8))))
        × GivenOut size (adjusted size / 8) old s' bp)
      ⊎ ((mm_malloc mem_sbrk s size ≡ some (s, none))
          × NoneLarger (adjusted size) bs
          × (mem_sbrk s.mem (8 * more_units (adjusted size / 8)) ≡ none))
mm_malloc_lem mem_sbrk s bs size g v pos small =
    let a = adjusted size / 8 in
    let (e, two, room, bound) = adjusted_lem size pos small in
    let (words, enough) = more_units_lem a two in
    let u = more_units a in
    let one : 1 ≤ a = omega (arith, two) in
    let holds : size + 8 ≤ 8 * a = omega (arith, room, e) in
    elim (next_fit_lem s bs (8 * a) v) [
      | inl (bp, found, fit) ↦
          let (s', out, given) = hand_out_lem s bs size a bp bp v one holds fit in
          inl (
            s',
            bp,
            bs,
            found_run mem_sbrk s size a pos e (record s { last_bp = bp }) s' bp found out,
            inl refl,
            given,
          )
      | inr (missed, all) ↦ elim (Option-cases (mem_sbrk s.mem (8 * u))) [
        | inl refused ↦ inr (
          refused_run mem_sbrk s size a pos e u words missed refused,
          subst (λ k. NoneLarger k bs) (sym e) all,
          refused,
        )
        | inr (mem', gave) ↦
            let (s0, grown, good, (l, f, r, q, free, le, p)) =
              extend_heap_lem mem_sbrk s bs u s.last_bp mem' g v (omega (arith, two, enough))
                gave in
            let (s', out, given) =
              hand_out_lem s0 (grow bs u) size a s0.last_bp s0.last_bp good one holds
                (l, f, r, q, free, omega (arith, le, enough), p) in
            inl (
              s',
              s0.last_bp,
              grow bs u,
              grown_run mem_sbrk s size a pos e u words missed s0 s' s0.last_bp grown out,
              inr refl,
              given,
            )
      ]
    ]
