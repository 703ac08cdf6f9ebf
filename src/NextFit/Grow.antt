-- ===== src/NextFit/Grow.antt =====
-- `extend_heap` puts a free block at the end of the heap.
use Prim.{tt}
use system_software.Prelude.{
  ℕ, zero, suc, ◌+◌, ◌-◌, ◌*◌, ◌%◌, ◌^◌, ◌==◌, ◌≡◌, ◌<◌, ◌≤◌, inl, refl, sym, ap, ◌∙◌, subst, List,
  [], ◌∷◌, ◌++◌, Bool, true, false, some, get_elem?, set, length, arith, append_assoc,
  length-append, if◌then◌else◌,
}
use system_software.NextFit.{
  Mem, Heap, Sbrk, pack, next_block_bp, put_header, put_footer, coalesce, extend_heap,
}
use system_software.NextFit.Layout.{
  Block, free_block, tag, span, width, Laid, pack-tag, put_lem, next_block_bp-At,
}
use system_software.NextFit.Write.{
  width-append, put_tags, get_elem?-set, set-Same, Laid-Same, Laid-append, At-Same,
}
use system_software.NextFit.Merge.{header_p-suc}
use system_software.NextFit.Coalesce.{Closed, merged, merged_when, merged_at}
use system_software.NextFit.Invariant.{prologue, IsHeap}
use system_software.NextFit.Search.{Fit}
use system_software.NextFit.Free.{coalesce_lem}

-- What memlib.c says of `mem_sbrk`: the heap grows at its end by so many bytes, or the call fails; and
-- the heap has a largest size, below 2 ^ 31 bytes.
pub record Grows (mem_sbrk : Sbrk) : Type 0 where
  pub grown :
      (mem mem' : Mem) (incr : ℕ)
      → mem_sbrk mem incr ≡ some mem'
      → (fresh : Mem) × (mem' ≡ mem ++ fresh) × (4 * length fresh ≡ incr)
  pub limit : (mem mem' : Mem) (incr : ℕ) → mem_sbrk mem incr ≡ some mem' → 4 * length mem' < 2 ^ 31

get_elem?-append :
    (mem fresh : Mem) (i w : ℕ) → get_elem? mem i ≡ some w → get_elem? (mem ++ fresh) i ≡ some w
get_elem?-append [] fresh i w h = absurd (ground (arith, h))
get_elem?-append (x ∷ mem) fresh zero w h = h
get_elem?-append (x ∷ mem) fresh (suc i) w h = get_elem?-append mem fresh i w h

pub word_at : (mem : Mem) (i : ℕ) → i < length mem → (w : ℕ) × (get_elem? mem i ≡ some w)
word_at [] i h = absurd (omega (arith, h))
word_at (x ∷ mem) zero h = (x, refl)
word_at (x ∷ mem) (suc i) h = word_at mem i (omega (arith, h))

Laid-grow : (mem fresh : Mem) (h : ℕ) (bs : List Block) → Laid mem h bs → Laid (mem ++ fresh) h bs
Laid-grow mem fresh h [] v = tt
Laid-grow mem fresh h (b ∷ bs) (at_b, v) = (
  record {
    pos = at_b.pos;
    small = at_b.small;
    header = get_elem?-append mem fresh h (tag b) at_b.header;
    footer = get_elem?-append mem fresh (h + span b - 1) (tag b) at_b.footer;
  },
  Laid-grow mem fresh (h + span b) bs v,
)

-- The free block is written over the end of the heap, and a new end behind it.
new_block :
    (mem fresh : Mem) (bs : List Block) (u : ℕ)
    → Laid mem 1 bs
    → length mem ≡ 2 + width bs
    → length fresh ≡ 2 * u
    → 1 ≤ u
    → 8 * u < 2 ^ 31
    → (m1 m2 m3 : Mem) × (put_header (mem ++ fresh) (length mem) (pack (8 * u) 0) ≡ some m1)
      × (put_footer m1 (length mem) (pack (8 * u) 0) ≡ some m2)
      × (next_block_bp m2 (length mem) ≡ some (length mem + 2 * u))
      × (put_header m2 (length mem + 2 * u) (pack 0 1) ≡ some m3)
      × (length m3 ≡ length mem + 2 * u)
      × Closed m3 1 (bs ++ free_block u ∷ [])
unfolding put_header
new_block mem fresh bs u v ends more pos small =
    let big = mem ++ fresh in
    let e = 1 + width bs in
    let free = free_block u in
    let size = length-append mem fresh in
    let (w, last) = word_at big (e + span free - 1) (omega (arith, size, ends, more, pos)) in
    let (m1, m2, p1, p2, at_f, same) =
      put_tags big e (pack (8 * u) 0) w free (pack-tag free) pos small last in
    let bp : e + 1 ≡ length mem = omega (arith, ends) in
    let end = e + span free in
    let (x, at_end) = word_at m2 end (omega (arith, same.size, size, ends, more)) in
    let m3 = set m2 end 1 in
    let same' = set-Same m2 end 1 end (end + 1) (omega arith) (omega arith) in
    let low = Laid-Same big m2 e end 1 bs same (inl (omega arith)) (Laid-grow mem fresh 1 bs v) in
    let low' = Laid-Same m2 m3 end (end + 1) 1 bs same' (inl (omega arith)) low in
    let at_f' = At-Same m2 m3 end (end + 1) e free same' (inl (omega arith)) at_f in
    let next : e + span free + 1 ≡ length mem + 2 * u = omega (arith, ends) in
    let stop : 1 + width (bs ++ free ∷ []) ≡ end = omega (arith, width-append bs (free ∷ [])) in
    (
      m1,
      m2,
      m3,
      subst (λ i. put_header big i (pack (8 * u) 0) ≡ some m1) bp p1,
      subst (λ i. put_footer m1 i (pack (8 * u) 0) ≡ some m2) bp p2,
      subst (λ i. next_block_bp m2 i ≡ some (length mem + 2 * u)) bp
          (next_block_bp-At m2 e free at_f ∙ ap some next),
      subst (λ i. put_header m2 i (pack 0 1) ≡ some m3) next
          (ground (arith, header_p-suc end, put_lem m2 end 1 x at_end)),
      omega (arith, same'.size, same.size, size, more),
      (
        Laid-append m3 1 bs (free ∷ []) low' (at_f', tt),
        subst (λ i. get_elem? m3 i ≡ some 1) (sym stop) (get_elem?-set m2 end 1 x at_end),
      ),
    )

-- The blocks after a free block of `u` double words is put at the end, and merged.
abbrev pub grow : List Block → ℕ → List Block
grow [] u = free_block u ∷ []
grow (p ∷ []) u = merged p (free_block u) []
grow (p ∷ q ∷ r) u = p ∷ grow (q ∷ r) u

-- The last block of a heap.
split_last :
    (p : Block) (r : List Block) (u : ℕ)
    → (l : List Block) × (b : Block) × (p ∷ r ≡ l ++ b ∷ [])
      × (grow (p ∷ r) u ≡ l ++ merged b (free_block u) [])
split_last p [] u = ([], p, refl, refl)
split_last p (q ∷ r) u =
    let (l, b, e, g) = split_last q r u in (p ∷ l, b, ap (λ k. p ∷ k) e, ap (λ k. p ∷ k) g)

-- The block that comes of the new one holds it.
merged-Fit :
    (l : List Block) (p : Block) (u : ℕ)
    → Fit (8 * u) 1 (l ++ merged p (free_block u) []) (merged_at (1 + width l) p + 1)
merged-Fit l p u = cases p.used
  where
    cases :
        (c : Bool)
        → Fit
            (8 * u)
            1
            (l ++ merged_when c p (free_block u) [])
            ((if c then 1 + width l + span p else 1 + width l) + 1)
    cases true = (
      l ++ p ∷ [],
      free_block u,
      [],
      sym (append_assoc l (p ∷ []) (free_block u ∷ [])),
      refl,
      omega arith,
      omega (arith, width-append l (p ∷ [])),
    )
    cases false = (l, free_block (u + p.units), [], refl, refl, omega arith, omega arith)

extend_run :
    (mem_sbrk : Sbrk) (s s' : Heap) (u : ℕ) (m m1 m2 m3 : Mem)
    → mem_sbrk s.mem (8 * u) ≡ some m
    → put_header m (length s.mem) (pack (8 * u) 0) ≡ some m1
    → put_footer m1 (length s.mem) (pack (8 * u) 0) ≡ some m2
    → next_block_bp m2 (length s.mem) ≡ some (length s.mem + 2 * u)
    → put_header m2 (length s.mem + 2 * u) (pack 0 1) ≡ some m3
    → coalesce (record s { mem = m3 }) (length s.mem) ≡ some (s', s'.last_bp)
    → extend_heap mem_sbrk s (2 * u) ≡ some (s', some s'.last_bp)
unfolding extend_heap
extend_run mem_sbrk s s' u m m1 m2 m3 gave e1 e2 e3 e4 ran =
    let even : (2 * u % 2 == 0) ≡ true = ground arith in
    let size : (if 2 * u % 2 == 0 then 2 * u * 4 else (2 * u + 1) * 4) ≡ 8 * u =
      ap (λ c. if c then 2 * u * 4 else (2 * u + 1) * 4) even ∙ omega arith in
    ground (arith, size, gave, e1, e2, e3, e4, ran)

-- `extend_heap` when `mem_sbrk` gives the bytes, whatever `last_bp` was: the heap has a free block with
-- room for them at its end.
pub extend_heap_lem :
    (mem_sbrk : Sbrk) (s : Heap) (bs : List Block) (u other : ℕ) (mem' : Mem)
    → Grows mem_sbrk
    → IsHeap s bs
    → 1 ≤ u
    → mem_sbrk s.mem (8 * u) ≡ some mem'
    → (s' : Heap) × (extend_heap mem_sbrk (record s { last_bp = other }) (2 * u)
        ≡ some (s', some s'.last_bp))
      × IsHeap s' (grow bs u)
      × Fit (8 * u) 1 (grow bs u) s'.last_bp
extend_heap_lem mem_sbrk s bs u other mem' g v pos gave =
    let (fresh, e, more) = g.grown s.mem mem' (8 * u) gave in
    let most = g.limit s.mem mem' (8 * u) gave in
    let size : length mem' ≡ length s.mem + length fresh =
      ap length e ∙ length-append s.mem fresh in
    let (t, f) = v.first in
    let (l, p, q, gr) = split_last prologue t u in
    let (m1, m2, m3, e1, e2, e3, e4, long, closed) =
      new_block s.mem fresh bs u v.closed.0 v.ends (omega (arith, more)) pos
        (omega (arith, more, most, size)) in
    let free = free_block u in
    let q' : bs ++ free ∷ [] ≡ l ++ p ∷ free ∷ [] =
      ap (λ k. k ++ free ∷ []) (f ∙ q) ∙ append_assoc l (p ∷ []) (free ∷ []) in
    let first : l ++ p ∷ free ∷ [] ≡ prologue ∷ (t ++ free ∷ []) =
      sym q' ∙ ap (λ k. k ++ free ∷ []) f in
    let wide : width bs ≡ width l + span p =
      ap width (f ∙ q) ∙ omega (arith, width-append l (p ∷ [])) in
    let (s', ran, good, at_last) =
      coalesce_lem (record s { mem = m3; last_bp = other }) l p free [] (t ++ free ∷ [], first)
        (subst (λ k. Closed m3 1 k) q' closed)
        (omega (arith, long, v.ends, wide, width-append l (p ∷ free ∷ [])))
        (omega (arith, long, more, most, size)) v.start in
    let here : width l + span p + 2 ≡ length s.mem = omega (arith, wide, v.ends) in
    let ran' =
      subst (λ i. coalesce (record s { mem = m3; last_bp = other }) i ≡ some (s', s'.last_bp)) here
        ran in
    let blocks : l ++ merged p free [] ≡ grow bs u = sym gr ∙ ap (λ k. grow k u) (sym f) in
    (
      s',
      extend_run mem_sbrk (record s { last_bp = other }) s' u mem' m1 m2 m3 gave
          (subst (λ k. put_header k (length s.mem) (pack (8 * u) 0) ≡ some m1) (sym e) e1) e2 e3 e4
          ran',
      subst (λ k. IsHeap s' k) blocks good,
      subst (λ k. Fit (8 * u) 1 (grow bs u) k) (sym at_last)
          (subst (λ k. Fit (8 * u) 1 k (merged_at (1 + width l) p + 1)) blocks (merged-Fit l p u)),
    )
