-- ===== src/NextFit/Free.antt =====
-- `mm_free` gives a block back, and merges it with the free blocks beside it.
use Prim.{tt}
use system_software.Prelude.{
  ◌+◌, ◌*◌, ◌^◌, ◌≡◌, ◌<◌, refl, sym, ap, ◌∙◌, subst, List, [], ◌∷◌, ◌++◌, Bool, true, false, some,
  length, arith, append_assoc, if◌then◌else◌,
}
use system_software.NextFit.{Heap, pack, size_of, put_header, put_footer, merge, coalesce, mm_free}
use system_software.NextFit.Layout.{Block, free_block, tag, span, width, pack-tag, size_of-At}
use system_software.NextFit.Write.{width-append, put_tags}
use system_software.NextFit.Coalesce.{
  Closed, join, join_when, merged, merged_when, merged_at, merge_lem, width-merged,
}
use system_software.NextFit.Invariant.{
  prologue, Starts, IsHeap, Closed-split, change-behind, change-block,
}

join-cons : (b : Block) (r : List Block) → (c : Block) × (t : List Block) × (join b r ≡ c ∷ t)
join-cons b [] = (b, [], refl)
join-cons b (n ∷ r) = cases n.used
  where
    cases : (u : Bool) → (c : Block) × (t : List Block) × (join_when u b n r ≡ c ∷ t)
    cases true = (b, n ∷ r, refl)
    cases false = (free_block (b.units + n.units), r, refl)

-- The merged block is one of the blocks.
merged-Starts :
    (l : List Block) (p b : Block) (r : List Block)
    → Starts (l ++ merged p b r) (merged_at (1 + width l) p + 1)
merged-Starts l p b r = cases p.used
  where
    cases :
        (u : Bool)
        → Starts (l ++ merged_when u p b r) ((if u then 1 + width l + span p else 1 + width l) + 1)
    cases true =
        let (c, t, e) = join-cons b r in
        (
          l ++ p ∷ [],
          c,
          t,
          ap (λ k. l ++ p ∷ k) e ∙ sym (append_assoc l (p ∷ []) (c ∷ t)),
          omega (arith, width-append l (p ∷ [])),
        )
    cases false =
        let (c, t, e) = join-cons (free_block (b.units + p.units)) r in
        (l, c, t, ap (λ k. l ++ k) e, omega arith)

-- The first block is in use, and stays the first.
merged-first :
    (l : List Block) (p b : Block) (r t : List Block)
    → l ++ p ∷ b ∷ r ≡ prologue ∷ t
    → (t' : List Block) × (l ++ merged p b r ≡ prologue ∷ t')
merged-first [] p b r t e =
    let q : p ≡ prologue = ground (arith, e) in
    (join b r, subst (λ k. merged k b r ≡ prologue ∷ join b r) (sym q) refl)
merged-first (x ∷ l) p b r t e =
    let q : x ≡ prologue = ground (arith, e) in (l ++ merged p b r, rw q)

-- `coalesce` on the heap: the blocks `p`, `b` and the next, if it is free, become one where they are
-- free, and `last_bp` stands at the block that `b` is then part of.
pub coalesce_lem :
    (s : Heap) (l : List Block) (p b : Block) (r : List Block)
    → ((t : List Block) × (l ++ p ∷ b ∷ r ≡ prologue ∷ t))
    → Closed s.mem 1 (l ++ p ∷ b ∷ r)
    → length s.mem ≡ 2 + width (l ++ p ∷ b ∷ r)
    → 4 * length s.mem < 2 ^ 31
    → s.start_bp ≡ 2
    → (s' : Heap) × (coalesce s (width l + span p + 2) ≡ some (s', s'.last_bp))
      × IsHeap s' (l ++ merged p b r)
      × (s'.last_bp ≡ merged_at (1 + width l) p + 1)
unfolding coalesce
coalesce_lem s l p b r (t, f) v ends room start =
    let hp = 1 + width l in
    let (vl, vr) = Closed-split s.mem 1 l (p ∷ b ∷ r) v in
    let wide = width-append l (p ∷ b ∷ r) in
    let (m, ran, closed, same) = merge_lem s.mem hp p b r vr (omega (arith, ends, room, wide)) in
    let bp = merged_at hp p + 1 in
    let here : hp + span p + 1 ≡ width l + span p + 2 = omega arith in
    let s' : Heap = record s { mem = m; last_bp = bp } in
    (
      s',
      ground (arith, subst (λ i. merge s.mem i ≡ some (m, bp)) here ran),
      record {
        first = merged-first l p b r t f;
        closed =
            change-behind s.mem m 1 (hp + width (p ∷ b ∷ r)) l (p ∷ b ∷ r) (merged p b r) v same
              closed;
        ends =
            omega (arith, same.size, ends, wide, width-append l (merged p b r), width-merged p b r);
        room = omega (arith, same.size, room);
        start = start;
        roving = merged-Starts l p b r;
      },
      refl,
    )

first_of :
    (l : List Block) (p b b' : Block) (r t : List Block)
    → l ++ p ∷ b ∷ r ≡ prologue ∷ t
    → (t' : List Block) × (l ++ p ∷ b' ∷ r ≡ prologue ∷ t')
first_of [] p b b' r t e = let q : p ≡ prologue = ground (arith, e) in (b' ∷ r, rw q)
first_of (x ∷ l) p b b' r t e = let q : x ≡ prologue = ground (arith, e) in (l ++ p ∷ b' ∷ r, rw q)

-- On a well-formed heap `mm_free` of a block other than the first returns. The block becomes free, and is
-- merged with the free blocks beside it; all other blocks stay as they are, and the heap well formed.
pub mm_free_lem :
    (s : Heap) (l : List Block) (p b : Block) (r : List Block)
    → IsHeap s (l ++ p ∷ b ∷ r)
    → (s' : Heap) × (mm_free s (width l + span p + 2) ≡ some s')
      × IsHeap s' (l ++ merged p (free_block b.units) r)
unfolding mm_free
mm_free_lem s l p b r v =
    let free = free_block b.units in
    let hb = 1 + width (l ++ p ∷ []) in
    let wide = width-append l (p ∷ []) in
    let at_l = sym (append_assoc l (p ∷ []) (b ∷ r)) in
    let closed = subst (λ k. Closed s.mem 1 k) at_l v.closed in
    let (vl, vr) = Closed-split s.mem 1 (l ++ p ∷ []) (b ∷ r) closed in
    let at_b = vr.0.0 in
    let (m, m', e, e', at_f, same) =
      put_tags s.mem hb (pack (8 * b.units) 0) (tag b) free (pack-tag free) at_b.pos at_b.small
        at_b.footer in
    let back = change-block s.mem m' hb b (free ∷ []) r vr same (at_f, tt) (omega arith) in
    let closed' =
      subst (λ k. Closed m' 1 k) (append_assoc l (p ∷ []) (free ∷ r))
        (change-behind s.mem m' 1 (hb + span free) (l ++ p ∷ []) (b ∷ r) (free ∷ r) closed same
          back) in
    let (t, f) = v.first in
    let (t', f') = first_of l p b free r t f in
    let here : hb + 1 ≡ width l + span p + 2 = omega (arith, wide) in
    let s1 : Heap = record s { mem = m' } in
    let (s', ran, good, at_last) =
      coalesce_lem s1 l p free r (t', f') closed'
        (omega
          (arith, same.size, v.ends, width-append l (p ∷ b ∷ r), width-append l (p ∷ free ∷ r)))
        (omega (arith, same.size, v.room)) v.start in
    (
      s',
      ground (
        arith,
        subst (λ i. size_of s.mem i ≡ some (8 * b.units)) here (size_of-At s.mem hb b at_b),
        subst (λ i. put_header s.mem i (pack (8 * b.units) 0) ≡ some m) here e,
        subst (λ i. put_footer m i (pack (8 * b.units) 0) ≡ some m') here e',
        ran,
      ),
      good,
    )
