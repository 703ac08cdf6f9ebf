-- ===== src/NextFit/Realloc.antt =====
-- `mm_realloc` when the block behind is free and has the room.
use system_software.Prelude.{
  ℕ, ◌+◌, ◌*◌, ◌^◌, ◌-◌, ◌≡◌, ◌<◌, ◌≤◌, ap, ◌∙◌, subst, List, ◌∷◌, ◌++◌, true, false, some,
  get_elem?, length, arith, leb,
}
use system_software.NextFit.{
  Mem, Heap, Sbrk, add32, pack, size_of, get_size, is_it_alloc, header_p, next_block_bp, put_header,
  put_footer, mm_realloc,
}
use system_software.NextFit.Layout.{
  Block, used_block, tag, span, width, pack-tag, size_of-At, alloc-At, next_block_bp-At,
}
use system_software.NextFit.Write.{width-append, put_tags}
use system_software.NextFit.Merge.{header_p-suc}
use system_software.NextFit.Coalesce.{Closed, Closed-cons, Closed-tail, rest-Same}
use system_software.NextFit.Search.{size-At}
use system_software.NextFit.Invariant.{IsHeap, Closed-split, change-behind}

grown_in_place_run :
    (mem_sbrk : Sbrk) (s : Heap) (bp size cur next header more total : ℕ) (m m' : Mem)
    → size_of s.mem bp ≡ some cur
    → leb (add32 size 8) cur ≡ false
    → next_block_bp s.mem bp ≡ some next
    → header_p next ≡ some header
    → is_it_alloc s.mem header ≡ some false
    → get_size s.mem header ≡ some more
    → add32 cur more ≡ total
    → leb (add32 size 8) total ≡ true
    → put_header s.mem bp (pack total 1) ≡ some m
    → put_footer m bp (pack total 1) ≡ some m'
    → mm_realloc mem_sbrk s bp size ≡ some (record s { mem = m' }, some bp)
unfolding mm_realloc
grown_in_place_run mem_sbrk s bp size cur next header more total m m' a b c d e f g h i j =
    ground (arith, a, b, c, d, e, f, g, h, i, j)

-- On a well-formed heap, a block that is too small for the new size, with a free block behind it: if the
-- two have room for the size and for header and footer together, `mm_realloc` makes them one block in
-- use, at the same address. All other blocks and `last_bp` stay as they are.
pub mm_realloc-in_place :
    (mem_sbrk : Sbrk) (s : Heap) (l : List Block) (b n : Block) (r : List Block) (size : ℕ)
    → IsHeap s (l ++ b ∷ n ∷ r)
    → n.used ≡ false
    → 8 * b.units < size + 8
    → size + 8 ≤ 8 * (b.units + n.units)
    → (m : Mem) × (mm_realloc mem_sbrk s (width l + 2) size
        ≡ some (record s { mem = m }, some (width l + 2)))
      × Closed m 1 (l ++ used_block (b.units + n.units) ∷ r)
      × (length m ≡ length s.mem)
mm_realloc-in_place mem_sbrk s l b n r size v free large fits =
    let h = 1 + width l in
    let hn = h + span b in
    let hr = hn + span n in
    let whole = used_block (b.units + n.units) in
    let (vl, vr) = Closed-split s.mem 1 l (b ∷ n ∷ r) v.closed in
    let at_b = vr.0.0 in
    let at_n = vr.0.1.0 in
    let small : 8 * (b.units + n.units) < 2 ^ 31 =
      omega (arith, v.ends, v.room, width-append l (b ∷ n ∷ r)) in
    let end : hn + span n - 1 ≡ h + span whole - 1 = omega arith in
    let (m, m', e, e', at_w, same) =
      put_tags s.mem h (pack (8 * (b.units + n.units)) 1) (tag n) whole (pack-tag whole)
        (omega (arith, at_b.pos)) small
        (subst (λ i. get_elem? s.mem i ≡ some (tag n)) end at_n.footer) in
    let rest = Closed-tail s.mem hn n r (Closed-tail s.mem h b (n ∷ r) vr) in
    let after = rest-Same s.mem m' h (h + span whole) hr r same (omega arith) rest in
    let closed = Closed-cons m' h hr whole r (omega arith) at_w after in
    let here : h + 1 ≡ width l + 2 = omega arith in
    let wide : add32 size 8 ≡ size + 8 = omega (arith, fits, small) in
    (
      m',
      grown_in_place_run mem_sbrk s (width l + 2) size (8 * b.units) (hn + 1) hn (8 * n.units)
          (8 * (b.units + n.units)) m m'
          (subst (λ i. size_of s.mem i ≡ some (8 * b.units)) here (size_of-At s.mem h b at_b))
          (ground (arith, wide, large))
          (subst (λ i. next_block_bp s.mem i ≡ some (hn + 1)) here
            (next_block_bp-At s.mem h b at_b))
          (header_p-suc hn) (alloc-At s.mem hn n at_n ∙ ap some free) (size-At s.mem hn n at_n)
          (omega (arith, small)) (ground (arith, wide, fits))
          (subst (λ i. put_header s.mem i (pack (8 * (b.units + n.units)) 1) ≡ some m) here e)
          (subst (λ i. put_footer m i (pack (8 * (b.units + n.units)) 1) ≡ some m') here e'),
      change-behind s.mem m' 1 (h + span whole) l (b ∷ n ∷ r) (whole ∷ r) v.closed same closed,
      same.size,
    )
