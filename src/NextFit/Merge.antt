-- ===== src/NextFit/Merge.antt =====
-- The four cases of `coalesce`.
use system_software.Prelude.{
  ℕ, ◌+◌, ◌-◌, ◌*◌, ◌^◌, ◌≡◌, ◌≢◌, ◌<◌, inl, inr, sym, ap, ◌∙◌, subst, true, false, some, get_elem?,
  set, arith, get_elem?-set_ne,
}
use system_software.NextFit.{
  Mem, add32, pack, minus, get, is_it_alloc, header_p, put_header, put_footer, merge,
}
use system_software.NextFit.Layout.{
  Block, free_block, tag, span, At, Same, pack-tag, put_lem, size_of-At, alloc-At, footer_p-At,
  next_block_bp-At, prev_block_bp-At, prev_block_bp-footer,
}
use system_software.NextFit.Write.{
  Same-trans, Same-wider, set-Same, get_elem?-set, put_tags, At-Same,
}

pub sum_tag :
    (u w : ℕ) → 8 * (u + w) < 2 ^ 31 → pack (add32 (8 * u) (8 * w)) 0 ≡ tag (free_block (u + w))
sum_tag u w h =
    let e : add32 (8 * u) (8 * w) ≡ 8 * (u + w) = omega (arith, h) in
    ap (λ t. pack t 0) e ∙ pack-tag (free_block (u + w))

pub alloc-footer :
    (mem : Mem) (h : ℕ) (b : Block) → At mem h b → is_it_alloc mem (h + span b - 1) ≡ some b.used
unfolding is_it_alloc get
alloc-footer mem h b v = ground (arith, v.footer)

pub header_p-suc : (h : ℕ) → header_p (h + 1) ≡ some h
unfolding header_p minus
header_p-suc h = ground arith

-- A block between two others.
module _ (mem : Mem) (hp : ℕ) (p b : Block) (at_p : At mem hp p)
    (at_b : At mem (hp + span p) b) where
  abbrev here : ℕ
  here = hp + span p

  abbrev behind : ℕ
  behind = here + span b

  -- Both neighbours are in use.
  pub merge-none :
      p.used ≡ true
      → is_it_alloc mem behind ≡ some true
      → merge mem (here + 1) ≡ some (mem, here + 1)
  unfolding merge
  merge-none u n = ground (
    arith,
    prev_block_bp-At mem hp p at_p,
    footer_p-At mem hp p at_p,
    alloc-footer mem hp p at_p,
    next_block_bp-At mem here b at_b,
    header_p-suc behind,
    size_of-At mem here b at_b,
    u,
    n,
  )

  -- The next block is free.
  pub merge-next :
      (n : Block)
      → At mem behind n
      → p.used ≡ true
      → n.used ≡ false
      → 8 * (b.units + n.units) < 2 ^ 31
      → (m : Mem) × (merge mem (here + 1) ≡ some (m, here + 1))
        × At m here (free_block (b.units + n.units))
        × Same mem m here (behind + span n)
  unfolding merge
  merge-next n at_n u nu small =
      let whole = free_block (b.units + n.units) in
      let e : here + span whole - 1 ≡ behind + span n - 1 = omega arith in
      let last = subst (λ i. get_elem? mem i ≡ some (tag n)) (sym e) at_n.footer in
      let v = pack (add32 (8 * b.units) (8 * n.units)) 0 in
      let (m, m', first, second, at_m, same) =
        put_tags mem here v (tag n) whole (sum_tag b.units n.units small) (omega (arith, at_b.pos))
          small last in
      (
        m',
        ground (
          arith,
          prev_block_bp-At mem hp p at_p,
          footer_p-At mem hp p at_p,
          alloc-footer mem hp p at_p,
          next_block_bp-At mem here b at_b,
          header_p-suc behind,
          alloc-At mem behind n at_n,
          size_of-At mem here b at_b,
          size_of-At mem behind n at_n,
          u,
          nu,
          first,
          second,
        ),
        at_m,
        Same-wider mem m' here (here + span whole) here (behind + span n) same (omega arith)
            (omega arith),
      )

  -- The previous block is free.
  pub merge-prev :
      p.used ≡ false
      → is_it_alloc mem behind ≡ some true
      → 8 * (b.units + p.units) < 2 ^ 31
      → (m : Mem) × (merge mem (here + 1) ≡ some (m, hp + 1))
        × At m hp (free_block (b.units + p.units))
        × Same mem m hp behind
  unfolding merge put_header put_footer
  merge-prev u n small =
      let whole = free_block (b.units + p.units) in
      let v = pack (add32 (8 * b.units) (8 * p.units)) 0 in
      let t = sum_tag b.units p.units small in
      let f = behind - 1 in
      let m = set mem f v in
      let m' = set m hp v in
      let same = set-Same mem f v here behind (omega (arith, at_b.pos)) (omega (arith, at_b.pos)) in
      let at_p' = At-Same mem m here behind hp p same (inl (omega arith)) at_p in
      let apart : hp ≢ f = λ q. omega (arith, q, at_p.pos, at_b.pos) in
      let own : hp ≢ here - 1 = λ q. omega (arith, q, at_p.pos) in
      let foot : get_elem? m' (here - 1) ≡ some (tag p) = get_elem?-set_ne m v own ∙ at_p'.footer in
      let e : hp + span whole - 1 ≡ f = omega arith in
      let end : get_elem? m' f ≡ some v =
        get_elem?-set_ne m v apart ∙ get_elem?-set mem f v (tag b) at_b.footer in
      (
        m',
        ground (
          arith,
          prev_block_bp-At mem hp p at_p,
          footer_p-At mem hp p at_p,
          alloc-footer mem hp p at_p,
          next_block_bp-At mem here b at_b,
          footer_p-At mem here b at_b,
          header_p-suc behind,
          header_p-suc hp,
          size_of-At mem here b at_b,
          size_of-At mem hp p at_p,
          put_lem mem f v (tag b) at_b.footer,
          prev_block_bp-At m hp p at_p',
          put_lem m hp v (tag p) at_p'.header,
          prev_block_bp-footer m' hp p at_p.pos foot,
          u,
          n,
        ),
        record {
          pos = omega (arith, at_b.pos);
          small = small;
          header = get_elem?-set m hp v (tag p) at_p'.header ∙ ap some t;
          footer = subst (λ i. get_elem? m' i ≡ some (tag whole)) (sym e) (end ∙ ap some t);
        },
        Same-trans mem m m' hp behind hp behind
            (Same-wider mem m here behind hp behind same (omega arith) (omega arith))
            (set-Same m hp v hp behind (omega arith) (omega (arith, at_p.pos))) (omega arith)
            (omega arith),
      )

  -- Both neighbours are free.
  pub merge-both :
      (n : Block)
      → At mem behind n
      → p.used ≡ false
      → n.used ≡ false
      → 8 * (b.units + (n.units + p.units)) < 2 ^ 31
      → (m : Mem) × (merge mem (here + 1) ≡ some (m, hp + 1))
        × At m hp (free_block (b.units + (n.units + p.units)))
        × Same mem m hp (behind + span n)
  unfolding merge put_header put_footer
  merge-both n at_n u nu small =
      let whole = free_block (b.units + (n.units + p.units)) in
      let v = pack (add32 (8 * b.units) (add32 (8 * n.units) (8 * p.units))) 0 in
      let inner : add32 (8 * n.units) (8 * p.units) ≡ 8 * (n.units + p.units) =
        omega (arith, small) in
      let t =
        ap (λ k. pack (add32 (8 * b.units) k) 0) inner
        ∙ sum_tag b.units (n.units + p.units) small in
      let f = behind + span n - 1 in
      let m = set mem hp v in
      let m' = set m f v in
      let same = set-Same mem hp v hp here (omega arith) (omega (arith, at_p.pos)) in
      let at_b' = At-Same mem m hp here here b same (inr (omega arith)) at_b in
      let at_n' = At-Same mem m hp here behind n same (inr (omega arith)) at_n in
      let own : hp ≢ here - 1 = λ q. omega (arith, q, at_p.pos) in
      let apart : f ≢ here - 1 = λ q. omega (arith, q, at_p.pos, at_n.pos) in
      let far : f ≢ hp = λ q. omega (arith, q, at_p.pos, at_n.pos) in
      let foot : get_elem? m' (here - 1) ≡ some (tag p) =
        get_elem?-set_ne m v apart ∙ (get_elem?-set_ne mem v own ∙ at_p.footer) in
      let e : hp + span whole - 1 ≡ f = omega arith in
      (
        m',
        ground (
          arith,
          prev_block_bp-At mem hp p at_p,
          footer_p-At mem hp p at_p,
          alloc-footer mem hp p at_p,
          next_block_bp-At mem here b at_b,
          header_p-suc behind,
          header_p-suc hp,
          alloc-At mem behind n at_n,
          size_of-At mem here b at_b,
          size_of-At mem hp p at_p,
          size_of-At mem behind n at_n,
          put_lem mem hp v (tag p) at_p.header,
          next_block_bp-At m here b at_b',
          footer_p-At m behind n at_n',
          put_lem m f v (tag n) at_n'.footer,
          prev_block_bp-footer m' hp p at_p.pos foot,
          u,
          nu,
        ),
        record {
          pos = omega (arith, at_b.pos);
          small = small;
          header =
              get_elem?-set_ne m v far ∙ (get_elem?-set mem hp v (tag p) at_p.header ∙ ap some t);
          footer =
              subst (λ i. get_elem? m' i ≡ some (tag whole)) (sym e)
                (get_elem?-set m f v (tag n) at_n'.footer ∙ ap some t);
        },
        Same-trans mem m m' hp (behind + span n) hp (behind + span n)
            (Same-wider mem m hp here hp (behind + span n) same (omega arith) (omega arith))
            (set-Same m f v hp (behind + span n) (omega arith) (omega (arith, at_n.pos)))
            (omega arith) (omega arith),
      )
