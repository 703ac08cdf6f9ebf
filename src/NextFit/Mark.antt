-- ===== src/NextFit/Mark.antt =====
-- `mark` divides a block, or uses the whole of it.
use system_software.Prelude.{
  ℕ, ◌+◌, ◌-◌, ◌*◌, ◌≡◌, ◌≤◌, inl, inr, sym, ◌∙◌, subst, List, [], ◌∷◌, some, get_elem?, arith,
  dec_lt, leb, if◌then◌else◌,
}
use system_software.NextFit.{Mem, sub32, pack, mark}
use system_software.NextFit.Layout.{
  Block, free_block, used_block, tag, span, At, Laid, Same, pack-tag, size_of-At, next_block_bp-At,
}
use system_software.NextFit.Write.{Same-trans, Same-wider, put_tags, word_below, At-Same}

-- The blocks that come of a block when `a` double words of it are taken.
abbrev pub placed : ℕ → Block → List Block
placed a b =
    if leb 2 (b.units - a)
    then used_block a ∷ free_block (b.units - a) ∷ []
    else used_block b.units ∷ []

pub mark_lem :
    (mem : Mem) (h a : ℕ) (b : Block)
    → At mem h b
    → 1 ≤ a
    → a ≤ b.units
    → (m : Mem) × (mark mem (h + 1) (8 * a) ≡ some m)
      × Laid m h (placed a b)
      × Same mem m h (h + span b)
unfolding mark
mark_lem mem h a b v pos le =
    let d = b.units - a in
    let left : sub32 (8 * b.units) (8 * a) ≡ 8 * d = omega (arith, le, v.small) in
    elim (dec_lt d 2) [
      | yes few ↦
          let whole = used_block b.units in
          let (m, m', first, second, at_m, same) =
            put_tags mem h (pack (8 * b.units) 1) (tag b) whole (pack-tag whole) v.pos v.small
              v.footer in
          (
            m',
            ground (arith, size_of-At mem h b v, left, first, second),
            ground (arith, few, at_m),
            same,
          )
      | no many ↦
          let taken = used_block a in
          let rest = free_block d in
          let mid = h + span taken in
          let (x, at_x) =
            word_below mem (mid - 1) (h + span b - 1) (tag b) v.footer (omega (arith, le)) in
          let (m1, m2, e1, e2, at_taken, same) =
            put_tags mem h (pack (8 * a) 1) x taken (pack-tag taken) pos
              (omega (arith, le, v.small)) at_x in
          let end : mid + span rest - 1 ≡ h + span b - 1 = omega (arith, le) in
          let last : get_elem? m2 (mid + span rest - 1) ≡ some (tag b) =
            subst (λ i. get_elem? m2 i ≡ some (tag b)) (sym end)
              (same.outside (h + span b - 1) (inr (omega (arith, many))) ∙ v.footer) in
          let (m3, m4, e3, e4, at_rest, same') =
            put_tags m2 mid (pack (8 * d) 0) (tag b) rest (pack-tag rest) (omega (arith, many))
              (omega (arith, v.small)) last in
          let at_taken' =
            At-Same m2 m4 mid (mid + span rest) h taken same' (inl (omega arith)) at_taken in
          (
            m4,
            ground (
              arith,
              size_of-At mem h b v,
              left,
              many,
              e1,
              e2,
              next_block_bp-At m2 h taken at_taken,
              e3,
              e4,
            ),
            ground (arith, many, at_taken', at_rest),
            Same-trans mem m2 m4 h (h + span b) mid (mid + span rest)
                (Same-wider mem m2 h mid h (h + span b) same (omega arith) (omega (arith, le)))
                same' (omega arith) (omega (arith, le)),
          )
    ]
