-- ===== src/NextFit/Layout.antt =====
-- Blocks in the words of the heap: a header, the payload, and a footer that repeats the header.
use Prim.Native.Nat.{bit_or}
use system_software.Prelude.{
  ℕ, zero, suc, ◌+◌, ◌-◌, ◌*◌, ◌/◌, ◌^◌, ◌≡◌, ◌<◌, ◌≤◌, ◌⊎◌, ap, List, [], ◌∷◌, Bool, true, false,
  some, get_elem?, set, length, arith,
}
use system_software.Prelude.Bits.{bit_or_step, bit_or-zero}
use system_software.NextFit.{
  Mem, pack, get, put, minus, get_size, is_it_alloc, header_p, footer_p, next_block_bp,
  prev_block_bp, size_of,
}

-- A block of so many double words, its header and footer included.
pub record Block : Type 0 where
  pub units : ℕ
  pub used : Bool

abbrev pub free_block : ℕ → Block
free_block u = record { units = u; used = false }

abbrev pub used_block : ℕ → Block
used_block u = record { units = u; used = true }

abbrev pub bit : Bool → ℕ
bit true = 1
bit false = 0

-- The word in its header, and the words it takes.
abbrev pub tag : Block → ℕ
tag b = 8 * b.units + bit b.used

abbrev pub span : Block → ℕ
span b = 2 * b.units

abbrev pub width : List Block → ℕ
width [] = 0
width (b ∷ bs) = span b + width bs

-- The block stands with its header at `h`.
pub record At (mem : Mem) (h : ℕ) (b : Block) : Type 0 where
  pub pos : 1 ≤ b.units
  pub small : 8 * b.units < 2 ^ 31
  pub header : get_elem? mem h ≡ some (tag b)
  pub footer : get_elem? mem (h + span b - 1) ≡ some (tag b)

-- The blocks stand one behind the other from `h` on.
abbrev pub Laid : Mem → ℕ → List Block → Type 0
Laid mem h [] = Unit {0}
Laid mem h (b ∷ bs) = At mem h b × Laid mem (h + span b) bs

-- The memories differ at most from `lo` to before `hi`.
pub record Same (mem mem' : Mem) (lo hi : ℕ) : Type 0 where
  pub size : length mem' ≡ length mem
  pub outside : (i : ℕ) → (i < lo) ⊎ (hi ≤ i) → get_elem? mem' i ≡ get_elem? mem i

pub pack-tag : (b : Block) → pack (8 * b.units) (bit b.used) ≡ tag b
pack-tag b = or_bit b.units b.used
  where
    or_bit : (u : ℕ) (c : Bool) → bit_or (8 * u) (bit c) ≡ 8 * u + bit c
    or_bit u false = omega (arith, bit_or-zero (8 * u) (8 * u) (omega arith))
    or_bit u true =
        let half : 8 * u / 2 ≡ 4 * u = omega arith in
        omega (
          arith,
          bit_or_step (8 * u) 1,
          ap (λ t. bit_or t 0) half,
          bit_or-zero (4 * u) (4 * u) (omega arith),
        )

-- A word that is there can be written.
pub put_lem : (mem : Mem) (i v w : ℕ) → get_elem? mem i ≡ some w → put mem i v ≡ some (set mem i v)
unfolding put
put_lem mem i v w h = ground (arith, in_range mem i w h)
  where
    in_range : (mem : Mem) (i w : ℕ) → get_elem? mem i ≡ some w → i < length mem
    in_range [] i w h = absurd (ground (arith, h))
    in_range (x ∷ mem) zero w h = omega arith
    in_range (x ∷ mem) (suc i) w h = omega (arith, in_range mem i w h)

-- The footer is found by the header.
pub footer_p-header :
    (mem : Mem) (h : ℕ) (b : Block)
    → 1 ≤ b.units
    → get_elem? mem h ≡ some (tag b)
    → footer_p mem (h + 1) ≡ some (h + span b - 1)
unfolding footer_p header_p minus get_size get
footer_p-header mem h b pos e = ground (arith, e, pos)

-- The previous block is found by its footer.
pub prev_block_bp-footer :
    (mem : Mem) (h : ℕ) (b : Block)
    → 1 ≤ b.units
    → get_elem? mem (h + span b - 1) ≡ some (tag b)
    → prev_block_bp mem (h + span b + 1) ≡ some (h + 1)
unfolding prev_block_bp minus get_size get
prev_block_bp-footer mem h b pos e = ground (arith, e, pos)

-- What the macros read at a header and at a footer.
module _ (mem : Mem) (h : ℕ) (b : Block) (v : At mem h b) where
  pub size_of-At : size_of mem (h + 1) ≡ some (8 * b.units)
  unfolding size_of header_p minus get_size get
  size_of-At = ground (arith, v.header)

  pub alloc-At : is_it_alloc mem h ≡ some b.used
  unfolding is_it_alloc get
  alloc-At = ground (arith, v.header)

  pub footer_p-At : footer_p mem (h + 1) ≡ some (h + span b - 1)
  footer_p-At = footer_p-header mem h b v.pos v.header

  pub next_block_bp-At : next_block_bp mem (h + 1) ≡ some (h + span b + 1)
  unfolding next_block_bp header_p minus get_size get
  next_block_bp-At = ground (arith, v.header)

  pub prev_block_bp-At : prev_block_bp mem (h + span b + 1) ≡ some (h + 1)
  prev_block_bp-At = prev_block_bp-footer mem h b v.pos v.footer
