-- ===== src/Buddy/Layout.antt =====
-- How `mm_init` of mymalloc_buddy/mm.c divides the memory, and `mapping_bitmap` the area of the bitmaps.
-- `mem_sbrk` gives each part behind the one before; an address is a number, the first one that of the heap.
pub mod Slots
use Prim.Native.Nat.{bit_and, bit_xor}
use system_software.Prelude.{
  ℕ, zero, suc, ◌+◌, ◌-◌, ◌*◌, ◌/◌, ◌%◌, ◌^◌, ◌≡◌, ◌<◌, ◌≤◌, refl, ap, List, [], ◌∷◌, Option, some,
  none, ltb, ◌==◌, ◌&&◌, if◌then◌else◌, get_elem?, length, subst, arith,
}
use system_software.Prelude.Bits.{bit_and_step, bit_and-zero}
use system_software.Buddy.{max_order, phy_page_n, page_size}

-- Where the parts begin, and where the last one ends.
pub record Layout : Type 0 where
  pub free_area_area : ℕ
  pub page_struct_area : ℕ
  pub bitmap_area : ℕ
  pub physical_memory_area : ℕ
  pub endpoint : ℕ

abbrev pub bitmap_area_size : ℕ
bitmap_area_size = phy_page_n / 8 + 4

-- `(7 & ~(align & 7)) + 1`
unfoldable pub alignment : ℕ → ℕ
alignment align = bit_and 7 (bit_xor (2 ^ 32 - 1) (bit_and align 7)) + 1

unfoldable pub layout : ℕ → Layout
layout brk =
    let pages = brk + 12 * max_order in
    let bitmaps = pages + 16 * phy_page_n in
    let end = bitmaps + bitmap_area_size in
    let memory = end + alignment end in
    record {
      free_area_area = brk;
      page_struct_area = pages;
      bitmap_area = bitmaps;
      physical_memory_area = memory;
      endpoint = memory + page_size * phy_page_n;
    }

-- The loop for `left` areas: where each bitmap begins, and its size; and where the last one ends.
unfoldable pub bitmap_slots : ℕ → ℕ → ℕ → List (ℕ × ℕ) × ℕ
bitmap_slots zero offset size = ([], offset)
bitmap_slots (suc left) offset size =
    let rest = bitmap_slots left (offset + size) (if ltb 1 size then size / 2 else size) in
    ((offset, size) ∷ rest.0, rest.1)

unfoldable pub mapping_bitmap : Layout → Option (List (ℕ × ℕ))
mapping_bitmap m =
    let slots = bitmap_slots max_order m.bitmap_area (phy_page_n / 2 / 8) in
    if m.bitmap_area == m.page_struct_area + 16 * phy_page_n && ltb slots.1 m.physical_memory_area
    then some slots.0
    else none

-- The byte of a bitmap with the bit of a page, of words of 4 bytes.
abbrev pub byte_of : ℕ → ℕ → ℕ
byte_of k page = let pos = page / 2 ^ (1 + k) in 4 * (pos / 64) + pos % 32 / 8
