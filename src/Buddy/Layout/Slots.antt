-- ===== src/Buddy/Layout/Slots.antt =====
-- The bitmaps are inside their area, have room for the bits of all pages, and are apart.
use Prim.{tt}
use Prim.Native.Nat.{bit_and, bit_xor}
use system_software.Prelude.{
  ℕ, zero, suc, ◌+◌, ◌-◌, ◌*◌, ◌/◌, ◌%◌, ◌≡◌, ◌<◌, ◌≤◌, refl, ap, List, [], ◌∷◌, some, ltb,
  if◌then◌else◌, get_elem?, length, subst, arith,
}
use system_software.Prelude.Bits.{bit_and_step, bit_and-zero}
use system_software.Buddy.{max_order, phy_page_n}
use system_software.Buddy.Layout.{
  bitmap_area_size, alignment, layout, bitmap_slots, mapping_bitmap, byte_of,
}

low_digits : (a : ℕ) → bit_and a 7 ≡ a % 8
low_digits a = omega (
  arith,
  bit_and_step a 7,
  bit_and_step (a / 2) 3,
  bit_and_step (a / 2 / 2) 1,
  bit_and-zero (a / 2 / 2 / 2) (a / 2 / 2 / 2) (omega arith),
)

complement_three : (r : ℕ) → r < 8 → bit_and 7 (bit_xor 4294967295 r) ≡ 7 - r
complement_three zero h = refl
complement_three (suc zero) h = refl
complement_three (suc (suc zero)) h = refl
complement_three (suc (suc (suc zero))) h = refl
complement_three (suc (suc (suc (suc zero)))) h = refl
complement_three (suc (suc (suc (suc (suc zero))))) h = refl
complement_three (suc (suc (suc (suc (suc (suc zero)))))) h = refl
complement_three (suc (suc (suc (suc (suc (suc (suc zero))))))) h = refl
complement_three (suc (suc (suc (suc (suc (suc (suc (suc r)))))))) h = absurd (omega (arith, h))

alignment_lem : (a : ℕ) → alignment a ≡ 8 - a % 8
unfolding alignment
alignment_lem a = omega (
  arith,
  ap (λ t. bit_and 7 (bit_xor 4294967295 t)) (low_digits a),
  complement_three (a % 8) (omega arith),
)

-- A later bitmap begins behind an earlier one.
slots-low :
    (left offset size k o n : ℕ)
    → get_elem? (bitmap_slots left offset size).0 k ≡ some (o, n)
    → offset ≤ o
unfolding bitmap_slots
slots-low zero offset size k o n e = absurd (cc)
slots-low (suc left) offset size zero o n e = ground (arith, e)
slots-low (suc left) offset size (suc k) o n e =
    omega (arith, slots-low left (offset + size) (if ltb 1 size then size / 2 else size) k o n e)

pub slots-apart :
    (left offset size j k o n o' n' : ℕ)
    → j < k
    → get_elem? (bitmap_slots left offset size).0 j ≡ some (o, n)
    → get_elem? (bitmap_slots left offset size).0 k ≡ some (o', n')
    → o + n ≤ o'
unfolding bitmap_slots
slots-apart zero offset size j k o n o' n' h e f = absurd (cc)
slots-apart (suc left) offset size j zero o n o' n' h e f = absurd (omega (arith, h))
slots-apart (suc left) offset size zero (suc k) o n o' n' h e f =
    let low = slots-low left (offset + size) (if ltb 1 size then size / 2 else size) k o' n' f in
    ground (arith, e, low)
slots-apart (suc left) offset size (suc j) (suc k) o n o' n' h e f =
    slots-apart left (offset + size) (if ltb 1 size then size / 2 else size) j k o n o' n'
      (omega (arith, h)) e f

-- The bitmaps of the orders from `k` on: inside the area, and with room for the bit of every page.
abbrev Fits : ℕ → ℕ → List (ℕ × ℕ) → Type 0
Fits b k [] = Unit {0}
Fits b k (slot ∷ slots) =
    (b ≤ slot.0)
    × (slot.0 + slot.1 ≤ b + 8194)
    × ((page : ℕ) → page < 65536 → byte_of k page < slot.1)
    × Fits b (suc k) slots

-- The smaller half of the bitmaps, and the larger one.
small-Fits : (b o : ℕ) → o ≡ b + 8160 → Fits b 8 (bitmap_slots 8 o 16).0
unfolding bitmap_slots
small-Fits b o h = (
  omega (arith, h),
  omega (arith, h),
  (λ page hp. omega (arith, hp)),
  (
    omega (arith, h),
    omega (arith, h),
    (λ page hp. omega (arith, hp)),
    (
      omega (arith, h),
      omega (arith, h),
      (λ page hp. omega (arith, hp)),
      (
        omega (arith, h),
        omega (arith, h),
        (λ page hp. omega (arith, hp)),
        (
          omega (arith, h),
          omega (arith, h),
          (λ page hp. omega (arith, hp)),
          (
            omega (arith, h),
            omega (arith, h),
            (λ page hp. omega (arith, hp)),
            (
              omega (arith, h),
              omega (arith, h),
              (λ page hp. omega (arith, hp)),
              (omega (arith, h), omega (arith, h), (λ page hp. omega (arith, hp)), tt),
            ),
          ),
        ),
      ),
    ),
  ),
)

slots-Fits : (b : ℕ) → Fits b 0 (bitmap_slots 16 b 4096).0
unfolding bitmap_slots
slots-Fits b = (
  omega arith,
  omega arith,
  (λ page hp. omega (arith, hp)),
  (
    omega arith,
    omega arith,
    (λ page hp. omega (arith, hp)),
    (
      omega arith,
      omega arith,
      (λ page hp. omega (arith, hp)),
      (
        omega arith,
        omega arith,
        (λ page hp. omega (arith, hp)),
        (
          omega arith,
          omega arith,
          (λ page hp. omega (arith, hp)),
          (
            omega arith,
            omega arith,
            (λ page hp. omega (arith, hp)),
            (
              omega arith,
              omega arith,
              (λ page hp. omega (arith, hp)),
              (
                omega arith,
                omega arith,
                (λ page hp. omega (arith, hp)),
                small-Fits b _ (omega arith),
              ),
            ),
          ),
        ),
      ),
    ),
  ),
)

Fits-slot :
    (b k i : ℕ) (slots : List (ℕ × ℕ))
    → Fits b k slots
    → i < length slots
    → (o : ℕ) × (n : ℕ) × (get_elem? slots i ≡ some (o, n))
      × (b ≤ o)
      × (o + n ≤ b + 8194)
      × ((page : ℕ) → page < 65536 → byte_of (k + i) page < n)
Fits-slot b k i [] v h = absurd (omega (arith, h))
Fits-slot b k zero ((o, n) ∷ slots) (low, high, bits, v) h =
    let same : k ≡ k + 0 = omega arith in
    (o, n, refl, low, high, subst (λ j. (page : ℕ) → page < 65536 → byte_of j page < n) same bits)
Fits-slot b k (suc i) (slot ∷ slots) (low, high, bits, v) h =
    let (o, n, e, l, u, f) = Fits-slot b (suc k) i slots v (omega (arith, h)) in
    let same : suc k + i ≡ k + suc i = omega arith in
    (o, n, e, l, u, subst (λ j. (page : ℕ) → page < 65536 → byte_of j page < n) same f)

slot_at :
    (b k : ℕ)
    → k < 16
    → (o : ℕ) × (n : ℕ) × (get_elem? (bitmap_slots 16 b 4096).0 k ≡ some (o, n))
      × (b ≤ o)
      × (o + n ≤ b + 8194)
      × ((page : ℕ) → page < 65536 → byte_of k page < n)
slot_at b k h =
    let size : length (bitmap_slots 16 b 4096).0 ≡ 16 = unfold bitmap_slots in refl in
    let (o, n, e, l, u, f) =
      Fits-slot b 0 k (bitmap_slots 16 b 4096).0 (slots-Fits b) (omega (arith, h, size)) in
    let same : 0 + k ≡ k = omega arith in
    (o, n, e, l, u, subst (λ j. (page : ℕ) → page < 65536 → byte_of j page < n) same f)

-- Where the bitmaps begin.
abbrev pub bitmaps_at : ℕ → ℕ
bitmaps_at brk = brk + 12 * max_order + 16 * phy_page_n

mapping_bitmap_run :
    (brk : ℕ) → mapping_bitmap (layout brk) ≡ some (bitmap_slots 16 (bitmaps_at brk) 4096).0
unfolding mapping_bitmap layout bitmap_slots
mapping_bitmap_run brk = ground (arith, alignment_lem (bitmaps_at brk + bitmap_area_size))

layout-aligned : (brk : ℕ) → (layout brk).physical_memory_area % 8 ≡ 0
unfolding layout
layout-aligned brk = omega (arith, alignment_lem (bitmaps_at brk + bitmap_area_size))

layout-memory : (brk : ℕ) → (layout brk).bitmap_area + 8194 < (layout brk).physical_memory_area
unfolding layout
layout-memory brk = omega (arith, alignment_lem (bitmaps_at brk + bitmap_area_size))

-- Wherever the heap begins, the assertions of `mapping_bitmap` hold, and the memory of the pages begins at
-- a multiple of 8. For any two orders and any pages of the memory, the bytes in which the bitmaps have the
-- bits of the pages lie in slots of their orders, which are apart, behind the pages' structures and before
-- the memory of the pages.
pub mapping_bitmap_lem :
    (brk j k page page' : ℕ)
    → j < k
    → k < 16
    → page < 65536
    → page' < 65536
    → (slots : List (ℕ × ℕ)) × (o : ℕ) × (n : ℕ) × (o' : ℕ) × (n' : ℕ) × (mapping_bitmap
          (layout brk)
        ≡ some slots)
      × ((layout brk).physical_memory_area % 8 ≡ 0)
      × (get_elem? slots j ≡ some (o, n))
      × (get_elem? slots k ≡ some (o', n'))
      × ((layout brk).bitmap_area ≤ o)
      × (byte_of j page < n)
      × (o + n ≤ o')
      × (byte_of k page' < n')
      × (o' + n' < (layout brk).physical_memory_area)
mapping_bitmap_lem brk j k page page' h hk hp hp' =
    let b = bitmaps_at brk in
    let slots = (bitmap_slots 16 b 4096).0 in
    let (o, n, e, l, u, f) = slot_at b j (omega (arith, h, hk)) in
    let (o', n', e', l', u', f') = slot_at b k hk in
    let start : (layout brk).bitmap_area ≡ b = unfold layout in refl in
    (
      slots,
      o,
      n,
      o',
      n',
      mapping_bitmap_run brk,
      layout-aligned brk,
      e,
      e',
      omega (arith, start, l),
      f page hp,
      slots-apart 16 b 4096 j k o n o' n' h e e',
      f' page' hp',
      omega (arith, layout-memory brk, start, u'),
    )
