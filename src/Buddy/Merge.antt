-- ===== src/Buddy/Merge.antt =====
-- `mm_free` of a block whose buddy is free.
use Prim.Native.Nat.{bit_xor}
use system_software.Prelude.{
  ℕ, suc, ◌+◌, ◌-◌, ◌*◌, ◌/◌, ◌%◌, ◌^◌, ◌≡◌, ◌<◌, ◌≤◌, ap, ◌∙◌, subst, List, ◌∷◌, ◌++◌, true, false,
  some, arith,
}
use system_software.Buddy.{
  area_list, page_list, Links, Buddy, list_add, unlink, bitmap_get, bitmap_switch, with_bitmap,
  free_loop, mm_free,
}
use system_software.Buddy.Areas.{block, free_cover, put_at, list_add-Areas, free_cover-put_at}
use system_software.Buddy.Alloc.{IsBuddy}
use system_software.Buddy.Free.{page_of, free_loop-clear}
use system_software.Buddy.Middle.{skipped, unlink-Areas}
use system_software.Buddy.Pair.{buddy-halves}

-- A round of the loop in which the buddy is taken out of its list.
free_loop-merge :
    (left : ℕ) (s : Buddy) (page_n k bit_index u w : ℕ) (l : Links)
    → bitmap_get (s.bitmap k) bit_index ≡ true
    → s.links.next (page_list (bit_xor page_n (2 ^ k))) ≡ some (page_list w)
    → s.links.prev (page_list (bit_xor page_n (2 ^ k))) ≡ some (page_list u)
    → unlink s.links (some (page_list w)) (some (page_list u)) ≡ some l
    → free_loop (suc left) s page_n k bit_index
      ≡ free_loop left
          (record (with_bitmap s k (bitmap_switch (s.bitmap k) bit_index).0) { links = l })
          (page_n / 2 ^ suc k * 2 ^ suc k)
          (suc k)
          (bit_index / 2)
unfolding free_loop bitmap_switch
free_loop-merge left s page_n k bit_index u w l e next prev ran = ground (arith, e, next, prev, ran)

merged_run :
    (s s' : Buddy) (q k q' k' : ℕ) (l : Links)
    → s.order q ≡ k
    → k' < 16
    → free_loop (16 - k) s q k (q / 2 ^ (1 + k)) ≡ some (s', (q', k'))
    → list_add s'.links (area_list k') (page_list q') ≡ some l
    → mm_free s (256 * q) ≡ some (record s' { links = l })
unfolding mm_free
merged_run s s' q k q' k' l e h ran added = ground (arith, page_of q, e, h, ran, added)

-- The lists behind the merge: the buddy is gone, and the block of the next order stands in front.
abbrev pub merged : (ℕ → List ℕ) → ℕ → ℕ → List ℕ → ℕ → List ℕ
merged lists q k rest =
    put_at (put_at lists k rest) (suc k) (q / 2 ^ suc k * 2 ^ suc k ∷ put_at lists k rest (suc k))

-- On well-formed areas, a block inside the memory at a multiple of its size, that has no free page, whose
-- order is noted at its first page and whose bit is set, while that of the next order is not set, and
-- whose buddy is free with a block before and one behind it in the list of its order: `mm_free` takes the
-- buddy out and puts the block that both make up at the front of the list of the next order; exactly the
-- pages of the block become free, and the areas stay well formed.
pub mm_free-merged :
    (s : Buddy) (lists : ℕ → List ℕ) (q k u w : ℕ) (xs ys : List ℕ)
    → IsBuddy s lists
    → s.order q ≡ k
    → suc k < 16
    → q % 2 ^ k ≡ 0
    → q + 2 ^ k ≤ 65536
    → ((x : ℕ) → free_cover lists x + block k q x ≤ 1)
    → lists k ≡ xs ++ u ∷ bit_xor q (2 ^ k) ∷ w ∷ ys
    → bitmap_get (s.bitmap k) (q / 2 ^ (1 + k)) ≡ true
    → bitmap_get (s.bitmap (suc k)) (q / 2 ^ (1 + k) / 2) ≡ false
    → (s' : Buddy) × (mm_free s (256 * q) ≡ some s')
      × IsBuddy s' (merged lists q k (xs ++ u ∷ w ∷ ys))
      × ((x : ℕ)
          → free_cover (merged lists q k (xs ++ u ∷ w ∷ ys)) x ≡ free_cover lists x + block k q x)
mm_free-merged s lists q k u w xs ys v e h aligned inside room held set clear =
    let b = bit_xor q (2 ^ k) in
    let bit_index = q / 2 ^ (1 + k) in
    let q' = q / 2 ^ suc k * 2 ^ suc k in
    let rest = xs ++ u ∷ w ∷ ys in
    let lists' = put_at lists k rest in
    let (next, prev, out, areas, counts) =
      unlink-Areas s.links lists k b u w xs ys v.areas (omega (arith, h)) held in
    let l = skipped s.links u w in
    let s1 = record (with_bitmap s k (bitmap_switch (s.bitmap k) bit_index).0) { links = l } in
    let s2 = with_bitmap s1 (suc k) (bitmap_switch (s1.bitmap (suc k)) (bit_index / 2)).0 in
    let other : s1.bitmap (suc k) ≡ s.bitmap (suc k) = ground arith in
    let clear' : bitmap_get (s1.bitmap (suc k)) (bit_index / 2) ≡ false =
      ap (λ t. bitmap_get t (bit_index / 2)) other ∙ clear in
    let fuel : suc (suc (14 - k)) ≡ 16 - k = omega (arith, h) in
    let ran : free_loop (16 - k) s q k bit_index ≡ some (s2, (q', suc k)) =
      subst (λ t. free_loop t s q k bit_index ≡ some (s2, (q', suc k))) fuel
        (free_loop-merge (suc (14 - k)) s q k bit_index u w l set next prev out
          ∙ free_loop-clear (14 - k) s1 q' (suc k) (bit_index / 2) clear') in
    let room' : (x : ℕ) → free_cover lists' x + block (suc k) q' x ≤ 1 =
      λ x. omega (arith, counts x, buddy-halves k q aligned x, room x) in
    let (l', added, areas') = list_add-Areas l lists' (suc k) q' areas h room' in
    let total : (x : ℕ) → free_cover (merged lists q k rest) x ≡ free_cover lists x + block k q x =
      λ x. omega (
        arith,
        free_cover-put_at (suc k) x lists' (q' ∷ lists' (suc k)) h,
        counts x,
        buddy-halves k q aligned x,
      ) in
    (
      record s2 { links = l' },
      merged_run s s2 q k q' (suc k) l' e h ran added,
      record {
        areas = areas';
        inside = λ x far. ground (arith, total x, v.inside x far, inside, far);
        mapped = v.mapped;
      },
      total,
    )
