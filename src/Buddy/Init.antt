-- ===== src/Buddy/Init.antt =====
-- `mm_init` puts the two halves of the memory into the area of the largest order.
use system_software.Prelude.{
  ℕ, zero, suc, ◌+◌, ◌-◌, ◌*◌, ◌≡◌, ◌<◌, ◌≤◌, refl, ◌∙◌, subst, List, [], ◌∷◌, true, some, arith,
  ◌==◌, if◌then◌else◌, dec_lt,
}
use system_software.Buddy.{
  area_list, page_list, Links, Buddy, max_order, list_add, map_pages, empty_lists, init_buddy,
  mm_init, page_size, phy_page_n, with_bitmap, bitmap_set, set_next, set_prev,
}
use system_software.Buddy.Ring.{Linked}
use system_software.Buddy.Areas.{
  block, free_cover, put_at, Areas, list_add-Areas, free_cover-put_at,
}
use system_software.Buddy.Alloc.{IsBuddy}

map_pages-below :
    (left i offset j : ℕ) (addr : ℕ → ℕ) → j < i → map_pages left i offset addr j ≡ addr j
unfolding map_pages
map_pages-below zero i offset j addr h = refl
map_pages-below (suc left) i offset j addr h =
    map_pages-below left (suc i) (offset + page_size) j (λ j. if i == j then offset else addr j)
      (omega (arith, h))
    ∙ ground (arith, h)

map_pages_lem :
    (left i offset j : ℕ) (addr : ℕ → ℕ)
    → i ≤ j
    → j < i + left
    → map_pages left i offset addr j ≡ offset + 256 * (j - i)
unfolding map_pages
map_pages_lem zero i offset j addr h l = absurd (omega (arith, h, l))
map_pages_lem (suc left) i offset j addr h l =
    let addr' : ℕ → ℕ = λ j. if i == j then offset else addr j in
    elim (dec_lt i j) [
      | yes up ↦ omega (
        arith,
        map_pages_lem left (suc i) (offset + page_size) j addr' (omega (arith, up))
            (omega (arith, l)),
        up,
      )
      | no here ↦
          let e : i ≡ j = omega (arith, here, h) in
          map_pages-below left (suc i) (offset + page_size) j addr' (omega (arith, e))
          ∙ ground (arith, e)
    ]

empty_lists-below :
    (left i j : ℕ) (l : Links)
    → j < i
    → Linked l (area_list j) [] (area_list j)
    → Linked (empty_lists left i l) (area_list j) [] (area_list j)
unfolding empty_lists
empty_lists-below zero i j l h v = v
empty_lists-below (suc left) i j l h v =
    empty_lists-below left (suc i) j
      (set_prev (set_next l (area_list i) (some (area_list i))) (area_list i) (some (area_list i)))
      (omega (arith, h)) (ground (arith, h, v.0), ground (arith, h, v.1))

empty_lists-Linked :
    (left i j : ℕ) (l : Links)
    → i ≤ j
    → j < i + left
    → Linked (empty_lists left i l) (area_list j) [] (area_list j)
unfolding empty_lists
empty_lists-Linked zero i j l h e = absurd (omega (arith, h, e))
empty_lists-Linked (suc left) i j l h e =
    let l' =
      set_prev (set_next l (area_list i) (some (area_list i))) (area_list i) (some (area_list i)) in
    elim (dec_lt i j) [
      | yes up ↦ empty_lists-Linked left (suc i) j l' (omega (arith, up)) (omega (arith, e))
      | no here ↦
          let q : i ≡ j = omega (arith, here, h) in
          subst (λ t. Linked (empty_lists left (suc i) l') (area_list t) [] (area_list t)) q
            (empty_lists-below left (suc i) i l' (omega arith) (ground arith, ground arith))
    ]

abbrev nothing : ℕ → List ℕ
nothing k = []

nothing_free : (x : ℕ) → free_cover nothing x ≡ 0
unfolding free_cover
nothing_free x = refl

-- The lists of `mm_init`.
abbrev pub first_half : ℕ → List ℕ
first_half = put_at nothing 15 (0 ∷ [])

abbrev pub both_halves : ℕ → List ℕ
both_halves = put_at first_half 15 (32768 ∷ first_half 15)

-- The memory before `init_buddy`.
abbrev mapped_memory : Buddy → Buddy
mapped_memory s = record s {
  physical_addr = map_pages phy_page_n 0 0 s.physical_addr;
  bitmap = λ k i. 0;
  free_phy_page_n = phy_page_n;
}

init_run :
    (s : Buddy) (l1 l2 : Links)
    → list_add (empty_lists max_order 0 s.links) (area_list 15) (page_list 0) ≡ some l1
    → list_add l1 (area_list 15) (page_list 32768) ≡ some l2
    → mm_init s
      ≡ some (with_bitmap (record (mapped_memory s) { links = l2 }) 15 (bitmap_set (λ i. 0) 0 true))
unfolding mm_init init_buddy
init_run s l1 l2 added added' = ground (arith, added, added')

-- `mm_init` succeeds. The areas are well formed, and every page of the memory is in one free block.
pub mm_init-IsBuddy :
    (s : Buddy)
    → (s' : Buddy) × (mm_init s ≡ some s')
      × IsBuddy s' both_halves
      × ((x : ℕ) → x < 65536 → free_cover both_halves x ≡ 1)
mm_init-IsBuddy s =
    let l0 = empty_lists max_order 0 s.links in
    let empty : Areas l0 nothing = record {
      ring = λ k h. empty_lists-Linked 16 0 k s.links (omega arith) (omega (arith, h));
      apart = λ x. omega (arith, nothing_free x);
    } in
    let one : (x : ℕ) → free_cover first_half x ≡ block 15 0 x =
      λ x. omega (arith, free_cover-put_at 15 x nothing (0 ∷ []) (omega arith), nothing_free x) in
    let two : (x : ℕ) → free_cover both_halves x ≡ block 15 0 x + block 15 32768 x = λ x.
      omega
        (arith, free_cover-put_at 15 x first_half (32768 ∷ first_half 15) (omega arith), one x) in
    let (l1, added, v1) =
      list_add-Areas l0 nothing 15 0 empty (omega arith) (λ x. ground (arith, nothing_free x)) in
    let (l2, added', v2) =
      list_add-Areas l1 first_half 15 32768 v1 (omega arith) (λ x. ground (arith, one x)) in
    (
      with_bitmap (record (mapped_memory s) { links = l2 }) 15 (bitmap_set (λ i. 0) 0 true),
      init_run s l1 l2 added added',
      record {
        areas = v2;
        inside = λ x far. ground (arith, two x, far);
        mapped = λ i h.
            omega
              (arith, map_pages_lem 65536 0 0 i s.physical_addr (omega arith) (omega (arith, h)));
      },
      (λ x h. ground (arith, two x, h)),
    )
