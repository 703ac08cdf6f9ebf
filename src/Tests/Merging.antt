-- ===== src/Tests/Merging.antt =====
-- The buddy allocator with three free pages, 4, 6 and 8, and page 7 in use.
use system_software.Prelude.{
  ℕ, ◌+◌, ◌*◌, ◌/◌, ◌^◌, ◌%◌, ◌<◌, ◌≤◌, get_elem?, ◌≡◌, refl, sym, subst, List, [], ◌∷◌, true,
  false, Option, some, arith, ◌==◌, if◌then◌else◌, Bool-cases, inl, inr,
}
use system_software.Buddy.{Node, area_list, page_list, store, Buddy, bitmap_get, mm_free}
use system_software.Buddy.Ring.{Linked}
use system_software.Buddy.Layout.{layout, mapping_bitmap, byte_of}
use system_software.Buddy.Layout.Slots.{mapping_bitmap_lem}
use system_software.Buddy.Areas.{block, free_cover, put_at, free_cover-put_at}
use system_software.Buddy.Alloc.{IsBuddy}
use system_software.Buddy.Merge.{merged, mm_free-merged}

abbrev ring_of : Node → Node → Node → Node → Option Node
ring_of a b c =
    store (store (store (store (λ n. some n) (area_list 0) (some a)) a (some b)) b (some c)) c
      (some (area_list 0))

abbrev three_free : Buddy
three_free = record {
  links = record {
    next = ring_of (page_list 4) (page_list 6) (page_list 8);
    prev = ring_of (page_list 8) (page_list 6) (page_list 4);
  };
  bitmap = λ k i. if k == 0 then 8 else 0;
  order = λ i. 0;
  physical_addr = λ i. 256 * i;
  free_phy_page_n = 3;
  memory = λ a. 0;
}

abbrev no_lists : ℕ → List ℕ
no_lists k = []

abbrev three_lists : ℕ → List ℕ
three_lists = put_at no_lists 0 (4 ∷ 6 ∷ 8 ∷ [])

none_free : (x : ℕ) → free_cover no_lists x ≡ 0
unfolding free_cover
none_free x = refl

three_cover : (x : ℕ) → free_cover three_lists x ≡ block 0 4 x + (block 0 6 x + block 0 8 x)
three_cover x =
    omega (arith, free_cover-put_at 0 x no_lists (4 ∷ 6 ∷ 8 ∷ []) (omega arith), none_free x)

ring_at : (k : ℕ) → Linked three_free.links (area_list k) (three_lists k) (area_list k)
ring_at k = elim (Bool-cases (0 == k)) [
  | inl e ↦
      let q : 0 ≡ k = ground (arith, e) in
      subst (λ i. Linked three_free.links (area_list i) (three_lists i) (area_list i)) q
        (refl, refl, (refl, refl, (refl, refl, (refl, refl))))
  | inr n ↦
      let empty : three_lists k ≡ [] = ground (arith, n) in
      subst (λ t. Linked three_free.links (area_list k) t (area_list k)) (sym empty)
        (ground (arith, n), ground (arith, n))
]

three_free-IsBuddy : IsBuddy three_free three_lists
three_free-IsBuddy = record {
  areas = record { ring = λ k h. ring_at k; apart = λ x. ground (arith, three_cover x) };
  inside = λ x far. ground (arith, three_cover x, far);
  mapped = λ i h. refl;
}

page_seven_set : bitmap_get (three_free.bitmap 0) (7 / 2 ^ (1 + 0)) ≡ true
unfolding bitmap_get
page_seven_set = refl

next_clear : bitmap_get (three_free.bitmap 1) (7 / 2 ^ (1 + 0) / 2) ≡ false
unfolding bitmap_get
next_clear = refl

mm_free-merged_example :
    (s' : Buddy) × (mm_free three_free 1792 ≡ some s')
    × IsBuddy s' (merged three_lists 7 0 (4 ∷ 8 ∷ []))
    × ((x : ℕ)
        → free_cover (merged three_lists 7 0 (4 ∷ 8 ∷ [])) x
          ≡ free_cover three_lists x + block 0 7 x)
mm_free-merged_example =
    mm_free-merged three_free three_lists 7 0 4 8 [] [] three_free-IsBuddy refl (omega arith) refl
      (omega arith) (λ x. ground (arith, three_cover x)) refl page_seven_set next_clear

-- Page 9 in the bitmap of the order 0, and page 5000 in that of the order 3.
mapping_bitmap_lem_example :
    (slots : List (ℕ × ℕ)) × (o : ℕ) × (n : ℕ) × (o' : ℕ) × (n' : ℕ) × (mapping_bitmap (layout 4096)
      ≡ some slots)
    × ((layout 4096).physical_memory_area % 8 ≡ 0)
    × (get_elem? slots 0 ≡ some (o, n))
    × (get_elem? slots 3 ≡ some (o', n'))
    × ((layout 4096).bitmap_area ≤ o)
    × (byte_of 0 9 < n)
    × (o + n ≤ o')
    × (byte_of 3 5000 < n')
    × (o' + n' < (layout 4096).physical_memory_area)
mapping_bitmap_lem_example =
    mapping_bitmap_lem 4096 0 3 9 5000 (omega arith) (omega arith) (omega arith) (omega arith)
