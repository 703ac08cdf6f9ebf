-- ===== src/Tests/Pages.antt =====
-- The buddy allocator on a memory where one page is free, page 6, and its buddy is in use.
use system_software.Prelude.{
  ℕ, ◌+◌, ◌*◌, ◌/◌, ◌^◌, ◌≡◌, ◌<◌, ◌≤◌, ◌⊎◌, inl, inr, refl, sym, subst, List, [], ◌∷◌, true, false,
  Option, some, none, arith, ◌==◌, if◌then◌else◌, Bool-cases,
}
use system_software.Buddy.{
  Node, area_list, page_list, store, Buddy, bitmap_get, mm_init, mm_malloc, mm_free,
}
use system_software.Buddy.Ring.{Linked}
use system_software.Buddy.Areas.{block, free_cover, put_at, free_cover-put_at}
use system_software.Buddy.Alloc.{IsBuddy}
use system_software.Buddy.Init.{both_halves, mm_init-IsBuddy}
use system_software.Buddy.Sizes.{mm_malloc-IsBuddy}
use system_software.Buddy.Free.{mm_free-IsBuddy, mm_free-front}

abbrev ring_of_six : Node → Option Node
ring_of_six =
    store (store (λ n. some n) (area_list 0) (some (page_list 6))) (page_list 6)
      (some (area_list 0))

abbrev six_free : Buddy
six_free = record {
  links = record { next = ring_of_six; prev = ring_of_six };
  bitmap = λ k i. if k == 0 then 8 else 0;
  order = λ i. 0;
  physical_addr = λ i. 256 * i;
  free_phy_page_n = 1;
  memory = λ a. 0;
}

abbrev no_lists : ℕ → List ℕ
no_lists k = []

abbrev six_lists : ℕ → List ℕ
six_lists = put_at no_lists 0 (6 ∷ [])

none_free : (x : ℕ) → free_cover no_lists x ≡ 0
unfolding free_cover
none_free x = refl

six_cover : (x : ℕ) → free_cover six_lists x ≡ block 0 6 x
six_cover x = omega (arith, free_cover-put_at 0 x no_lists (6 ∷ []) (omega arith), none_free x)

ring_at : (k : ℕ) → Linked six_free.links (area_list k) (six_lists k) (area_list k)
ring_at k = elim (Bool-cases (0 == k)) [
  | inl e ↦
      let q : 0 ≡ k = ground (arith, e) in
      subst (λ i. Linked six_free.links (area_list i) (six_lists i) (area_list i)) q
        (refl, refl, (refl, refl))
  | inr n ↦
      let empty : six_lists k ≡ [] = ground (arith, n) in
      subst (λ t. Linked six_free.links (area_list k) t (area_list k)) (sym empty)
        (ground (arith, n), ground (arith, n))
]

six_free-IsBuddy : IsBuddy six_free six_lists
six_free-IsBuddy = record {
  areas = record { ring = λ k h. ring_at k; apart = λ x. ground (arith, six_cover x) };
  inside = λ x far. ground (arith, six_cover x, far);
  mapped = λ i h. refl;
}

mm_init-IsBuddy_example :
    (s' : Buddy) × (mm_init six_free ≡ some s')
    × IsBuddy s' both_halves
    × ((x : ℕ) → x < 65536 → free_cover both_halves x ≡ 1)
mm_init-IsBuddy_example = mm_init-IsBuddy six_free

mm_malloc-IsBuddy_example :
    (k : ℕ) × (200 ≤ 256 * 2 ^ k)
    × ((j : ℕ) → j < k → 256 * 2 ^ j < 200)
    × (((s' : Buddy) × (q : ℕ) × (lists' : ℕ → List ℕ) × (mm_malloc six_free 200
            ≡ some (s', some (256 * q)))
          × IsBuddy s' lists'
          × ((x : ℕ) → free_cover lists' x + block k q x ≡ free_cover six_lists x)
          × (s'.order q ≡ k))
        ⊎ ((mm_malloc six_free 200 ≡ some (six_free, none))
            × ((j : ℕ) → k ≤ j → j < 16 → six_lists j ≡ [])))
mm_malloc-IsBuddy_example = mm_malloc-IsBuddy six_free six_lists 200 six_free-IsBuddy (omega arith)

page_two_clear : bitmap_get (six_free.bitmap 0) (2 / 2 ^ (1 + 0)) ≡ false
unfolding bitmap_get
page_two_clear = refl

page_seven_set : bitmap_get (six_free.bitmap 0) (7 / 2 ^ (1 + 0)) ≡ true
unfolding bitmap_get
page_seven_set = refl

mm_free-IsBuddy_example :
    (s' : Buddy) × (mm_free six_free 512 ≡ some s')
    × IsBuddy s' (put_at six_lists 0 (2 ∷ six_lists 0))
    × ((x : ℕ)
        → free_cover (put_at six_lists 0 (2 ∷ six_lists 0)) x
          ≡ free_cover six_lists x + block 0 2 x)
mm_free-IsBuddy_example =
    mm_free-IsBuddy six_free six_lists 2 0 six_free-IsBuddy refl (omega arith) (omega arith)
      (λ x. ground (arith, six_cover x)) page_two_clear

mm_free-front_example : mm_free six_free 1792 ≡ none
mm_free-front_example =
    mm_free-front six_free six_lists 7 0 [] six_free-IsBuddy refl (omega arith) refl page_seven_set
