-- ===== src/Buddy/Alloc.antt =====
-- `alloc_pages` takes a block from the free areas, and gives back what is left of it.
use native.Mathlib.Nat.{two-pow-succ}
use system_software.Prelude.{
  ℕ, zero, suc, ◌+◌, ◌-◌, ◌*◌, ◌^◌, ◌≡◌, ◌<◌, ◌≤◌, ◌⊎◌, inl, inr, refl, sym, ap, ◌∙◌, subst, List,
  [], ◌∷◌, Bool, true, false, some, none, arith, ◌==◌, if◌then◌else◌, ltb, dec_lt,
}
use system_software.Buddy.{
  Node, area_list, page_list, same_node, Links, Buddy, max_order, list_del, mark_used, get_page_n,
  expand, less_free, set_order, take_page, alloc_loop, alloc_pages,
}
use system_software.Buddy.Ring.{times, Linked, first_node, next-head}
use system_software.Buddy.Areas.{
  block, free_cover, put_at, Areas, list_add-Areas, list_del-Areas, free_cover-put_at, block-first,
  once, put_at_self,
}

-- The free areas, inside the memory, and the addresses of the pages.
pub record IsBuddy (s : Buddy) (lists : ℕ → List ℕ) : Type 0 where
  pub areas : Areas s.links lists
  pub inside : (x : ℕ) → 65536 ≤ x → free_cover lists x ≡ 0
  pub mapped : (i : ℕ) → i < 65536 → s.physical_addr i ≡ 256 * i

-- A block is its two halves.
pub block-halves : (k p x : ℕ) → block (suc k) p x ≡ block k p x + block k (p + 2 ^ k) x
block-halves k p x = ground (arith, two-pow-succ k)

-- `expand` keeps the last part of the block, and frees the other ones.
expand_lem :
    (gap : ℕ) (s : Buddy) (lists : ℕ → List ℕ) (p page_n low : ℕ)
    → Areas s.links lists
    → low + gap < 16
    → ((x : ℕ) → free_cover lists x + block (low + gap) p x ≤ 1)
    → (s' : Buddy) × (q : ℕ) × (lists' : ℕ → List ℕ) × (expand gap s p page_n low ≡ some (s', q))
      × Areas s'.links lists'
      × ((x : ℕ) → free_cover lists' x + block low q x ≡ free_cover lists x + block (low + gap) p x)
      × (s'.physical_addr ≡ s.physical_addr)
unfolding expand
expand_lem zero s lists p page_n low v h room =
    let none_left : low ≡ low + 0 = omega arith in
    (s, p, lists, refl, v, (λ x. ap (λ t. free_cover lists x + block t p x) none_left), refl)
expand_lem (suc gap) s lists p page_n low v h room =
    let high = low + gap in
    let up : low + suc gap ≡ suc high = omega arith in
    let halves : (x : ℕ)
        → block (low + suc gap) p x ≡ block high p x + block high (p + 2 ^ high) x =
      λ x. ap (λ t. block t p x) up ∙ block-halves high p x in
    let (l, added, v') =
      list_add-Areas s.links lists high p v (omega (arith, h))
        (λ x. omega (arith, room x, halves x)) in
    let lists' = put_at lists high (p ∷ lists high) in
    let counts : (x : ℕ) → free_cover lists' x ≡ free_cover lists x + block high p x =
      λ x. omega (arith, free_cover-put_at high x lists (p ∷ lists high) (omega (arith, h))) in
    let s1 : Buddy = mark_used page_n high (record s { links = l }) in
    let same : s1.links ≡ l = unfold mark_used in refl in
    let (s', q, lists'', ran, w, more, addr) =
      expand_lem gap s1 lists' (p + 2 ^ high) (page_n + 2 ^ high) low
        (subst (λ t. Areas t lists') (sym same) v') (omega (arith, h))
        (λ x. omega (arith, counts x, room x, halves x)) in
    (
      s',
      q,
      lists'',
      ground (arith, added, ran),
      w,
      (λ x. omega (arith, more x, counts x, halves x)),
      addr ∙ (unfold mark_used in refl),
    )

abbrev marked : Bool → Buddy → ℕ → ℕ → Buddy
marked c s page_n k = if c then s else mark_used page_n k s

marked_keeps :
    (c : Bool) (s : Buddy) (page_n k : ℕ)
    → ((marked c s page_n k).links ≡ s.links)
      × ((marked c s page_n k).physical_addr ≡ s.physical_addr)
unfolding mark_used
marked_keeps true s page_n k = (refl, refl)
marked_keeps false s page_n k = (refl, refl)

-- The page that is taken is not the first any more.
first-other :
    (k p : ℕ) (ps : List ℕ)
    → times p (p ∷ ps) ≤ 1
    → same_node (first_node k ps) (page_list p) ≡ false
first-other k p [] few = refl
first-other k p (y ∷ ps) few = ground (arith, few)

take_run :
    (s s' : Buddy) (l : Links) (n : Node) (order k p q : ℕ)
    → list_del s.links (page_list p) ≡ some l
    → l.next (area_list k) ≡ some n
    → same_node n (page_list p) ≡ false
    → expand
        (k - order)
        (less_free order
          (marked (k == max_order - 1) (record s { links = l }) (get_page_n (s.physical_addr p)) k))
        p
        (get_page_n (s.physical_addr p))
        order
      ≡ some (s', q)
    → s'.physical_addr q ≡ 256 * q
    → q < 65536
    → take_page s order k p ≡ some (less_free order (set_order s' q order), 256 * q)
unfolding take_page
take_run s s' l n order k p q deleted front other ran at low =
    let small : ltb (get_page_n (s'.physical_addr q)) 65537 ≡ true = ground (arith, at, low) in
    ground (arith, deleted, front, other, ran, small, at)

take_page_lem :
    (s : Buddy) (lists : ℕ → List ℕ) (order k p : ℕ) (ps : List ℕ)
    → IsBuddy s lists
    → order ≤ k
    → k < 16
    → lists k ≡ p ∷ ps
    → (s' : Buddy) × (q : ℕ) × (lists' : ℕ → List ℕ) × (take_page s order k p ≡ some (s', 256 * q))
      × IsBuddy s' lists'
      × ((x : ℕ) → free_cover lists' x + block order q x ≡ free_cover lists x)
      × (s'.order q ≡ order)
take_page_lem s lists order k p ps v le h e =
    let (l, deleted, v', counts) = list_del-Areas s.links lists k p ps v.areas h e in
    let few : times p (p ∷ ps) ≤ 1 =
      omega (arith, once s.links lists k p v.areas h, ap (times p) e) in
    let lists1 = put_at lists k ps in
    let front : l.next (area_list k) ≡ some (first_node k ps) = next-head l k ps (
      subst (λ t. Linked l (area_list k) t (area_list k)) (put_at_self lists k ps) (v'.ring k h)) in
    let page_n = get_page_n (s.physical_addr p) in
    let s1 : Buddy = record s { links = l } in
    let s2 = marked (k == max_order - 1) s1 page_n k in
    let (same, addr) = marked_keeps (k == max_order - 1) s1 page_n k in
    let gap : order + (k - order) ≡ k = omega (arith, le) in
    let (s3, q, lists', ran, w, more, addr') =
      expand_lem (k - order) (less_free order s2) lists1 p page_n order
        (subst (λ t. Areas t lists1) (sym same) v') (omega (arith, le, h))
        (λ x. omega (arith, counts x, v.areas.apart x, ap (λ t. block t p x) gap)) in
    let total : (x : ℕ) → free_cover lists' x + block order q x ≡ free_cover lists x =
      λ x. omega (arith, more x, counts x, ap (λ t. block t p x) gap) in
    let low : q < 65536 = elim (dec_lt q 65536) [
      | yes y ↦ y
      | no n ↦ absurd (omega (arith, v.inside q (omega (arith, n)), total q, block-first order q))
    ] in
    let at : s3.physical_addr q ≡ 256 * q = ap (λ f. f q) (addr' ∙ addr) ∙ v.mapped q low in
    let s' = less_free order (set_order s3 q order) in
    (
      s',
      q,
      lists',
      take_run s s3 l (first_node k ps) order k p q deleted front (first-other k p ps few) ran at
          low,
      record {
        areas = w;
        inside = λ x far. omega (arith, total x, v.inside x far);
        mapped = λ i small. ap (λ f. f i) (addr' ∙ addr) ∙ v.mapped i small;
      },
      total,
      ground arith,
    )

List-cases : (ps : List ℕ) → (ps ≡ []) ⊎ ((p : ℕ) × (qs : List ℕ) × (ps ≡ p ∷ qs))
List-cases [] = inl refl
List-cases (p ∷ ps) = inr (p, ps, refl)

-- A search from the area `k` on takes a block, or finds all lists empty.
alloc_loop_lem :
    (left : ℕ) (s : Buddy) (lists : ℕ → List ℕ) (order k : ℕ)
    → IsBuddy s lists
    → order ≤ k
    → k + left ≡ 16
    → ((s' : Buddy) × (q : ℕ) × (lists' : ℕ → List ℕ) × (alloc_loop left s order k
          ≡ some (s', some (256 * q)))
        × IsBuddy s' lists'
        × ((x : ℕ) → free_cover lists' x + block order q x ≡ free_cover lists x)
        × (s'.order q ≡ order))
      ⊎ ((alloc_loop left s order k ≡ some (s, none)) × ((j : ℕ) → k ≤ j → j < 16 → lists j ≡ []))
unfolding alloc_loop
alloc_loop_lem zero s lists order k v le e = inr (refl, λ j a b. absurd (omega (arith, a, b, e)))
alloc_loop_lem (suc left) s lists order k v le e = elim (List-cases (lists k)) [
  | inl none_here ↦
      let front = next-head s.links k [] (
        subst (λ t. Linked s.links (area_list k) t (area_list k)) none_here
          (v.areas.ring k (omega (arith, e)))) in
      elim (alloc_loop_lem left s lists order (suc k) v (omega (arith, le)) (omega (arith, e))) [
        | inl (s', q, lists', ran, w, total, ordered) ↦
            inl (s', q, lists', ground (arith, front, ran), w, total, ordered)
        | inr (ran, empty) ↦ inr (
          ground (arith, front, ran),
          λ j a b. elim (dec_lt k j) [
            | yes above ↦ empty j (omega (arith, above)) b
            | no here ↦ subst (λ i. lists i ≡ []) (omega (arith, here, a)) none_here
          ],
        )
      ]
  | inr (p, ps, some_here) ↦
      let h : k < 16 = omega (arith, e) in
      let front =
        next-head s.links k (p ∷ ps) (
          subst (λ t. Linked s.links (area_list k) t (area_list k)) some_here (v.areas.ring k h)) in
      let (s', q, lists', ran, w, total, ordered) =
        take_page_lem s lists order k p ps v le h some_here in
      inl (s', q, lists', ground (arith, front, ran), w, total, ordered)
]

-- `alloc_pages` returns, for every order of a free area. Either it gives out a block of the order, which
-- was free: its pages are exactly those that are free no longer, and the order is noted at its first
-- page. Or it returns NULL and changes nothing; then no block of the order or of a larger one is free.
pub alloc_pages_lem :
    (s : Buddy) (lists : ℕ → List ℕ) (order : ℕ)
    → IsBuddy s lists
    → order < 16
    → ((s' : Buddy) × (q : ℕ) × (lists' : ℕ → List ℕ) × (alloc_pages s (some order)
          ≡ some (s', some (256 * q)))
        × IsBuddy s' lists'
        × ((x : ℕ) → free_cover lists' x + block order q x ≡ free_cover lists x)
        × (s'.order q ≡ order))
      ⊎ ((alloc_pages s (some order) ≡ some (s, none))
          × ((j : ℕ) → order ≤ j → j < 16 → lists j ≡ []))
unfolding alloc_pages
alloc_pages_lem s lists order v h =
    elim (alloc_loop_lem (max_order - order) s lists order order v (omega arith)
      (omega (arith, h))) [
        | inl (s', q, lists', ran, w, total, ordered) ↦
            inl (s', q, lists', ground (arith, h, ran), w, total, ordered)
        | inr (ran, empty) ↦ inr (ground (arith, h, ran), empty)
      ]
