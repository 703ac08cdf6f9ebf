-- ===== src/Buddy/Areas.antt =====
-- The free areas: the lists of all orders, and the pages that their blocks cover.
use native.Mathlib.Nat.{one-le-pow}
use system_software.Prelude.{
  ℕ, zero, suc, ◌+◌, ◌^◌, ◌≡◌, ◌≢◌, ◌<◌, ◌≤◌, inl, inr, refl, sym, ap, subst, List, [], ◌∷◌, false,
  ◌&&◌, some, arith, ◌==◌, if◌then◌else◌, Bool-cases, ltb, leb, dec_lt,
}
use system_software.Buddy.{area_list, page_list, Links, list_add, list_del}
use system_software.Buddy.Ring.{
  times, Linked, Changes, Linked-Changes, times-Away, times-Away_area, first_node, list_add-Linked,
  list_del-Linked,
}

-- Whether the block of the order `k` at page `p` has the page `x`: 1 or 0.
abbrev pub block : ℕ → ℕ → ℕ → ℕ
block k p x = if leb p x && ltb x (p + 2 ^ k) then 1 else 0

-- How many blocks of a list have the page.
abbrev pub covers : ℕ → List ℕ → ℕ → ℕ
covers k [] x = 0
covers k (p ∷ ps) x = block k p x + covers k ps x

-- How many free blocks of the orders below `n` have it.
abbrev pub cover : ℕ → (ℕ → List ℕ) → ℕ → ℕ
cover zero lists x = 0
cover (suc n) lists x = cover n lists x + covers n (lists n) x

abbrev pub put_at : (ℕ → List ℕ) → ℕ → List ℕ → ℕ → List ℕ
put_at lists k ps j = if k == j then ps else lists j

pub put_at_self : (lists : ℕ → List ℕ) (k : ℕ) (ps : List ℕ) → put_at lists k ps k ≡ ps
put_at_self lists k ps = ground arith

cover-put_above :
    (n k x : ℕ) (lists : ℕ → List ℕ) (ps : List ℕ)
    → n ≤ k
    → cover n (put_at lists k ps) x ≡ cover n lists x
cover-put_above zero k x lists ps h = refl
cover-put_above (suc n) k x lists ps h =
    let other : put_at lists k ps n ≡ lists n = ground (arith, h) in
    omega (arith, cover-put_above n k x lists ps (omega (arith, h)), ap (λ t. covers n t x) other)

pub cover-put_at :
    (n k x : ℕ) (lists : ℕ → List ℕ) (ps : List ℕ)
    → k < n
    → cover n (put_at lists k ps) x + covers k (lists k) x ≡ cover n lists x + covers k ps x
cover-put_at zero k x lists ps h = absurd (omega (arith, h))
cover-put_at (suc n) k x lists ps h = elim (dec_lt k n) [
  | yes below ↦
      let other : put_at lists k ps n ≡ lists n = ground (arith, below) in
      omega (arith, cover-put_at n k x lists ps below, ap (λ t. covers n t x) other)
  | no top ↦
      let e : k ≡ n = omega (arith, h, top) in
      subst
        (λ i.
          cover n (put_at lists k ps) x + covers i (put_at lists k ps i) x + covers k (lists k) x
          ≡ cover n lists x + covers i (lists i) x + covers k ps x)
        e
        (omega (
          arith,
          cover-put_above n k x lists ps (omega (arith, top)),
          ap (λ t. covers k t x) (put_at_self lists k ps),
        ))
]

pub covers-cover : (n k x : ℕ) (lists : ℕ → List ℕ) → k < n → covers k (lists k) x ≤ cover n lists x
covers-cover n k x lists h = omega (arith, cover-put_at n k x lists [] h)

-- A block has its first page.
pub block-first : (k p : ℕ) → block k p p ≡ 1
block-first k p = ground (arith, one-le-pow k 2 (omega arith))

pub times-covers : (k x : ℕ) (ps : List ℕ) → times x ps ≤ covers k ps x
times-covers k x [] = omega arith
times-covers k x (p ∷ ps) = elim (Bool-cases (x == p)) [
  | inl e ↦
      let q : x ≡ p = ground (arith, e) in
      let one : block k p x ≡ 1 = subst (λ t. block k t x ≡ 1) q (block-first k x) in
      ground (arith, e, one, times-covers k x ps)
  | inr n ↦ ground (arith, n, times-covers k x ps)
]

-- A page of two areas is counted twice.
two_areas :
    (n i j x : ℕ) (lists : ℕ → List ℕ)
    → i < n
    → j < n
    → i ≢ j
    → covers i (lists i) x + covers j (lists j) x ≤ cover n lists x
two_areas n i j x lists hi hj ne =
    let other : put_at lists i [] j ≡ lists j = ground (arith, ne) in
    omega (
      arith,
      cover-put_at n i x lists [] hi,
      covers-cover n j x (put_at lists i []) hj,
      ap (λ t. covers j t x) other,
    )

-- How many free blocks have a page.
unfoldable pub free_cover : (ℕ → List ℕ) → ℕ → ℕ
free_cover lists x = cover 16 lists x

pub free_cover-put_at :
    (k x : ℕ) (lists : ℕ → List ℕ) (ps : List ℕ)
    → k < 16
    → free_cover (put_at lists k ps) x + covers k (lists k) x ≡ free_cover lists x + covers k ps x
unfolding free_cover
free_cover-put_at k x lists ps h = cover-put_at 16 k x lists ps h

pub covers-free_cover :
    (k x : ℕ) (lists : ℕ → List ℕ) → k < 16 → covers k (lists k) x ≤ free_cover lists x
unfolding free_cover
covers-free_cover k x lists h = covers-cover 16 k x lists h

pub two_free :
    (i j x : ℕ) (lists : ℕ → List ℕ)
    → i < 16
    → j < 16
    → i ≢ j
    → covers i (lists i) x + covers j (lists j) x ≤ free_cover lists x
unfolding free_cover
two_free i j x lists hi hj ne = two_areas 16 i j x lists hi hj ne

-- The links of every area form the ring of its list, and no page is in two free blocks.
pub record Areas (l : Links) (lists : ℕ → List ℕ) : Type 0 where
  pub ring : (k : ℕ) → k < 16 → Linked l (area_list k) (lists k) (area_list k)
  pub apart : (x : ℕ) → free_cover lists x ≤ 1

pub once :
    (l : Links) (lists : ℕ → List ℕ) (k x : ℕ) → Areas l lists → k < 16 → times x (lists k) ≤ 1
once l lists k x v h =
    omega (arith, times-covers k x (lists k), covers-free_cover k x lists h, v.apart x)

-- The rings of the other areas.
other_ring :
    (l l' : Links) (k j p : ℕ) (ps qs : List ℕ)
    → Changes l l' k p (first_node k ps)
    → (k == j) ≡ false
    → times p qs ≡ 0
    → ((x : ℕ) → 1 ≤ times x ps → times x qs ≡ 0)
    → Linked l (area_list j) qs (area_list j)
    → Linked l' (area_list j) qs (area_list j)
other_ring l l' k j p [] qs c ne away far v =
    Linked-Changes l l' k p (area_list k) (area_list j) (area_list j) qs c ne refl ne refl
      (times-Away_area p k qs away) v
other_ring l l' k j p (y ∷ ps) qs c ne away far v =
    Linked-Changes l l' k p (page_list y) (area_list j) (area_list j) qs c ne refl refl refl
      (times-Away p y qs away (far y (ground arith))) v

-- The ring of an area after a change of it, and of those that are not changed.
put_ring :
    (l l' : Links) (lists : ℕ → List ℕ) (k p : ℕ) (ps : List ℕ)
    → Areas l lists
    → Changes l l' k p (first_node k ps)
    → ((j : ℕ) → j < 16 → j ≢ k → times p (lists j) ≡ 0)
    → ((x : ℕ) → times x ps ≤ times x (lists k))
    → k < 16
    → (qs : List ℕ) → Linked l' (area_list k) qs (area_list k)
    → (j : ℕ) → j < 16
    → Linked l' (area_list j) (put_at lists k qs j) (area_list j)
put_ring l l' lists k p ps v c away few h qs own j hj = elim (Bool-cases (k == j)) [
  | inl e ↦
      let q : k ≡ j = ground (arith, e) in
      subst (λ i. Linked l' (area_list i) (put_at lists k qs i) (area_list i)) q
        (subst (λ t. Linked l' (area_list k) t (area_list k)) (sym (put_at_self lists k qs)) own)
  | inr n ↦
      let ne : j ≢ k = λ e. ground (arith, e, n) in
      let far : (x : ℕ) → 1 ≤ times x ps → times x (lists j) ≡ 0 = λ x one. omega (
        arith,
        one,
        few x,
        times-covers k x (lists k),
        times-covers j x (lists j),
        two_free j k x lists hj h ne,
        v.apart x,
      ) in
      let other : put_at lists k qs j ≡ lists j = ground (arith, n) in
      subst (λ t. Linked l' (area_list j) t (area_list j)) (sym other)
        (other_ring l l' k j p ps (lists j) c n (away j hj ne) far (v.ring j hj))
]

pub list_add-Areas :
    (l : Links) (lists : ℕ → List ℕ) (k p : ℕ)
    → Areas l lists
    → k < 16
    → ((x : ℕ) → free_cover lists x + block k p x ≤ 1)
    → (l' : Links) × (list_add l (area_list k) (page_list p) ≡ some l')
      × Areas l' (put_at lists k (p ∷ lists k))
list_add-Areas l lists k p v h room =
    let gone : (j : ℕ) → j < 16 → times p (lists j) ≡ 0 = λ j hj. omega (
      arith,
      times-covers j p (lists j),
      covers-free_cover j p lists hj,
      room p,
      block-first k p,
    ) in
    let (l', ran, own, c) =
      list_add-Linked l k p (lists k) (v.ring k h) (gone k h) (λ x. once l lists k x v h) in
    (
      l',
      ran,
      record {
        ring =
            put_ring l l' lists k p (lists k) v c (λ j hj ne. gone j hj) (λ x. omega arith) h
              (p ∷ lists k) own;
        apart = λ x. omega (arith, free_cover-put_at k x lists (p ∷ lists k) h, room x);
      },
    )

pub list_del-Areas :
    (l : Links) (lists : ℕ → List ℕ) (k p : ℕ) (ps : List ℕ)
    → Areas l lists
    → k < 16
    → lists k ≡ p ∷ ps
    → (l' : Links) × (list_del l (page_list p) ≡ some l')
      × Areas l' (put_at lists k ps)
      × ((x : ℕ) → free_cover (put_at lists k ps) x + block k p x ≡ free_cover lists x)
list_del-Areas l lists k p ps v h e =
    let own = subst (λ t. Linked l (area_list k) t (area_list k)) e (v.ring k h) in
    let few : (x : ℕ) → times x (p ∷ ps) ≤ 1 =
      λ x. omega (arith, once l lists k x v h, ap (times x) e) in
    let (l', ran, left, c) = list_del-Linked l k p ps own few in
    let counts : (x : ℕ) → free_cover (put_at lists k ps) x + block k p x ≡ free_cover lists x =
      λ x. omega (arith, free_cover-put_at k x lists ps h, ap (λ t. covers k t x) e) in
    let gone : (j : ℕ) → j < 16 → j ≢ k → times p (lists j) ≡ 0 = λ j hj ne. omega (
      arith,
      times-covers j p (lists j),
      two_free j k p lists hj h ne,
      ap (λ t. covers k t p) e,
      block-first k p,
      v.apart p,
    ) in
    (
      l',
      ran,
      record {
        ring = put_ring l l' lists k p ps v c gone (λ x. omega (arith, ap (times x) e)) h ps left;
        apart = λ x. omega (arith, counts x, v.apart x);
      },
      counts,
    )
