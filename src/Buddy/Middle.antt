-- ===== src/Buddy/Middle.antt =====
-- Taking a block out of the middle of its list, as `mm_free` does with the buddy.
use system_software.Prelude.{
  ℕ, ◌+◌, ◌≡◌, ◌≢◌, ◌<◌, ◌≤◌, inl, inr, refl, sym, ap, ◌∙◌, subst, List, [], ◌∷◌, ◌++◌, true, false,
  some, arith, ◌==◌, Bool-cases,
}
use system_software.Buddy.{Node, area_list, page_list, same_node, Links, set_next, set_prev, unlink}
use system_software.Buddy.Ring.{times, Linked}
use system_software.Buddy.Areas.{
  block, covers, free_cover, put_at, put_at_self, Areas, free_cover-put_at, times-covers, two_free,
  once,
}

-- The links of the other nodes stay: `next` but for the page `u`, and `prev` but for the page `w`.
record Keeps (l l' : Links) (u w : ℕ) : Type 0 where
  next_same : (m : Node) → same_node (page_list u) m ≡ false → l'.next m ≡ l.next m
  prev_same : (m : Node) → same_node (page_list w) m ≡ false → l'.prev m ≡ l.prev m

Linked-Keeps :
    (l l' : Links) (u w : ℕ) (a b : Node) (xs : List ℕ)
    → Keeps l l' u w
    → same_node (page_list u) a ≡ false
    → same_node (page_list w) b ≡ false
    → times u xs ≡ 0
    → times w xs ≡ 0
    → Linked l a xs b
    → Linked l' a xs b
Linked-Keeps l l' u w a b [] c ua wb eu ew (v, t) = (c.next_same a ua ∙ v, c.prev_same b wb ∙ t)
Linked-Keeps l l' u w a b (x ∷ xs) c ua wb eu ew (v, t, rest) = (
  c.next_same a ua ∙ v,
  c.prev_same (page_list x) (ground (arith, ew)) ∙ t,
  Linked-Keeps l l' u w (page_list x) b xs c (ground (arith, eu)) wb (ground (arith, eu))
      (ground (arith, ew)) rest,
)

-- The links up to a page of the list, and behind it.
Linked-split :
    (l : Links) (a b : Node) (xs : List ℕ) (u : ℕ) (ys : List ℕ)
    → Linked l a (xs ++ u ∷ ys) b
    → Linked l a xs (page_list u) × Linked l (page_list u) ys b
Linked-split l a b [] u ys (v, t, rest) = ((v, t), rest)
Linked-split l a b (x ∷ xs) u ys (v, t, rest) =
    let (front, back) = Linked-split l (page_list x) b xs u ys rest in ((v, t, front), back)

Linked-join :
    (l : Links) (a b : Node) (xs : List ℕ) (u : ℕ) (ys : List ℕ)
    → Linked l a xs (page_list u)
    → Linked l (page_list u) ys b
    → Linked l a (xs ++ u ∷ ys) b
Linked-join l a b [] u ys (v, t) back = (v, t, back)
Linked-join l a b (x ∷ xs) u ys (v, t, front) back =
    (v, t, Linked-join l (page_list x) b xs u ys front back)

times-append : (p : ℕ) (xs ys : List ℕ) → times p (xs ++ ys) ≡ times p xs + times p ys
times-append p [] ys = omega arith
times-append p (x ∷ xs) ys = omega (arith, times-append p xs ys)

covers-append : (k x : ℕ) (xs ys : List ℕ) → covers k (xs ++ ys) x ≡ covers k xs x + covers k ys x
covers-append k x [] ys = omega arith
covers-append k x (p ∷ xs) ys = omega (arith, covers-append k x xs ys)

-- `buddy->prev->next = buddy->next; buddy->next->prev = buddy->prev;`
abbrev pub skipped : Links → ℕ → ℕ → Links
skipped l u w =
    set_prev (set_next l (page_list u) (some (page_list w))) (page_list w) (some (page_list u))

skipped-Keeps : (l : Links) (u w : ℕ) → Keeps l (skipped l u w) u w
skipped-Keeps l u w = record {
  next_same = λ m a. ground (arith, a);
  prev_same = λ m a. ground (arith, a);
}

-- The ring of the list, and the links of the block.
pub unlink-Linked :
    (l : Links) (k p u w : ℕ) (xs ys : List ℕ)
    → Linked l (area_list k) (xs ++ u ∷ p ∷ w ∷ ys) (area_list k)
    → ((x : ℕ) → times x (xs ++ u ∷ p ∷ w ∷ ys) ≤ 1)
    → (l.next (page_list p) ≡ some (page_list w))
      × (l.prev (page_list p) ≡ some (page_list u))
      × Linked (skipped l u w) (area_list k) (xs ++ u ∷ w ∷ ys) (area_list k)
unlink-Linked l k p u w xs ys v once_each =
    let (front, (a, b, (c, d, back))) =
      Linked-split l (area_list k) (area_list k) xs u (p ∷ w ∷ ys) v in
    let kept = skipped-Keeps l u w in
    let cu = once_each u in
    let cw = once_each w in
    let eu = times-append u xs (u ∷ p ∷ w ∷ ys) in
    let ew = times-append w xs (u ∷ p ∷ w ∷ ys) in
    let uu : (u == u) ≡ true = ground arith in
    let ww : (w == w) ≡ true = ground arith in
    let uw : (u == w) ≡ false = ground (arith, cu, eu, uu) in
    let wu : (w == u) ≡ false = ground (arith, cw, ew, ww) in
    let ux : times u xs ≡ 0 = ground (arith, cu, eu, uu) in
    let wx : times w xs ≡ 0 = ground (arith, cw, ew, ww) in
    let uy : times u ys ≡ 0 = ground (arith, cu, eu, uu) in
    let wy : times w ys ≡ 0 = ground (arith, cw, ew, ww) in
    (
      c,
      b,
      Linked-join (skipped l u w) (area_list k) (area_list k) xs u (w ∷ ys)
          (Linked-Keeps l (skipped l u w) u w (area_list k) (page_list u) xs kept refl wu ux wx
            front)
          (
            ground (arith, uu),
            ground (arith, ww),
            Linked-Keeps l (skipped l u w) u w (page_list w) (area_list k) ys kept uw refl uy wy
                back,
          ),
    )

unlink-skipped :
    (l : Links) (u w : ℕ)
    → unlink l (some (page_list w)) (some (page_list u)) ≡ some (skipped l u w)
unfolding unlink
unlink-skipped l u w = refl

-- A page of one list is in no other one.
elsewhere :
    (l : Links) (lists : ℕ → List ℕ) (j k x : ℕ)
    → Areas l lists
    → j < 16
    → k < 16
    → j ≢ k
    → 1 ≤ times x (lists k)
    → times x (lists j) ≡ 0
elsewhere l lists j k x v hj h ne one = omega (
  arith,
  one,
  times-covers k x (lists k),
  times-covers j x (lists j),
  two_free j k x lists hj h ne,
  v.apart x,
)

-- The free areas without the block, which had blocks on both sides in its list.
pub unlink-Areas :
    (l : Links) (lists : ℕ → List ℕ) (k p u w : ℕ) (xs ys : List ℕ)
    → Areas l lists
    → k < 16
    → lists k ≡ xs ++ u ∷ p ∷ w ∷ ys
    → (l.next (page_list p) ≡ some (page_list w))
      × (l.prev (page_list p) ≡ some (page_list u))
      × (unlink l (some (page_list w)) (some (page_list u)) ≡ some (skipped l u w))
      × Areas (skipped l u w) (put_at lists k (xs ++ u ∷ w ∷ ys))
      × ((x : ℕ)
          → free_cover (put_at lists k (xs ++ u ∷ w ∷ ys)) x + block k p x ≡ free_cover lists x)
unlink-Areas l lists k p u w xs ys v h e =
    let few : (x : ℕ) → times x (xs ++ u ∷ p ∷ w ∷ ys) ≤ 1 =
      λ x. omega (arith, once l lists k x v h, ap (times x) e) in
    let ring = subst (λ t. Linked l (area_list k) t (area_list k)) e (v.ring k h) in
    let (c, b, own) = unlink-Linked l k p u w xs ys ring few in
    let qs = xs ++ u ∷ w ∷ ys in
    let counts : (x : ℕ) → free_cover (put_at lists k qs) x + block k p x ≡ free_cover lists x =
      λ x. omega (
        arith,
        free_cover-put_at k x lists qs h,
        ap (λ t. covers k t x) e,
        covers-append k x xs (u ∷ p ∷ w ∷ ys),
        covers-append k x xs (u ∷ w ∷ ys),
      ) in
    let uu : (u == u) ≡ true = ground arith in
    let ww : (w == w) ≡ true = ground arith in
    let has_u : 1 ≤ times u (lists k) =
      ground (arith, ap (times u) e, times-append u xs (u ∷ p ∷ w ∷ ys), uu) in
    let has_w : 1 ≤ times w (lists k) =
      ground (arith, ap (times w) e, times-append w xs (u ∷ p ∷ w ∷ ys), ww) in
    (
      c,
      b,
      unlink-skipped l u w,
      record {
        ring = λ j hj. elim (Bool-cases (k == j)) [
          | inl same ↦
              let q : k ≡ j = ground (arith, same) in
              subst (λ i. Linked (skipped l u w) (area_list i) (put_at lists k qs i) (area_list i))
                q
                (subst (λ t. Linked (skipped l u w) (area_list k) t (area_list k))
                  (sym (put_at_self lists k qs)) own)
          | inr differs ↦
              let ne : j ≢ k = λ q. ground (arith, q, differs) in
              let other : put_at lists k qs j ≡ lists j = ground (arith, differs) in
              subst (λ t. Linked (skipped l u w) (area_list j) t (area_list j)) (sym other)
                (Linked-Keeps l (skipped l u w) u w (area_list j) (area_list j) (lists j)
                  (skipped-Keeps l u w) refl refl (elsewhere l lists j k u v hj h ne has_u)
                  (elsewhere l lists j k w v hj h ne has_w) (v.ring j hj))
        ];
        apart = λ x. omega (arith, counts x, v.apart x);
      },
      counts,
    )
