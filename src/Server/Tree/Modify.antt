-- ===== src/Server/Tree/Modify.antt =====
-- `modify` on every branch, and what it keeps.
use system_software.Prelude.{
  ◌≡◌, refl, Option-cases, inl, inr, none, some, arith, List, [], ◌∷◌, ◌++◌, if◌then◌else◌,
}
use system_software.Prelude.Int.{ℤ, pos, ◌<ℤ◌, ◌≤ℤ◌, eqb_ℤ, ltb_ℤ, add_int}
use system_software.Server.Tree.{
  Stock, leaf, node, find, Address, left, right, modify, set_count, count_at, Status, success,
  error, not_enough,
}
use system_software.Server.Tree.Order.{All, IsOrdered}
use system_software.Server.Tree.Lookup.{lookup, lookup-eq-assoc, assoc-All_lt, assoc-All_le}
use system_software.Server.Ledger.{Entry, entries, entry_at, assoc, adjust, replace}

-- The tree after `stock->count = v` through the pointer that `find` returns.
unfoldable pub put_count : ℤ → ℤ → Stock → Stock
put_count id v t = elim (find id t) [ none ↦ t | some a ↦ set_count a v t ]

pub put_count-node :
    (id v i p c : ℤ) (l r : Stock)
    → put_count id v (node i p c l r) ≡ (
        if eqb_ℤ id i
        then node i p v l r
        else if ltb_ℤ i id
        then node i p c l (put_count id v r)
        else node i p c (put_count id v l) r)
unfolding put_count find set_count
put_count-node id v i p c l r = ground arith

replace-append :
    (id v : ℤ) (xs ys : List Entry)
    → replace id v (xs ++ ys)
      ≡ elim (assoc id xs) [ none ↦ xs ++ replace id v ys | some e ↦ replace id v xs ++ ys ]
unfolding replace assoc
replace-append id v [] ys = refl
replace-append id v (x ∷ xs) ys = ground (arith, replace-append id v xs ys)

replace-none : (id v : ℤ) (xs : List Entry) → assoc id xs ≡ none → replace id v xs ≡ xs
unfolding replace assoc
replace-none id v [] h = refl
replace-none id v (x ∷ xs) h = ground (arith, replace-none id v xs)

entries-put_count :
    (t : Stock) (id v : ℤ) → IsOrdered t → entries (put_count id v t) ≡ replace id v (entries t)
unfolding entries replace
entries-put_count leaf id v s = unfold put_count find in refl
entries-put_count (node i p c l r) id v s = ground (
  arith,
  put_count-node id v i p c l r,
  entries-put_count l id v s.2,
  entries-put_count r id v s.3,
  replace-append id v (entries l) (entries r),
  replace-none id v (entries l),
  replace-none id v (entries r),
  assoc-All_lt l i id s.0,
  assoc-All_le r i id s.1,
)

count_at-entry_at :
    (a : Address) (t : Stock)
    → count_at a t ≡ elim (entry_at a t) [ none ↦ pos 0 | some e ↦ e.count ]
unfolding count_at entry_at
count_at-entry_at [] leaf = refl
count_at-entry_at [] (node i p c l r) = refl
count_at-entry_at (left ∷ a) leaf = refl
count_at-entry_at (left ∷ a) (node i p c l r) = count_at-entry_at a l
count_at-entry_at (right ∷ a) leaf = refl
count_at-entry_at (right ∷ a) (node i p c l r) = count_at-entry_at a r

found-entry :
    (id : ℤ) (t : Stock) (a : Address) → find id t ≡ some a → (e : Entry) × (entry_at a t ≡ some e)
unfolding find entry_at
found-entry id leaf a h = ground arith
found-entry id (node i p c l r) [] h = (record { id = i; count = c; price = p }, refl)
found-entry id (node i p c l r) (left ∷ a) h = found-entry id l a (ground arith)
found-entry id (node i p c l r) (right ∷ a) h = found-entry id r a (ground arith)

-- `modify` in terms of what `find` finds.
pub modify-eq :
    (id n : ℤ) (t : Stock)
    → modify id n t ≡ elim (lookup id t) [
      | none ↦ (error, t)
      | some e ↦
          let total = add_int e.count n in
          if ltb_ℤ total (pos 0) then (not_enough, t) else (success, put_count id total t)
    ]
unfolding modify lookup put_count
modify-eq id n t = elim (Option-cases (find id t)) [
  | inl e ↦ ground arith
  | inr (a, e) ↦ let (x, f) = found-entry id t a e in ground (arith, count_at-entry_at a t, f)
]

-- On an ordered tree `modify` is `adjust` on the entries: its status, and the entries after it.
pub modify_refines :
    (id n : ℤ) (t : Stock)
    → IsOrdered t
    → ◌≡◌ {A = Status × List Entry}
        ((modify id n t).0, entries (modify id n t).1)
        (adjust id n (entries t))
unfolding adjust
modify_refines id n t s = elim (Option-cases (lookup id t)) [
  | inl e ↦ ground (arith, modify-eq id n t, lookup-eq-assoc t id s)
  | inr (x, e) ↦ ground (
    arith,
    modify-eq id n t,
    lookup-eq-assoc t id s,
    entries-put_count t id (add_int x.count n) s,
  )
]

All-put_count : (P : ℤ → Type 0) (t : Stock) (id v : ℤ) → All P t → All P (put_count id v t)
All-put_count P leaf id v a = unfold put_count find in tt
All-put_count P (node i p c l r) id v a =
    ground (arith, put_count-node id v i p c l r, All-put_count P l id v, All-put_count P r id v)

put_count-IsOrdered : (t : Stock) (id v : ℤ) → IsOrdered t → IsOrdered (put_count id v t)
put_count-IsOrdered leaf id v s = unfold put_count find in tt
put_count-IsOrdered (node i p c l r) id v s = ground (
  arith,
  put_count-node id v i p c l r,
  put_count-IsOrdered l id v,
  put_count-IsOrdered r id v,
  All-put_count (λ k. k <ℤ i) l id v,
  All-put_count (λ k. i ≤ℤ k) r id v,
)

-- Every count of the tree is at least 0.
abbrev pub HasStock : Stock → Type 0
HasStock leaf = Unit {0}
HasStock (node i p c l r) = (pos 0 ≤ℤ c) × HasStock l × HasStock r

put_count-HasStock : (t : Stock) (id v : ℤ) → pos 0 ≤ℤ v → HasStock t → HasStock (put_count id v t)
put_count-HasStock leaf id v h s = unfold put_count find in tt
put_count-HasStock (node i p c l r) id v h s =
    ground (
      arith,
      put_count-node id v i p c l r,
      put_count-HasStock l id v h,
      put_count-HasStock r id v h,
    )

-- `modify` keeps the order, and no count falls below 0, whatever it is asked to add.
pub modify_keeps :
    (id n : ℤ) (t : Stock)
    → IsOrdered t
    → HasStock t
    → IsOrdered (modify id n t).1 × HasStock (modify id n t).1
modify_keeps id n t s h = elim (Option-cases (lookup id t)) [
  | inl e ↦ ground (arith, modify-eq id n t)
  | inr (x, e) ↦
      let total = add_int x.count n in
      ground
        (arith, modify-eq id n t, put_count-IsOrdered t id total s, put_count-HasStock t id total)
]
