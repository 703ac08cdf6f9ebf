-- ===== src/Server/Tree/Lookup.antt =====
-- What `find` finds, before and after `insert`.
use system_software.Prelude.{◌≡◌, refl, Option, none, some, arith, if◌then◌else◌}
use system_software.Prelude.Int.{ℤ, ◌<ℤ◌, ◌≤ℤ◌, eqb_ℤ, ltb_ℤ, eq_of_parts}
use system_software.Server.Tree.{Stock, leaf, node, insert, find}
use system_software.Server.Tree.Order.{All, IsOrdered}
use system_software.Server.Ledger.{Entry, entries, entry_at, assoc, assoc-append, or_else}

-- The entry behind the pointer that `find` returns.
unfoldable pub lookup : ℤ → Stock → Option Entry
lookup id t = elim (find id t) [ none ↦ none | some a ↦ entry_at a t ]

pub lookup-node :
    (id i p c : ℤ) (l r : Stock)
    → lookup id (node i p c l r) ≡ (
        if eqb_ℤ id i
        then some (record { id = i; count = c; price = p })
        else if ltb_ℤ i id
        then lookup id r
        else lookup id l)
unfolding lookup find entry_at
lookup-node id i p c l r = ground arith

-- After `insert` an id that was there keeps its entry, the new id has the new one if it had none,
-- and every other id is as it was.
pub lookup-insert :
    (t : Stock) (id count price j : ℤ)
    → lookup j (insert t id count price)
      ≡ or_else
          (lookup j t)
          (if eqb_ℤ j id then some (record { id = id; count = count; price = price }) else none)
unfolding insert
lookup-insert leaf id count price j = unfold lookup find entry_at in ground arith
lookup-insert (node i p c l r) id count price j = ground (
  arith,
  lookup-insert l id count price j,
  lookup-insert r id count price j,
  lookup-node j i p c l r,
  lookup-node j i p c (insert l id count price) r,
  lookup-node j i p c l (insert r id count price),
  eq_of_parts j i,
  eq_of_parts j id,
)

-- No entry has an id that the tree's ids all differ from.
pub assoc-All_lt :
    (t : Stock) (i id : ℤ) → All (λ k. k <ℤ i) t → i ≤ℤ id → assoc id (entries t) ≡ none
unfolding entries assoc
assoc-All_lt leaf i id a h = refl
assoc-All_lt (node k p c l r) i id a h = ground (
  arith,
  assoc-append id (entries l) (entries r),
  assoc-All_lt l i id a.1 h,
  assoc-All_lt r i id a.2 h,
)

pub assoc-All_le :
    (t : Stock) (i id : ℤ) → All (λ k. i ≤ℤ k) t → id <ℤ i → assoc id (entries t) ≡ none
unfolding entries assoc
assoc-All_le leaf i id a h = refl
assoc-All_le (node k p c l r) i id a h = ground (
  arith,
  assoc-append id (entries l) (entries r),
  assoc-All_le l i id a.1 h,
  assoc-All_le r i id a.2 h,
)

-- In an ordered tree `find` reaches the first entry with the id, and fails if there is none.
pub lookup-eq-assoc : (t : Stock) (id : ℤ) → IsOrdered t → lookup id t ≡ assoc id (entries t)
unfolding entries assoc
lookup-eq-assoc leaf id s = unfold lookup find in refl
lookup-eq-assoc (node i p c l r) id s = ground (
  arith,
  lookup-node id i p c l r,
  lookup-eq-assoc l id s.2,
  lookup-eq-assoc r id s.3,
  assoc-append id (entries l) (entries r),
  assoc-All_lt l i id s.0,
  assoc-All_le r i id s.1,
)
