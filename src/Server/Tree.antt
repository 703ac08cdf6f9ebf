-- ===== src/Server/Tree.antt =====
-- concurrent_stockserver/event_driven/binary_tree.c: the stocks as a binary search tree. A pointer
-- to a node is its address, the turns that lead to it from the root.
pub mod Order
pub mod Lookup
pub mod Modify
pub mod Rebuild
use system_software.Prelude.{List, [], ◌∷◌, Option, none, some, Bool, true, false, if◌then◌else◌}
use system_software.Prelude.Int.{ℤ, pos, ltb_ℤ, eqb_ℤ, add_int}
use mathlib.Core.Option

-- `STATUS`
pub data Status : Type 0 where
  success error no_cmd inv_arg not_enough nl : Status

-- `struct stock`: id, price, count, left, right; `leaf` is NULL.
pub data Stock : Type 0 where
  leaf : Stock
  node : ℤ → ℤ → ℤ → Stock → Stock → Stock

unfoldable pub insert : Stock → ℤ → ℤ → ℤ → Stock
insert leaf id count price = node id price count leaf leaf
insert (node i p c l r) id count price = elim (ltb_ℤ id i) [
  | true ↦ node i p c (insert l id count price) r
  | false ↦ node i p c l (insert r id count price)
]

pub data Turn : Type 0 where
  left right : Turn

abbrev pub Address : Type 0
Address = List Turn

unfoldable pub find : ℤ → Stock → Option Address
find id leaf = none
find id (node i p c l r) = if eqb_ℤ id i then some [] else elim (ltb_ℤ i id) [
  | true ↦ Option.map (λ a. right ∷ a) (find id r)
  | false ↦ Option.map (λ a. left ∷ a) (find id l)
]

-- `stock->count` through a pointer
unfoldable pub count_at : Address → Stock → ℤ
count_at a leaf = pos 0
count_at [] (node i p c l r) = c
count_at (left ∷ a) (node i p c l r) = count_at a l
count_at (right ∷ a) (node i p c l r) = count_at a r

-- `stock->count = v` through a pointer
unfoldable pub set_count : Address → ℤ → Stock → Stock
set_count a v leaf = leaf
set_count [] v (node i p c l r) = node i p v l r
set_count (left ∷ a) v (node i p c l r) = node i p c (set_count a v l) r
set_count (right ∷ a) v (node i p c l r) = node i p c l (set_count a v r)

-- `modify`; the tree is the global `_root`.
unfoldable pub modify : ℤ → ℤ → Stock → Status × Stock
modify id count root = elim (find id root) [
  | none ↦ (error, root)
  | some a ↦
      let total = add_int (count_at a root) count in
      if ltb_ℤ total (pos 0) then (not_enough, root) else (success, set_count a total root)
]
