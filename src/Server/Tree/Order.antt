-- ===== src/Server/Tree/Order.antt =====
-- The search-tree order, and what keeps it.
use system_software.Prelude.{arith}
use system_software.Prelude.Int.{ℤ, ◌<ℤ◌, ◌≤ℤ◌}
use system_software.Server.Tree.{Stock, leaf, node, insert}

-- Every id of the tree satisfies `P`.
abbrev pub All : (ℤ → Type 0) → Stock → Type 0
All P leaf = Unit
All P (node i p c l r) = P i × All P l × All P r

-- Smaller ids stand to the left, equal and greater ones to the right.
abbrev pub IsOrdered : Stock → Type 0
IsOrdered leaf = Unit
IsOrdered (node i p c l r) = All (λ k. k <ℤ i) l × All (λ k. i ≤ℤ k) r × IsOrdered l × IsOrdered r

pub All-insert :
    (P : ℤ → Type 0) (t : Stock) (id count price : ℤ)
    → P id
    → All P t
    → All P (insert t id count price)
unfolding insert
All-insert P leaf id count price h a = (h, tt, tt)
All-insert P (node i p c l r) id count price h a =
    ground (arith, All-insert P l id count price, All-insert P r id count price)

-- `insert` keeps the order.
pub insert-IsOrdered :
    (t : Stock) (id count price : ℤ) → IsOrdered t → IsOrdered (insert t id count price)
unfolding insert
insert-IsOrdered leaf id count price s = (tt, tt, tt, tt)
insert-IsOrdered (node i p c l r) id count price s = ground (
  arith,
  insert-IsOrdered l id count price,
  insert-IsOrdered r id count price,
  All-insert (λ k. k <ℤ i) l id count price,
  All-insert (λ k. i ≤ℤ k) r id count price,
)
