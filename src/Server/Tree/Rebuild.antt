-- ===== src/Server/Tree/Rebuild.antt =====
-- The entries in preorder give the tree back, as `read_stockfile` does with what
-- `fsync_stockfile` printed.
use system_software.Prelude.{◌≡◌, refl, arith, List, [], ◌∷◌, ◌++◌}
use system_software.Prelude.Int.{ℤ, ◌<ℤ◌, ◌≤ℤ◌}
use system_software.Server.Tree.{Stock, leaf, node, insert}
use system_software.Server.Tree.Order.{All, IsOrdered}
use system_software.Server.Ledger.{Entry, entries}

-- One round of the loop of `read_stockfile` for each entry.
unfoldable pub insert_all : Stock → List Entry → Stock
insert_all t [] = t
insert_all t (e ∷ es) = insert_all (insert t e.id e.count e.price) es

pub insert_all-append :
    (t : Stock) (xs ys : List Entry) → insert_all t (xs ++ ys) ≡ insert_all (insert_all t xs) ys
unfolding insert_all
insert_all-append t [] ys = refl
insert_all-append t (x ∷ xs) ys = insert_all-append (insert t x.id x.count x.price) xs ys

insert_all-node :
    (t : Stock) (k q d : ℤ) (tl tr : Stock)
    → insert_all t (entries (node k q d tl tr))
      ≡ insert_all (insert_all (insert t k d q) (entries tl)) (entries tr)
unfolding insert_all entries
insert_all-node t k q d tl tr = insert_all-append (insert t k d q) (entries tl) (entries tr)

insert-left :
    (i p c k q d : ℤ) (l r : Stock)
    → k <ℤ i
    → insert (node i p c l r) k d q ≡ node i p c (insert l k d q) r
unfolding insert
insert-left i p c k q d l r h = ground arith

insert-right :
    (i p c k q d : ℤ) (l r : Stock)
    → i ≤ℤ k
    → insert (node i p c l r) k d q ≡ node i p c l (insert r k d q)
unfolding insert
insert-right i p c k q d l r h = ground arith

insert_all-leaf : (t : Stock) → insert_all t (entries leaf) ≡ t
unfolding insert_all entries
insert_all-leaf t = refl

-- Entries with smaller ids all go to the left of the root.
insert_all-left :
    (t : Stock) (i p c : ℤ) (l r : Stock)
    → All (λ k. k <ℤ i) t
    → insert_all (node i p c l r) (entries t) ≡ node i p c (insert_all l (entries t)) r
insert_all-left leaf i p c l r a = simp insert_all-leaf
insert_all-left (node k q d t u) i p c l r a = cc (
  insert_all-node (node i p c l r) k q d t u,
  insert_all-node l k q d t u,
  insert-left i p c k q d l r a.0,
  insert_all-left t i p c (insert l k d q) r a.1,
  insert_all-left u i p c (insert_all (insert l k d q) (entries t)) r a.2,
)

-- Entries with ids that are not smaller all go to the right.
insert_all-right :
    (t : Stock) (i p c : ℤ) (l r : Stock)
    → All (λ k. i ≤ℤ k) t
    → insert_all (node i p c l r) (entries t) ≡ node i p c l (insert_all r (entries t))
insert_all-right leaf i p c l r a = simp insert_all-leaf
insert_all-right (node k q d t u) i p c l r a = cc (
  insert_all-node (node i p c l r) k q d t u,
  insert_all-node r k q d t u,
  insert-right i p c k q d l r a.0,
  insert_all-right t i p c l (insert r k d q) a.1,
  insert_all-right u i p c l (insert_all (insert r k d q) (entries t)) a.2,
)

insert-leaf : (i c p : ℤ) → insert leaf i c p ≡ node i p c leaf leaf
unfolding insert
insert-leaf i c p = refl

-- Inserting the entries of an ordered tree, in the order in which it is printed, gives that tree.
pub insert_all-entries : (t : Stock) → IsOrdered t → insert_all leaf (entries t) ≡ t
insert_all-entries leaf s = insert_all-leaf leaf
insert_all-entries (node i p c l r) s = cc (
  insert_all-node leaf i p c l r,
  insert-leaf i c p,
  insert_all-left l i p c leaf leaf s.0,
  insert_all-entries l s.2,
  insert_all-right r i p c l leaf s.1,
  insert_all-entries r s.3,
)
