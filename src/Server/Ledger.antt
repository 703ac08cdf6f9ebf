-- ===== src/Server/Ledger.antt =====
-- What the tree of stocks stands for: its entries, in the order in which `print_to_buf` visits them.
use system_software.Prelude.{
  ◌≡◌, refl, List, [], ◌∷◌, ◌++◌, Option, none, some, if◌then◌else◌, arith,
}
use system_software.Prelude.Int.{ℤ, pos, eqb_ℤ, ltb_ℤ, add_int}
use system_software.Server.Tree.{
  Stock, leaf, node, Status, success, error, not_enough, Address, left, right,
}

pub record Entry : Type 0 where
  pub id : ℤ
  pub count : ℤ
  pub price : ℤ

-- The tree in preorder.
unfoldable pub entries : Stock → List Entry
entries leaf = []
entries (node i p c l r) = record { id = i; count = c; price = p } ∷ entries l ++ entries r

unfoldable pub entry_at : Address → Stock → Option Entry
entry_at a leaf = none
entry_at [] (node i p c l r) = some (record { id = i; count = c; price = p })
entry_at (left ∷ a) (node i p c l r) = entry_at a l
entry_at (right ∷ a) (node i p c l r) = entry_at a r

abbrev pub or_else : Option Entry → Option Entry → Option Entry
or_else none o = o
or_else (some e) o = some e

-- The first entry with an id.
unfoldable pub assoc : ℤ → List Entry → Option Entry
assoc id [] = none
assoc id (e ∷ es) = if eqb_ℤ id e.id then some e else assoc id es

pub assoc-append :
    (id : ℤ) (xs ys : List Entry) → assoc id (xs ++ ys) ≡ or_else (assoc id xs) (assoc id ys)
unfolding assoc
assoc-append id [] ys = refl
assoc-append id (x ∷ xs) ys = ground (arith, assoc-append id xs ys)

-- The count of the first entry with an id becomes `v`.
unfoldable pub replace : ℤ → ℤ → List Entry → List Entry
replace id v [] = []
replace id v (e ∷ es) = if eqb_ℤ id e.id then record e { count = v } ∷ es else e ∷ replace id v es

-- Adding to the count of an id, as a caller sees it.
unfoldable pub adjust : ℤ → ℤ → List Entry → Status × List Entry
adjust id n es = elim (assoc id es) [
  | none ↦ (error, es)
  | some e ↦
      let total = add_int e.count n in
      if ltb_ℤ total (pos 0) then (not_enough, es) else (success, replace id total es)
]
