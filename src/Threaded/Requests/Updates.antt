-- ===== src/Threaded/Requests/Updates.antt =====
-- No update of a count is lost, in any interleaving.
use Prim.{tt}
use system_software.Prelude.{
  ℕ, ◌+◌, ◌≡◌, ◌≢◌, ◌<◌, ◌≤◌, inl, inr, refl, ap, sym, ◌∙◌, arith, true, false, Bool-cases, subst,
  List, [], ◌∷◌, ◌++◌, some, ◌==◌, if◌then◌else◌,
}
use system_software.Prelude.Int.{ℤ, add_int}
use system_software.Server.Tree.{Stock, leaf, node, Address, left, right, find, count_at, set_count}
use system_software.Threaded.Family.{change, sum-two}
use system_software.Threaded.Requests.{
  Shared, Pc, modify_test, modify_wait, modify_load, modify_store, same_address, Move, found,
  accept, take_node, load, store, System, thread, Run, start, later,
}
use system_software.Threaded.Requests.Counts.{holds_node, same_address-eq, Run-Counts}

-- The address is that of a node.
unfoldable pub IsNode : Address → Stock → Type 0
IsNode a leaf = ⊥
IsNode [] (node i p c l r) = Unit
IsNode (left ∷ a) (node i p c l r) = IsNode a l
IsNode (right ∷ a) (node i p c l r) = IsNode a r

pub find-IsNode : (id : ℤ) (t : Stock) (a : Address) → find id t ≡ some a → IsNode a t
unfolding find IsNode
find-IsNode id leaf a h = absurd (ground (arith, h))
find-IsNode id (node i p c l r) [] h = tt
find-IsNode id (node i p c l r) (left ∷ a) h = find-IsNode id l a (ground (arith, h))
find-IsNode id (node i p c l r) (right ∷ a) h = find-IsNode id r a (ground (arith, h))

pub IsNode-set_count : (a b : Address) (v : ℤ) (t : Stock) → IsNode a t → IsNode a (set_count b v t)
unfolding IsNode set_count
IsNode-set_count a b v leaf h = h
IsNode-set_count [] [] v (node i p c l r) h = tt
IsNode-set_count [] (left ∷ b) v (node i p c l r) h = tt
IsNode-set_count [] (right ∷ b) v (node i p c l r) h = tt
IsNode-set_count (left ∷ a) [] v (node i p c l r) h = h
IsNode-set_count (left ∷ a) (left ∷ b) v (node i p c l r) h = IsNode-set_count a b v l h
IsNode-set_count (left ∷ a) (right ∷ b) v (node i p c l r) h = h
IsNode-set_count (right ∷ a) [] v (node i p c l r) h = h
IsNode-set_count (right ∷ a) (left ∷ b) v (node i p c l r) h = h
IsNode-set_count (right ∷ a) (right ∷ b) v (node i p c l r) h = IsNode-set_count a b v r h

pub count_at-set_count :
    (a : Address) (v : ℤ) (t : Stock) → IsNode a t → count_at a (set_count a v t) ≡ v
unfolding IsNode set_count count_at
count_at-set_count a v leaf h = absurd h
count_at-set_count [] v (node i p c l r) h = refl
count_at-set_count (left ∷ a) v (node i p c l r) h = count_at-set_count a v l h
count_at-set_count (right ∷ a) v (node i p c l r) h = count_at-set_count a v r h

count_at-other :
    (a b : Address) (v : ℤ) (t : Stock)
    → same_address b a ≡ false
    → count_at a (set_count b v t) ≡ count_at a t
unfolding set_count count_at
count_at-other a b v leaf h = refl
count_at-other [] [] v (node i p c l r) h = absurd (ground (arith, h))
count_at-other [] (left ∷ b) v (node i p c l r) h = refl
count_at-other [] (right ∷ b) v (node i p c l r) h = refl
count_at-other (left ∷ a) [] v (node i p c l r) h = refl
count_at-other (left ∷ a) (left ∷ b) v (node i p c l r) h = count_at-other a b v l h
count_at-other (left ∷ a) (right ∷ b) v (node i p c l r) h = refl
count_at-other (right ∷ a) [] v (node i p c l r) h = refl
count_at-other (right ∷ a) (left ∷ b) v (node i p c l r) h = refl
count_at-other (right ∷ a) (right ∷ b) v (node i p c l r) h = count_at-other a b v r h

pub same_address_refl : (a : Address) → same_address a a ≡ true
same_address_refl [] = refl
same_address_refl (left ∷ a) = same_address_refl a
same_address_refl (right ∷ a) = same_address_refl a

-- What the variables of a thread say of the tree.
abbrev Fresh : Stock → Pc → Type 0
Fresh t (modify_test a n) = IsNode a t
Fresh t (modify_wait a n) = IsNode a t
Fresh t (modify_load a n) = IsNode a t
Fresh t (modify_store a c n) = IsNode a t × (c ≡ count_at a t)
Fresh t _ = Unit {0}

-- A store at a node does not spoil what other threads have loaded.
store-Fresh :
    (b : Address) (v : ℤ) (t : Stock) (q : Pc)
    → holds_node b q ≡ 0
    → Fresh t q
    → Fresh (set_count b v t) q
store-Fresh b v t (modify_test a n) h f = IsNode-set_count a b v t f
store-Fresh b v t (modify_wait a n) h f = IsNode-set_count a b v t f
store-Fresh b v t (modify_load a n) h f = IsNode-set_count a b v t f
store-Fresh b v t (modify_store a c n) h f = elim (Bool-cases (same_address b a)) [
  | inl e ↦
      let q : b ≡ a = same_address-eq b a e in
      absurd (
        omega (
          arith,
          h,
          subst (λ k. holds_node k (modify_store a c n) ≡ 1) (sym q)
              (ground (arith, same_address_refl a)),
        ))
  | inr e ↦ (IsNode-set_count a b v t f.0, f.1 ∙ sym (count_at-other a b v t e))
]
store-Fresh b v t _ h f = tt

own-Fresh : {m m' : Shared} {p p' : Pc} → Move m p m' p' → Fresh m.root p → Fresh m'.root p'
own-Fresh {m} (found {id} {a = a} e) f = find-IsNode id m.root a e
own-Fresh (accept e) f = f
own-Fresh (take_node e) f = f
own-Fresh load f = (f, refl)
own-Fresh _ f = tt

other-Fresh :
    {m m' : Shared} {p p' : Pc}
    → Move m p m' p'
    → (q : Pc) → ((a : Address) → holds_node a p + holds_node a q ≤ 1)
    → Fresh m.root q
    → Fresh m'.root q
other-Fresh {m} (store {a = b} {c} {n}) q apart f =
    store-Fresh b (add_int c n) m.root q (ground (arith, apart b, same_address_refl b)) f
other-Fresh _ q apart f = f

-- The number that a step adds to the count of a node, and those of a run, in their order.
unfoldable pub amount : Address → {m m' : Shared} {p p' : Pc} → Move m p m' p' → List ℤ
amount a (store {a = b} {n = n}) = if same_address b a then n ∷ [] else []
amount a _ = []

unfoldable pub applied : Address → {n : ℕ} {root : Stock} {s : System} → Run n root s → List ℤ
applied a start = []
applied a (later r (thread i h mv)) = applied a r ++ amount a mv

-- A count after all those numbers were added to it, each as the machine adds.
unfoldable pub after : ℤ → List ℤ → ℤ
after c [] = c
after c (n ∷ ns) = after (add_int c n) ns

after-append : (c : ℤ) (ms ns : List ℤ) → after c (ms ++ ns) ≡ after (after c ms) ns
unfolding after
after-append c [] ns = refl
after-append c (m ∷ ms) ns = after-append (add_int c m) ms ns

Move-amount :
    {m m' : Shared} {p p' : Pc} (mv : Move m p m' p') (a : Address)
    → Fresh m.root p
    → count_at a m'.root ≡ after (count_at a m.root) (amount a mv)
unfolding amount after
Move-amount {m} (store {a = b} {c} {n}) a f = elim (Bool-cases (same_address b a)) [
  | inl e ↦
      let q : b ≡ a = same_address-eq b a e in
      let here : count_at b (set_count b (add_int c n) m.root) ≡ add_int (count_at b m.root) n =
        count_at-set_count b (add_int c n) m.root f.0 ∙ ap (λ k. add_int k n) f.1 in
      subst (λ k. count_at k (set_count b (add_int c n) m.root) ≡ add_int (count_at k m.root) n) q
        here
      ∙ ap (λ t. after (count_at a m.root) (if t then n ∷ [] else [])) (sym e)
  | inr e ↦
      count_at-other a b (add_int c n) m.root e
      ∙ ap (λ t. after (count_at a m.root) (if t then n ∷ [] else [])) (sym e)
]
Move-amount _ a f = refl

Run-Fresh :
    {n : ℕ} {root : Stock} {s : System} → Run n root s → (j : ℕ) → j < n → Fresh s.mem.root (s.pc j)
Run-Fresh start j h = tt
Run-Fresh {n} (later {s} r (thread i {m} {p} hi mv)) j h = elim (Bool-cases (i == j)) [
  | inl e ↦
      let q : i ≡ j = ground (arith, e) in
      subst (λ k. Fresh m.root (change s.pc i p k)) q
        (subst (λ k. Fresh m.root k) (ground arith) (own-Fresh mv (Run-Fresh r i hi)))
  | inr e ↦
      let ne : i ≢ j = λ q. ground (arith, q, e) in
      let c = Run-Counts r in
      let two = λ (a : Address). sum-two (holds_node a) n s.pc i j hi h ne in
      subst (λ k. Fresh m.root k) (ground (arith, e))
        (other-Fresh mv (s.pc j) (λ a. omega (arith, c.node_free a, two a)) (Run-Fresh r j h))
]

-- In every interleaving, the count of every node is the first one with the numbers of all accesses that
-- stored a count added to it, each exactly once, in their order.
pub Run-applied :
    {n : ℕ} {root : Stock} {s : System}
    → (r : Run n root s) → (a : Address)
    → count_at a s.mem.root ≡ after (count_at a root) (applied a r)
unfolding applied after
Run-applied start a = refl
Run-applied {root} (later r (thread i h mv)) a =
    Move-amount mv a (Run-Fresh r i h)
    ∙ ap (λ c. after c (amount a mv)) (Run-applied r a)
    ∙ sym (after-append (count_at a root) (applied a r) (amount a mv))
