-- ===== src/Buddy/Ring.antt =====
-- The ring of a free area: `list_add` puts a page behind the head, `list_del` takes one out.
use Prim.{tt}
use system_software.Prelude.{
  ℕ, ◌+◌, ◌≡◌, ◌≤◌, refl, ap, ◌∙◌, List, [], ◌∷◌, true, false, some, none, arith, ◌==◌,
  if◌then◌else◌,
}
use system_software.Buddy.{
  Node, area_list, page_list, same_node, Links, set_next, set_prev, add_between, list_add, unlink,
  list_del, ◌>>=◌,
}

-- How often a page is in a list.
abbrev pub times : ℕ → List ℕ → ℕ
times p [] = 0
times p (x ∷ xs) = (if p == x then 1 else 0) + times p xs

-- From the node `a` the pages of the list follow, and then the node `b`, in both directions.
abbrev pub Linked : Links → Node → List ℕ → Node → Type 0
Linked l a [] b = (l.next a ≡ some b) × (l.prev b ≡ some a)
Linked l a (x ∷ xs) b =
    (l.next a ≡ some (page_list x)) × (l.prev (page_list x) ≡ some a) × Linked l (page_list x) xs b

-- What changes at most when the page `p` enters or leaves the ring of the area `k`, where `n` follows.
pub record Changes (l l' : Links) (k p : ℕ) (n : Node) : Type 0 where
  pub next_same :
      (m : Node)
      → same_node (area_list k) m ≡ false
      → same_node (page_list p) m ≡ false
      → l'.next m ≡ l.next m
  pub prev_same :
      (m : Node) → same_node n m ≡ false → same_node (page_list p) m ≡ false → l'.prev m ≡ l.prev m

-- None of the pages is `p` or the node `n`.
abbrev pub Away : ℕ → Node → List ℕ → Type 0
Away p n [] = Unit {0}
Away p n (x ∷ xs) =
    (same_node (page_list p) (page_list x) ≡ false)
    × (same_node n (page_list x) ≡ false)
    × Away p n xs

pub Linked-Changes :
    (l l' : Links) (k p : ℕ) (n a b : Node) (xs : List ℕ)
    → Changes l l' k p n
    → same_node (area_list k) a ≡ false
    → same_node (page_list p) a ≡ false
    → same_node n b ≡ false
    → same_node (page_list p) b ≡ false
    → Away p n xs
    → Linked l a xs b
    → Linked l' a xs b
Linked-Changes l l' k p n a b [] c ka pa nb pb away (v, w) =
    (c.next_same a ka pa ∙ v, c.prev_same b nb pb ∙ w)
Linked-Changes l l' k p n a b (x ∷ xs) c ka pa nb pb (px, nx, away) (v, w, rest) = (
  c.next_same a ka pa ∙ v,
  c.prev_same (page_list x) nx px ∙ w,
  Linked-Changes l l' k p n (page_list x) b xs c refl px nb pb away rest,
)

-- Pages that are not in the list.
pub times-Away : (p q : ℕ) (xs : List ℕ) → times p xs ≡ 0 → times q xs ≡ 0 → Away p (page_list q) xs
times-Away p q [] e f = tt
times-Away p q (x ∷ xs) e f = (
  ground (arith, e),
  ground (arith, f),
  times-Away p q xs (ground (arith, e)) (ground (arith, f)),
)

pub times-Away_area : (p k : ℕ) (xs : List ℕ) → times p xs ≡ 0 → Away p (area_list k) xs
times-Away_area p k [] e = tt
times-Away_area p k (x ∷ xs) e =
    (ground (arith, e), refl, times-Away_area p k xs (ground (arith, e)))

added-Changes :
    (l : Links) (k p : ℕ) (n : Node) → Changes l (add_between l (page_list p) (area_list k) n) k p n
unfolding add_between
added-Changes l k p n = record {
  next_same = λ m a b. ground (arith, a, b);
  prev_same = λ m a b. ground (arith, a, b);
}

-- The node behind the head of a ring.
abbrev pub first_node : ℕ → List ℕ → Node
first_node k [] = area_list k
first_node k (x ∷ xs) = page_list x

pub next-head :
    (l : Links) (k : ℕ) (xs : List ℕ)
    → Linked l (area_list k) xs (area_list k)
    → l.next (area_list k) ≡ some (first_node k xs)
next-head l k [] v = v.0
next-head l k (x ∷ xs) v = v.0

self_node : (n : Node) → same_node n n ≡ true
self_node (area_list k) = ground arith
self_node (page_list p) = ground arith

-- The ring that a page is put into.
pub list_add-Linked :
    (l : Links) (k p : ℕ) (xs : List ℕ)
    → Linked l (area_list k) xs (area_list k)
    → times p xs ≡ 0
    → ((x : ℕ) → times x xs ≤ 1)
    → (l' : Links) × (list_add l (area_list k) (page_list p) ≡ some l')
      × Linked l' (area_list k) (p ∷ xs) (area_list k)
      × Changes l l' k p (first_node k xs)
unfolding list_add
list_add-Linked l k p [] v new once =
    let l' = add_between l (page_list p) (area_list k) (area_list k) in
    (
      l',
      ground (arith, v.0),
      unfold add_between in ground (arith, self_node (area_list k), self_node (page_list p)),
      added-Changes l k p (area_list k),
    )
list_add-Linked l k p (x ∷ xs) v new once =
    let l' = add_between l (page_list p) (area_list k) (page_list x) in
    let c = added-Changes l k p (page_list x) in
    let other : (p == x) ≡ false = ground (arith, new) in
    let last : times x xs ≡ 0 = ground (arith, once x) in
    let rest =
      Linked-Changes l l' k p (page_list x) (page_list x) (area_list k) xs c refl other refl refl
        (times-Away p x xs (ground (arith, new)) last) v.2 in
    (
      l',
      ground (arith, v.0),
      unfold add_between in
          (
            ground (arith, self_node (area_list k)),
            ground (arith, self_node (page_list p)),
            (
              ground (arith, self_node (page_list p), other),
              ground (arith, self_node (page_list x), other),
              rest,
            ),
          ),
      c,
    )

abbrev removed : Links → ℕ → ℕ → Node → Links
removed l k p n =
    let l' = set_prev (set_next l (area_list k) (some n)) n (some (area_list k)) in
    set_prev (set_next l' (page_list p) none) (page_list p) none

list_del-removed :
    (l : Links) (k p : ℕ) (n : Node)
    → l.next (page_list p) ≡ some n
    → l.prev (page_list p) ≡ some (area_list k)
    → list_del l (page_list p) ≡ some (removed l k p n)
unfolding list_del unlink
list_del-removed l k p n e f =
    let cleared =
      λ (l' : Links). some (set_prev (set_next l' (page_list p) none) (page_list p) none) in
    ap (λ t. unlink l t (l.prev (page_list p)) >>= cleared) e
    ∙ ap (λ t. unlink l (some n) t >>= cleared) f

removed-Changes : (l : Links) (k p : ℕ) (n : Node) → Changes l (removed l k p n) k p n
removed-Changes l k p n = record {
  next_same = λ m a b. ground (arith, a, b);
  prev_same = λ m a b. ground (arith, a, b);
}

-- The ring that its first page is taken from.
pub list_del-Linked :
    (l : Links) (k p : ℕ) (xs : List ℕ)
    → Linked l (area_list k) (p ∷ xs) (area_list k)
    → ((x : ℕ) → times x (p ∷ xs) ≤ 1)
    → (l' : Links) × (list_del l (page_list p) ≡ some l')
      × Linked l' (area_list k) xs (area_list k)
      × Changes l l' k p (first_node k xs)
list_del-Linked l k p [] (v, w, (u, t)) once = (
  removed l k p (area_list k),
  list_del-removed l k p (area_list k) u w,
  (ground (arith, self_node (area_list k)), ground (arith, self_node (area_list k))),
  removed-Changes l k p (area_list k),
)
list_del-Linked l k p (x ∷ xs) (v, w, (u, t, rest)) once =
    let l' = removed l k p (page_list x) in
    let c = removed-Changes l k p (page_list x) in
    let gone : times p (x ∷ xs) ≡ 0 = ground (arith, once p) in
    let other : (p == x) ≡ false = ground (arith, gone) in
    let last : times x xs ≡ 0 = ground (arith, once x) in
    (
      l',
      list_del-removed l k p (page_list x) u w,
      (
        ground (arith, self_node (area_list k)),
        ground (arith, self_node (page_list x), other),
        Linked-Changes l l' k p (page_list x) (page_list x) (area_list k) xs c refl other refl refl
            (times-Away p x xs (ground (arith, gone)) last) rest,
      ),
      c,
    )
