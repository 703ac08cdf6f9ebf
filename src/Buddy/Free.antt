-- ===== src/Buddy/Free.antt =====
-- `mm_free` of a block.
use Prim.Native.Nat.{bit_xor}
use system_software.Prelude.{
  ℕ, suc, ◌+◌, ◌-◌, ◌*◌, ◌/◌, ◌^◌, ◌≡◌, ◌<◌, ◌≤◌, subst, List, [], ◌∷◌, true, false, some, none,
  arith,
}
use system_software.Buddy.{
  Node, area_list, page_list, Links, Buddy, get_page_n, list_add, bitmap_get, bitmap_switch,
  with_bitmap, free_loop, mm_free,
}
use system_software.Buddy.Ring.{Linked, first_node}
use system_software.Buddy.Areas.{block, free_cover, put_at, list_add-Areas, free_cover-put_at}
use system_software.Buddy.Alloc.{IsBuddy}

-- The first round of the loop, when the bit is not set, and when the buddy is at the front of its list.
module _ (left : ℕ) (s : Buddy) (page_n k bit_index : ℕ) where
  pub free_loop-clear :
      bitmap_get (s.bitmap k) bit_index ≡ false
      → free_loop (suc left) s page_n k bit_index
        ≡ some (with_bitmap s k (bitmap_switch (s.bitmap k) bit_index).0, (page_n, k))
  unfolding free_loop bitmap_switch
  free_loop-clear e = ground (arith, e)

  free_loop-front :
      (n : Node)
      → bitmap_get (s.bitmap k) bit_index ≡ true
      → s.links.next (page_list (bit_xor page_n (2 ^ k))) ≡ some n
      → s.links.prev (page_list (bit_xor page_n (2 ^ k))) ≡ some (area_list k)
      → free_loop (suc left) s page_n k bit_index ≡ none
  unfolding free_loop bitmap_switch
  free_loop-front n e next prev = ground (arith, e, next, prev)

pub page_of : (q : ℕ) → get_page_n (256 * q) ≡ q
page_of q = omega arith

free_run :
    (s s' : Buddy) (q k : ℕ) (l : Links)
    → s.order q ≡ k
    → k < 16
    → free_loop (16 - k) s q k (q / 2 ^ (1 + k)) ≡ some (s', (q, k))
    → list_add s'.links (area_list k) (page_list q) ≡ some l
    → mm_free s (256 * q) ≡ some (record s' { links = l })
unfolding mm_free
free_run s s' q k l e h ran added = ground (arith, page_of q, e, h, ran, added)

-- On well-formed areas, a block inside the memory that has no free page, whose order is noted at its
-- first page and whose bit is not set: `mm_free` puts it at the front of the list of its order, exactly
-- its pages become free, and the areas stay well formed.
pub mm_free-IsBuddy :
    (s : Buddy) (lists : ℕ → List ℕ) (q k : ℕ)
    → IsBuddy s lists
    → s.order q ≡ k
    → k < 16
    → q + 2 ^ k ≤ 65536
    → ((x : ℕ) → free_cover lists x + block k q x ≤ 1)
    → bitmap_get (s.bitmap k) (q / 2 ^ (1 + k)) ≡ false
    → (s' : Buddy) × (mm_free s (256 * q) ≡ some s')
      × IsBuddy s' (put_at lists k (q ∷ lists k))
      × ((x : ℕ) → free_cover (put_at lists k (q ∷ lists k)) x ≡ free_cover lists x + block k q x)
mm_free-IsBuddy s lists q k v e h inside room clear =
    let bit_index = q / 2 ^ (1 + k) in
    let s1 = with_bitmap s k (bitmap_switch (s.bitmap k) bit_index).0 in
    let left : suc (15 - k) ≡ 16 - k = omega (arith, h) in
    let ran =
      subst (λ t. free_loop t s q k bit_index ≡ some (s1, (q, k))) left
        (free_loop-clear (15 - k) s q k bit_index clear) in
    let (l, added, w) = list_add-Areas s.links lists k q v.areas h room in
    let total : (x : ℕ)
        → free_cover (put_at lists k (q ∷ lists k)) x ≡ free_cover lists x + block k q x =
      λ x. omega (arith, free_cover-put_at k x lists (q ∷ lists k) h) in
    (
      record s1 { links = l },
      free_run s s1 q k l e h ran added,
      record {
        areas = w;
        inside = λ x far. ground (arith, total x, v.inside x far, inside, far);
        mapped = v.mapped;
      },
      total,
    )

free_refused :
    (s : Buddy) (q k : ℕ)
    → s.order q ≡ k
    → free_loop (16 - k) s q k (q / 2 ^ (1 + k)) ≡ none
    → mm_free s (256 * q) ≡ none
unfolding mm_free
free_refused s q k e ran = ground (arith, page_of q, e, ran)

behind_first :
    (l : Links) (k p : ℕ) (ps : List ℕ)
    → Linked l (page_list p) ps (area_list k)
    → l.next (page_list p) ≡ some (first_node k ps)
behind_first l k p [] v = v.0
behind_first l k p (y ∷ ps) v = v.0

-- On well-formed areas, if the order of a block is noted, its bit is set, and its buddy is the first
-- block of the list of its order, then an assertion of `mm_free` fails, and the blocks are not merged.
pub mm_free-front :
    (s : Buddy) (lists : ℕ → List ℕ) (q k : ℕ) (ps : List ℕ)
    → IsBuddy s lists
    → s.order q ≡ k
    → k < 16
    → lists k ≡ bit_xor q (2 ^ k) ∷ ps
    → bitmap_get (s.bitmap k) (q / 2 ^ (1 + k)) ≡ true
    → mm_free s (256 * q) ≡ none
mm_free-front s lists q k ps v e h front set =
    let bit_index = q / 2 ^ (1 + k) in
    let buddy = bit_xor q (2 ^ k) in
    let left : suc (15 - k) ≡ 16 - k = omega (arith, h) in
    let ring = subst (λ t. Linked s.links (area_list k) t (area_list k)) front (v.areas.ring k h) in
    let next = behind_first s.links k buddy ps ring.2 in
    free_refused s q k e (
      subst (λ t. free_loop t s q k bit_index ≡ none) left
        (free_loop-front (15 - k) s q k bit_index (first_node k ps) set next ring.1))
