-- ===== src/Buddy.antt =====
-- The buddy allocator of mymalloc_buddy/mm.c, compiled for 32 bits.
-- A `struct list_head*` is a node: the list of a free area, or that of a page; `none` is NULL. An address
-- counts bytes from `physical_memory_area`. The arrays are functions of the index. A result `none` is a
-- failed assertion, a NULL pointer that is followed, or an access to free_area_area[16], which is outside.
pub mod Ring
pub mod Areas
pub mod Alloc
pub mod Init
pub mod Sizes
pub mod Free
pub mod Layout
pub mod Pair
pub mod Middle
pub mod Merge
use Prim.Native.Nat.{bit_and, bit_or, bit_xor}
use system_software.Prelude.{
  ℕ, zero, suc, ◌+◌, ◌-◌, ◌*◌, ◌/◌, ◌^◌, ◌%◌, Bool, true, false, not, ◌&&◌, Option, none, some, ltb,
  leb, ◌==◌, if◌then◌else◌,
}

infixl 5 ◌>>=◌
abbrev pub ◌>>=◌ : {A B : Type 0} → Option A → (A → Option B) → Option B
none >>= f = none
some a >>= f = f a

-- PAGE_SIZE, MAX_ORDER, and the number of pages of PHYSICAL_MEMORY_SIZE.
abbrev pub page_size : ℕ
page_size = 256

abbrev pub max_order : ℕ
max_order = 16

abbrev pub phy_page_n : ℕ
phy_page_n = 65536

pub data Node : Type 0 where
  area_list : ℕ → Node
  page_list : ℕ → Node

abbrev pub same_node : Node → Node → Bool
same_node (area_list i) (area_list j) = i == j
same_node (page_list i) (page_list j) = i == j
same_node (area_list i) (page_list j) = false
same_node (page_list i) (area_list j) = false

-- The fields of all `struct list_head`.
pub record Links : Type 0 where
  pub next : Node → Option Node
  pub prev : Node → Option Node

abbrev pub store : (Node → Option Node) → Node → Option Node → Node → Option Node
store f n v m = if same_node n m then v else f m

abbrev pub set_next : Links → Node → Option Node → Links
set_next l n v = record l { next = store l.next n v }

abbrev pub set_prev : Links → Node → Option Node → Links
set_prev l n v = record l { prev = store l.prev n v }

-- `__list_add`
unfoldable pub add_between : Links → Node → Node → Node → Links
add_between l new prev next =
    let l = set_prev l next (some new) in
    let l = set_next l new (some next) in
    let l = set_prev l new (some prev) in set_next l prev (some new)

unfoldable pub list_add : Links → Node → Node → Option Links
list_add l list new = do next ← l.next list; some (add_between l new list next)

-- `l->prev->next=l->next; l->next->prev=l->prev;`
unfoldable pub unlink : Links → Option Node → Option Node → Option Links
unlink l next prev = do p ← prev; let l = set_next l p next; n ← next; some (set_prev l n prev)

unfoldable pub list_del : Links → Node → Option Links
list_del l n = do l' ← unlink l (l.next n) (l.prev n); some (set_prev (set_next l' n none) n none)

-- The fields of the pages, the words of the bitmap of each order, and the bytes of the memory.
pub record Buddy : Type 0 where
  pub links : Links
  pub bitmap : ℕ → ℕ → ℕ
  pub order : ℕ → ℕ
  pub physical_addr : ℕ → ℕ
  pub free_phy_page_n : ℕ
  pub memory : ℕ → ℕ

unfoldable pub bitmap_get : (ℕ → ℕ) → ℕ → Bool
bitmap_get words pos = not (bit_and (words (pos / 64)) (2 ^ (pos % 32)) == 0)

unfoldable pub bitmap_set : (ℕ → ℕ) → ℕ → Bool → ℕ → ℕ
bitmap_set words pos set i =
    if pos / 64 == i
    then if set
      then bit_or (words i) (2 ^ (pos % 32))
      else bit_and (words i) (bit_xor (2 ^ 32 - 1) (2 ^ (pos % 32)))
    else words i

-- The words, and the bit as it was.
unfoldable pub bitmap_switch : (ℕ → ℕ) → ℕ → (ℕ → ℕ) × Bool
bitmap_switch words pos = (bitmap_set words pos (not (bitmap_get words pos)), bitmap_get words pos)

abbrev pub with_bitmap : Buddy → ℕ → (ℕ → ℕ) → Buddy
with_bitmap s k words = record s { bitmap = λ i. if k == i then words else s.bitmap i }

-- MARK_USED
unfoldable pub mark_used : ℕ → ℕ → Buddy → Buddy
mark_used index k s = with_bitmap s k (bitmap_switch (s.bitmap k) (index / 2 ^ (1 + k))).0

-- GET_PAGE_N
abbrev pub get_page_n : ℕ → ℕ
get_page_n addr = addr / page_size

-- `mapping_physical` from page `i` on, for `left` pages.
unfoldable pub map_pages : ℕ → ℕ → ℕ → (ℕ → ℕ) → ℕ → ℕ
map_pages zero i offset addr = addr
map_pages (suc left) i offset addr =
    map_pages left (suc i) (offset + page_size) (λ j. if i == j then offset else addr j)

-- The lists of `left` areas become empty rings.
unfoldable pub empty_lists : ℕ → ℕ → Links → Links
empty_lists zero i l = l
empty_lists (suc left) i l =
    empty_lists left (suc i)
      (set_prev (set_next l (area_list i) (some (area_list i))) (area_list i) (some (area_list i)))

unfoldable pub init_buddy : Buddy → Option Buddy
init_buddy s = do
  let l = empty_lists max_order 0 s.links
  l ← list_add l (area_list (max_order - 1)) (page_list 0)
  l ← list_add l (area_list (max_order - 1)) (page_list (2 * 2 ^ (max_order - 2)))
  let s = record s { links = l }
  some (with_bitmap s (max_order - 1) (bitmap_set (s.bitmap (max_order - 1)) 0 true))

-- `mm_init`, when `mem_sbrk` has given the memory that it asks for; `s` is what the memory holds.
unfoldable pub mm_init : Buddy → Option Buddy
mm_init s = init_buddy (record s {
  physical_addr = map_pages phy_page_n 0 0 s.physical_addr;
  bitmap = λ k i. 0;
  free_phy_page_n = phy_page_n;
})

-- The order, or `none` for -1; `left` rounds are to go.
unfoldable pub order_from : ℕ → ℕ → ℕ → Option ℕ
order_from zero i memsize = none
order_from (suc left) i memsize =
    if leb memsize (page_size * 2 ^ i) then some i else order_from left (suc i) memsize

unfoldable pub memsize_to_order : ℕ → Option ℕ
memsize_to_order memsize = order_from (suc max_order) 0 memsize

-- The loop of `expand`, with `high_order = low_order + gap`.
unfoldable pub expand : ℕ → Buddy → ℕ → ℕ → ℕ → Option (Buddy × ℕ)
expand zero s p page_n low_order = some (s, p)
expand (suc gap) s p page_n low_order = do
  let high_order = low_order + gap
  l ← list_add s.links (area_list high_order) (page_list p)
  expand gap (mark_used page_n high_order (record s { links = l })) (p + 2 ^ high_order)
      (page_n + 2 ^ high_order) low_order

abbrev pub less_free : ℕ → Buddy → Buddy
less_free k s = record s { free_phy_page_n = (s.free_phy_page_n + 2 ^ 32 - 2 ^ k) % 2 ^ 32 }

abbrev pub set_order : Buddy → ℕ → ℕ → Buddy
set_order s p k = record s { order = λ i. if p == i then k else s.order i }

-- Takes the page `p` from the list of the area `k`, and gives out a block of the order.
unfoldable pub take_page : Buddy → ℕ → ℕ → ℕ → Option (Buddy × ℕ)
take_page s order k p = do
  l ← list_del s.links (page_list p)
  first ← l.next (area_list k)
  elim (same_node first (page_list p)) [
    | true ↦ none
    | false ↦ do
      let page_n = get_page_n (s.physical_addr p)
      let s = record s { links = l }
      let s = if k == max_order - 1 then s else mark_used page_n k s
      (s, q) ← expand (k - order) (less_free order s) p page_n order
      let s = less_free order (set_order s q order)
      elim (ltb (get_page_n (s.physical_addr q)) 65537) [
        | false ↦ none
        | true ↦ some (s, s.physical_addr q)
      ]
  ]

-- The areas from `k` on, of which `left` are to go; the inner `none` is NULL.
unfoldable pub alloc_loop : ℕ → Buddy → ℕ → ℕ → Option (Buddy × Option ℕ)
alloc_loop zero s order k = some (s, none)
alloc_loop (suc left) s order k = s.links.next (area_list k) >>= λ curr. elim curr [
  | area_list j ↦ elim (j == k) [ true ↦ alloc_loop left s order (suc k) | false ↦ none ]
  | page_list p ↦ take_page s order k p >>= λ taken. some (taken.0, some taken.1)
]

unfoldable pub alloc_pages : Buddy → Option ℕ → Option (Buddy × Option ℕ)
alloc_pages s none = some (s, none)
alloc_pages s (some order) =
    if ltb order max_order then alloc_loop (max_order - order) s order order else none

unfoldable pub mm_malloc : Buddy → ℕ → Option (Buddy × Option ℕ)
mm_malloc s size = alloc_pages s (memsize_to_order size)

-- The loop of `mm_free`, with `left` areas above. The list of the buddy is that of a copy of the page.
unfoldable pub free_loop : ℕ → Buddy → ℕ → ℕ → ℕ → Option (Buddy × (ℕ × ℕ))
free_loop zero s page_n k bit_index = some (s, (page_n, k))
free_loop (suc left) s page_n k bit_index =
    let (words, was) = bitmap_switch (s.bitmap k) bit_index in
    let s = with_bitmap s k words in
    elim was [
      | false ↦ some (s, (page_n, k))
      | true ↦ do
        let buddy = page_list (bit_xor page_n (2 ^ k))
        next ← s.links.next buddy
        prev ← s.links.prev buddy
        elim (not (same_node next (area_list k)) && not (same_node prev (area_list k))) [
          | false ↦ none
          | true ↦ do
            l ← unlink s.links (some next) (some prev)
            free_loop left (record s { links = l }) (page_n / 2 ^ suc k * 2 ^ suc k) (suc k)
                (bit_index / 2)
        ]
    ]

unfoldable pub mm_free : Buddy → ℕ → Option Buddy
mm_free s ptr = do
  let page_n = get_page_n ptr
  let k = s.order page_n
  (s, (page_n, k)) ← free_loop (max_order - k) s page_n k (page_n / 2 ^ (1 + k))
  elim (ltb k max_order) [
    | false ↦ none
    | true ↦ do l ← list_add s.links (area_list k) (page_list page_n); some (record s { links = l })
  ]

-- `memcpy(new, ptr, size)`
unfoldable pub copy_bytes : (ℕ → ℕ) → ℕ → ℕ → ℕ → ℕ → ℕ
copy_bytes memory to from size a =
    if leb to a && ltb a (to + size) then memory (from + (a - to)) else memory a

unfoldable pub mm_realloc : Buddy → ℕ → ℕ → Option (Buddy × ℕ)
mm_realloc s ptr size = do
  (s, new) ← mm_malloc s size
  new ← new
  s ← mm_free (record s { memory = copy_bytes s.memory new ptr size }) ptr
  some (s, new)
