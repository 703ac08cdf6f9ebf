-- ===== src/NextFit.antt =====
-- The next-fit allocator of mymalloc_nextfit/mm.c, compiled for 32 bits.
-- The heap is the list of its words; an address counts words from the first. `none` is an access outside
-- the heap, which is undefined in C, or, of a search, an end of its fuel. `mem_sbrk` of memlib.c is a
-- parameter: from the words of the heap and a number of bytes, the longer heap, or `none` for -1.
pub mod Layout
pub mod Write
pub mod Merge
pub mod Mark
pub mod Coalesce
pub mod Search
pub mod Invariant
pub mod Free
pub mod Grow
pub mod Malloc
pub mod Init
pub mod Realloc
use Prim.Native.Nat.{bit_or}
use system_software.Prelude.{
  ℕ, zero, suc, ◌+◌, ◌-◌, ◌*◌, ◌/◌, ◌^◌, ◌%◌, List, [], ◌∷◌, ◌++◌, Bool, true, false, not, ◌&&◌,
  Option, none, some, ltb, leb, ◌==◌, if◌then◌else◌, get_elem?, set, length,
}

abbrev pub Mem : Type 0
Mem = List ℕ

infixl 5 ◌>>=◌
abbrev pub ◌>>=◌ : {A B : Type 0} → Option A → (A → Option B) → Option B
none >>= f = none
some a >>= f = f a

-- WSIZE, DSIZE, CHUNCKSIZE: 4, 8 and 4096 bytes.
abbrev pub chunk_size : ℕ
chunk_size = 4096

abbrev pub add32 : ℕ → ℕ → ℕ
add32 a b = (a + b) % 2 ^ 32

abbrev pub sub32 : ℕ → ℕ → ℕ
sub32 a b = (a + 2 ^ 32 - b) % 2 ^ 32

abbrev pub pack : ℕ → ℕ → ℕ
pack size alloc = bit_or size alloc

-- GET and PUT.
unfoldable pub get : Mem → ℕ → Option ℕ
get mem p = get_elem? mem p

unfoldable pub put : Mem → ℕ → ℕ → Option Mem
put mem p v = if ltb p (length mem) then some (set mem p v) else none

-- An address so many words further down.
unfoldable pub minus : ℕ → ℕ → Option ℕ
minus p k = if ltb p k then none else some (p - k)

unfoldable pub get_size : Mem → ℕ → Option ℕ
get_size mem p = do w ← get mem p; some (w / 8 * 8)

unfoldable pub is_it_alloc : Mem → ℕ → Option Bool
is_it_alloc mem p = do w ← get mem p; some (w % 2 == 1)

unfoldable pub header_p : ℕ → Option ℕ
header_p bp = minus bp 1

-- `size` bytes are `size / 4` words.
unfoldable pub footer_p : Mem → ℕ → Option ℕ
footer_p mem bp = do h ← header_p bp; size ← get_size mem h; minus (bp + size / 4) 2

unfoldable pub next_block_bp : Mem → ℕ → Option ℕ
next_block_bp mem bp = do h ← header_p bp; size ← get_size mem h; some (bp + size / 4)

unfoldable pub prev_block_bp : Mem → ℕ → Option ℕ
prev_block_bp mem bp = do f ← minus bp 2; size ← get_size mem f; minus bp (size / 4)

-- `PUT(HEADER_P(bp), val)` and `PUT(FOOTER_P(bp), val)`.
unfoldable pub put_header : Mem → ℕ → ℕ → Option Mem
put_header mem bp v = do h ← header_p bp; put mem h v

unfoldable pub put_footer : Mem → ℕ → ℕ → Option Mem
put_footer mem bp v = do f ← footer_p mem bp; put mem f v

unfoldable pub size_of : Mem → ℕ → Option ℕ
size_of mem bp = do h ← header_p bp; get_size mem h

-- The static variables.
pub record Heap : Type 0 where
  pub mem : Mem
  pub start_bp : ℕ
  pub last_bp : ℕ

unfoldable pub mark : Mem → ℕ → ℕ → Option Mem
mark mem bp adj_size = do
  cur_size ← size_of mem bp
  let divided_size = sub32 cur_size adj_size
  elim (leb 16 divided_size) [
    | true ↦ do
      mem ← put_header mem bp (pack adj_size 1)
      mem ← put_footer mem bp (pack adj_size 1)
      bp ← next_block_bp mem bp
      mem ← put_header mem bp (pack divided_size 0)
      put_footer mem bp (pack divided_size 0)
    | false ↦ do mem ← put_header mem bp (pack cur_size 1); put_footer mem bp (pack cur_size 1)
  ]

-- The memory and the block after merging with the free neighbours.
unfoldable pub merge : Mem → ℕ → Option (Mem × ℕ)
merge mem bp = do
  prev ← prev_block_bp mem bp
  prev_footer ← footer_p mem prev
  is_prev_alloc ← is_it_alloc mem prev_footer
  next ← next_block_bp mem bp
  next_header ← header_p next
  is_next_alloc ← is_it_alloc mem next_header
  size ← size_of mem bp
  elim is_prev_alloc [
    | true ↦ elim is_next_alloc [
      | true ↦ some (mem, bp)
      | false ↦ do
        next_size ← size_of mem next
        let size = add32 size next_size
        mem ← put_header mem bp (pack size 0)
        mem ← put_footer mem bp (pack size 0)
        some (mem, bp)
    ]
    | false ↦ elim is_next_alloc [
      | true ↦ do
        prev_size ← size_of mem prev
        let size = add32 size prev_size
        mem ← put_footer mem bp (pack size 0)
        prev ← prev_block_bp mem bp
        mem ← put_header mem prev (pack size 0)
        bp ← prev_block_bp mem bp
        some (mem, bp)
      | false ↦ do
        next_size ← size_of mem next
        prev_size ← size_of mem prev
        let size = add32 size (add32 next_size prev_size)
        mem ← put_header mem prev (pack size 0)
        next ← next_block_bp mem bp
        mem ← put_footer mem next (pack size 0)
        bp ← prev_block_bp mem bp
        some (mem, bp)
    ]
  ]

-- Every case of `coalesce` ends with `last_bp = bp`.
unfoldable pub coalesce : Heap → ℕ → Option (Heap × ℕ)
coalesce s bp = do (mem, bp) ← merge s.mem bp; some (record s { mem = mem; last_bp = bp }, bp)

-- What `mem_sbrk` does to the words of the heap.
abbrev pub Sbrk : Type 0
Sbrk = Mem → ℕ → Option Mem

-- The heap, and the pointer that is returned, `none` for NULL.
abbrev pub Answer : Type 0
Answer = Option (Heap × Option ℕ)

unfoldable pub extend_heap : Sbrk → Heap → ℕ → Answer
extend_heap mem_sbrk s words =
    let size = if words % 2 == 0 then words * 4 else (words + 1) * 4 in
    let bp = length s.mem in
    elim (mem_sbrk s.mem size) [
      | none ↦ some (s, none)
      | some mem ↦ do
        mem ← put_header mem bp (pack size 0)
        mem ← put_footer mem bp (pack size 0)
        next ← next_block_bp mem bp
        mem ← put_header mem next (pack 0 1)
        (s, bp) ← coalesce (record s { mem = mem }) bp
        some (s, some bp)
    ]

-- `do ... while (GET_SIZE(HEADER_P(bp)) != 0)`; the inner `none` leaves the loop with nothing found.
unfoldable pub scan_up : ℕ → Mem → ℕ → ℕ → Option (Option ℕ)
scan_up zero mem adj_size bp = none
scan_up (suc fuel) mem adj_size bp = do
  bp ← next_block_bp mem bp
  header ← header_p bp
  alloc ← is_it_alloc mem header
  size ← get_size mem header
  elim (not alloc && ltb adj_size size) [
    | true ↦ some (some bp)
    | false ↦ elim (size == 0) [ true ↦ some none | false ↦ scan_up fuel mem adj_size bp ]
  ]

-- `while (bp < last_bp)`
unfoldable pub scan_to : ℕ → Mem → ℕ → ℕ → ℕ → Option (Option ℕ)
scan_to zero mem adj_size last_bp bp = none
scan_to (suc fuel) mem adj_size last_bp bp = elim (ltb bp last_bp) [
  | false ↦ some none
  | true ↦ do
    bp ← next_block_bp mem bp
    header ← header_p bp
    alloc ← is_it_alloc mem header
    size ← get_size mem header
    elim (not alloc && leb adj_size size) [
      | true ↦ some (some bp)
      | false ↦ scan_to fuel mem adj_size last_bp bp
    ]
]

-- A block takes a word at least, so that a search passes at most as many as the heap has words.
unfoldable pub next_fit : Heap → ℕ → Answer
next_fit s adj_size =
    let fuel = length s.mem + 1 in
    scan_up fuel s.mem adj_size s.last_bp >>= λ above. elim above [
      | some bp ↦ some (record s { last_bp = bp }, some bp)
      | none ↦ scan_to fuel s.mem adj_size s.last_bp s.start_bp >>= λ below. elim below [
        | some bp ↦ some (record s { last_bp = bp }, some bp)
        | none ↦ some (s, none)
      ]
    ]

-- The size of the block for a request of `size` bytes.
unfoldable pub adjusted : ℕ → ℕ
adjusted size = if leb size 8 then 16 else add32 size 15 / 8 * 8

-- `mark(bp, adjusted_size); last_bp = bp; return bp;`
unfoldable pub hand_out : Heap → ℕ → ℕ → Answer
hand_out s bp adj_size = do
  mem ← mark s.mem bp adj_size
  some (record s { mem = mem; last_bp = bp }, some bp)

unfoldable pub mm_malloc : Sbrk → Heap → ℕ → Answer
mm_malloc mem_sbrk s size = elim (size == 0) [
  | true ↦ some (s, none)
  | false ↦
      let adj_size = adjusted size in
      next_fit s adj_size >>= λ found. elim found.1 [
        | some bp ↦ hand_out found.0 bp adj_size
        | none ↦
            let extended = if ltb chunk_size adj_size then adj_size else chunk_size in
            extend_heap mem_sbrk found.0 (extended / 4) >>= λ grown. elim grown.1 [
              | none ↦ some (grown.0, none)
              | some bp ↦ hand_out grown.0 bp adj_size
            ]
      ]
]

unfoldable pub mm_free : Heap → ℕ → Option Heap
mm_free s ptr = do
  size ← size_of s.mem ptr
  mem ← put_header s.mem ptr (pack size 0)
  mem ← put_footer mem ptr (pack size 0)
  (s, bp) ← coalesce (record s { mem = mem }) ptr
  some s

-- `memcpy` of so many words.
unfoldable pub copy_words : ℕ → Mem → ℕ → ℕ → Option Mem
copy_words zero mem to from = some mem
copy_words (suc n) mem to from = do
  w ← get mem from
  mem ← put mem to w
  copy_words n mem (suc to) (suc from)

unfoldable pub mm_realloc : Sbrk → Heap → ℕ → ℕ → Answer
mm_realloc mem_sbrk s ptr size = do
  cur_size ← size_of s.mem ptr
  let new_size = add32 size 8
  elim (leb new_size cur_size) [
    | true ↦ some (s, some ptr)
    | false ↦ do
      next ← next_block_bp s.mem ptr
      next_header ← header_p next
      is_next_alloc ← is_it_alloc s.mem next_header
      next_size ← get_size s.mem next_header
      let merged_size = add32 cur_size next_size
      elim (not is_next_alloc && leb new_size merged_size) [
        | true ↦ do
          mem ← put_header s.mem ptr (pack merged_size 1)
          mem ← put_footer mem ptr (pack merged_size 1)
          some (record s { mem = mem }, some ptr)
        | false ↦ do
          (s, new_bp) ← mm_malloc mem_sbrk s new_size
          elim new_bp [
            | none ↦ none
            | some new_bp ↦ do
              mem ← mark s.mem new_bp new_size
              mem ← copy_words (cur_size / 4) mem new_bp ptr
              s ← mm_free (record s { mem = mem }) ptr
              some (s, some new_bp)
          ]
      ]
  ]

-- `mm_init` on a heap that ends where `mem` does; the inner `none` is -1.
unfoldable pub mm_init : Sbrk → Mem → Option (Option Heap)
mm_init mem_sbrk mem =
    let start_bp = length mem in
    elim (mem_sbrk mem 16) [
      | none ↦ some none
      | some mem ↦ do
        mem ← put mem start_bp 0
        mem ← put mem (start_bp + 1) (pack 8 1)
        mem ← put mem (start_bp + 2) (pack 8 1)
        mem ← put mem (start_bp + 3) (pack 0 1)
        let start_bp = start_bp + 2
        (s, bp) ←
            extend_heap mem_sbrk (record { mem = mem; start_bp = start_bp; last_bp = 0 })
              (chunk_size / 4)
        elim bp [ none ↦ some none | some bp ↦ some (some (record s { last_bp = start_bp })) ]
    ]
