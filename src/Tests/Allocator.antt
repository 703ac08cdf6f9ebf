-- ===== src/Tests/Allocator.antt =====
-- A small heap of the next-fit allocator, and a `mem_sbrk` that gives out up to 4096 words.
use Prim.{tt}
use system_software.Prelude.{
  ℕ, zero, suc, ◌+◌, ◌*◌, ◌/◌, ◌%◌, ◌==◌, ◌≡◌, ◌≤◌, ◌⊎◌, inl, inr, refl, ap, List, [], ◌∷◌, ◌++◌,
  ◌&&◌, some, none, length, arith, length-append, if◌then◌else◌, leb, Bool-cases,
}
use system_software.NextFit.{
  Mem, Heap, Sbrk, next_fit, adjusted, mm_malloc, mm_free, mm_init, mm_realloc,
}
use system_software.NextFit.Layout.{Block, free_block, used_block}
use system_software.NextFit.Coalesce.{merged, Closed}
use system_software.NextFit.Invariant.{prologue, IsHeap, next_fit_lem}
use system_software.NextFit.Search.{NoneLarger, Fit}
use system_software.NextFit.Free.{mm_free_lem}
use system_software.NextFit.Grow.{Grows, grow}
use system_software.NextFit.Malloc.{GivenOut, more_units, mm_malloc_lem}
use system_software.NextFit.Realloc.{mm_realloc-in_place}
use system_software.NextFit.Init.{bare, mm_init_lem}

abbrev zeros : ℕ → Mem
zeros zero = []
zeros (suc n) = 0 ∷ zeros n

abbrev bounded_sbrk : Sbrk
bounded_sbrk mem incr =
    if (incr % 4 == 0) && leb (length mem + incr / 4) 4096
    then some (mem ++ zeros (incr / 4))
    else none

length-zeros : (n : ℕ) → length (zeros n) ≡ n
length-zeros zero = refl
length-zeros (suc n) = ap suc (length-zeros n)

bounded_sbrk-gives :
    (mem mem' : Mem) (incr : ℕ)
    → bounded_sbrk mem incr ≡ some mem'
    → (mem' ≡ mem ++ zeros (incr / 4)) × (incr % 4 ≡ 0) × (length mem + incr / 4 ≤ 4096)
bounded_sbrk-gives mem mem' incr e = elim (Bool-cases (incr % 4 == 0)) [
  | inr n ↦ absurd (ground (arith, e, n))
  | inl y ↦ elim (Bool-cases (leb (length mem + incr / 4) 4096)) [
    | inr n ↦ absurd (ground (arith, e, y, n))
    | inl z ↦ (ground (arith, e, y, z), ground (arith, y), ground (arith, z))
  ]
]

bounded_sbrk-Grows : Grows bounded_sbrk
bounded_sbrk-Grows = record {
  grown = λ mem mem' incr e.
      let (q, m, _) = bounded_sbrk-gives mem mem' incr e in
      (zeros (incr / 4), q, omega (arith, length-zeros (incr / 4), m));
  limit = λ mem mem' incr e.
      let (q, _, l) = bounded_sbrk-gives mem mem' incr e in
      omega (arith, ap length q, length-append mem (zeros (incr / 4)), length-zeros (incr / 4), l);
}

-- A free block of 32 bytes, and the same block in use.
abbrev one_free : Heap
one_free = record {
  mem = 0 ∷ 9 ∷ 9 ∷ 32 ∷ 0 ∷ 0 ∷ 0 ∷ 0 ∷ 0 ∷ 0 ∷ 32 ∷ 1 ∷ [];
  start_bp = 2;
  last_bp = 2;
}

abbrev one_used : Heap
one_used = record {
  mem = 0 ∷ 9 ∷ 9 ∷ 33 ∷ 5 ∷ 6 ∷ 0 ∷ 0 ∷ 0 ∷ 0 ∷ 33 ∷ 1 ∷ [];
  start_bp = 2;
  last_bp = 4;
}

abbrev blocks : List Block
blocks = prologue ∷ free_block 4 ∷ []

one_free-IsHeap : IsHeap one_free blocks
one_free-IsHeap = record {
  first = (free_block 4 ∷ [], refl);
  closed = (
    (
      record { pos = omega arith; small = omega arith; header = refl; footer = refl },
      (record { pos = omega arith; small = omega arith; header = refl; footer = refl }, tt),
    ),
    refl,
  );
  ends = refl;
  room = omega arith;
  start = refl;
  roving = ([], prologue, free_block 4 ∷ [], refl, refl);
}

one_used-IsHeap : IsHeap one_used (prologue ∷ used_block 4 ∷ [])
one_used-IsHeap = record {
  first = (used_block 4 ∷ [], refl);
  closed = (
    (
      record { pos = omega arith; small = omega arith; header = refl; footer = refl },
      (record { pos = omega arith; small = omega arith; header = refl; footer = refl }, tt),
    ),
    refl,
  );
  ends = refl;
  room = omega arith;
  start = refl;
  roving = (prologue ∷ [], used_block 4, [], refl, refl);
}

next_fit_lem_example :
    ((bp : ℕ) × (next_fit one_free 24 ≡ some (record one_free { last_bp = bp }, some bp))
      × Fit 24 1 blocks bp)
    ⊎ ((next_fit one_free 24 ≡ some (one_free, none)) × NoneLarger 24 blocks)
next_fit_lem_example = next_fit_lem one_free blocks 24 one_free-IsHeap

mm_free_lem_example :
    (s' : Heap) × (mm_free one_used 4 ≡ some s') × IsHeap s' (merged prologue (free_block 4) [])
mm_free_lem_example = mm_free_lem one_used [] prologue (used_block 4) [] one_used-IsHeap

mm_malloc_lem_example :
    ((s' : Heap) × (bp : ℕ) × (old : List Block) × (mm_malloc bounded_sbrk one_free 8
        ≡ some (s', some bp))
      × ((old ≡ blocks) ⊎ (old ≡ grow blocks (more_units (adjusted 8 / 8))))
      × GivenOut 8 (adjusted 8 / 8) old s' bp)
    ⊎ ((mm_malloc bounded_sbrk one_free 8 ≡ some (one_free, none))
        × NoneLarger (adjusted 8) blocks
        × (bounded_sbrk one_free.mem (8 * more_units (adjusted 8 / 8)) ≡ none))
mm_malloc_lem_example =
    mm_malloc_lem bounded_sbrk one_free blocks 8 bounded_sbrk-Grows one_free-IsHeap (omega arith)
      (omega arith)

mm_init_lem_example :
    ((s : Heap) × (mm_init bounded_sbrk [] ≡ some (some s))
      × IsHeap s (prologue ∷ free_block 512 ∷ []))
    ⊎ ((mm_init bounded_sbrk [] ≡ some none)
        × ((bounded_sbrk [] 16 ≡ none) ⊎ (bounded_sbrk bare.mem 4096 ≡ none)))
mm_init_lem_example = mm_init_lem bounded_sbrk bounded_sbrk-Grows

-- A block of 16 bytes in use, and a free one behind it.
abbrev half_used : Heap
half_used = record {
  mem = 0 ∷ 9 ∷ 9 ∷ 17 ∷ 5 ∷ 6 ∷ 17 ∷ 16 ∷ 0 ∷ 0 ∷ 16 ∷ 1 ∷ [];
  start_bp = 2;
  last_bp = 2;
}

half_used-IsHeap : IsHeap half_used (prologue ∷ used_block 2 ∷ free_block 2 ∷ [])
half_used-IsHeap = record {
  first = (used_block 2 ∷ free_block 2 ∷ [], refl);
  closed = (
    (
      record { pos = omega arith; small = omega arith; header = refl; footer = refl },
      (
        record { pos = omega arith; small = omega arith; header = refl; footer = refl },
        (record { pos = omega arith; small = omega arith; header = refl; footer = refl }, tt),
      ),
    ),
    refl,
  );
  ends = refl;
  room = omega arith;
  start = refl;
  roving = ([], prologue, used_block 2 ∷ free_block 2 ∷ [], refl, refl);
}

mm_realloc-in_place_example :
    (m : Mem) × (mm_realloc bounded_sbrk half_used 4 20
      ≡ some (record half_used { mem = m }, some 4))
    × Closed m 1 (prologue ∷ used_block 4 ∷ [])
    × (length m ≡ 12)
mm_realloc-in_place_example =
    mm_realloc-in_place bounded_sbrk half_used (prologue ∷ []) (used_block 2) (free_block 2) [] 20
      half_used-IsHeap refl (omega arith) (omega arith)
