-- ===== src/NextFit/Init.antt =====
-- `mm_init` lays out the first heap.
use Prim.{tt}
use system_software.Prelude.{
  ℕ, ◌*◌, ◌≡◌, ◌⊎◌, inl, inr, refl, ap, ◌∙◌, [], ◌∷◌, some, none, length, arith, Option-cases,
}
use system_software.NextFit.{Mem, Heap, Sbrk, put, extend_heap, mm_init}
use system_software.NextFit.Layout.{free_block}
use system_software.NextFit.Invariant.{prologue, IsHeap}
use system_software.NextFit.Grow.{Grows, extend_heap_lem}

four_words :
    (mem : Mem)
    → 4 * length mem ≡ 16
    → (a : ℕ) × (b : ℕ) × (c : ℕ) × (d : ℕ) × (mem ≡ a ∷ b ∷ c ∷ d ∷ [])
four_words [] e = absurd (omega (arith, e))
four_words (a ∷ []) e = absurd (omega (arith, e))
four_words (a ∷ b ∷ []) e = absurd (omega (arith, e))
four_words (a ∷ b ∷ c ∷ []) e = absurd (omega (arith, e))
four_words (a ∷ b ∷ c ∷ d ∷ []) e = (a, b, c, d, refl)
four_words (a ∷ b ∷ c ∷ d ∷ x ∷ mem) e = absurd (omega (arith, e))

-- The heap of the first and the last header alone.
abbrev pub bare : Heap
bare = record { mem = 0 ∷ 9 ∷ 9 ∷ 1 ∷ []; start_bp = 2; last_bp = 2 }

bare-IsHeap : IsHeap bare (prologue ∷ [])
bare-IsHeap = record {
  first = ([], refl);
  closed =
      ((record { pos = omega arith; small = omega arith; header = refl; footer = refl }, tt), refl);
  ends = refl;
  room = omega arith;
  start = refl;
  roving = ([], prologue, [], refl, refl);
}

init_run :
    (mem_sbrk : Sbrk) (s : Heap) (a b c d bp : ℕ)
    → mem_sbrk [] 16 ≡ some (a ∷ b ∷ c ∷ d ∷ [])
    → extend_heap mem_sbrk (record bare { last_bp = 0 }) 1024 ≡ some (s, some bp)
    → mm_init mem_sbrk [] ≡ some (some (record s { last_bp = 2 }))
unfolding mm_init put
init_run mem_sbrk s a b c d bp gave grown = ground (arith, gave, grown)

refused_run :
    (mem_sbrk : Sbrk) (a b c d : ℕ)
    → mem_sbrk [] 16 ≡ some (a ∷ b ∷ c ∷ d ∷ [])
    → mem_sbrk bare.mem 4096 ≡ none
    → mm_init mem_sbrk [] ≡ some none
unfolding mm_init extend_heap put
refused_run mem_sbrk a b c d gave refused = ground (arith, gave, refused)

first_refused : (mem_sbrk : Sbrk) → mem_sbrk [] 16 ≡ none → mm_init mem_sbrk [] ≡ some none
unfolding mm_init
first_refused mem_sbrk refused = ground (arith, refused)

-- `mm_init` on the empty heap, with a `mem_sbrk` that does what memlib.c says, returns. It fails only
-- if `mem_sbrk` refuses one of the two requests; else the heap is well formed, and has one free block
-- of 4096 bytes behind the first block.
pub mm_init_lem :
    (mem_sbrk : Sbrk)
    → Grows mem_sbrk
    → ((s : Heap) × (mm_init mem_sbrk [] ≡ some (some s))
        × IsHeap s (prologue ∷ free_block 512 ∷ []))
      ⊎ ((mm_init mem_sbrk [] ≡ some none)
          × ((mem_sbrk [] 16 ≡ none) ⊎ (mem_sbrk bare.mem 4096 ≡ none)))
mm_init_lem mem_sbrk g = elim (Option-cases (mem_sbrk [] 16)) [
  | inl refused ↦ inr (first_refused mem_sbrk refused, inl refused)
  | inr (mem, gave) ↦
      let (fresh, e, long) = g.grown [] mem 16 gave in
      let (a, b, c, d, q) = four_words mem (ap (λ k. 4 * length k) e ∙ long) in
      let gave' = gave ∙ ap some q in
      elim (Option-cases (mem_sbrk bare.mem 4096)) [
        | inl refused ↦ inr (refused_run mem_sbrk a b c d gave' refused, inr refused)
        | inr (mem', more) ↦
            let (s, grown, good, fit) =
              extend_heap_lem mem_sbrk bare (prologue ∷ []) 512 0 mem' g bare-IsHeap (omega arith)
                more in
            inl (
              record s { last_bp = 2 },
              init_run mem_sbrk s a b c d s.last_bp gave' grown,
              record {
                first = good.first;
                closed = good.closed;
                ends = good.ends;
                room = good.room;
                start = good.start;
                roving = ([], prologue, free_block 512 ∷ [], refl, refl);
              },
            )
      ]
]
