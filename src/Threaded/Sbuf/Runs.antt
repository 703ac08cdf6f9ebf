-- ===== src/Threaded/Sbuf/Runs.antt =====
-- What any interleaving of the threads does, from the initialisation on.
use Prim.{tt}
use system_software.Prelude.{
  ℕ, ◌+◌, ◌%◌, ◌≡◌, ◌<◌, ◌≤◌, ◌⊎◌, refl, sym, ap, ◌∙◌, List, [], ◌∷◌, ◌++◌, some, get_elem?, set,
  length, arith, inl, inr, append_assoc, append-nil, length-replicate,
}
use system_software.Threaded.Sbuf.{
  Waiting, Sbuf, Thread, insert_slots, insert_mutex, insert_write, insert_post, insert_items,
  insert_done, remove_items, remove_mutex, remove_read, remove_post, remove_slots, remove_done,
  sync_mutex, sync_save, sync_done, put, get, advance, Begins, System, moves, calls, Run, stay,
  then, int_max, mutex_init, cleared,
}
use system_software.Threaded.Sbuf.Balance.{holding, filled, reserved, total, total-weight}
use system_software.Threaded.Sbuf.Room.{IsRoom, calls-IsRoom, Begins-Weightless, Weightless}
use system_software.Threaded.Sbuf.Queue.{Contents, Effect, advance_refines}

-- What an operation writes to the array, and what one reads from it.
abbrev pub writes : Thread → List Waiting
writes (insert_write x) = x ∷ []
writes _ = []

abbrev pub reads : Thread → List Waiting
reads (remove_post x) = x ∷ []
reads _ = []

abbrev reads_of : Thread → Thread → List Waiting
reads_of remove_read t' = reads t'
reads_of _ t' = []

-- The elements in the order in which the steps of a run write them, and read them.
unfoldable pub written : {s u : System} → Run s u → List Waiting
written (stay s) = []
written (then s _ _ r (moves t i old new b at_i h)) = written r ++ writes old
written (then s _ _ r (calls t i old new at_i g h)) = written r

unfoldable pub taken : {s u : System} → Run s u → List Waiting
taken (stay s) = []
taken (then s _ _ r (moves t i old new b at_i h)) = taken r ++ reads_of old new
taken (then s _ _ r (calls t i old new at_i g h)) = taken r

-- An effect on the queue in terms of what was written and read.
Effect-append :
    (t t' : Thread) (q r : List Waiting) → Effect t t' q r → q ++ writes t ≡ reads_of t t' ++ r
Effect-append (insert_slots x) t' q r e = append-nil q ∙ sym e
Effect-append (insert_mutex x) t' q r e = append-nil q ∙ sym e
Effect-append (insert_write x) t' q r e = sym e
Effect-append (insert_post x) t' q r e = append-nil q ∙ sym e
Effect-append (insert_items x) t' q r e = append-nil q ∙ sym e
Effect-append (insert_done x) t' q r e = append-nil q ∙ sym e
Effect-append remove_items t' q r e = append-nil q ∙ sym e
Effect-append remove_mutex t' q r e = append-nil q ∙ sym e
Effect-append remove_read t' q r e =
    let (x, u, p) = e in append-nil q ∙ (p ∙ sym (ap (λ k. reads k ++ r) u))
Effect-append (remove_post x) t' q r e = append-nil q ∙ sym e
Effect-append (remove_slots x) t' q r e = append-nil q ∙ sym e
Effect-append (remove_done x) t' q r e = append-nil q ∙ sym e
Effect-append sync_mutex t' q r e = append-nil q ∙ sym e
Effect-append sync_save t' q r e = append-nil q ∙ sym e
Effect-append sync_done t' q r e = append-nil q ∙ sym e

unfoldable pub AllBegin : List Thread → Type 0
AllBegin [] = Unit
AllBegin (t ∷ ts) = Begins t × AllBegin ts

append-step :
    (q w w' t t' r r' : List Waiting)
    → q ++ w ≡ t ++ r
    → r ++ w' ≡ t' ++ r'
    → q ++ (w ++ w') ≡ (t ++ t') ++ r'
append-step q w w' t t' r r' e f =
    sym (append_assoc q w w')
    ∙ (ap (λ l. l ++ w') e
        ∙ (append_assoc t r w' ∙ (ap (λ l. t ++ l) f ∙ sym (append_assoc t t' r'))))

Run-Contents :
    {s u : System} (run : Run s u) (q : List Waiting)
    → IsRoom s
    → Contents s.sbuf q
    → IsRoom u × ((r : List Waiting) × Contents u.sbuf r × (q ++ written run ≡ taken run ++ r))
unfolding written taken
Run-Contents (stay s) q v c = (v, (q, c, append-nil q))
Run-Contents (then s _ _ run (moves t i old new b at_i h)) q v c =
    let (v', (r, c', e)) = Run-Contents run q v c in
    let (v'', (r', c'', f)) = advance_refines t r i old new b v' c' at_i h in
    (
      v'',
      (
        r',
        c'',
        append-step q (written run) (writes old) (taken run) (reads_of old new) r r' e
            (Effect-append old new r r' f),
      ),
    )
Run-Contents (then s _ _ run (calls t i old new at_i g h)) q v c =
    let (v', (r, c', e)) = Run-Contents run q v c in
    (calls-IsRoom t i old new v' at_i g h, (r, c', e))

-- At the start no thread weighs anything.
AllBegin-total :
    (ts : List Thread)
    → AllBegin ts
    → (total holding ts ≡ 0) × (total filled ts ≡ 0) × (total reserved ts ≡ 0)
unfolding AllBegin Weightless
AllBegin-total [] h = (refl, refl, refl)
AllBegin-total (t ∷ ts) h =
    let (a, b, c) = Begins-Weightless t h.0 in
    let (d, e, f) = AllBegin-total ts h.1 in
    (omega (arith, a, d), omega (arith, b, e), omega (arith, c, f))

-- From the initialised buffer, with any threads at the beginning of a call, whatever their
-- interleaving: at most one thread holds the mutex, the buffer holds a queue of at most `n` elements,
-- and the elements come out in the order in which they went in, each once.
pub Run-fifo :
    (n : ℕ) (ts : List Thread) (s : System)
    → AllBegin ts
    → (run : Run (record { sbuf = mutex_init n; threads = ts }) s)
    → (total holding s.threads ≤ 1)
      × ((q : List Waiting) × Contents s.sbuf q
          × (length q ≤ s.sbuf.n)
          × (written run ≡ taken run ++ q))
Run-fifo n ts s h run =
    let (a, b, c) = AllBegin-total ts h in
    let start : IsRoom (record { sbuf = mutex_init n; threads = ts }) = record {
      exclusive = omega (arith, a);
      level = omega (arith, b);
      room = omega (arith, b, c);
      size = length-replicate n cleared;
    } in
    let (v, (q, d, e)) = Run-Contents run [] start (record { between = refl; held = tt }) in
    (omega (arith, v.exclusive), (q, d, omega (arith, v.level, v.room, d.between), e))

-- With the counts in order, no thread that stands before its access to the array is stopped there:
-- the writer finds a place and the reader an element, while the counters stay below the largest `int`.
pub access_total :
    (s : System) (q : List Waiting) (i : ℕ) (t : Thread)
    → IsRoom s
    → Contents s.sbuf q
    → get_elem? s.threads i ≡ some t
    → s.sbuf.rear < int_max
    → ((x : Waiting) × (t ≡ insert_write x)) ⊎ (t ≡ remove_read)
    → (p : Thread × Sbuf) × (advance t s.sbuf ≡ some p)
unfolding advance put get
access_total s q i t v c at_i l (inl (x, e)) =
    let b = s.sbuf in
    (
      (
        insert_post x,
        record b {
          waiting_connfd = set b.waiting_connfd ((b.rear + 1) % b.n) x;
          rear = b.rear + 1;
        },
      ),
      ground (arith, e, l),
    )
access_total s [] i t v c at_i l (inr e) =
    let one = total-weight filled s.threads i t at_i in
    let w : filled t ≡ 1 = ap filled e in absurd (omega (arith, one, w, v.level, c.between))
access_total s (x ∷ q) i t v c at_i l (inr e) =
    let b = s.sbuf in
    let below : b.front < int_max = omega (arith, v.level, l) in
    ((remove_post x, record b { front = b.front + 1 }), ground (arith, e, below, c.held.0))
