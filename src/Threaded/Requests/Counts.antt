-- ===== src/Threaded/Requests/Counts.antt =====
-- The counters and semaphores count the threads, in every interleaving.
use Prim.{tt}
use system_software.Prelude.{
  ℕ, suc, ◌+◌, ◌≡◌, ◌<◌, ◌≤◌, refl, ap, arith, true, if◌then◌else◌, Bool-cases, inl, inr,
}
use system_software.Prelude.{[], ◌∷◌}
use system_software.Server.Tree.{Stock, Address, success, left, right}
use system_software.Threaded.Family.{change, sum, sum-change, sum-one, sum-zero}
use system_software.Threaded.Requests.{
  Shared, Pc, show_enter, show_post, show_print, show_wait_off, show_leave, show_post_off,
  write_enter, write_post, write_spin, modify_find, modify_test, modify_wait, modify_load,
  modify_store, modify_post, write_wait_off, write_leave, write_post_off, returned, same_address,
  Move, take_reader, take_reader_off, take_writer, take_writer_off, take_node, store, give_node,
  System, thread, Run, start, later, mutex_init,
}

-- 1 for a thread between the two changes of `reader_n`, and of `writer_n`.
abbrev pub reads : Pc → ℕ
reads show_post = 1
reads show_print = 1
reads (show_wait_off st) = 1
reads (show_leave st) = 1
reads _ = 0

abbrev pub writes : Pc → ℕ
writes (write_post id n) = 1
writes (write_spin id n) = 1
writes (modify_find id n) = 1
writes (modify_test a n) = 1
writes (modify_wait a n) = 1
writes (modify_load a n) = 1
writes (modify_store a c n) = 1
writes (modify_post a) = 1
writes (write_wait_off st) = 1
writes (write_leave st) = 1
writes _ = 0

-- 1 for a thread that has taken the mutex of `reader_n`, of `writer_n`, or of the node.
abbrev pub holds_reader : Pc → ℕ
holds_reader show_enter = 1
holds_reader show_post = 1
holds_reader (show_leave st) = 1
holds_reader (show_post_off st) = 1
holds_reader _ = 0

abbrev pub holds_writer : Pc → ℕ
holds_writer (write_enter id n) = 1
holds_writer (write_post id n) = 1
holds_writer (write_leave st) = 1
holds_writer (write_post_off st) = 1
holds_writer _ = 0

abbrev pub holds_node : Address → Pc → ℕ
holds_node a (modify_load b n) = if same_address b a then 1 else 0
holds_node a (modify_store b c n) = if same_address b a then 1 else 0
holds_node a (modify_post b) = if same_address b a then 1 else 0
holds_node a _ = 0

pub record Counts (n : ℕ) (m : Shared) (pc : ℕ → Pc) : Type 0 where
  pub readers : sum reads n pc ≡ m.reader_n
  pub writers : sum writes n pc ≡ m.writer_n
  pub reader_free : m.reader_n_mutex + sum holds_reader n pc ≡ 1
  pub writer_free : m.writer_n_mutex + sum holds_writer n pc ≡ 1
  pub node_free : (a : Address) → m.modify_mutex a + sum (holds_node a) n pc ≡ 1

pub same_address-eq : (a b : Address) → same_address a b ≡ true → a ≡ b
same_address-eq [] [] e = refl
same_address-eq [] (u ∷ b) e = absurd (ground (arith, e))
same_address-eq (t ∷ a) [] e = absurd (ground (arith, e))
same_address-eq (left ∷ a) (left ∷ b) e = ap (λ k. left ∷ k) (same_address-eq a b e)
same_address-eq (left ∷ a) (right ∷ b) e = absurd (ground (arith, e))
same_address-eq (right ∷ a) (left ∷ b) e = absurd (ground (arith, e))
same_address-eq (right ∷ a) (right ∷ b) e = ap (λ k. right ∷ k) (same_address-eq a b e)

-- What one thread's move changes in the sums.
record Sums (n : ℕ) (m : Shared) (pc : ℕ → Pc) (i : ℕ) (p p' : Pc) : Type 0 where
  one_reads : reads p ≤ sum reads n pc
  one_writes : writes p ≤ sum writes n pc
  of_reads : sum reads n (change pc i p') + reads p ≡ sum reads n pc + reads p'
  of_writes : sum writes n (change pc i p') + writes p ≡ sum writes n pc + writes p'
  of_reader :
      sum holds_reader n (change pc i p') + holds_reader p ≡ sum holds_reader n pc + holds_reader p'
  of_writer :
      sum holds_writer n (change pc i p') + holds_writer p ≡ sum holds_writer n pc + holds_writer p'
  of_node :
      (a : Address)
      → sum (holds_node a) n (change pc i p') + holds_node a p
        ≡ sum (holds_node a) n pc + holds_node a p'

change-Sums : (n : ℕ) (m : Shared) (pc : ℕ → Pc) (i : ℕ) (p' : Pc) → i < n → Sums n m pc i (pc i) p'
change-Sums n m pc i p' h = record {
  one_reads = sum-one reads n pc i h;
  one_writes = sum-one writes n pc i h;
  of_reads = sum-change reads n pc i p' h;
  of_writes = sum-change writes n pc i p' h;
  of_reader = sum-change holds_reader n pc i p' h;
  of_writer = sum-change holds_writer n pc i p' h;
  of_node = λ a. sum-change (holds_node a) n pc i p' h;
}

abbrev Guard : {m m' : Shared} {p p' : Pc} → Move m p m' p' → Type 0
Guard {m} (take_reader {k} e) = m.reader_n_mutex ≡ suc k
Guard {m} (take_reader_off {k = k} e) = m.reader_n_mutex ≡ suc k
Guard {m} (take_writer {k = k} e) = m.writer_n_mutex ≡ suc k
Guard {m} (take_writer_off {k = k} e) = m.writer_n_mutex ≡ suc k
Guard {m} (take_node {a} {k = k} e) = m.modify_mutex a ≡ suc k
Guard _ = Unit {0}

guard : {m m' : Shared} {p p' : Pc} (mv : Move m p m' p') → Guard mv
guard (take_reader e) = e
guard (take_reader_off e) = e
guard (take_writer e) = e
guard (take_writer_off e) = e
guard (take_node e) = e
guard _ = tt

Move-Sums :
    {n : ℕ} {m m' : Shared} {pc : ℕ → Pc} {i : ℕ} {p p' : Pc}
    → Move m p m' p'
    → Counts n m pc
    → Sums n m pc i p p'
    → (sum reads n (change pc i p') ≡ m'.reader_n)
      × (sum writes n (change pc i p') ≡ m'.writer_n)
      × (m'.reader_n_mutex + sum holds_reader n (change pc i p') ≡ 1)
      × (m'.writer_n_mutex + sum holds_writer n (change pc i p') ≡ 1)
Move-Sums store c f = ground (
  arith, c.readers, c.writers, c.reader_free, c.writer_free, f.of_reads, f.of_writes, f.of_reader,
  f.of_writer,
)
Move-Sums mv c f = ground (
  arith,
  guard mv,
  c.readers,
  c.writers,
  c.reader_free,
  c.writer_free,
  f.one_reads,
  f.one_writes,
  f.of_reads,
  f.of_writes,
  f.of_reader,
  f.of_writer,
)

Move-nodes :
    {n : ℕ} {m m' : Shared} {pc : ℕ → Pc} {i : ℕ} {p p' : Pc}
    → Move m p m' p'
    → Counts n m pc
    → Sums n m pc i p p'
    → (a : Address) → m'.modify_mutex a + sum (holds_node a) n (change pc i p') ≡ 1
Move-nodes {m} (take_node {a = b} e) c f a = elim (Bool-cases (same_address b a)) [
  | inl q ↦
      ground (arith, q, e, c.node_free a, f.of_node a, ap m.modify_mutex (same_address-eq b a q))
  | inr q ↦ ground (arith, q, c.node_free a, f.of_node a)
]
Move-nodes {m} (give_node {a = b}) c f a = elim (Bool-cases (same_address b a)) [
  | inl q ↦ ground (arith, q, c.node_free a, f.of_node a, ap m.modify_mutex (same_address-eq b a q))
  | inr q ↦ ground (arith, q, c.node_free a, f.of_node a)
]
Move-nodes mv c f a = ground (arith, c.node_free a, f.of_node a)

pub Move-Counts :
    {n : ℕ} {m m' : Shared} {pc : ℕ → Pc} {p' : Pc}
    → (i : ℕ) → i < n
    → Move m (pc i) m' p'
    → Counts n m pc
    → Counts n m' (change pc i p')
Move-Counts {n} {m} {m'} {pc} {p'} i h mv c =
    let f = change-Sums n m pc i p' h in
    let (a, b, d, e) = Move-Sums mv c f in
    record {
      readers = a;
      writers = b;
      reader_free = d;
      writer_free = e;
      node_free = Move-nodes mv c f;
    }

start-Counts : (n : ℕ) (root : Stock) → Counts n (mutex_init root) (λ i. returned success)
start-Counts n root = record {
  readers = sum-zero reads n (λ i. returned success) (λ i. refl);
  writers = sum-zero writes n (λ i. returned success) (λ i. refl);
  reader_free = omega (arith, sum-zero holds_reader n (λ i. returned success) (λ i. refl));
  writer_free = omega (arith, sum-zero holds_writer n (λ i. returned success) (λ i. refl));
  node_free = λ a. omega (arith, sum-zero (holds_node a) n (λ i. returned success) (λ i. refl));
}

-- In every interleaving `reader_n` is the number of threads that read or are about to stop reading,
-- `writer_n` that of those that write, and each of the mutexes is free or held by one thread.
pub Run-Counts : {n : ℕ} {root : Stock} {s : System} → Run n root s → Counts n s.mem s.pc
Run-Counts {n} {root} start = start-Counts n root
Run-Counts (later r (thread i h mv)) = Move-Counts i h mv (Run-Counts r)
