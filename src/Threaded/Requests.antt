-- ===== src/Threaded/Requests.antt =====
-- The commands show, sell and buy of concurrent_stockserver/thread_based/impl.c with `modify` of its
-- binary_tree.c, as threads that share the tree. A thread stands before one of its accesses to what is
-- shared; a step is one access of one thread, so that a run is any interleaving. `find` is one access,
-- since ids and the shape of the tree do not change, and so is `print_to_buf`, of which only the status
-- is kept. `exit` shares nothing.
pub mod Counts
pub mod Progress
pub mod Updates
pub mod Races
use system_software.Prelude.{
  ℕ, zero, suc, ◌+◌, ◌-◌, ◌≡◌, ◌<◌, List, [], ◌∷◌, Bool, true, false, Option, none, some,
  if◌then◌else◌,
}
use system_software.Prelude.Int.{ℤ, pos, ltb_ℤ, add_int, neg_int}
use system_software.Server.Tree.{
  Stock, Address, Turn, left, right, Status, success, error, not_enough, find, count_at, set_count,
}
use system_software.Server.StockFile.{print_to_buf}
use system_software.Threaded.Family.{change}

-- The globals. A semaphore is its value; `modify_mutex` is that of the node at an address.
pub record Shared : Type 0 where
  pub root : Stock
  pub reader_n : ℕ
  pub writer_n : ℕ
  pub reader_n_mutex : ℕ
  pub writer_n_mutex : ℕ
  pub modify_mutex : Address → ℕ

-- Where a thread stands, with the variables that are live there: `show` before its loop, the
-- operations on `reader_n`, and `print_to_buf`; `sell` and `buy` likewise, with the id and the number
-- that `modify` is called with; `modify` with its node; and a command that has returned.
pub data Pc : Type 0 where
  show_spin show_wait show_enter show_post show_print : Pc
  show_wait_off show_leave show_post_off : Status → Pc
  write_wait write_enter write_post write_spin modify_find : ℤ → ℤ → Pc
  modify_test modify_wait modify_load : Address → ℤ → Pc
  modify_store : Address → ℤ → ℤ → Pc
  modify_post : Address → Pc
  write_wait_off write_leave write_post_off : Status → Pc
  returned : Status → Pc

abbrev pub same_address : Address → Address → Bool
same_address [] [] = true
same_address [] (u ∷ b) = false
same_address (t ∷ a) [] = false
same_address (left ∷ a) (left ∷ b) = same_address a b
same_address (left ∷ a) (right ∷ b) = false
same_address (right ∷ a) (left ∷ b) = false
same_address (right ∷ a) (right ∷ b) = same_address a b

abbrev pub set_mutex : Shared → Address → ℕ → Shared
set_mutex m a k = record m { modify_mutex = λ b. if same_address a b then k else m.modify_mutex b }

-- Where a thread stands at the beginning of a command.
abbrev pub sell : ℤ → ℤ → Pc
sell args1 args2 = write_wait args1 args2

abbrev pub buy : ℤ → ℤ → Pc
buy args1 args2 = write_wait args1 (neg_int args2)

-- One access of a thread. `while (writer_n)`, `while (reader_n)` and `sem_wait` are steps only when the
-- thread need not wait.
pub data Move (m : Shared) : Pc → Shared → Pc → Type 0 where
  no_writer : m.writer_n ≡ 0 → Move m show_spin m show_wait
  take_reader :
      {k : ℕ}
      → m.reader_n_mutex ≡ suc k
      → Move m show_wait (record m { reader_n_mutex = k }) show_enter
  enter_reader : Move m show_enter (record m { reader_n = m.reader_n + 1 }) show_post
  give_reader : Move m show_post (record m { reader_n_mutex = m.reader_n_mutex + 1 }) show_print
  print : Move m show_print m (show_wait_off (print_to_buf m.root []).0)
  take_reader_off :
      {st : Status} {k : ℕ}
      → m.reader_n_mutex ≡ suc k
      → Move m (show_wait_off st) (record m { reader_n_mutex = k }) (show_leave st)
  leave_reader :
      {st : Status}
      → Move m (show_leave st) (record m { reader_n = m.reader_n - 1 }) (show_post_off st)
  give_reader_off :
      {st : Status}
      → Move m (show_post_off st) (record m { reader_n_mutex = m.reader_n_mutex + 1 }) (returned st)
  take_writer :
      {id n : ℤ} {k : ℕ}
      → m.writer_n_mutex ≡ suc k
      → Move m (write_wait id n) (record m { writer_n_mutex = k }) (write_enter id n)
  enter_writer :
      {id n : ℤ}
      → Move m (write_enter id n) (record m { writer_n = m.writer_n + 1 }) (write_post id n)
  give_writer :
      {id n : ℤ}
      → Move m
          (write_post id n)
          (record m { writer_n_mutex = m.writer_n_mutex + 1 })
          (write_spin id n)
  no_reader : {id n : ℤ} → m.reader_n ≡ 0 → Move m (write_spin id n) m (modify_find id n)
  missing : {id n : ℤ} → find id m.root ≡ none → Move m (modify_find id n) m (write_wait_off error)
  found :
      {id n : ℤ} {a : Address}
      → find id m.root ≡ some a
      → Move m (modify_find id n) m (modify_test a n)
  refuse :
      {a : Address} {n : ℤ}
      → ltb_ℤ (add_int (count_at a m.root) n) (pos 0) ≡ true
      → Move m (modify_test a n) m (write_wait_off not_enough)
  accept :
      {a : Address} {n : ℤ}
      → ltb_ℤ (add_int (count_at a m.root) n) (pos 0) ≡ false
      → Move m (modify_test a n) m (modify_wait a n)
  take_node :
      {a : Address} {n : ℤ} {k : ℕ}
      → m.modify_mutex a ≡ suc k
      → Move m (modify_wait a n) (set_mutex m a k) (modify_load a n)
  load : {a : Address} {n : ℤ} → Move m (modify_load a n) m (modify_store a (count_at a m.root) n)
  store :
      {a : Address} {c n : ℤ}
      → Move m
          (modify_store a c n)
          (record m { root = set_count a (add_int c n) m.root })
          (modify_post a)
  give_node :
      {a : Address}
      → Move m (modify_post a) (set_mutex m a (m.modify_mutex a + 1)) (write_wait_off success)
  take_writer_off :
      {st : Status} {k : ℕ}
      → m.writer_n_mutex ≡ suc k
      → Move m (write_wait_off st) (record m { writer_n_mutex = k }) (write_leave st)
  leave_writer :
      {st : Status}
      → Move m (write_leave st) (record m { writer_n = m.writer_n - 1 }) (write_post_off st)
  give_writer_off :
      {st : Status}
      → Move m
          (write_post_off st)
          (record m { writer_n_mutex = m.writer_n_mutex + 1 })
          (returned st)
  next_show : {st : Status} → Move m (returned st) m show_spin
  next_write : {st : Status} (id n : ℤ) → Move m (returned st) m (write_wait id n)

-- What is shared, and where each thread stands.
pub record System : Type 0 where
  pub mem : Shared
  pub pc : ℕ → Pc

-- A step of one of the `n` threads.
pub data Step (n : ℕ) (s : System) : System → Type 0 where
  thread :
      (i : ℕ) {m : Shared} {p : Pc}
      → i < n
      → Move s.mem (s.pc i) m p
      → Step n s (record { mem = m; pc = change s.pc i p })

-- What `mutex_init` and `insert` leave, with a tree: no reader or writer, and all mutexes free.
abbrev pub mutex_init : Stock → Shared
mutex_init root = record {
  root = root;
  reader_n = 0;
  writer_n = 0;
  reader_n_mutex = 1;
  writer_n_mutex = 1;
  modify_mutex = λ a. 1;
}

-- Any number of steps, from any threads that have returned.
pub data Run (n : ℕ) (root : Stock) : System → Type 0 where
  start : Run n root (record { mem = mutex_init root; pc = λ i. returned success })
  later : {s t : System} → Run n root s → Step n s t → Run n root t
