-- ===== src/Threaded/Sbuf.antt =====
-- The buffer of waiting connections in concurrent_stockserver/thread_based/threading.c, with the
-- threads that use it. A thread stands before one of its semaphore operations or before its access to
-- the array; a step is the next operation of one thread, so that a run is any interleaving.
pub mod Balance
pub mod Room
pub mod Queue
pub mod Runs
use system_software.Prelude.{
  ℕ, zero, suc, ◌+◌, ◌%◌, List, [], ◌∷◌, Option, none, some, ltb, get_elem?, set, replicate, ◌≡◌,
  true, false,
}
use system_software.Prelude.Int.{ℤ, pos}
use system_software.Server.Text.{Bytes}

-- `waiting_connfd`
pub record Waiting : Type 0 where
  pub connfd : ℤ
  pub clientaddr : Bytes

-- `sbuf_t`; a semaphore is its value.
pub record Sbuf : Type 0 where
  pub waiting_connfd : List Waiting
  pub n : ℕ
  pub front : ℕ
  pub rear : ℕ
  pub mutex : ℕ
  pub empty_slots : ℕ
  pub items : ℕ

-- An element that calloc gives: a `sockaddr_storage` has 128 bytes.
abbrev pub cleared : Waiting
cleared = record { connfd = pos 0; clientaddr = replicate 128 0 }

-- `mutex_init`, what it does to the buffer.
abbrev pub mutex_init : ℕ → Sbuf
mutex_init n = record {
  waiting_connfd = replicate n cleared;
  n = n;
  front = 0;
  rear = 0;
  mutex = 1;
  empty_slots = n;
  items = 0;
}

-- Where a thread stands: in `sbuf_insert`, in `sbuf_remove` (with `wc` from the read on), or in the
-- saving of the file, for which `network_worker` takes the mutex and `sigsync_handler` gives it back.
pub data Thread : Type 0 where
  insert_slots insert_mutex insert_write insert_post : Waiting → Thread
  insert_items insert_done : Waiting → Thread
  remove_items remove_mutex remove_read : Thread
  remove_post remove_slots remove_done : Waiting → Thread
  sync_mutex sync_save sync_done : Thread

-- `sem_wait`; `none` while the thread has to wait.
abbrev pub sem_wait : ℕ → Option ℕ
sem_wait zero = none
sem_wait (suc k) = some k

-- The largest `int`. Counting `front` or `rear` further is undefined.
abbrev pub int_max : ℕ
int_max = 2147483647

-- `waiting_connfd[++rear % n] = …`, connfd and clientaddr.
unfoldable pub put : Waiting → Sbuf → Option Sbuf
put x s = elim (ltb s.rear int_max) [
  | false ↦ none
  | true ↦
      some (record s {
        waiting_connfd = set s.waiting_connfd ((s.rear + 1) % s.n) x;
        rear = s.rear + 1;
      })
]

-- `waiting_connfd[++front % n]`, connfd and clientaddr.
unfoldable pub get : Sbuf → Option (Waiting × Sbuf)
get s = elim (ltb s.front int_max) [
  | false ↦ none
  | true ↦ elim (get_elem? s.waiting_connfd ((s.front + 1) % s.n)) [
    | none ↦ none
    | some x ↦ some (x, record s { front = s.front + 1 })
  ]
]

-- The next operation of a thread; `none` if it waits, has returned, or does what is undefined.
unfoldable pub advance : Thread → Sbuf → Option (Thread × Sbuf)
advance (insert_slots x) s = elim (sem_wait s.empty_slots) [
  | none ↦ none
  | some k ↦ some (insert_mutex x, record s { empty_slots = k })
]
advance (insert_mutex x) s = elim (sem_wait s.mutex) [
  | none ↦ none
  | some k ↦ some (insert_write x, record s { mutex = k })
]
advance (insert_write x) s = elim (put x s) [ none ↦ none | some t ↦ some (insert_post x, t) ]
advance (insert_post x) s = some (insert_items x, record s { mutex = s.mutex + 1 })
advance (insert_items x) s = some (insert_done x, record s { items = s.items + 1 })
advance (insert_done x) s = none
advance remove_items s = elim (sem_wait s.items) [
  | none ↦ none
  | some k ↦ some (remove_mutex, record s { items = k })
]
advance remove_mutex s = elim (sem_wait s.mutex) [
  | none ↦ none
  | some k ↦ some (remove_read, record s { mutex = k })
]
advance remove_read s = elim (get s) [ none ↦ none | some (x, t) ↦ some (remove_post x, t) ]
advance (remove_post x) s = some (remove_slots x, record s { mutex = s.mutex + 1 })
advance (remove_slots x) s = some (remove_done x, record s { empty_slots = s.empty_slots + 1 })
advance (remove_done x) s = none
advance sync_mutex s = elim (sem_wait s.mutex) [
  | none ↦ none
  | some k ↦ some (sync_save, record s { mutex = k })
]
advance sync_save s = some (sync_done, record s { mutex = s.mutex + 1 })
advance sync_done s = none

-- A thread that stands at the beginning of a call, and one whose call has returned.
unfoldable pub Begins : Thread → Type 0
Begins (insert_slots x) = Unit
Begins remove_items = Unit
Begins sync_mutex = Unit
Begins _ = ⊥

unfoldable pub Returned : Thread → Type 0
Returned (insert_done x) = Unit
Returned (remove_done x) = Unit
Returned sync_done = Unit
Returned _ = ⊥

-- The buffer and all threads.
pub record System : Type 0 where
  pub sbuf : Sbuf
  pub threads : List Thread

-- One step of some thread: its next operation, or the next call after one that returned.
pub data Step : System → System → Type 0 where
  moves :
      (s : System) (i : ℕ) (t t' : Thread) (b : Sbuf)
      → get_elem? s.threads i ≡ some t
      → advance t s.sbuf ≡ some (t', b)
      → Step s (record { sbuf = b; threads = set s.threads i t' })
  calls :
      (s : System) (i : ℕ) (t t' : Thread)
      → get_elem? s.threads i ≡ some t
      → Returned t
      → Begins t'
      → Step s (record { sbuf = s.sbuf; threads = set s.threads i t' })

-- Any number of steps.
pub data Run : System → System → Type 0 where
  stay : (s : System) → Run s s
  then : (s t u : System) → Run s t → Step t u → Run s u
