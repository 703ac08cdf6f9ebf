-- ===== src/Threaded/Requests/Progress.antt =====
-- No interleaving leaves the commands waiting for each other.
use system_software.Prelude.{
  ℕ, zero, suc, ◌≡◌, ◌<◌, ◌≤◌, ◌⊎◌, inl, inr, refl, arith, Bool, true, false, Bool-cases,
  Option-cases,
}
use system_software.Prelude.Int.{pos, ltb_ℤ, add_int}
use system_software.Server.Tree.{Stock, Address, find, count_at}
use system_software.Threaded.Family.{sum-some}
use system_software.Threaded.Requests.{
  Shared, Pc, show_spin, show_wait, show_enter, show_post, show_print, show_wait_off, show_leave,
  show_post_off, write_wait, write_enter, write_post, write_spin, modify_find, modify_test,
  modify_wait, modify_load, modify_store, modify_post, write_wait_off, write_leave, write_post_off,
  returned, Move, no_writer, take_reader, enter_reader, give_reader, print, take_reader_off,
  leave_reader, give_reader_off, take_writer, enter_writer, give_writer, no_reader, missing, found,
  refuse, accept, take_node, load, store, give_node, take_writer_off, leave_writer, give_writer_off,
  System, Run,
}
use system_software.Threaded.Requests.Counts.{
  reads, writes, holds_reader, holds_writer, holds_node, Counts, Run-Counts,
}

-- In the middle of a command.
abbrev pub busy : Pc → Bool
busy (returned st) = false
busy _ = true

abbrev pub Moves : Shared → Pc → Type 0
Moves m p = (m' : Shared) × (p' : Pc) × Move m p m' p'

zero_or_suc : (k : ℕ) → (k ≡ 0) ⊎ ((j : ℕ) × (k ≡ suc j))
zero_or_suc zero = inl refl
zero_or_suc (suc k) = inr (k, refl)

-- A thread that has a mutex does not wait.
reader-Moves : (m : Shared) (p : Pc) → 1 ≤ holds_reader p → (busy p ≡ true) × Moves m p
reader-Moves m show_enter h = (refl, (_, _, enter_reader))
reader-Moves m show_post h = (refl, (_, _, give_reader))
reader-Moves m (show_leave st) h = (refl, (_, _, leave_reader))
reader-Moves m (show_post_off st) h = (refl, (_, _, give_reader_off))
reader-Moves m _ h = absurd (omega (arith, h))

writer-Moves : (m : Shared) (p : Pc) → 1 ≤ holds_writer p → (busy p ≡ true) × Moves m p
writer-Moves m (write_enter id n) h = (refl, (_, _, enter_writer))
writer-Moves m (write_post id n) h = (refl, (_, _, give_writer))
writer-Moves m (write_leave st) h = (refl, (_, _, leave_writer))
writer-Moves m (write_post_off st) h = (refl, (_, _, give_writer_off))
writer-Moves m _ h = absurd (omega (arith, h))

node-Moves : (m : Shared) (a : Address) (p : Pc) → 1 ≤ holds_node a p → (busy p ≡ true) × Moves m p
node-Moves m a (modify_load b n) h = (refl, (_, _, load))
node-Moves m a (modify_store b c n) h = (refl, (_, _, store))
node-Moves m a (modify_post b) h = (refl, (_, _, give_node))
node-Moves m a _ h = absurd (omega (arith, h))

-- What a thread waits for that does not move.
abbrev Waits : Shared → Pc → Type 0
Waits m show_spin = 1 ≤ m.writer_n
Waits m show_wait = m.reader_n_mutex ≡ 0
Waits m (show_wait_off st) = m.reader_n_mutex ≡ 0
Waits m (write_wait id n) = m.writer_n_mutex ≡ 0
Waits m (write_wait_off st) = m.writer_n_mutex ≡ 0
Waits m (write_spin id n) = 1 ≤ m.reader_n
Waits m (modify_wait a n) = m.modify_mutex a ≡ 0
Waits m _ = ⊥

takes : {m : Shared} {p : Pc} (k : ℕ) → ((j : ℕ) → k ≡ suc j → Moves m p) → Moves m p ⊎ (k ≡ 0)
takes k step = elim (zero_or_suc k) [ inl e ↦ inr e | inr (j, e) ↦ inl (step j e) ]

Moves-or_Waits : (m : Shared) (p : Pc) → busy p ≡ true → Moves m p ⊎ Waits m p
Moves-or_Waits m show_spin h = elim (zero_or_suc m.writer_n) [
  | inl e ↦ inl (_, _, no_writer e)
  | inr (k, e) ↦ inr (omega (arith, e))
]
Moves-or_Waits m show_wait h = takes m.reader_n_mutex (λ j e. (_, _, take_reader e))
Moves-or_Waits m show_enter h = inl (_, _, enter_reader)
Moves-or_Waits m show_post h = inl (_, _, give_reader)
Moves-or_Waits m show_print h = inl (_, _, print)
Moves-or_Waits m (show_wait_off st) h = takes m.reader_n_mutex (λ j e. (_, _, take_reader_off e))
Moves-or_Waits m (show_leave st) h = inl (_, _, leave_reader)
Moves-or_Waits m (show_post_off st) h = inl (_, _, give_reader_off)
Moves-or_Waits m (write_wait id n) h = takes m.writer_n_mutex (λ j e. (_, _, take_writer e))
Moves-or_Waits m (write_enter id n) h = inl (_, _, enter_writer)
Moves-or_Waits m (write_post id n) h = inl (_, _, give_writer)
Moves-or_Waits m (write_spin id n) h = elim (zero_or_suc m.reader_n) [
  | inl e ↦ inl (_, _, no_reader e)
  | inr (k, e) ↦ inr (omega (arith, e))
]
Moves-or_Waits m (modify_find id n) h = elim (Option-cases (find id m.root)) [
  | inl e ↦ inl (_, _, missing e)
  | inr (a, e) ↦ inl (_, _, found e)
]
Moves-or_Waits m (modify_test a n) h =
    elim (Bool-cases (ltb_ℤ (add_int (count_at a m.root) n) (pos 0))) [
      | inl e ↦ inl (_, _, refuse e)
      | inr e ↦ inl (_, _, accept e)
    ]
Moves-or_Waits m (modify_wait a n) h = takes (m.modify_mutex a) (λ j e. (_, _, take_node e))
Moves-or_Waits m (modify_load a n) h = inl (_, _, load)
Moves-or_Waits m (modify_store a c n) h = inl (_, _, store)
Moves-or_Waits m (modify_post a) h = inl (_, _, give_node)
Moves-or_Waits m (write_wait_off st) h = takes m.writer_n_mutex (λ j e. (_, _, take_writer_off e))
Moves-or_Waits m (write_leave st) h = inl (_, _, leave_writer)
Moves-or_Waits m (write_post_off st) h = inl (_, _, give_writer_off)
Moves-or_Waits m (returned st) h = absurd (ground (arith, h))

reads-busy : (p : Pc) → 1 ≤ reads p → busy p ≡ true
reads-busy (returned st) h = absurd (omega (arith, h))
reads-busy _ h = refl

writes-busy : (p : Pc) → 1 ≤ writes p → busy p ≡ true
writes-busy (returned st) h = absurd (omega (arith, h))
writes-busy _ h = refl

module _ {n : ℕ} {m : Shared} {pc : ℕ → Pc} (c : Counts n m pc) where
  -- Some thread in the middle of a command can make a step.
  abbrev Someone : Type 0
  Someone = (j : ℕ) × (j < n) × (busy (pc j) ≡ true) × Moves m (pc j)

  reader_mutex : m.reader_n_mutex ≡ 0 → Someone
  reader_mutex e =
      let (j, h, one) = sum-some holds_reader n pc (omega (arith, c.reader_free, e)) in
      let (b, v) = reader-Moves m (pc j) one in (j, h, b, v)

  writer_mutex : m.writer_n_mutex ≡ 0 → Someone
  writer_mutex e =
      let (j, h, one) = sum-some holds_writer n pc (omega (arith, c.writer_free, e)) in
      let (b, v) = writer-Moves m (pc j) one in (j, h, b, v)

  node_mutex : (a : Address) → m.modify_mutex a ≡ 0 → Someone
  node_mutex a e =
      let (j, h, one) = sum-some (holds_node a) n pc (omega (arith, c.node_free a, e)) in
      let (b, v) = node-Moves m a (pc j) one in (j, h, b, v)

  -- A thread that is counted as a reader and waits, and one that is counted as a writer.
  read_waits : (p : Pc) → 1 ≤ reads p → Waits m p → Someone
  read_waits (show_wait_off st) one w = reader_mutex w
  read_waits _ one w = absurd (ground (arith, one, w))

  reader_counted : 1 ≤ m.reader_n → Someone
  reader_counted e =
      let (j, h, one) = sum-some reads n pc (omega (arith, c.readers, e)) in
      let b = reads-busy (pc j) one in
      elim (Moves-or_Waits m (pc j) b) [ inl v ↦ (j, h, b, v) | inr w ↦ read_waits (pc j) one w ]

  write_waits : (p : Pc) → 1 ≤ writes p → Waits m p → Someone
  write_waits (write_spin id k) one w = reader_counted w
  write_waits (modify_wait a k) one w = node_mutex a w
  write_waits (write_wait_off st) one w = writer_mutex w
  write_waits _ one w = absurd (ground (arith, one, w))

  writer_counted : 1 ≤ m.writer_n → Someone
  writer_counted e =
      let (j, h, one) = sum-some writes n pc (omega (arith, c.writers, e)) in
      let b = writes-busy (pc j) one in
      elim (Moves-or_Waits m (pc j) b) [ inl v ↦ (j, h, b, v) | inr w ↦ write_waits (pc j) one w ]

  waits : (p : Pc) → Waits m p → Someone
  waits show_spin w = writer_counted w
  waits show_wait w = reader_mutex w
  waits (show_wait_off st) w = reader_mutex w
  waits (write_wait id k) w = writer_mutex w
  waits (write_wait_off st) w = writer_mutex w
  waits (write_spin id k) w = reader_counted w
  waits (modify_wait a k) w = node_mutex a w
  waits _ w = absurd w

-- In every state that the threads reach: if a thread is in the middle of a command, then some thread in
-- the middle of a command can make its next access; the commands never all wait for each other.
pub Run-progress :
    {n : ℕ} {root : Stock} {s : System}
    → Run n root s
    → (i : ℕ) → i < n
    → busy (s.pc i) ≡ true
    → (j : ℕ) × (j < n) × (busy (s.pc j) ≡ true) × Moves s.mem (s.pc j)
Run-progress {s} r i h b = elim (Moves-or_Waits s.mem (s.pc i) b) [
  | inl v ↦ (i, h, b, v)
  | inr w ↦ waits (Run-Counts r) (s.pc i) w
]
