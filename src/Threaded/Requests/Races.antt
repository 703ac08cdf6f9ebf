-- ===== src/Threaded/Requests/Races.antt =====
-- What the counters of readers and writers, and the test in front of the mutex, do not exclude.
use system_software.Prelude.{◌+◌, ◌≡◌, refl, ap, ◌∙◌, arith, false, some, if◌then◌else◌}
use system_software.Prelude.Int.{ℤ, pos, ltb_ℤ, add_int}
use system_software.Server.Tree.{Stock, Address, find, count_at, set_count, success}
use system_software.Threaded.Requests.{
  show_print, modify_store, returned, no_writer, take_reader, enter_reader, give_reader,
  take_writer, enter_writer, give_writer, no_reader, found, accept, take_node, load, store,
  give_node, take_writer_off, leave_writer, give_writer_off, next_show, next_write, System, thread,
  Run, start, later, same_address,
}
use system_software.Threaded.Requests.Updates.{
  IsNode-set_count, find-IsNode, count_at-set_count, same_address_refl,
}

-- The mutex of a node after one thread took it and gave it back.
free :
    (a : Address)
    → (if same_address a a
        then (if same_address a a then 0 else 1) + 1
        else (if same_address a a then 0 else 1))
      ≡ 1
free a = ground (arith, same_address_refl a)

module _ (root : Stock) (id : ℤ) (a : Address) (e : find id root ≡ some a) (n1 n2 : ℤ)
    (fits1 : ltb_ℤ (add_int (count_at a root) n1) (pos 0) ≡ false)
    (fits2 : ltb_ℤ (add_int (count_at a root) n2) (pos 0) ≡ false) where
  twice :
      count_at a (
        set_count a
          (add_int (count_at a (set_count a (add_int (count_at a root) n1) root)) n2)
          (set_count a (add_int (count_at a root) n1) root))
      ≡ add_int (add_int (count_at a root) n1) n2
  twice =
      let v = add_int (count_at a root) n1 in
      let there = find-IsNode id root a e in
      count_at-set_count a (add_int (count_at a (set_count a v root)) n2) (set_count a v root)
        (IsNode-set_count a a v root there)
      ∙ ap (λ c. add_int c n2) (count_at-set_count a v root there)

  -- Two threads that each change the same count, by numbers that fit one by one: both may succeed, with
  -- both numbers added, whether they fit together or not.
  pub oversold :
      (s : System) × Run 2 root s
      × (s.pc 0 ≡ returned success)
      × (s.pc 1 ≡ returned success)
      × (count_at a s.mem.root ≡ add_int (add_int (count_at a root) n1) n2)
  oversold =
      let r = later start (thread 0 (omega arith) (next_write id n1)) in
      let r = later r (thread 0 (omega arith) (take_writer refl)) in
      let r = later r (thread 0 (omega arith) enter_writer) in
      let r = later r (thread 0 (omega arith) give_writer) in
      let r = later r (thread 0 (omega arith) (no_reader refl)) in
      let r = later r (thread 0 (omega arith) (found e)) in
      let r = later r (thread 0 (omega arith) (accept fits1)) in
      let r = later r (thread 1 (omega arith) (next_write id n2)) in
      let r = later r (thread 1 (omega arith) (take_writer refl)) in
      let r = later r (thread 1 (omega arith) enter_writer) in
      let r = later r (thread 1 (omega arith) give_writer) in
      let r = later r (thread 1 (omega arith) (no_reader refl)) in
      let r = later r (thread 1 (omega arith) (found e)) in
      let r = later r (thread 1 (omega arith) (accept fits2)) in
      let r = later r (thread 0 (omega arith) (take_node refl)) in
      let r = later r (thread 0 (omega arith) load) in
      let r = later r (thread 0 (omega arith) store) in
      let r = later r (thread 0 (omega arith) give_node) in
      let r = later r (thread 0 (omega arith) (take_writer_off refl)) in
      let r = later r (thread 0 (omega arith) leave_writer) in
      let r = later r (thread 0 (omega arith) give_writer_off) in
      let r = later r (thread 1 (omega arith) (take_node {k = 0} (free a))) in
      let r = later r (thread 1 (omega arith) load) in
      let r = later r (thread 1 (omega arith) store) in
      let r = later r (thread 1 (omega arith) give_node) in
      let r = later r (thread 1 (omega arith) (take_writer_off refl)) in
      let r = later r (thread 1 (omega arith) leave_writer) in
      let r = later r (thread 1 (omega arith) give_writer_off) in (_, r, refl, refl, twice)

  -- A thread may print the tree while another one stands before the store of a count: a reader that has
  -- seen no writer, and not counted itself yet, does not keep a writer from going on.
  pub overlap :
      (s : System) × Run 2 root s
      × (s.pc 0 ≡ show_print)
      × (s.pc 1 ≡ modify_store a (count_at a root) n1)
  overlap =
      let r = later start (thread 0 (omega arith) next_show) in
      let r = later r (thread 0 (omega arith) (no_writer refl)) in
      let r = later r (thread 1 (omega arith) (next_write id n1)) in
      let r = later r (thread 1 (omega arith) (take_writer refl)) in
      let r = later r (thread 1 (omega arith) enter_writer) in
      let r = later r (thread 1 (omega arith) give_writer) in
      let r = later r (thread 1 (omega arith) (no_reader refl)) in
      let r = later r (thread 1 (omega arith) (found e)) in
      let r = later r (thread 1 (omega arith) (accept fits1)) in
      let r = later r (thread 1 (omega arith) (take_node refl)) in
      let r = later r (thread 1 (omega arith) load) in
      let r = later r (thread 0 (omega arith) (take_reader refl)) in
      let r = later r (thread 0 (omega arith) enter_reader) in
      let r = later r (thread 0 (omega arith) give_reader) in (_, r, refl, refl)
