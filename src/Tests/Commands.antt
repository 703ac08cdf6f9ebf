-- ===== src/Tests/Commands.antt =====
-- Threads that sell and buy one stock, and a connection with two lines.
use Prim.{tt}
use system_software.Prelude.{
  ℕ, ◌≡◌, ◌<◌, refl, List, [], ◌∷◌, Option, none, some, true, false, arith,
}
use system_software.Prelude.Int.{pos, negsuc, add_int}
use system_software.Server.Text.{Bytes}
use system_software.Server.Tree.{
  Stock, leaf, node, Status, success, no_cmd, find, count_at, set_count,
}
use system_software.Server.Parser.{
  Command, codes, parser, find_cmd, find_args, scan_until, at_enter, pick, strncmp_eq, no_args,
  show,
}
use system_software.Server.Rio.{Rio, ReadEvent, got, interrupted, rio_readinitb}
use system_software.Threaded.Requests.{
  show_print, modify_store, returned, next_write, take_writer, enter_writer, give_writer, no_reader,
  found, accept, take_node, load, store, System, thread, Run, start, later,
}
use system_software.Threaded.Requests.Progress.{busy, Moves, Run-progress}
use system_software.Threaded.Requests.Updates.{after, applied, Run-applied}
use system_software.Threaded.Requests.Races.{oversold, overlap}
use system_software.Threaded.Service.{service}
use system_software.Threaded.Service.Lines.{IsRequest, Request, service-requests, run_all}

-- Five pieces of stock 1.
abbrev five : Stock
five = node (pos 1) (pos 100) (pos 5) leaf leaf

-- Thread 1 has stored that it bought four, and holds the mutex of the node.
abbrev bought : (s : System) × Run 2 five s
unfolding find count_at add_int set_count
bought =
    let r : Run 2 five _ = start in
    let r = later r (thread 1 (omega arith) (next_write (pos 1) (negsuc 3))) in
    let r = later r (thread 1 (omega arith) (take_writer refl)) in
    let r = later r (thread 1 (omega arith) enter_writer) in
    let r = later r (thread 1 (omega arith) give_writer) in
    let r = later r (thread 1 (omega arith) (no_reader refl)) in
    let r = later r (thread 1 (omega arith) (found {a = []} refl)) in
    let r = later r (thread 1 (omega arith) (accept refl)) in
    let r = later r (thread 1 (omega arith) (take_node refl)) in
    let r = later r (thread 1 (omega arith) load) in
    let r = later r (thread 1 (omega arith) store) in (_, r)

Run-applied_example : count_at [] bought.0.mem.root ≡ after (count_at [] five) (applied [] bought.1)
Run-applied_example = Run-applied bought.1 []

Run-progress_example :
    (j : ℕ) × (j < 2) × (busy (bought.0.pc j) ≡ true) × Moves bought.0.mem (bought.0.pc j)
unfolding bought
Run-progress_example = Run-progress bought.1 1 (omega arith) refl

-- Each of two buyers of four out of five succeeds.
oversold_example :
    (s : System) × Run 2 five s
    × (s.pc 0 ≡ returned success)
    × (s.pc 1 ≡ returned success)
    × (count_at [] s.mem.root ≡ negsuc 2)
unfolding find count_at add_int
oversold_example = oversold five (pos 1) [] refl (negsuc 3) (negsuc 3) refl refl

overlap_example :
    (s : System) × Run 2 five s
    × (s.pc 0 ≡ show_print)
    × (s.pc 1 ≡ modify_store [] (pos 5) (negsuc 3))
unfolding find count_at add_int
overlap_example = overlap five (pos 1) [] refl (negsuc 3) (negsuc 3) refl refl

abbrev showing : Command
showing = record {
  frame = record { flag = no_args; name = codes "show"; fp = show };
  argc = 1;
  arg1 = none;
  arg2 = none;
}

abbrev show_line : Request
show_line = record { text = codes "show"; parsed = (success, some showing) }

abbrev other_line : Request
other_line = record { text = codes "zz"; parsed = (no_cmd, none) }

show_line-IsRequest : IsRequest show_line
unfolding parser find_cmd find_args scan_until at_enter pick strncmp_eq
show_line-IsRequest = record {
  one_line = (refl, (refl, (refl, (refl, tt))));
  short = omega arith;
  parses = λ junk. refl;
}

other_line-IsRequest : IsRequest other_line
unfolding parser find_cmd find_args scan_until at_enter pick strncmp_eq
other_line-IsRequest = record {
  one_line = (refl, (refl, tt));
  short = omega arith;
  parses = λ junk. refl;
}

-- A server that answers "1 100 5", and keeps what is sent.
abbrev answers : Command → List Bytes → Option (Status × List Bytes × Bytes)
answers cmd w = some (success, w, codes "1 100 5\n")

abbrev keeps : Bytes → List Bytes → Option (List Bytes)
keeps text w = some (text ∷ w)

abbrev closes : List Bytes → List Bytes
closes w = [] ∷ w

abbrev same : Bytes → Bytes
same text = text

abbrev pieces : List ReadEvent
pieces = got (codes "sh") ∷ interrupted ∷ got (codes "ow\nzz\n") ∷ []

service-requests_example :
    service answers keeps closes same same 3 [] false (rio_readinitb (pos 4)) pieces []
    ≡ run_all answers keeps closes same same (show_line ∷ other_line ∷ []) false []
unfolding rio_readinitb system_software.Server.Rio.Line.stream
service-requests_example =
    service-requests answers keeps closes same same (show_line ∷ other_line ∷ []) 3 [] false
      (rio_readinitb (pos 4)) pieces [] (show_line-IsRequest, (other_line-IsRequest, tt)) tt refl
      (omega arith)
