-- ===== src/Tests/Requests.antt =====
-- Lines, connections and turns of the event-driven server.
use system_software.Prelude.{
  ◌≡◌, ◌+◌, refl, List, [], ◌∷◌, ◌++◌, some, false, arith, set, if◌then◌else◌, get_elem?,
}
use system_software.Prelude.Int.{ℤ, pos, ltb_ℤ, eqb_ℤ, add_int, neg_int}
use system_software.Server.Text.{Bytes, decimal, atoi}
use system_software.Server.Tree.{Stock, node, leaf, modify, find, count_at, set_count}
use system_software.Server.Ledger.{Entry, entries, adjust}
use system_software.Server.Parser.{
  Flag, Frame, Command, Handler, codes, parser, sell, int_int, find_cmd, find_args, pick,
  strncmp_eq, scan_until, at_enter,
}
use system_software.Server.Rio.{
  ReadEvent, got, interrupted, Rio, bytes, rio_readinitb, rio_readlineb, readline_loop, rio_read,
  fill, WriteEvent, took_suc, done, rio_writen,
}
use system_software.Server.Rio.Line.{IsClean, remaining, next_line, rio_readlineb_lem, OneLine}
use system_software.Server.Rio.Write.{WritesPrefix, rio_writen-WritesPrefix}
use system_software.Server.Pool.{
  Pool, Poll, minus_one, fd_setsize, fd_set, free_slot, see_pool, init_pool, add_client,
  remove_client,
}
use system_software.Server.Pool.Slots.{occupied, Absent, Absent-free_slots}
use system_software.Server.Pool.Invariant.{
  IsValid, init_pool-IsValid, add_client-Added, remove_client_lem,
}
use system_software.Server.Event.{
  Server, call, execute, heading, serve, respond, write_loop, write_pool, set_inbox, set_root,
  round,
}
use system_software.Server.Event.Requests.{serve-sell}
use system_software.Server.Event.Restart.{start_server, restart-IsGood}
use system_software.Server.StockFile.{Disk, fsync_stockfile}
use system_software.Server.Event.Rounds.{IsGood, here, next, Reach-IsGood, serve_loses}
use system_software.Tests.Stocks.{
  three_not_leaf, later, fields, three, start, stored, three-IsOrdered,
}

abbrev frame : Flag → Bytes → Handler → Frame
frame f w h = record { flag = f; name = w; fp = h }

abbrev selling : Frame
selling = frame int_int (codes "sell") sell

-- One line in two pieces, with an interrupt between them, and the start of the next.
abbrev pieces : List ReadEvent
pieces = got (codes "sh") ∷ ReadEvent.interrupted ∷ got (codes "ow\nex") ∷ []

rio_readlineb_lem_example :
    (rp' : Rio) × (env' : List ReadEvent) × (rio_readlineb (rio_readinitb (pos 4)) 64 pieces
      ≡ (bytes (next_line 63 (remaining (rio_readinitb (pos 4)) pieces)).0, rp', env'))
    × (remaining rp' env' ≡ (next_line 63 (remaining (rio_readinitb (pos 4)) pieces)).1)
    × IsClean env'
rio_readlineb_lem_example = rio_readlineb_lem (rio_readinitb (pos 4)) 63 pieces tt

pieces_line : (next_line 63 (remaining (rio_readinitb (pos 4)) pieces)).0 ≡ codes "show\n"
unfolding next_line rio_readinitb system_software.Server.Rio.Line.stream
pieces_line = refl

rio_writen-WritesPrefix_example :
    WritesPrefix (codes "abc") (rio_writen (codes "abc") (took_suc 0 ∷ WriteEvent.failed ∷ []))
rio_writen-WritesPrefix_example =
    rio_writen-WritesPrefix (codes "abc") (took_suc 0 ∷ WriteEvent.failed ∷ [])

-- The pool of the listening socket 3, with one client at descriptor 4.
abbrev no_client : Pool
no_client = init_pool (pos 3)

abbrev one_client : Pool
one_client = record no_client {
  nready = minus_one;
  clientfd = set no_client.clientfd 0 (pos 4);
  read_set = fd_set (pos 4) no_client.read_set;
  maxfd = pos 4;
  maxi = pos 0;
  n = pos 1;
}

client_added : add_client (pos 4) no_client ≡ some one_client
unfolding add_client init_pool free_slot add_int
client_added = refl

no_client-Absent : Absent (pos 4) no_client.clientfd
unfolding init_pool
no_client-Absent = Absent-free_slots fd_setsize (pos 4) (omega arith)

one_client-IsValid : IsValid one_client
one_client-IsValid =
    (add_client-Added (pos 4) no_client one_client (λ h. no_client-Absent)
      (init_pool-IsValid (pos 3)) client_added).valid

one_client_held : get_elem? one_client.clientfd 0 ≡ some (pos 4)
unfolding init_pool
one_client_held = refl

abbrev closes : ℤ → ℤ
closes fd = pos 0

remove_client_lem_example :
    let (rc, p') = remove_client closes (pos 4) 0 one_client in
    if ltb_ℤ (closes (pos 4)) (pos 0)
    then (rc ≡ minus_one) × (p' ≡ one_client)
    else ((rc ≡ pos 1)
        × IsValid p'
        × (occupied p'.clientfd + 1 ≡ occupied one_client.clientfd)
        × Absent (pos 4) p'.clientfd
        × (p'.read_set (pos 4) ≡ false)
        × (p'.clientfd ≡ set one_client.clientfd 0 minus_one)
        × (get_elem? p'.clientfd 0 ≡ some minus_one))
remove_client_lem_example =
    remove_client_lem closes (pos 4) 0 one_client (omega arith) one_client_held one_client-IsValid

abbrev serving : List ReadEvent → Server
serving env = record { disk = stored []; pool = one_client; inbox = λ fd. env; sent = [] }

abbrev command : Frame → Command
command f = record { frame = f; argc = 3; arg1 = some (codes "5"); arg2 = some (codes "12") }

serve_loses_example :
    serve closes []
      (pos 4)
      0
      (set_inbox (got (codes "show" ++ b'\n' ∷ codes "exit\n") ∷ []) (pos 4) (serving []))
    ≡ serve closes []
        (pos 4)
        0
        (set_inbox (got (codes "show" ++ b'\n' ∷ []) ∷ []) (pos 4) (serving []))
serve_loses_example =
    serve_loses closes [] (pos 4) 0 (serving []) (codes "show") (codes "exit\n") [] (ground arith)
      (omega arith)

serving-IsGood : (env : List ReadEvent) → IsGood (serving env)
serving-IsGood env = record {
  ordered = three-IsOrdered;
  in_stock = omega arith;
  pool = one_client-IsValid;
}

-- A round in which client 4 buys 4 pieces of stock 3.
abbrev poll_four : Poll
poll_four = record { ready = λ fd. eqb_ℤ fd (pos 4); count = pos 1; accepted = minus_one }

abbrev buying : List ReadEvent
buying = got (codes "buy 3 4\n") ∷ []

abbrev left_three : Stock
left_three =
    node (pos 3) (pos 1200) (pos 105) (node (pos 1) (pos 1000) (pos 101) leaf leaf)
      (node (pos 5) (pos 3700) (pos 774) leaf leaf)

abbrev answered : Server
answered = record (set_root left_three (serving [])) {
  pool = record one_client { ready_set = poll_four.ready; nready = pos 0 };
  inbox = λ x. if eqb_ℤ x (pos 4) then [] else buying;
  sent = (pos 4, 27 ∷ codes "[0m[buy]" ++ 27 ∷ codes "[0;32msuccess\n" ++ 27 ∷ codes "[0m") ∷ [];
}

round_four : round closes (pos 3) poll_four (λ i. []) start (serving buying) ≡ some answered
unfolding round write_pool write_loop serve respond execute call heading parser find_cmd find_args
    scan_until at_enter pick strncmp_eq modify find count_at set_count atoi see_pool rio_readlineb
    readline_loop rio_read rio_readinitb fill add_int neg_int init_pool
round_four = refl

-- The next round, in which client 5 connects.
abbrev poll_listen : Poll
poll_listen = record { ready = λ fd. eqb_ℤ fd (pos 3); count = pos 1; accepted = pos 5 }

abbrev joined : Server
joined = record answered {
  pool = record answered.pool {
    ready_set = poll_listen.ready;
    nready = pos 0;
    clientfd = set one_client.clientfd 1 (pos 5);
    read_set = fd_set (pos 5) one_client.read_set;
    maxfd = pos 5;
    maxi = pos 1;
    n = pos 2;
  };
}

round_five : round closes (pos 3) poll_listen (λ i. []) start answered ≡ some joined
unfolding round write_pool write_loop see_pool add_client free_slot add_int init_pool
round_five = refl

one_client-Absent : Absent (pos 5) one_client.clientfd
unfolding init_pool
one_client-Absent = (λ e. absurd (ground (arith, e)), Absent-free_slots 1023 (pos 5) (omega arith))

Reach-IsGood_example : IsGood joined
Reach-IsGood_example = Reach-IsGood (serving-IsGood buying) (
    next {t = answered}
      (next {t = serving buying} here poll_four (λ i. []) start (λ h. absurd (cc)) round_four)
      poll_listen (λ i. []) start (λ ready nonneg. one_client-Absent) round_five)

-- Client 4 sells 12 pieces of stock 5.
serve-sell_example :
    (root : Stock) × (serve closes []
        (pos 4)
        0
        (set_inbox (got (codes "sell 5 12\nexit\n") ∷ []) (pos 4) (serving []))
      ≡ some (record (set_root root (set_inbox [] (pos 4) (serving []))) {
        sent =
            (pos 4, 27 ∷ codes "[0m[sell]" ++ 27 ∷ codes "[0;32msuccess\n" ++ 27 ∷ codes "[0m")
            ∷ [];
      }))
    × (entries root ≡ (adjust (pos 5) (pos 12) (entries three)).1)
unfolding decimal system_software.Server.Text.digits_onto heading adjust
    system_software.Server.Ledger.assoc entries add_int
serve-sell_example =
    serve-sell closes (pos 5) (pos 12) [] (pos 4) 0 (serving []) (codes "exit\n") [] (omega arith)
      (omega arith) three-IsOrdered

abbrev stopping : Server
stopping = record (serving []) { disk = stored (codes "1 2 3\n") }

restart-IsGood_example :
    (disk : Disk) × (s' : Server) × (fsync_stockfile later (stopping.disk) ≡ some disk)
    × (start_server later fields (pos 3) (λ fd. []) disk.file ≡ some s')
    × IsGood s'
    × (s'.disk.root ≡ three)
    × (s'.pool ≡ no_client)
unfolding entries system_software.Server.StockFile.RoundTrip.lines decimal
    system_software.Server.StockFile.stock_line system_software.Server.Text.digits_onto
restart-IsGood_example =
    restart-IsGood stopping (codes "1 2 3\n") later later fields (pos 3) (λ fd. [])
      (record { ordered = three-IsOrdered; in_stock = omega arith; pool = one_client-IsValid }) refl
      three_not_leaf (omega arith) (omega arith) (omega arith)
