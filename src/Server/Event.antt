-- ===== src/Server/Event.antt =====
-- concurrent_stockserver/event_driven/: the commands of impl.c, `execute` and `write_pool` of
-- network.c, and the loop of stockserver.c.
pub mod Handlers
pub mod Rounds
pub mod Requests
pub mod Restart
use system_software.Prelude.{
  ℕ, zero, suc, ◌+◌, ◌-◌, List, [], ◌∷◌, ◌++◌, Bool, true, false, ◌&&◌, Option, none, some, ltb,
  if◌then◌else◌, length, drop, get_elem?,
}
use system_software.Prelude.Int.{ℤ, pos, negsuc, ltb_ℤ, leb_ℤ, eqb_ℤ, add_int, neg_int}
use system_software.Server.Text.{Bytes, atoi}
use system_software.Server.Tree.{
  Stock, Status, success, error, no_cmd, inv_arg, not_enough, nl, modify,
}
use system_software.Server.StockFile.{maxline, print_to_buf, Disk, Timeval, fsync_stockfile}
use system_software.Server.Parser.{Command, show, sell, buy, exit_client, parser, codes}
use system_software.Server.Rio.{
  ReadEvent, rio_readinitb, rio_readlineb, copied, Count, minus_one, bytes,
}
use system_software.Server.Pool.{Pool, Poll, fd_setsize, see_pool, remove_client}

-- The globals and the file, what each client's socket still delivers, and what was sent, latest first.
pub record Server : Type 0 where
  pub disk : Disk
  pub pool : Pool
  pub inbox : ℤ → List ReadEvent
  pub sent : List (ℤ × Bytes)

-- `cmd->args[1]` of a command of two arguments; a NULL is a fault of `atoi`.
abbrev pub number : Option Bytes → Option ℤ
number none = none
number (some s) = some (atoi s)

-- `args1` and `args2`.
abbrev pub numbers : Command → Option (ℤ × ℤ)
numbers cmd = elim (number cmd.arg1) [
  | none ↦ none
  | some a ↦ elim (number cmd.arg2) [ none ↦ none | some b ↦ some (a, b) ]
]

abbrev pub escape : Bytes → Bytes
escape rest = 27 ∷ rest

-- The text in front of the result.
unfoldable pub heading : Command → Status → Bytes
heading cmd st =
    let start = escape (codes "[0m[") ++ cmd.frame.name in
    elim st [
      | success ↦ start ++ (codes "]" ++ escape (codes "[0;32msuccess\n" ++ escape (codes "[0m")))
      | error ↦ start ++ codes "] failed\n"
      | not_enough ↦ codes "NOT ENOUGH LEFT STOCK\n"
      | _ ↦ start
    ]

abbrev pub reply : ℤ → Bytes → Server → Server
reply connfd text s = record s { sent = (connfd, text) ∷ s.sent }

-- The local buffer after a line was read into it; `old` is what stood there.
abbrev pub line_buffer : Bytes → Bytes → Bytes
line_buffer line old = line ++ 0 ∷ drop (suc (length line)) old

-- It after a read that failed: the bytes before the failure, with no NUL behind them.
abbrev pub failed_buffer : List ReadEvent → ℤ → Bytes → Bytes
failed_buffer env connfd old =
    let line = copied (maxline - 1) (rio_readinitb connfd) [] env in line ++ drop (length line) old

abbrev pub set_inbox : List ReadEvent → ℤ → Server → Server
set_inbox env fd s = record s { inbox = λ x. if eqb_ℤ x fd then env else s.inbox x }

abbrev pub set_root : Stock → Server → Server
set_root root s = record s { disk = record (s.disk) { root = root } }

module _ (close : ℤ → ℤ) where
  -- `cmd.fp(&cmd)`: the status, the server, and `cmd.result`.
  unfoldable pub call : Command → ℤ → ℕ → Server → Option (Status × Server × Bytes)
  call cmd connfd poolidx s = elim cmd.frame.fp [
    | show ↦ let (st, out) = print_to_buf s.disk.root [] in some (st, s, out)
    | sell ↦ elim (numbers cmd) [
      | none ↦ none
      | some (id, n) ↦ let (st, root) = modify id n s.disk.root in some (st, set_root root s, [])
    ]
    | buy ↦ elim (numbers cmd) [
      | none ↦ none
      | some (id, n) ↦
          let (st, root) = modify id (neg_int n) s.disk.root in some (st, set_root root s, [])
    ]
    | exit_client ↦
        let (rc, pool) = remove_client close connfd poolidx s.pool in
        some (if eqb_ℤ rc (pos 0) then error else success, record s { pool = pool }, [])
  ]

  -- `execute`; the text goes into a buffer of MAXLINE bytes.
  unfoldable pub execute : Command → ℤ → ℕ → Server → Option Server
  execute cmd connfd poolidx s = elim (call cmd connfd poolidx s) [
    | none ↦ none
    | some (st, s', result) ↦
        let res = heading cmd st ++ result in
        if ltb (length res) maxline
        then some (record s' { sent = (connfd, res) ∷ s'.sent })
        else none
  ]

  -- What `write_pool` does with a line: `rc` is the count of its bytes (any other than 1 for -1). The
  -- messages for the other statuses are literals, behind which `send` reads up to MAXLINE bytes; and
  -- after NL and NOCMD `free_args` frees as many pointers as an `argc` says that nothing has set.
  unfoldable pub respond : Bytes → ℕ → ℤ → ℕ → Server → Option Server
  respond buf rc connfd i s = elim (parser buf rc) [
    | none ↦ none
    | some (no_cmd, cmd) ↦ none
    | some (inv_arg, cmd) ↦ none
    | some (nl, cmd) ↦ none
    | some (st, none) ↦ none
    | some (st, some cmd) ↦ execute cmd connfd i s
  ]

  -- One turn for the client of a slot; `old` is the content of the uninitialised local buffer. The
  -- reader is a local copy of `clientrio`, so that slot's reader is empty at each turn.
  unfoldable pub serve : Bytes → ℤ → ℕ → Server → Option Server
  serve old connfd i s =
      let (rc, rio, rest) = rio_readlineb (rio_readinitb connfd) maxline (s.inbox connfd) in
      let s' = set_inbox rest connfd s in
      elim rc [
        | minus_one ↦ respond (failed_buffer (s.inbox connfd) connfd old) 0 connfd i s'
        | bytes [] ↦ some (record s' { pool = (remove_client close connfd i s'.pool).1 })
        | bytes (c ∷ cs) ↦ respond (line_buffer (c ∷ cs) old) (length (c ∷ cs)) connfd i s'
      ]

  -- The loop of `write_pool` from slot `i` on, with `left` slots to the end of the array; `old i` is what
  -- the buffer, which is not initialised, holds in the turn of slot `i`.
  unfoldable pub write_loop : (ℕ → Bytes) → ℕ → ℕ → Server → Option Server
  write_loop old zero i s = some s
  write_loop old (suc left) i s = elim (leb_ℤ (pos i) s.pool.maxi && ltb_ℤ (pos 0) s.pool.nready) [
    | false ↦ some s
    | true ↦ elim (get_elem? s.pool.clientfd i) [
      | none ↦ none
      | some fd ↦ elim (ltb_ℤ (pos 0) fd && s.pool.ready_set fd) [
        | false ↦ write_loop old left (suc i) s
        | true ↦
            let less = record (s.pool) { nready = add_int s.pool.nready (negsuc 0) } in
            elim (serve (old i) fd i (record s { pool = less })) [
              | none ↦ none
              | some s' ↦ write_loop old left (suc i) s'
            ]
      ]
    ]
  ]

  unfoldable pub write_pool : (ℕ → Bytes) → Server → Option Server
  write_pool old s = write_loop old fd_setsize 0 s

  -- One round of the loop of `main`.
  unfoldable pub round : ℤ → Poll → (ℕ → Bytes) → Timeval → Server → Option Server
  round listenfd poll old now s = elim (see_pool listenfd poll s.pool) [
    | none ↦ none
    | some pool ↦ elim (write_pool old (record s { pool = pool })) [
      | none ↦ none
      | some s' ↦
          if eqb_ℤ s'.pool.n (pos 0)
          then elim (fsync_stockfile now s'.disk) [
            | none ↦ none
            | some disk ↦ some (record s' { disk = disk })
          ]
          else some s'
    ]
  ]
