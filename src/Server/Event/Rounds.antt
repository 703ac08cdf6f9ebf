-- ===== src/Server/Event/Rounds.antt =====
-- What holds between the rounds of the server's loop, and what one turn of a client loses.
use system_software.Prelude.{
  ℕ, zero, suc, ◌<◌, ◌≡◌, refl, sym, ap, ◌∙◌, List, [], ◌∷◌, ◌++◌, Bool, true, ◌&&◌, Option, none,
  some, if◌then◌else◌, length, get_elem?, arith, Bool-cases, Option-cases, inl, inr,
}
use system_software.Prelude.Int.{ℤ, pos, negsuc, ltb_ℤ, leb_ℤ, eqb_ℤ, ◌≤ℤ◌, add_int}
use mathlib.Core.Path.{fun_ext}
use system_software.Server.Text.{Bytes}
use system_software.Server.Tree.{Status, success, error, no_cmd, inv_arg, not_enough, nl}
use system_software.Server.Tree.Order.{IsOrdered}
use system_software.Server.Tree.Modify.{HasStock}
use system_software.Server.StockFile.{maxline, Disk, Timeval, fsync_stockfile}
use system_software.Server.Parser.{Command, parser}
use system_software.Server.Rio.{
  ReadEvent, got, Rio, Count, minus_one, bytes, rio_readinitb, rio_readlineb,
}
use system_software.Server.Rio.Line.{OneLine, rio_readlineb-got}
use system_software.Server.Pool.{Pool, Poll, fd_setsize, see_pool, remove_client}
use system_software.Server.Pool.Slots.{Absent}
use system_software.Server.Pool.Invariant.{IsValid, add_client-Added, remove_client_lem}
use system_software.Server.Event.{
  Server, respond, serve, write_loop, write_pool, round, line_buffer, failed_buffer, set_inbox,
}
use system_software.Server.Event.Handlers.{KeepsStock, PoolAfter, execute_keeps}

respond_keeps :
    (close : ℤ → ℤ) (buf : Bytes) (rc : ℕ) (connfd : ℤ) (i : ℕ) (s s' : Server)
    → respond close buf rc connfd i s ≡ some s'
    → KeepsStock s s' × PoolAfter close connfd i s s'
unfolding respond
respond_keeps close buf rc connfd i s s' e = answer (parser buf rc) refl
  where
    answer :
        (out : Option (Status × Option Command))
        → parser buf rc ≡ out
        → KeepsStock s s' × PoolAfter close connfd i s s'
    answer none p = absurd (ground arith)
    answer (some (no_cmd, cmd)) p = absurd (ground arith)
    answer (some (inv_arg, cmd)) p = absurd (ground arith)
    answer (some (nl, cmd)) p = absurd (ground arith)
    answer (some (success, none)) p = absurd (ground arith)
    answer (some (error, none)) p = absurd (ground arith)
    answer (some (not_enough, none)) p = absurd (ground arith)
    answer (some (success, some cmd)) p = execute_keeps close cmd connfd i s s' (ground arith)
    answer (some (error, some cmd)) p = execute_keeps close cmd connfd i s s' (ground arith)
    answer (some (not_enough, some cmd)) p = execute_keeps close cmd connfd i s s' (ground arith)

serve_keeps :
    (close : ℤ → ℤ) (old : Bytes) (connfd : ℤ) (i : ℕ) (s s' : Server)
    → serve close old connfd i s ≡ some s'
    → KeepsStock s s' × PoolAfter close connfd i s s'
unfolding serve
serve_keeps close old connfd i s s' e =
    answer (rio_readlineb (rio_readinitb connfd) maxline (s.inbox connfd)) refl
  where
    after : List ReadEvent → Server
    after rest = set_inbox rest connfd s

    answer :
        (out : Count × Rio × List ReadEvent)
        → rio_readlineb (rio_readinitb connfd) maxline (s.inbox connfd) ≡ out
        → KeepsStock s s' × PoolAfter close connfd i s s'
    answer (minus_one, rio, rest) p =
        respond_keeps close (failed_buffer (s.inbox connfd) connfd old) 0 connfd i (after rest) s'
          (ground (arith, p, e))
    answer (bytes [], rio, rest) p =
        let same : s' ≡ record (after rest) { pool = (remove_client close connfd i s.pool).1 } =
          ground (arith, e, p) in
        rw same (λ o k. (o, k), inr refl)
    answer (bytes (c ∷ cs), rio, rest) p =
        respond_keeps close (line_buffer (c ∷ cs) old) (length (c ∷ cs)) connfd i (after rest) s'
          (ground (arith, p, e))

-- The tree is ordered, no count is below 0, and the pool is valid.
pub record IsGood (s : Server) : Type 0 where
  pub ordered : IsOrdered s.disk.root
  pub in_stock : HasStock s.disk.root
  pub pool : IsValid s.pool

nready-IsValid : (p : Pool) (k : ℤ) → IsValid p → IsValid (record p { nready = k })
nready-IsValid p k v = record {
  slots = v.slots;
  counted = v.counted;
  served = v.served;
  distinct = v.distinct;
}

polled-IsValid :
    (p : Pool) (r : ℤ → Bool) (k : ℤ) → IsValid p → IsValid (record p { ready_set = r; nready = k })
polled-IsValid p r k v = record {
  slots = v.slots;
  counted = v.counted;
  served = v.served;
  distinct = v.distinct;
}

PoolAfter-IsValid :
    (close : ℤ → ℤ) (connfd : ℤ) (i : ℕ) (s s' : Server)
    → pos 0 ≤ℤ connfd
    → get_elem? s.pool.clientfd i ≡ some connfd
    → IsValid s.pool
    → PoolAfter close connfd i s s'
    → IsValid s'.pool
PoolAfter-IsValid close connfd i s s' nonneg held v (inl e) = rw e v
PoolAfter-IsValid close connfd i s s' nonneg held v (inr e) =
    let made = remove_client_lem close connfd i s.pool nonneg held v in
    rw e (elim (Bool-cases (ltb_ℤ (close connfd) (pos 0))) [
      | inl f ↦ let u = (rw f at made) in rw u.1 v
      | inr f ↦ let u = (rw f at made) in u.1
    ])

-- A turn of a client keeps all three.
pub serve-IsGood :
    (close : ℤ → ℤ) (old : Bytes) (connfd : ℤ) (i : ℕ) (s s' : Server)
    → pos 0 ≤ℤ connfd
    → get_elem? s.pool.clientfd i ≡ some connfd
    → IsGood s
    → serve close old connfd i s ≡ some s'
    → IsGood s'
serve-IsGood close old connfd i s s' nonneg held g e =
    let (stock, pool) = serve_keeps close old connfd i s s' e in
    let kept = stock g.ordered g.in_stock in
    record {
      ordered = kept.0;
      in_stock = kept.1;
      pool = PoolAfter-IsValid close connfd i s s' nonneg held g.pool pool;
    }

write_loop-IsGood :
    (close : ℤ → ℤ) (old : ℕ → Bytes) (left i : ℕ) (s s' : Server)
    → IsGood s
    → write_loop close old left i s ≡ some s'
    → IsGood s'
unfolding write_loop
write_loop-IsGood close old zero i s s' g e = let same : s' ≡ s = ground arith in rw same g
write_loop-IsGood close old (suc left) i s s' g e =
    let go = leb_ℤ (pos i) s.pool.maxi && ltb_ℤ (pos 0) s.pool.nready in
    elim (Bool-cases go) [
      | inr stop ↦ let same : s' ≡ s = ground (arith, e, stop) in rw same g
      | inl more ↦ elim (Option-cases (get_elem? s.pool.clientfd i)) [
        | inl out ↦ absurd (ground (arith, e, more, out))
        | inr (fd, held) ↦ elim (Bool-cases (ltb_ℤ (pos 0) fd && s.pool.ready_set fd)) [
          | inr idle ↦
              write_loop-IsGood close old left (suc i) s s' g (ground (arith, e, more, held, idle))
          | inl ready ↦
              let less = record (s.pool) { nready = add_int s.pool.nready (negsuc 0) } in
              let t : Server = record s { pool = less } in
              elim (Option-cases (serve close (old i) fd i t)) [
                | inl out ↦ absurd (ground (arith, e, more, held, ready, out))
                | inr (u, served) ↦
                    let good : IsGood t = record {
                      ordered = g.ordered;
                      in_stock = g.in_stock;
                      pool = nready-IsValid s.pool (add_int s.pool.nready (negsuc 0)) g.pool;
                    } in
                    write_loop-IsGood close old left (suc i) u s'
                      (serve-IsGood close (old i) fd i t u (ground (arith, ready)) held good served)
                      (ground (arith, e, more, held, ready, served))
              ]
        ]
      ]
    ]

-- In a round with a new connection `accept` fails, or returns a descriptor that no client has.
abbrev pub Accepts : ℤ → Poll → Server → Type 0
Accepts listenfd poll s =
    poll.ready listenfd ≡ true → pos 0 ≤ℤ poll.accepted → Absent poll.accepted s.pool.clientfd

see_pool-IsValid :
    (listenfd : ℤ) (poll : Poll) (p p' : Pool)
    → (poll.ready listenfd ≡ true → pos 0 ≤ℤ poll.accepted → Absent poll.accepted p.clientfd)
    → IsValid p
    → see_pool listenfd poll p ≡ some p'
    → IsValid p'
unfolding see_pool
see_pool-IsValid listenfd poll p p' fresh v e =
    let polled : Pool = record p { ready_set = poll.ready; nready = poll.count } in
    let kept : IsValid polled = polled-IsValid p poll.ready poll.count v in
    elim (Bool-cases (poll.ready listenfd)) [
      | inl new ↦
          (add_client-Added poll.accepted polled p' (fresh new) kept (ground (arith, e, new))).valid
      | inr none_new ↦ let same : p' ≡ polled = ground (arith, e, none_new) in rw same kept
    ]

-- `fsync_stockfile` leaves the tree alone.
fsync-root : (now : Timeval) (d d' : Disk) → fsync_stockfile now d ≡ some d' → d'.root ≡ d.root
unfolding fsync_stockfile
fsync-root now d d' e = ground arith

-- A round of the server's loop, whoever is ready and whatever was received, keeps the tree ordered,
-- the counts at least 0, and the pool valid.
pub round-IsGood :
    (close : ℤ → ℤ) (listenfd : ℤ) (poll : Poll) (old : ℕ → Bytes) (now : Timeval) (s s' : Server)
    → Accepts listenfd poll s
    → IsGood s
    → round close listenfd poll old now s ≡ some s'
    → IsGood s'
unfolding round write_pool
round-IsGood close listenfd poll old now s s' fresh g e =
    elim (Option-cases (see_pool listenfd poll s.pool)) [
      | inl out ↦ absurd (ground (arith, e, out))
      | inr (pool, seen) ↦
          let t : Server = record s { pool = pool } in
          let good : IsGood t = record {
            ordered = g.ordered;
            in_stock = g.in_stock;
            pool = see_pool-IsValid listenfd poll s.pool pool fresh g.pool seen;
          } in
          elim (Option-cases (write_loop close old fd_setsize 0 t)) [
            | inl out ↦ absurd (ground (arith, e, seen, out))
            | inr (u, written) ↦
                let done = write_loop-IsGood close old fd_setsize 0 t u good written in
                elim (Bool-cases (eqb_ℤ u.pool.n (pos 0))) [
                  | inr busy ↦
                      let same : s' ≡ u = ground (arith, e, seen, written, busy) in rw same done
                  | inl idle ↦ elim (Option-cases (fsync_stockfile now u.disk)) [
                    | inl out ↦ absurd (ground (arith, e, seen, written, idle, out))
                    | inr (disk, stored) ↦
                        let same : s' ≡ record u { disk = disk } =
                          ground (arith, e, seen, written, idle, stored) in
                        let root = fsync-root now u.disk disk stored in
                        rw same (record {
                          ordered = rw root done.ordered;
                          in_stock = rw root done.in_stock;
                          pool = done.pool;
                        })
                  ]
                ]
          ]
    ]

-- The server after any number of rounds, each with its own events.
pub data Reach (close : ℤ → ℤ) (listenfd : ℤ) (s : Server) : Server → Type 0 where
  here : Reach close listenfd s s
  next :
      {t u : Server}
      → Reach close listenfd s t
      → (poll : Poll) (old : ℕ → Bytes) (now : Timeval) → Accepts listenfd poll t
      → round close listenfd poll old now t ≡ some u
      → Reach close listenfd s u

-- Every state that the server reaches in any number of rounds, each with its own events and none of them
-- a fault (such as FD_SET with the -1 of an `accept` that failed), is good if the first is, as long as
-- `accept`, whenever `select` reports a connection and it does not fail, returns a descriptor that no
-- client has: the tree is ordered, no count is below 0, and the pool is valid.
pub Reach-IsGood :
    {close : ℤ → ℤ} {listenfd : ℤ} {s t : Server} → IsGood s → Reach close listenfd s t → IsGood t
Reach-IsGood g here = g
Reach-IsGood {close} {listenfd} {s} {t} g (next {t = m} r poll old now fresh e) =
    round-IsGood close listenfd poll old now m t fresh (Reach-IsGood g r) e

eqb_ℤ_refl : (a : ℤ) → eqb_ℤ a a ≡ true
eqb_ℤ_refl a = ground arith

set_inbox_twice :
    (env rest : List ReadEvent) (fd : ℤ) (s : Server)
    → set_inbox rest fd (set_inbox env fd s) ≡ set_inbox rest fd s
set_inbox_twice env rest fd s = ap (λ f. record s { inbox = f }) (fun_ext pointwise)
  where
    pointwise :
        (x : ℤ)
        → (if eqb_ℤ x fd then rest else if eqb_ℤ x fd then env else s.inbox x)
          ≡ (if eqb_ℤ x fd then rest else s.inbox x)
    pointwise x = ground arith

-- A turn with a line is the answer to it, with the rest of the events for later.
pub serve-line :
    (close : ℤ → ℤ) (old : Bytes) (fd : ℤ) (i : ℕ) (s : Server) (env rest : List ReadEvent)
    (rio : Rio) (c : ℕ) (cs : Bytes)
    → rio_readlineb (rio_readinitb fd) maxline env ≡ (bytes (c ∷ cs), rio, rest)
    → serve close old fd i (set_inbox env fd s)
      ≡ respond close (line_buffer (c ∷ cs) old) (length (c ∷ cs)) fd i (set_inbox rest fd s)
unfolding serve
serve-line close old fd i s env rest rio c cs e =
    rw (← set_inbox_twice env rest fd s) (ground (arith, eqb_ℤ_refl fd, e))

-- What a client sent behind its first line, if one `read` brings both, is lost: the turn has the
-- same outcome as if it had not been sent.
pub serve_loses :
    (close : ℤ → ℤ) (old : Bytes) (fd : ℤ) (i : ℕ) (s : Server) (line more : Bytes)
    (env : List ReadEvent)
    → OneLine line
    → length line < 8191
    → serve close old fd i (set_inbox (got (line ++ b'\n' ∷ more) ∷ env) fd s)
      ≡ serve close old fd i (set_inbox (got (line ++ b'\n' ∷ []) ∷ env) fd s)
serve_loses close old fd i s [] more env h l =
    serve-line close old fd i s _ env _ b'\n' [] (rio_readlineb-got 8191 fd [] more env h l)
    ∙ sym (serve-line close old fd i s _ env _ b'\n' [] (rio_readlineb-got 8191 fd [] [] env h l))
serve_loses close old fd i s (c ∷ cs) more env h l =
    let rest = cs ++ b'\n' ∷ [] in
    serve-line close old fd i s _ env _ c rest (rio_readlineb-got 8191 fd (c ∷ cs) more env h l)
    ∙ sym
        (serve-line close old fd i s _ env _ c rest (rio_readlineb-got 8191 fd (c ∷ cs) [] env h l))
