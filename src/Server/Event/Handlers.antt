-- ===== src/Server/Event/Handlers.antt =====
-- The commands: what they do to the stocks and the pool.
use system_software.Prelude.{ℕ, ◌≡◌, refl, List, [], true, some, arith, Option-cases, inl, inr, ◌⊎◌}
use system_software.Prelude.Int.{ℤ, pos, neg_int, ltb_ℤ}
use system_software.Server.Text.{Bytes, atoi}
use system_software.Server.Tree.{Stock, Status, success, modify}
use system_software.Server.Tree.Order.{IsOrdered}
use system_software.Server.Tree.Modify.{HasStock, modify_keeps, modify_refines}
use system_software.Server.Ledger.{Entry, entries, adjust}
use system_software.Server.StockFile.{print_to_buf}
use system_software.Server.StockFile.RoundTrip.{lines, print_to_buf_lem}
use system_software.Server.Parser.{Handler, Command, show, sell, buy, exit_client}
use system_software.Server.Pool.{remove_client}
use system_software.Server.Event.{Server, call, numbers, set_root, execute}

-- `show` prints a line for each stock, in preorder, and changes nothing.
pub call-show :
    (close : ℤ → ℤ) (cmd : Command) (connfd : ℤ) (i : ℕ) (s : Server)
    → cmd.frame.fp ≡ show
    → call close cmd connfd i s
      ≡ some ((print_to_buf s.disk.root []).0, s, lines (entries s.disk.root))
unfolding call
call-show close cmd connfd i s h = ground (arith, print_to_buf_lem s.disk.root [])

-- On an ordered tree `sell` adds its second number to the count of the first entry that has its
-- first number as id: the status, the entries after it, and nothing else.
pub call-sell :
    (close : ℤ → ℤ) (cmd : Command) (connfd : ℤ) (i : ℕ) (s : Server) (a b : Bytes)
    → cmd.frame.fp ≡ sell
    → cmd.arg1 ≡ some a
    → cmd.arg2 ≡ some b
    → IsOrdered s.disk.root
    → (st : Status) × (root : Stock) × (call close cmd connfd i s ≡ some (st, set_root root s, []))
      × (◌≡◌ {A = Status × List Entry}
          (st, entries root)
          (adjust (atoi a) (atoi b) (entries s.disk.root)))
unfolding call
call-sell close cmd connfd i s a b h p q ordered =
    let out = modify (atoi a) (atoi b) s.disk.root in
    (out.0, out.1, ground (arith, h, p, q), modify_refines (atoi a) (atoi b) s.disk.root ordered)

-- `buy` adds the negated second number.
pub call-buy :
    (close : ℤ → ℤ) (cmd : Command) (connfd : ℤ) (i : ℕ) (s : Server) (a b : Bytes)
    → cmd.frame.fp ≡ buy
    → cmd.arg1 ≡ some a
    → cmd.arg2 ≡ some b
    → IsOrdered s.disk.root
    → (st : Status) × (root : Stock) × (call close cmd connfd i s ≡ some (st, set_root root s, []))
      × (◌≡◌ {A = Status × List Entry}
          (st, entries root)
          (adjust (atoi a) (neg_int (atoi b)) (entries s.disk.root)))
unfolding call
call-buy close cmd connfd i s a b h p q ordered =
    let out = modify (atoi a) (neg_int (atoi b)) s.disk.root in
    (
      out.0,
      out.1,
      ground (arith, h, p, q),
      modify_refines (atoi a) (neg_int (atoi b)) s.disk.root ordered,
    )

-- `exit` reports success also if `close` failed and the client stays in the pool.
pub call-exit_client :
    (close : ℤ → ℤ) (cmd : Command) (connfd : ℤ) (i : ℕ) (s : Server)
    → cmd.frame.fp ≡ exit_client
    → ltb_ℤ (close connfd) (pos 0) ≡ true
    → call close cmd connfd i s ≡ some (success, s, [])
unfolding call remove_client
call-exit_client close cmd connfd i s h failed = ground arith

-- What the commands do to the tree keeps it ordered, and its counts at least 0.
abbrev pub KeepsStock : Server → Server → Type 0
KeepsStock s s' =
    IsOrdered s.disk.root → HasStock s.disk.root → IsOrdered s'.disk.root × HasStock s'.disk.root

-- The pool is left alone, or the client was removed from it.
abbrev pub PoolAfter : (ℤ → ℤ) → ℤ → ℕ → Server → Server → Type 0
PoolAfter close connfd i s s' =
    (s'.pool ≡ s.pool) ⊎ (s'.pool ≡ (remove_client close connfd i s.pool).1)

call_keeps :
    (h : Handler) (close : ℤ → ℤ) (cmd : Command) (connfd : ℤ) (i : ℕ) (s s' : Server) (st : Status)
    (out : Bytes)
    → cmd.frame.fp ≡ h
    → call close cmd connfd i s ≡ some (st, s', out)
    → KeepsStock s s' × PoolAfter close connfd i s s'
unfolding call
call_keeps show close cmd connfd i s s' st out h e =
    let same : s' ≡ s = ground arith in rw same (λ o k. (o, k), inl refl)
call_keeps sell close cmd connfd i s s' st out h e = elim (Option-cases (numbers cmd)) [
  | inl n ↦ absurd (ground arith)
  | inr ((a, b), n) ↦
      let same : s' ≡ set_root (modify a b s.disk.root).1 s = ground arith in
      rw same (λ o k. modify_keeps a b s.disk.root o k, inl refl)
]
call_keeps buy close cmd connfd i s s' st out h e = elim (Option-cases (numbers cmd)) [
  | inl n ↦ absurd (ground arith)
  | inr ((a, b), n) ↦
      let same : s' ≡ set_root (modify a (neg_int b) s.disk.root).1 s = ground arith in
      rw same (λ o k. modify_keeps a (neg_int b) s.disk.root o k, inl refl)
]
call_keeps exit_client close cmd connfd i s s' st out h e =
    let same : s' ≡ record s { pool = (remove_client close connfd i s.pool).1 } = ground arith in
    rw same (λ o k. (o, k), inr refl)

pub execute_keeps :
    (close : ℤ → ℤ) (cmd : Command) (connfd : ℤ) (i : ℕ) (s s' : Server)
    → execute close cmd connfd i s ≡ some s'
    → KeepsStock s s' × PoolAfter close connfd i s s'
unfolding execute
execute_keeps close cmd connfd i s s' e = elim (Option-cases (call close cmd connfd i s)) [
  | inl n ↦ absurd (ground arith)
  | inr ((st, t, out), n) ↦
      let kept = call_keeps cmd.frame.fp close cmd connfd i s t st out refl n in
      let disk : s'.disk ≡ t.disk = ground arith in
      let pool : s'.pool ≡ t.pool = ground arith in rw (disk, pool) kept
]
