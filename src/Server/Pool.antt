-- ===== src/Server/Pool.antt =====
-- The pool of connections of concurrent_stockserver/event_driven/network.c: `init_pool`,
-- `add_client`, `remove_client` and `see_pool`.
pub mod Invariant
pub mod Slots
use system_software.Prelude.{
  ℕ, zero, suc, ◌+◌, List, [], ◌∷◌, Bool, true, false, Option, none, some, if◌then◌else◌, set, ◌&&◌,
  replicate,
}
use system_software.Prelude.Int.{ℤ, pos, negsuc, ltb_ℤ, leb_ℤ, eqb_ℤ, add_int}
use system_software.Server.Rio.{Rio, rio_readinitb}

-- FD_SETSIZE
abbrev pub fd_setsize : ℕ
fd_setsize = 1024

-- `fd_set`
abbrev pub FdSet : Type 0
FdSet = ℤ → Bool

abbrev pub fd_set : ℤ → FdSet → FdSet
fd_set fd s x = if eqb_ℤ x fd then true else s x

abbrev pub fd_clr : ℤ → FdSet → FdSet
fd_clr fd s x = if eqb_ℤ x fd then false else s x

pub record Pool : Type 0 where
  pub maxfd : ℤ
  pub read_set : FdSet
  pub ready_set : FdSet
  pub nready : ℤ
  pub n : ℤ
  pub maxi : ℤ
  pub clientfd : List ℤ

abbrev pub minus_one : ℤ
minus_one = negsuc 0

-- `ready_set` and `nready` are whatever the global held; each slot's `clientrio` is initialised
-- when the slot is filled, and only copied after that.
unfoldable pub init_pool : ℤ → Pool
init_pool listenfd = record {
  maxfd = listenfd;
  read_set = fd_set listenfd (λ x. false);
  ready_set = λ x. false;
  nready = pos 0;
  n = pos 0;
  maxi = minus_one;
  clientfd = replicate fd_setsize minus_one;
}

-- The first slot with a negative descriptor, counted from `i`.
unfoldable pub free_slot : List ℤ → ℕ → Option ℕ
free_slot [] i = none
free_slot (fd ∷ fds) i =
    let later = free_slot fds (suc i) in if ltb_ℤ fd (pos 0) then some i else later

-- The descriptors for which FD_SET is defined.
abbrev pub in_set : ℤ → Bool
in_set fd = leb_ℤ (pos 0) fd && ltb_ℤ fd (pos fd_setsize)

-- `none` is the exit with "Too many client", or FD_SET with a descriptor that is outside of the set, as
-- the -1 of an `accept` that failed, which nothing tests for.
unfoldable pub add_client : ℤ → Pool → Option Pool
add_client connfd p = elim (free_slot p.clientfd 0) [
  | none ↦ none
  | some i ↦
      if in_set connfd
      then some (record p {
        nready = add_int p.nready minus_one;
        clientfd = set p.clientfd i connfd;
        read_set = fd_set connfd p.read_set;
        maxfd = if ltb_ℤ p.maxfd connfd then connfd else p.maxfd;
        maxi = if ltb_ℤ p.maxi (pos i) then pos i else p.maxi;
        n = add_int p.n (pos 1);
      })
      else none
]

-- `close` answers with its status. The result is 1, or -1 if `close` failed.
unfoldable pub remove_client : (ℤ → ℤ) → ℤ → ℕ → Pool → ℤ × Pool
remove_client close connfd idx p = if ltb_ℤ (close connfd) (pos 0) then (minus_one, p) else (
  pos 1,
  record p {
    read_set = fd_clr connfd p.read_set;
    clientfd = set p.clientfd idx minus_one;
    n = add_int p.n minus_one;
  },
)

-- What `select` leaves in `ready_set`, what it returns, and what `accept` returns if it is called.
pub record Poll : Type 0 where
  pub ready : FdSet
  pub count : ℤ
  pub accepted : ℤ

unfoldable pub see_pool : ℤ → Poll → Pool → Option Pool
see_pool listenfd poll p =
    let polled = record p { ready_set = poll.ready; nready = poll.count } in
    if poll.ready listenfd then add_client poll.accepted polled else some polled
