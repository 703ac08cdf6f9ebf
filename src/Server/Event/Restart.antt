-- ===== src/Server/Event/Restart.antt =====
-- The start of the server: `main` of stockserver.c up to its loop, when the socket could be opened.
use system_software.Prelude.{
  ◌≡◌, ◌≢◌, ◌<◌, ◌≤◌, refl, ap, ◌∙◌, List, [], Option, none, some, length,
}
use system_software.Prelude.Int.{ℤ}
use system_software.Server.Text.{Bytes}
use system_software.Server.Tree.{leaf}
use system_software.Server.Ledger.{entries}
use system_software.Server.StockFile.{
  maxline, Disk, Fields, Timeval, fsync_stockfile, read_stockfile,
}
use system_software.Server.StockFile.RoundTrip.{InRange, lines, read-fsync}
use system_software.Server.Rio.{ReadEvent}
use system_software.Server.Pool.{init_pool}
use system_software.Server.Pool.Invariant.{init_pool-IsValid}
use system_software.Server.Event.{Server}
use system_software.Server.Event.Rounds.{IsGood}

-- The globals are 0 at first; `f` is what the buffers of `read_stockfile` hold.
abbrev pub before_start : Option Bytes → Disk
before_start file = record {
  root = leaf;
  file = file;
  last_fsync_time = record { sec = 0; usec = 0 };
}

unfoldable pub start_server :
    Timeval → Fields → ℤ → (ℤ → List ReadEvent) → Option Bytes → Option Server
start_server now f listenfd inbox file = elim (read_stockfile now f (before_start file)) [
  | none ↦ none
  | some disk ↦ some (record { disk = disk; pool = init_pool listenfd; inbox = inbox; sent = [] })
]

-- The last time of the other run does not matter.
read_stockfile-time :
    (now t : Timeval) (f : Fields) (d : Disk)
    → read_stockfile now f (record d { last_fsync_time = t }) ≡ read_stockfile now f d
unfolding read_stockfile
read_stockfile-time now t f d = refl

-- A server in a good state that stores its stocks, which are not none and in the range of an int, over a
-- file that is no longer than the new text and in less than MAXLINE bytes; one that is started on the file
-- that this leaves is in a good state, has the same stocks, and no client.
pub restart-IsGood :
    (s : Server) (old : Bytes) (now later : Timeval) (f : Fields) (listenfd : ℤ)
    (inbox : ℤ → List ReadEvent)
    → IsGood s
    → s.disk.file ≡ some old
    → s.disk.root ≢ leaf
    → InRange (entries s.disk.root)
    → length (lines (entries s.disk.root)) < maxline
    → length old ≤ length (lines (entries s.disk.root))
    → (disk : Disk) × (s' : Server) × (fsync_stockfile now s.disk ≡ some disk)
      × (start_server later f listenfd inbox disk.file ≡ some s')
      × IsGood s'
      × (s'.disk.root ≡ s.disk.root)
      × (s'.pool ≡ init_pool listenfd)
unfolding start_server
restart-IsGood s old now later f listenfd inbox g file some_stock range small short =
    let (disk, stored, read) =
      read-fsync s.disk old now later f file g.ordered some_stock range small short in
    let started : Server = record {
      disk = record disk { root = s.disk.root; last_fsync_time = later };
      pool = init_pool listenfd;
      inbox = inbox;
      sent = [];
    } in
    let again =
      read_stockfile-time later (record { sec = 0; usec = 0 }) f (record disk { root = leaf })
      ∙ read in
    (
      disk,
      started,
      stored,
      ap
          (λ r. elim r [
            | none ↦ none
            | some d ↦
                some (record { disk = d; pool = init_pool listenfd; inbox = inbox; sent = [] })
          ])
          again,
      record { ordered = g.ordered; in_stock = g.in_stock; pool = init_pool-IsValid listenfd },
      refl,
      refl,
    )
