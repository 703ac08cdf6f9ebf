-- ===== src/Tests/Stocks.antt =====
-- The tree of stocks and its file, on the first lines of stock.txt.
use system_software.Prelude.{ℕ, ◌≡◌, ◌≢◌, refl, List, [], ◌∷◌, none, some, arith, if◌then◌else◌}
use system_software.Prelude.Int.{pos, negsuc, eqb_ℤ, add_int}
use system_software.Server.Text.{Bytes, decimal, atoi}
use system_software.Server.Text.RoundTrip.{atoi-decimal}
use system_software.Server.Tree.{
  Stock, leaf, node, insert, find, modify, Status, success, error, not_enough, left, right,
}
use system_software.Server.Tree.Order.{IsOrdered, insert-IsOrdered}
use system_software.Server.Tree.Lookup.{lookup, lookup-insert}
use system_software.Server.Tree.Modify.{modify_refines}
use system_software.Server.Tree.Rebuild.{insert_all, insert_all-entries}
use system_software.Server.Ledger.{Entry, entries, adjust, or_else}
use system_software.Server.StockFile.{
  Timeval, Disk, Fields, print_to_buf, read_stockfile, fsync_stockfile, time_check,
}
use system_software.Server.StockFile.RoundTrip.{lines, read-fsync_stale, read_stockfile_total}
use system_software.Server.Parser.{codes}

-- 3, with 1 and 5 below it: `node id price count left right`.
abbrev pub three : Stock
three =
    node (pos 3) (pos 1200) (pos 109) (node (pos 1) (pos 1000) (pos 101) leaf leaf)
      (node (pos 5) (pos 3700) (pos 774) leaf leaf)

abbrev entry : ℕ → ℕ → ℕ → Entry
entry i c p = record { id = pos i; count = pos c; price = pos p }

abbrev text : Bytes
text = codes "3 109 1200\n1 101 1000\n5 774 3700\n"

abbrev pub start : Timeval
start = record { sec = 0; usec = 0 }

abbrev pub later : Timeval
later = record { sec = 7; usec = 30 }

abbrev pub fields : Fields
fields = record { id = []; count = []; price = [] }

abbrev pub stored : Bytes → Disk
stored file = record { root = three; file = some file; last_fsync_time = start }

three_printed : (print_to_buf three []).1 ≡ text
unfolding print_to_buf system_software.Server.StockFile.stock_line decimal
three_printed = refl

three_modified : (modify (pos 5) (negsuc 773) three).0 ≡ success
unfolding modify find system_software.Server.Tree.count_at add_int
three_modified = refl

three_short : (modify (pos 5) (negsuc 774) three).0 ≡ not_enough
unfolding modify find system_software.Server.Tree.count_at add_int
three_short = refl

atoi_text : (atoi (codes "  -12x") ≡ negsuc 11) × (atoi (codes "4294967297") ≡ pos 1)
unfolding atoi
atoi_text = (refl, refl)

-- Half a second is more than MAX_FSYNC_TIME for `time_check`.
time_check_mixes : time_check (record { sec = 0; usec = 500000 }) (stored text) ≡ pos 1
unfolding time_check
time_check_mixes = refl

pub three-IsOrdered : IsOrdered three
three-IsOrdered = omega arith

insert-IsOrdered_example : IsOrdered (insert three (pos 2) (pos 700) (pos 20000))
insert-IsOrdered_example = insert-IsOrdered three (pos 2) (pos 700) (pos 20000) three-IsOrdered

lookup-insert_example :
    lookup (pos 2) (insert three (pos 2) (pos 700) (pos 20000))
    ≡ or_else
        (lookup (pos 2) three)
        (if eqb_ℤ (pos 2) (pos 2) then some (entry 2 700 20000) else none)
lookup-insert_example = lookup-insert three (pos 2) (pos 700) (pos 20000) (pos 2)

modify_refines_example :
    ◌≡◌ {A = Status × List Entry}
      ((modify (pos 1) (negsuc 100) three).0, entries (modify (pos 1) (negsuc 100) three).1)
      (adjust (pos 1) (negsuc 100) (entries three))
modify_refines_example = modify_refines (pos 1) (negsuc 100) three three-IsOrdered

insert_all-entries_example : insert_all leaf (entries three) ≡ three
insert_all-entries_example = insert_all-entries three three-IsOrdered

atoi-decimal_example : atoi (decimal (negsuc 11) (codes " 7")) ≡ negsuc 11
atoi-decimal_example = atoi-decimal (negsuc 11) (codes " 7") (omega arith) refl

pub three_not_leaf : three ≢ leaf
three_not_leaf e = cc

-- A longer file: its last line stays behind the new text.
abbrev old_file : Bytes
old_file = codes "3 109 1200\n1 101 1000\n5 774 3700\n4 8 5\n"

read-fsync_stale_example :
    (d' : Disk) × (fsync_stockfile later (stored old_file) ≡ some d')
    × (read_stockfile later fields (record d' { root = leaf })
        ≡ some (record d' { root = insert_all three (entry 4 8 5 ∷ []); last_fsync_time = later }))
unfolding entries lines decimal system_software.Server.StockFile.stock_line
read-fsync_stale_example =
    read-fsync_stale (stored old_file) old_file (entry 4 8 5 ∷ []) later later fields refl
      three-IsOrdered three_not_leaf (omega arith) (omega arith) (omega arith) refl

read_stockfile_total_example :
    (t : Stock) × (read_stockfile later fields (stored (codes "1 2"))
      ≡ some (record (stored (codes "1 2")) { root = t; last_fsync_time = later }))
read_stockfile_total_example =
    read_stockfile_total later fields (stored (codes "1 2")) (codes "1 2") refl (omega arith)
