-- ===== src/Server/StockFile.antt =====
-- concurrent_stockserver/event_driven/stockfile_handle.c, with `print_to_buf` of binary_tree.c: the
-- stocks on disk. Writing past a buffer of MAXLINE bytes is undefined in C, and `none` here.
pub mod Scan
pub mod RoundTrip
use system_software.Prelude.{
  ℕ, zero, suc, ◌+◌, List, [], ◌∷◌, ◌++◌, Bool, true, false, Option, none, some, ltb, leb,
  if◌then◌else◌, length, drop,
}
use system_software.Prelude.Int.{ℤ, pos, negsuc}
use system_software.Server.Text.{Bytes, decimal, atoi, skip_space, word}
use system_software.Server.Tree.{Stock, leaf, node, insert, Status, success, error}

abbrev pub maxline : ℕ
maxline = 8192

-- `sprintf(cat_buf, "%d %d %d\n", ...)`
unfoldable pub stock_line : ℤ → ℤ → ℤ → Bytes
stock_line id count price = decimal id (b' ' ∷ decimal count (b' ' ∷ decimal price (b'\n' ∷ [])))

-- The status, and the buffer with what was appended.
unfoldable pub print_to_buf : Stock → Bytes → Status × Bytes
print_to_buf leaf buf = (error, buf)
print_to_buf (node i p c l r) buf =
    let printed = print_to_buf l (buf ++ stock_line i c p) in
    (success, (print_to_buf r printed.1).1)

pub record Timeval : Type 0 where
  pub sec : ℕ
  pub usec : ℕ

-- The globals that the two functions share, and the file at STOCK_FILE_PATH.
pub record Disk : Type 0 where
  pub root : Stock
  pub file : Option Bytes
  pub last_fsync_time : Timeval

-- The local buffers of `read_stockfile`; they keep their value when `fscanf` stops early.
pub record Fields : Type 0 where
  pub id : Bytes
  pub count : Bytes
  pub price : Bytes

-- One %s: the word in front, if it is not the end of the file and fits the buffer.
unfoldable pub scan_word : Bytes → Option (Option Bytes × Bytes)
unfolding skip_space word
scan_word text =
    let (w, rest) = word (skip_space text) in
    if leb (length w) 0
    then some (none, rest)
    else if ltb (length w) maxline
    then some (some w, rest)
    else none

-- `fscanf(fp, "%s %s %s\n", id, count, price)`: the buffers after it, and the rest of the file.
unfoldable pub scan_line : Fields → Bytes → Option (Fields × Bytes)
scan_line f text = elim (scan_word text) [
  | none ↦ none
  | some (none, r) ↦ some (f, r)
  | some (some a, r) ↦ elim (scan_word r) [
    | none ↦ none
    | some (none, r) ↦ some (record f { id = a }, r)
    | some (some b, r) ↦ elim (scan_word r) [
      | none ↦ none
      | some (none, r) ↦ some (record { id = a; count = b; price = f.price }, r)
      | some (some c, r) ↦ some (record { id = a; count = b; price = c }, skip_space r)
    ]
  ]
]

unfoldable pub is_empty : Bytes → Bool
is_empty [] = true
is_empty (c ∷ cs) = false

-- The loop `while (!feof(fp))`. The end of the file is noticed when nothing is left after a read.
unfoldable pub read_lines : ℕ → Fields → Bytes → Stock → Option Stock
unfolding is_empty
read_lines zero f text root = none
read_lines (suc fuel) f text root = elim (scan_line f text) [
  | none ↦ none
  | some (g, rest) ↦
      let grown = insert root (atoi g.id) (atoi g.count) (atoi g.price) in
      let more = read_lines fuel g rest grown in if is_empty rest then some grown else more
]

-- `none` is the exit for want of a file, or a word that does not fit.
unfoldable pub read_stockfile : Timeval → Fields → Disk → Option Disk
read_stockfile now f d = elim d.file [
  | none ↦ none
  | some text ↦ elim (read_lines (suc (length text)) f text d.root) [
    | none ↦ none
    | some root ↦ some (record d { root = root; last_fsync_time = now })
  ]
]

-- `write` at the start of a file that is opened without O_TRUNC.
unfoldable pub overwrite : Bytes → Bytes → Bytes
overwrite old text = text ++ drop (length text) old

-- Without O_CREAT a missing file stays missing.
unfoldable pub fsync_stockfile : Timeval → Disk → Option Disk
unfolding overwrite
fsync_stockfile now d =
    let text = (print_to_buf d.root []).1 in
    if ltb (length text) maxline
    then some (record d {
      file = elim d.file [ none ↦ none | some old ↦ some (overwrite old text) ];
      last_fsync_time = now;
    })
    else none

-- `diff` adds seconds and microseconds as they are; 1 if more than MAX_FSYNC_TIME, else -1.
unfoldable pub time_check : Timeval → Disk → ℤ
time_check cur d =
    if ltb (d.last_fsync_time.sec + d.last_fsync_time.usec + 16) (cur.sec + cur.usec)
    then pos 1
    else negsuc 0
