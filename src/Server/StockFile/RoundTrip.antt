-- ===== src/Server/StockFile/RoundTrip.antt =====
-- Reading the stock file back: after `fsync_stockfile`, and over a longer file.
use system_software.Prelude.{
  ℕ, zero, suc, ◌<◌, ◌≤◌, ◌≡◌, ◌≢◌, ◌∙◌, refl, sym, ap, List, [], ◌∷◌, ◌++◌, false, some,
  if◌then◌else◌, length, drop, arith, length-append, append_assoc, append-nil, Bool-cases, inl, inr,
}
use system_software.Prelude.Int.{ℤ, IsInt}
use system_software.Server.Text.{Bytes, decimal, atoi, skip_space}
use system_software.Server.Text.RoundTrip.{atoi-decimal, decimal-head, skip_space-decimal}
use system_software.Server.Tree.{Stock, leaf, node, insert}
use system_software.Server.Tree.Order.{IsOrdered}
use system_software.Server.Tree.Rebuild.{insert_all, insert_all-append, insert_all-entries}
use system_software.Server.Ledger.{Entry, entries}
use system_software.Server.StockFile.{
  Timeval, Disk, Fields, maxline, stock_line, print_to_buf, is_empty, read_lines, read_stockfile,
  fsync_stockfile,
}
use system_software.Server.StockFile.Scan.{scan_line-stock_line, scan_line_total, stock_line-append}

-- The lines of a list of entries.
unfoldable pub lines : List Entry → Bytes
lines [] = []
lines (e ∷ es) = stock_line e.id e.count e.price ++ lines es

lines-append : (xs ys : List Entry) → lines (xs ++ ys) ≡ lines xs ++ lines ys
unfolding lines
lines-append [] ys = refl
lines-append (x ∷ xs) ys =
    ap (λ t. stock_line x.id x.count x.price ++ t) (lines-append xs ys)
    ∙ sym (append_assoc (stock_line x.id x.count x.price) (lines xs) (lines ys))

-- Every number of the entries is an `int`.
abbrev pub InRange : List Entry → Type 0
InRange [] = Unit {0}
InRange (e ∷ es) = (IsInt e.id × IsInt e.count × IsInt e.price) × InRange es

InRange-append : (xs ys : List Entry) → InRange xs → InRange ys → InRange (xs ++ ys)
InRange-append [] ys a b = b
InRange-append (x ∷ xs) ys a b = (a.0, InRange-append xs ys a.1 b)

-- `print_to_buf` appends a line for each stock, in preorder.
pub print_to_buf_lem : (t : Stock) (buf : Bytes) → (print_to_buf t buf).1 ≡ buf ++ lines (entries t)
unfolding print_to_buf lines entries
print_to_buf_lem leaf buf = sym (append-nil buf)
print_to_buf_lem (node i p c l r) buf =
    let here = stock_line i c p in
    rw
      (
        print_to_buf_lem l (buf ++ here),
        print_to_buf_lem r ((buf ++ here) ++ lines (entries l)),
        lines-append (entries l) (entries r),
      )
      (simp append_assoc)

skip_space-stock_line :
    (i c p : ℤ) (rest : Bytes) → skip_space (stock_line i c p ++ rest) ≡ stock_line i c p ++ rest
skip_space-stock_line i c p rest =
    rw (stock_line-append i c p rest)
      (skip_space-decimal i (b' ' ∷ decimal c (b' ' ∷ decimal p (b'\n' ∷ rest))))

skip_space-lines : (es : List Entry) → skip_space (lines es) ≡ lines es
unfolding lines
skip_space-lines [] = unfold skip_space in refl
skip_space-lines (e ∷ es) = skip_space-stock_line e.id e.count e.price (lines es)

is_empty-stock_line : (i c p : ℤ) (rest : Bytes) → is_empty (stock_line i c p ++ rest) ≡ false
unfolding is_empty
is_empty-stock_line i c p rest =
    let tail = b' ' ∷ decimal c (b' ' ∷ decimal p (b'\n' ∷ rest)) in
    let (d, ds, shown, q) = decimal-head i tail in rw (stock_line-append i c p rest, shown) refl

length-stock_line_pos : (i c p : ℤ) → 0 < length (stock_line i c p)
unfolding stock_line
length-stock_line_pos i c p =
    let (d, ds, shown, q) = decimal-head i (b' ' ∷ decimal c (b' ' ∷ decimal p (b'\n' ∷ []))) in
    rw shown (omega arith)

-- One round of the loop: a line is read, and the rest is read into the grown tree.
read_lines-cons :
    (fuel : ℕ) (f : Fields) (e : Entry) (es : List Entry) (root : Stock)
    → IsInt e.id × IsInt e.count × IsInt e.price
    → let g : Fields = record {
      id = decimal e.id [];
      count = decimal e.count [];
      price = decimal e.price [];
    } in
      let grown = insert root e.id e.count e.price in
      read_lines (suc fuel) f (lines (e ∷ es)) root
      ≡ (if is_empty (lines es) then some grown else read_lines fuel g (lines es) grown)
unfolding read_lines lines
read_lines-cons fuel f e es root h = ground (
  arith,
  scan_line-stock_line f e.id e.count e.price (lines es) h,
  skip_space-lines es,
  atoi-decimal e.id [] h.0 tt,
  atoi-decimal e.count [] h.1 tt,
  atoi-decimal e.price [] h.2 tt,
)

-- The printed lines of some entries are read as those entries.
pub read_lines-lines :
    (fuel : ℕ) (f : Fields) (e : Entry) (es : List Entry) (root : Stock)
    → InRange (e ∷ es)
    → length es < fuel
    → read_lines fuel f (lines (e ∷ es)) root ≡ some (insert_all root (e ∷ es))
read_lines-lines zero f e es root h l = absurd (omega arith)
read_lines-lines (suc fuel) f e [] root h l =
    rw (read_lines-cons fuel f e [] root h.0) (unfold insert_all lines is_empty in refl)
read_lines-lines (suc fuel) f e (x ∷ es) root h l =
    let g : Fields = record {
      id = decimal e.id [];
      count = decimal e.count [];
      price = decimal e.price [];
    } in
    let more = read_lines-lines fuel g x es (insert root e.id e.count e.price) h.1 (omega arith) in
    let left : is_empty (lines (x ∷ es)) ≡ false =
      unfold lines in is_empty-stock_line x.id x.count x.price (lines es) in
    rw (read_lines-cons fuel f e (x ∷ es) root h.0, left, more) (unfold insert_all in refl)

length-lines : (es : List Entry) → length es ≤ length (lines es)
unfolding lines
length-lines [] = omega arith
length-lines (e ∷ es) = omega (
  arith,
  length-lines es,
  length-append (stock_line e.id e.count e.price) (lines es),
  length-stock_line_pos e.id e.count e.price,
)

lines-nonempty : (t : Stock) → t ≢ leaf → (e : Entry) × (es : List Entry) × (entries t ≡ e ∷ es)
unfolding entries
lines-nonempty leaf h = absurd (h refl)
lines-nonempty (node i p c l r) h =
    (record { id = i; count = c; price = p }, entries l ++ entries r, refl)

-- The lines of an ordered tree, with other lines behind them.
read_lines-tree :
    (f : Fields) (t : Stock) (extra : List Entry)
    → IsOrdered t
    → t ≢ leaf
    → InRange (entries t)
    → InRange extra
    → read_lines
        (suc (length (lines (entries t) ++ lines extra)))
        f
        (lines (entries t) ++ lines extra)
        leaf
      ≡ some (insert_all t extra)
read_lines-tree f t extra s ne h k =
    let (e, es, shown) = lines-nonempty t ne in
    let all = es ++ extra in
    let whole : entries t ++ extra ≡ e ∷ all = rw shown refl in
    let inside : InRange (e ∷ all) = rw whole at (InRange-append (entries t) extra h k) in
    let size : length all < suc (length (lines (e ∷ all))) =
      omega (arith, length-lines (e ∷ all)) in
    let built : insert_all leaf (e ∷ all) ≡ insert_all t extra =
      rw (← whole, insert_all-append leaf (entries t) extra, insert_all-entries t s) refl in
    rw (← lines-append (entries t) extra, whole, read_lines-lines _ f e all leaf inside size, built)
      refl

-- After `fsync_stockfile` over a file whose remainder is some lines, a server that starts from the
-- file has the tree with those lines' stocks inserted once more: the file is not cut off.
pub read-fsync_stale :
    (d : Disk) (old : Bytes) (extra : List Entry) (now later : Timeval) (f : Fields)
    → d.file ≡ some old
    → IsOrdered d.root
    → d.root ≢ leaf
    → InRange (entries d.root)
    → InRange extra
    → length (lines (entries d.root)) < maxline
    → drop (length (lines (entries d.root))) old ≡ lines extra
    → (d' : Disk) × (fsync_stockfile now d ≡ some d')
      × (read_stockfile later f (record d' { root = leaf })
          ≡ some (record d' { root = insert_all d.root extra; last_fsync_time = later }))
unfolding fsync_stockfile read_stockfile
read-fsync_stale d old extra now later f file s ne h k small rest =
    let text = lines (entries d.root) in
    let d' : Disk = record d { file = some (text ++ lines extra); last_fsync_time = now } in
    (
      d',
      ground (arith, print_to_buf_lem d.root [], rest),
      ground (arith, read_lines-tree f d.root extra s ne h k),
    )

drop_all {ℓ} : {A : Type ℓ} (n : ℕ) (xs : List A) → length xs ≤ n → drop n xs ≡ []
drop_all zero [] h = refl
drop_all zero (x ∷ xs) h = absurd (omega arith)
drop_all (suc n) [] h = refl
drop_all (suc n) (x ∷ xs) h = drop_all n xs (omega arith)

-- If the old file is no longer than the new text, a server that starts from the file that
-- `fsync_stockfile` wrote has the same tree.
pub read-fsync :
    (d : Disk) (old : Bytes) (now later : Timeval) (f : Fields)
    → d.file ≡ some old
    → IsOrdered d.root
    → d.root ≢ leaf
    → InRange (entries d.root)
    → length (lines (entries d.root)) < maxline
    → length old ≤ length (lines (entries d.root))
    → (d' : Disk) × (fsync_stockfile now d ≡ some d')
      × (read_stockfile later f (record d' { root = leaf })
          ≡ some (record d' { root = d.root; last_fsync_time = later }))
read-fsync d old now later f file s ne h small short =
    let none_left : drop (length (lines (entries d.root))) old ≡ lines [] =
      unfold lines in drop_all (length (lines (entries d.root))) old short in
    let (d', w, r) = read-fsync_stale d old [] now later f file s ne h tt small none_left in
    (d', w, unfold insert_all in r)

-- The fuel of the loop is enough: a file that fits the buffers is read to its end.
read_lines_total :
    (fuel : ℕ) (f : Fields) (text : Bytes) (root : Stock)
    → length text < fuel
    → length text < maxline
    → (t : Stock) × (read_lines fuel f text root ≡ some t)
unfolding read_lines
read_lines_total zero f text root h small = absurd (omega arith)
read_lines_total (suc fuel) f text root h small =
    let (g, rest, e, d) = scan_line_total f text small in
    let grown = insert root (atoi g.id) (atoi g.count) (atoi g.price) in
    elim (Bool-cases (is_empty rest)) [
      | inl done ↦ (grown, ground (arith, e, done))
      | inr more ↦
          let shorter : length rest < length text = ground (arith, d) in
          let (t, k) =
            read_lines_total fuel g rest grown (omega (arith, shorter)) (omega (arith, shorter)) in
          (t, ground (arith, e, more, k))
    ]

-- `read_stockfile` ends with a tree for every file that is shorter than MAXLINE, whatever it holds.
pub read_stockfile_total :
    (now : Timeval) (f : Fields) (d : Disk) (text : Bytes)
    → d.file ≡ some text
    → length text < maxline
    → (t : Stock) × (read_stockfile now f d ≡ some (record d { root = t; last_fsync_time = now }))
unfolding read_stockfile
read_stockfile_total now f d text file small =
    let (t, k) = read_lines_total (suc (length text)) f text d.root (omega arith) small in
    (t, ground (arith, k))
