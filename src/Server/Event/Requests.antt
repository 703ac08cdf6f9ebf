-- ===== src/Server/Event/Requests.antt =====
-- A request from its bytes to the reply: the line, the parser, the command, and the tree.
use Prim.{tt}
use system_software.Prelude.{
  ℕ, suc, ◌<◌, ◌≤◌, ◌≡◌, ◌≢◌, refl, ap, ◌∙◌, List, [], ◌∷◌, ◌++◌, Option, none, some, length, drop,
  arith, append_assoc, length-append, append-nil, subst,
}
use system_software.Prelude.Int.{ℤ, IsInt}
use system_software.Server.Text.{Bytes, decimal, atoi}
use system_software.Server.Text.RoundTrip.{NoSpace, decimal-NoSpace, decimal-head, atoi-decimal}
use system_software.Server.Tree.{Stock, Status, success, error, no_cmd, inv_arg, not_enough, nl}
use system_software.Server.Tree.Order.{IsOrdered}
use system_software.Server.Ledger.{Entry, entries, adjust}
use system_software.Server.StockFile.{maxline}
use system_software.Server.StockFile.Scan.{length-decimal}
use system_software.Server.Parser.{
  Frame, Command, Handler, sell, codes, parser, pick, strncmp_eq, command_list, int_int, ends_name,
}
use system_software.Server.Parser.Words.{Passes}
use system_software.Server.Parser.Lines.{IsWord, parser-two_words}
use system_software.Server.Rio.{ReadEvent, got}
use system_software.Server.Rio.Line.{OneLine, rio_readlineb-got}
use system_software.Server.Event.{
  Server, escape, heading, line_buffer, set_inbox, set_root, call, execute, respond, serve,
}
use system_software.Server.Event.Handlers.{call-sell}
use system_software.Server.Event.Rounds.{serve-line}

NoSpace-Passes : (w : Bytes) → NoSpace w → Passes ends_name w
NoSpace-Passes [] h = tt
NoSpace-Passes (c ∷ cs) h = (ground (arith, h.0), NoSpace-Passes cs h.1)

decimal-IsWord : (z : ℤ) → IsWord (decimal z [])
decimal-IsWord z =
    let (c, cs, shown, q) = decimal-head z [] in
    ((λ e. absurd (ground (arith, shown, e))), NoSpace-Passes (decimal z []) (decimal-NoSpace z))

NoSpace-OneLine : (w rest : Bytes) → NoSpace w → OneLine rest → OneLine (w ++ rest)
NoSpace-OneLine [] rest h o = o
NoSpace-OneLine (c ∷ cs) rest h o = (ground (arith, h.0), NoSpace-OneLine cs rest h.1 o)

-- "FIRST SECOND" behind a word and a blank.
abbrev pub numbers_of : ℤ → ℤ → Bytes
numbers_of id n = decimal id [] ++ b' ' ∷ decimal n []

numbers_of-OneLine : (id n : ℤ) → OneLine (numbers_of id n)
numbers_of-OneLine id n =
    NoSpace-OneLine (decimal id []) (b' ' ∷ decimal n []) (decimal-NoSpace id) (
      refl,
      subst OneLine (append-nil (decimal n []))
          (NoSpace-OneLine (decimal n []) [] (decimal-NoSpace n) tt),
    )

length-numbers_of : (id n : ℤ) → IsInt id → IsInt n → length (numbers_of id n) ≤ 23
length-numbers_of id n h k = omega (
  arith,
  length-append (decimal id []) (b' ' ∷ decimal n []),
  length-decimal id h,
  length-decimal n k,
)

abbrev pub command_of : Frame → ℤ → ℤ → Command
command_of f id n = record {
  frame = f;
  argc = 3;
  arg1 = some (decimal id []);
  arg2 = some (decimal n []);
}

-- "sell" and "buy".
abbrev pub trading : Bytes → Handler → Frame
trading w h = record { flag = int_int; name = w; fp = h }

-- A command word of the table with two numbers behind it.
module _ (close : ℤ → ℤ) (c : ℕ) (cs : Bytes) (h : Handler) (is_word : IsWord (c ∷ cs))
    (picked : pick command_list (c ∷ cs) none ≡ some (trading (c ∷ cs) h))
    (short : length (c ∷ cs) ≤ 10) where
  abbrev line : ℤ → ℤ → Bytes
  line id n = (c ∷ cs) ++ b' ' ∷ numbers_of id n

  line-OneLine : (id n : ℤ) → Passes ends_name (c ∷ cs) → OneLine (line id n)
  line-OneLine id n p = passed (c ∷ cs) p
    where
      passed : (w : Bytes) → Passes ends_name w → OneLine (w ++ b' ' ∷ numbers_of id n)
      passed [] p = (refl, numbers_of-OneLine id n)
      passed (x ∷ w) p = (ground (arith, p.0), passed w p.1)

  respond-line :
      (id n : ℤ) (old : Bytes) (fd : ℤ) (i : ℕ) (s : Server)
      → respond close
          (line_buffer (line id n ++ b'\n' ∷ []) old)
          (length (line id n ++ b'\n' ∷ []))
          fd
          i
          s
        ≡ execute close (command_of (trading (c ∷ cs) h) id n) fd i s
  unfolding respond
  respond-line id n old fd i s =
      let junk = 0 ∷ drop (suc (length (line id n ++ b'\n' ∷ []))) old in
      let rc = length (line id n ++ b'\n' ∷ []) in
      let longer : rc ≢ 1 = λ e. omega (
        arith,
        e,
        length-append (line id n) (b'\n' ∷ []),
        length-append (c ∷ cs) (b' ' ∷ numbers_of id n),
      ) in
      let shape : line_buffer (line id n ++ b'\n' ∷ []) old
          ≡ (c ∷ cs) ++ b' ' ∷ (decimal id [] ++ b' ' ∷ (decimal n [] ++ b'\n' ∷ junk)) =
        append_assoc (line id n) (b'\n' ∷ []) junk
        ∙ append_assoc (c ∷ cs) (b' ' ∷ numbers_of id n) (b'\n' ∷ junk)
        ∙ ap (λ t. (c ∷ cs) ++ b' ' ∷ t)
            (append_assoc (decimal id []) (b' ' ∷ decimal n []) (b'\n' ∷ junk)) in
      let parsed : parser (line_buffer (line id n ++ b'\n' ∷ []) old) rc
          ≡ some (success, some (command_of (trading (c ∷ cs) h) id n)) =
        ap (λ t. parser t rc) shape
        ∙ parser-two_words (c ∷ cs) b' ' [] (decimal id []) b' ' [] (decimal n []) [] junk rc
            (trading (c ∷ cs) h) longer is_word picked refl (refl, tt) (decimal-IsWord id)
            (refl, tt) (decimal-IsWord n) tt in
      let react : Option (Status × Option Command) → Option Server = λ r. elim r [
        | none ↦ none
        | some (no_cmd, cmd) ↦ none
        | some (inv_arg, cmd) ↦ none
        | some (nl, cmd) ↦ none
        | some (st, none) ↦ none
        | some (st, some cmd) ↦ execute close cmd fd i s
      ] in
      ap react parsed

  serve-respond :
      (id n : ℤ) (old : Bytes) (fd : ℤ) (i : ℕ) (s : Server) (more : Bytes) (env : List ReadEvent)
      → IsInt id
      → IsInt n
      → serve close old fd i (set_inbox (got (line id n ++ b'\n' ∷ more) ∷ env) fd s)
        ≡ execute close (command_of (trading (c ∷ cs) h) id n) fd i (set_inbox env fd s)
  serve-respond id n old fd i s more env hi hn =
      let few : length (line id n) < 8191 = omega (
        arith,
        short,
        length-append (c ∷ cs) (b' ' ∷ numbers_of id n),
        length-numbers_of id n hi hn,
      ) in
      serve-line close old fd i s _ env _ c (cs ++ b' ' ∷ numbers_of id n ++ b'\n' ∷ [])
        (rio_readlineb-got 8191 fd (line id n) more env (line-OneLine id n is_word.1) few)
      ∙ respond-line id n old fd i (set_inbox env fd s)

  execute-adjusted :
      (cmd : Command) (fd : ℤ) (i : ℕ) (s t : Server) (st : Status)
      → call close cmd fd i s ≡ some (st, t, [])
      → length (heading cmd st ++ []) < maxline
      → execute close cmd fd i s ≡ some (record t { sent = (fd, heading cmd st ++ []) ∷ t.sent })
  unfolding execute
  execute-adjusted cmd fd i s t st called fits = ground (arith, called, fits)

heading_fits :
    (w : Bytes) (h : Handler) (id n : ℤ) (st : Status)
    → length w ≤ 10
    → length (heading (command_of (trading w h) id n) st ++ []) < maxline
unfolding heading
heading_fits w h id n success short =
    let tail = codes "]" ++ escape (codes "[0;32msuccess\n" ++ escape (codes "[0m")) in
    omega (arith, short, length-append w tail, length-append (w ++ tail) [])
heading_fits w h id n error short =
    let tail = codes "] failed\n" in
    omega (arith, short, length-append w tail, length-append (w ++ tail) [])
heading_fits w h id n not_enough short = omega arith
heading_fits w h id n _ short = omega (arith, short, length-append w [])

abbrev pub sell_line : ℤ → ℤ → Bytes
sell_line id n = codes "sell " ++ numbers_of id n

abbrev pub selling : Frame
selling = trading (codes "sell") sell

adjust-decimal :
    (id n : ℤ) (es : List Entry)
    → IsInt id
    → IsInt n
    → ◌≡◌ {A = Status × List Entry}
        (adjust (atoi (decimal id [])) (atoi (decimal n [])) es)
        (adjust id n es)
adjust-decimal id n es hi hn =
    ap (λ a. adjust a (atoi (decimal n [])) es) (atoi-decimal id [] hi tt)
    ∙ ap (λ b. adjust id b es) (atoi-decimal n [] hn tt)

-- A turn for a client from which one `read` brings "sell ID N", with ID and N in the range of an int, on
-- an ordered tree: the tree stands for the entries adjusted by N at ID, the reply is the one for the
-- outcome of that, and nothing else of the server changes; what came behind the line is gone.
pub serve-sell :
    (close : ℤ → ℤ) (id n : ℤ) (old : Bytes) (fd : ℤ) (i : ℕ) (s : Server) (more : Bytes)
    (env : List ReadEvent)
    → IsInt id
    → IsInt n
    → IsOrdered s.disk.root
    → (root : Stock) × (serve close old fd i
          (set_inbox (got (sell_line id n ++ b'\n' ∷ more) ∷ env) fd s)
        ≡ some (record (set_root root (set_inbox env fd s)) {
          sent =
              (fd, heading (command_of selling id n) (adjust id n (entries s.disk.root)).0)
              ∷ s.sent;
        }))
      × (entries root ≡ (adjust id n (entries s.disk.root)).1)
unfolding pick strncmp_eq
serve-sell close id n old fd i s more env hi hn ordered =
    let t = set_inbox env fd s in
    let cmd = command_of selling id n in
    let (st, root, called, refined) =
      call-sell close cmd fd i t (decimal id []) (decimal n []) refl refl refl ordered in
    let outcome = refined ∙ adjust-decimal id n (entries s.disk.root) hi hn in
    let text : heading cmd st ++ [] ≡ heading cmd (adjust id n (entries s.disk.root)).0 =
      append-nil (heading cmd st) ∙ ap (λ p. heading cmd p.0) outcome in
    (
      root,
      serve-respond close b's' (codes "ell") sell (λ e. cc, ground arith) refl (omega arith) id n
            old fd i s more env hi hn
          ∙ execute-adjusted close b's' (codes "ell") sell (λ e. cc, ground arith) refl
              (omega arith) cmd fd i t (set_root root t) st called
              (heading_fits (codes "sell") sell id n st (omega arith))
          ∙ ap (λ r. some (record (set_root root t) { sent = (fd, r) ∷ s.sent })) text,
      ap (λ p. p.1) outcome,
    )
