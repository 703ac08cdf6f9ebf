-- ===== src/Server/Parser/Lines.antt =====
-- Which lines the parser accepts, and as which command.
use system_software.Prelude.{
  ℕ, [], ◌∷◌, ◌++◌, true, false, not, none, some, ◌==◌, if◌then◌else◌, ◌≡◌, ◌≢◌, refl, arith,
}
use system_software.Server.Text.{Bytes}
use system_software.Server.Tree.{Status, success, error, inv_arg}
use system_software.Server.Parser.{
  Frame, Command, command_list, scan_until, strncmp_eq, pick, whitespace, ends_name, skip_blanks,
  exit_client, codes, no_args, int_int, find_cmd, find_args, at_enter, parser,
}
use system_software.Server.Parser.Words.{Passes, scan_until-append, scan_until-none}

-- Only blanks and tabs.
abbrev pub IsBlank : Bytes → Type 0
IsBlank = Passes (λ c. not (whitespace c))

abbrev pub NoBlank : Bytes → Type 0
NoBlank = Passes whitespace

-- A word without blanks and newlines.
abbrev pub IsWord : Bytes → Type 0
IsWord w = (w ≢ []) × Passes ends_name w

-- What the last table entry that a word is a prefix of makes of the command.
abbrev pub started : Frame → Command
started f = record { frame = f; argc = 1; arg1 = none; arg2 = none }

find_cmd-word :
    (w : Bytes) (c : ℕ) (rest : Bytes)
    → IsWord w
    → ends_name c ≡ true
    → find_cmd (w ++ c ∷ rest) ≡ elim (pick command_list w none) [
      | none ↦ some none
      | some f ↦ some (some (started f, c ∷ rest))
    ]
unfolding find_cmd
find_cmd-word [] c rest h e = absurd (h.0 refl)
find_cmd-word (x ∷ w) c rest h e =
    let found = scan_until-append ends_name (x ∷ w) c rest h.1 e in
    let other : (x == b'\n') ≡ false = ground (arith, h.1.0) in rw (other, found) refl

-- A line that starts with a blank or a tab has the empty word for a command, which is a prefix of
-- every name: the last entry of the table, "exit", is taken.
find_cmd-blank :
    (c : ℕ) (rest : Bytes)
    → whitespace c ≡ true
    → find_cmd (c ∷ rest)
      ≡ some (
          some
            (started (record { flag = no_args; name = codes "exit"; fp = exit_client }), c ∷ rest))
unfolding find_cmd
find_cmd-blank c rest h =
    let stops : ends_name c ≡ true = ground arith in
    let found = scan_until-append ends_name [] c rest tt stops in
    let other : (c == b'\n') ≡ false = ground arith in
    rw (other, found) (unfold pick strncmp_eq in refl)

skip_blanks-append :
    (b : Bytes) (c : ℕ) (rest : Bytes)
    → IsBlank b
    → whitespace c ≡ false
    → skip_blanks (b ++ c ∷ rest) ≡ some (b, c ∷ rest)
skip_blanks-append b c rest h e = scan_until-append (λ c. not (whitespace c)) b c rest h (rw e refl)

-- A command without arguments is accepted exactly if the newline follows, after blanks.
find_args-no_args :
    (f : Frame) (b : Bytes) (c : ℕ) (rest : Bytes)
    → f.flag ≡ no_args
    → IsBlank b
    → whitespace c ≡ false
    → find_args (b ++ c ∷ rest) (started f)
      ≡ some (if c == b'\n' then success else error, started f)
unfolding find_args at_enter
find_args-no_args f b c rest flag h e = ground (arith, skip_blanks-append b c rest h e)

IsWord-NoBlank : (w : Bytes) → Passes ends_name w → NoBlank w
IsWord-NoBlank [] h = tt
IsWord-NoBlank (c ∷ w) h = (ground arith, IsWord-NoBlank w h.1)

skip_blanks-word :
    (b w rest : Bytes) → IsBlank b → IsWord w → skip_blanks (b ++ (w ++ rest)) ≡ some (b, w ++ rest)
skip_blanks-word b [] rest hb hw = absurd (hw.0 refl)
skip_blanks-word b (c ∷ w) rest hb hw = skip_blanks-append b c (w ++ rest) hb (ground arith)

-- Two words with blanks in front of each: what follows them decides.
find_args-int_int :
    (f : Frame) (b first : Bytes) (s : ℕ) (b' second tail t : Bytes) (c : ℕ) (rest : Bytes)
    → f.flag ≡ int_int
    → IsBlank b
    → IsWord first
    → IsBlank (s ∷ b')
    → IsWord second
    → scan_until ends_name (second ++ tail) ≡ some (second, tail)
    → skip_blanks tail ≡ some (t, c ∷ rest)
    → find_args (b ++ (first ++ s ∷ (b' ++ (second ++ tail)))) (started f)
      ≡ some (
        if c == b'\n' then success else error,
        record { frame = f; argc = 3; arg1 = some first; arg2 = some second },
      )
unfolding find_args at_enter
find_args-int_int f b first s b' second tail t c rest flag hb ha hs ha' q r =
    let stops : whitespace s ≡ true = ground (arith, hs.0) in
    ground (
      arith,
      skip_blanks-word b first (s ∷ (b' ++ (second ++ tail))) hb ha,
      scan_until-append whitespace first s (b' ++ (second ++ tail)) (IsWord-NoBlank first ha.1)
          stops,
      skip_blanks-word (s ∷ b') second tail hs ha',
      q,
      r,
    )

-- The end of a line: blanks, and the newline.
scan_second :
    (w t : Bytes) (rest : Bytes)
    → Passes ends_name w
    → IsBlank t
    → scan_until ends_name (w ++ (t ++ b'\n' ∷ rest)) ≡ some (w, t ++ b'\n' ∷ rest)
scan_second w [] rest hw ht = scan_until-append ends_name w b'\n' rest hw refl
scan_second w (c ∷ t) rest hw ht =
    scan_until-append ends_name w c (t ++ b'\n' ∷ rest) hw (ground (arith, ht.0))

-- What follows the name of a command decides its status: any flag, any command.
parser-found :
    (w : Bytes) (c : ℕ) (rest : Bytes) (rc : ℕ) (f : Frame) (st : Status) (cmd : Command)
    → rc ≢ 1
    → IsWord w
    → ends_name c ≡ true
    → pick command_list w none ≡ some f
    → find_args (c ∷ rest) (started f) ≡ some (st, cmd)
    → parser (w ++ c ∷ rest) rc
      ≡ some (elim st [ error ↦ (inv_arg, some cmd) | _ ↦ (success, some cmd) ])
unfolding parser
parser-found w c rest rc f st cmd hr hw hc p q =
    let other : (rc == 1) ≡ false = ground arith in
    let found = find_cmd-word w c rest hw hc in ground (arith, other, found, p, q)

-- "WORD FIRST SECOND" with any blanks between, and behind: if the last name of the table that WORD
-- is a prefix of is "buy" or "sell", the parser succeeds, and both words are its arguments.
pub parser-two_words :
    (w : Bytes) (s : ℕ) (b first : Bytes) (s' : ℕ) (b' second t rest : Bytes) (rc : ℕ) (f : Frame)
    → rc ≢ 1
    → IsWord w
    → pick command_list w none ≡ some f
    → f.flag ≡ int_int
    → IsBlank (s ∷ b)
    → IsWord first
    → IsBlank (s' ∷ b')
    → IsWord second
    → IsBlank t
    → parser (w ++ s ∷ (b ++ (first ++ s' ∷ (b' ++ (second ++ (t ++ b'\n' ∷ rest)))))) rc
      ≡ some (success, some (record { frame = f; argc = 3; arg1 = some first; arg2 = some second }))
parser-two_words w s b first s' b' second t rest rc f hr hw p flag hs ha hs' ha' ht =
    let args =
      find_args-int_int f (s ∷ b) first s' b' second (t ++ b'\n' ∷ rest) t b'\n' rest flag hs ha hs'
        ha' (scan_second second t rest ha'.1 ht) (skip_blanks-append t b'\n' rest ht refl) in
    parser-found w s (b ++ (first ++ s' ∷ (b' ++ (second ++ (t ++ b'\n' ∷ rest))))) rc f success
      (record { frame = f; argc = 3; arg1 = some first; arg2 = some second }) hr hw
      (ground (arith, hs.0)) p args

-- "WORD" alone, with any blanks behind it, for a command without arguments.
pub parser-one_word :
    (w t rest : Bytes) (rc : ℕ) (f : Frame)
    → rc ≢ 1
    → IsWord w
    → pick command_list w none ≡ some f
    → f.flag ≡ no_args
    → IsBlank t
    → parser (w ++ (t ++ b'\n' ∷ rest)) rc ≡ some (success, some (started f))
parser-one_word w [] rest rc f hr hw p flag ht =
    parser-found w b'\n' rest rc f success (started f) hr hw refl p
      (find_args-no_args f [] b'\n' rest flag tt refl)
parser-one_word w (c ∷ t) rest rc f hr hw p flag ht =
    parser-found w c (t ++ b'\n' ∷ rest) rc f success (started f) hr hw (ground (arith, ht.0)) p
      (find_args-no_args f (c ∷ t) b'\n' rest flag ht refl)

-- A line of two bytes or more that starts with a blank is "exit", if nothing but blanks follows.
pub parser-blank :
    (c : ℕ) (t rest : Bytes) (rc : ℕ)
    → rc ≢ 1
    → IsBlank (c ∷ t)
    → parser (c ∷ (t ++ b'\n' ∷ rest)) rc
      ≡ some (
        success,
        some (started (record { flag = no_args; name = codes "exit"; fp = exit_client })),
      )
unfolding parser
parser-blank c t rest rc hr h =
    let f : Frame = record { flag = no_args; name = codes "exit"; fp = exit_client } in
    let other : (rc == 1) ≡ false = ground arith in
    ground (
      arith,
      other,
      find_cmd-blank c (t ++ b'\n' ∷ rest) (ground (arith, h.0)),
      find_args-no_args f (c ∷ t) b'\n' rest refl h refl,
    )

-- "WORD FIRST" without a second word: the loop over the first argument does not stop at the newline,
-- and if no blank stands behind it, it runs out of the buffer.
pub parser-overrun :
    (w : Bytes) (s : ℕ) (b first rest : Bytes) (rc : ℕ) (f : Frame)
    → rc ≢ 1
    → IsWord w
    → pick command_list w none ≡ some f
    → f.flag ≡ int_int
    → IsBlank (s ∷ b)
    → IsWord first
    → NoBlank rest
    → parser (w ++ s ∷ (b ++ (first ++ b'\n' ∷ rest))) rc ≡ none
unfolding parser find_args
parser-overrun w s b first rest rc f hr hw p flag hs ha hn =
    let other : (rc == 1) ≡ false = ground arith in
    let line = b ++ (first ++ b'\n' ∷ rest) in
    ground (
      arith,
      other,
      find_cmd-word w s line hw (ground (arith, hs.0)),
      p,
      skip_blanks-word (s ∷ b) first (b'\n' ∷ rest) hs ha,
      scan_until-none whitespace (first ++ b'\n' ∷ rest)
          (Passes-append first (b'\n' ∷ rest) (IsWord-NoBlank first ha.1) (refl, hn)),
    )
  where
    Passes-append : (xs ys : Bytes) → NoBlank xs → NoBlank ys → NoBlank (xs ++ ys)
    Passes-append [] ys a b = b
    Passes-append (x ∷ xs) ys a b = (a.0, Passes-append xs ys a.1 b)
