-- ===== src/Shell/Parser.antt =====
-- The parser of myshell/interpreter.c, with the table of myshell/builtin.c. A position in the line is
-- what stands from there on; reading or writing outside an array is undefined in C, and `none` here.
pub mod Search
pub mod Arguments
pub mod Pipes
use Prim.Native.String.{String}
use system_software.Prelude.{
  ℕ, zero, suc, ◌+◌, ◌-◌, ◌/◌, List, [], ◌∷◌, ◌++◌, Bool, true, false, not, ◌||◌, Option, none,
  some, ltb, ◌==◌, if◌then◌else◌, get_elem?, length,
}
use system_software.Server.Text.{Bytes}
use system_software.Server.Parser.{codes, scan_until}

-- `status`
pub data Status : Type 0 where
  ok buffering syntax_err no_command : Status

-- `cmd_flag`
pub data CmdFlag : Type 0 where
  absolute function relative : CmdFlag

-- An entry of `command_list`.
pub record Entry : Type 0 where
  pub flag : CmdFlag
  pub name : Bytes

abbrev pub entry : CmdFlag → String → Entry
entry f name = record { flag = f; name = codes name }

abbrev pub command_list : List Entry
command_list =
    entry function "bg"
    ∷ entry absolute "cat"
    ∷ entry function "cd"
    ∷ entry absolute "clear"
    ∷ entry absolute "code"
    ∷ entry absolute "echo"
    ∷ entry function "exit"
    ∷ entry function "fg"
    ∷ entry absolute "gcc"
    ∷ entry absolute "git"
    ∷ entry absolute "grep"
    ∷ entry function "jobs"
    ∷ entry function "kill"
    ∷ entry absolute "less"
    ∷ entry absolute "ls"
    ∷ entry absolute "make"
    ∷ entry absolute "mkdir"
    ∷ entry absolute "more"
    ∷ entry absolute "printenv"
    ∷ entry absolute "ps"
    ∷ entry absolute "pwd"
    ∷ entry absolute "rmdir"
    ∷ entry absolute "scp"
    ∷ entry absolute "sleep"
    ∷ entry absolute "sort"
    ∷ entry absolute "ssh"
    ∷ entry absolute "tar"
    ∷ entry absolute "touch"
    ∷ entry absolute "vi"
    ∷ entry absolute "whereis"
    ∷ []

-- `num_command`; the table has one entry more.
abbrev pub num_command : ℕ
num_command = 29

-- The `struct command` that is built: `arguments` up to the NULL, the name first.
pub record Command : Type 0 where
  pub entry : Entry
  pub argc : ℕ
  pub arguments : List Bytes

abbrev pub blank : ℕ → Bool
blank c = c == b' ' || c == b'\t'

-- The byte at an index, 0 behind the end (the line ends with a newline and a NUL).
abbrev pub at : Bytes → ℕ → ℕ
at s i = elim (get_elem? s i) [ none ↦ 0 | some c ↦ c ]

-- `!strncmp(line, name, strlen(name))`
unfoldable pub starts : Bytes → Bytes → Bool
starts line [] = true
starts [] (c ∷ name) = false
starts (d ∷ line) (c ∷ name) = if d == c then starts line name else false

-- A char is signed; the order of two is that of these.
abbrev pub char_order : ℕ → ℕ
char_order c = if ltb c 128 then c + 128 else c - 128

-- `while (low <= high)`: `bound` is `high + 1`, so that it may be 0. The inner `none` is a search
-- that ends with nothing found.
unfoldable pub search : ℕ → ℕ → ℕ → Bytes → Option (Option Entry)
search zero low bound line = none
search (suc fuel) low bound line = elim (ltb low bound) [
  | false ↦ some none
  | true ↦
      let mid = (low + (bound - 1)) / 2 in
      elim (get_elem? command_list mid) [
        | none ↦ none
        | some e ↦ elim (at line 0 == at e.name 0) [
          | false ↦ elim (ltb (char_order (at e.name 0)) (char_order (at line 0))) [
            | true ↦ search fuel (mid + 1) bound line
            | false ↦ search fuel low mid line
          ]
          | true ↦ elim (starts line e.name) [
            | true ↦ some (some e)
            | false ↦ elim (ltb (char_order (at e.name 1)) (char_order (at line 1))) [
              | true ↦ search fuel (mid + 1) bound line
              | false ↦ search fuel low mid line
            ]
          ]
        ]
      ]
]

abbrev pub skip : ℕ → Bytes → Bytes
skip zero s = s
skip (suc n) [] = []
skip (suc n) (c ∷ s) = skip n s

-- The path of a relative command ends here.
abbrev pub ends_path : ℕ → Bool
ends_path c = blank c || c == b'\n' || c == b'|'

-- The entry that a command names, and what follows its name; the inner `none` is NOCOMMANDERR.
unfoldable pub find_name : Bytes → Option (Option (Entry × Bytes))
find_name line =
    if at line 0 == b'.'
    then elim (scan_until ends_path line) [
      | none ↦ none
      | some (name, rest) ↦ some (some (record { flag = relative; name = name }, rest))
    ]
    else elim (search (suc (num_command + 1)) 0 (num_command + 1) line) [
      | none ↦ none
      | some none ↦ some none
      | some (some e) ↦ some (some (e, skip (length e.name) line))
    ]

-- The size that is asked for the copy of a name: that of the name, or that of a pointer.
abbrev pub name_size : Entry → ℕ
name_size e = elim e.flag [ relative ↦ length e.name | absolute ↦ 8 | function ↦ 8 ]

-- MAXARGS
abbrev pub max_args : ℕ
max_args = 16

-- What ends a plain argument, and what ends the search for a closing quotation mark.
abbrev pub ends_word : ℕ → Bool
ends_word c = blank c || c == b'\n' || c == b'|' || c == b'&'

abbrev pub ends_quote : ℕ → Bool
ends_quote c = c == b'"' || c == b'|' || c == b'\n'

abbrev pub skip_blank : Bytes → Option (Bytes × Bytes)
skip_blank = scan_until (λ c. not (blank c))

-- `MODE`
pub data Mode : Type 0 where
  background foreground : Mode

-- What `parser` leaves: its status, the commands in the order of the pipe, and the mode.
abbrev pub Parsed : Type 0
Parsed = Status × List Command × Mode

-- `usable size` is the number of bytes that the block of `calloc(1, size)` has, all of them cleared. The
-- copies of names and words have no byte of their own for the NUL: one that fills its block is a fault.
module _ (usable : ℕ → ℕ) where
  -- A cleared block of that size holds the text and a NUL.
  abbrev pub has_room : ℕ → Bytes → Bool
  has_room size text = ltb (length text) (usable size)

  -- The command with no arguments yet, and what follows its name; the inner `none` is NOCOMMANDERR.
  unfoldable pub find_shell_command : Bytes → Option (Option (Entry × Bytes))
  find_shell_command line = elim (find_name line) [
    | none ↦ none
    | some none ↦ some none
    | some (some (e, rest)) ↦ if has_room (name_size e) e.name then some (some (e, rest)) else none
  ]

  -- One argument, and what follows it and the blanks behind it; the inner `none` is an empty one.
  unfoldable pub argument : Bytes → Option (Option (Bytes × Bytes))
  argument [] = none
  argument (c ∷ cs) =
      if c == b'"'
      then elim (scan_until ends_quote cs) [
        | none ↦ none
        | some (quoted, rest) ↦
            let closed = at rest 0 == b'"' in
            let after = if closed then skip 1 rest else cs in
            if not closed || has_room (length quoted) quoted
            then elim (skip_blank after) [
              | none ↦ none
              | some (b, next) ↦ some (some (if closed then quoted else b'"' ∷ [], next))
            ]
            else none
      ]
      else elim (scan_until ends_word (c ∷ cs)) [
        | none ↦ none
        | some ([], rest) ↦ some none
        | some (d ∷ w, rest) ↦
            if has_room (length (d ∷ w)) (d ∷ w)
            then elim (skip_blank rest) [ none ↦ none | some (b, next) ↦ some (some (d ∷ w, next)) ]
            else none
      ]

  -- The loop over the arguments with `left` places in the array; `found` holds those so far. Behind
  -- the loop NULL is written to the next place, which is outside when none is left.
  unfoldable pub arguments_loop : ℕ → List Bytes → Bytes → Option (ℕ × List Bytes × Bytes)
  arguments_loop zero found line = none
  arguments_loop (suc left) found line = elim (at line 0 == b'&') [
    | true ↦ some (0, found, line)
    | false ↦ elim (argument line) [
      | none ↦ none
      | some none ↦ some (length found, found, line)
      | some (some (w, rest)) ↦ arguments_loop left (found ++ w ∷ []) rest
    ]
  ]

  unfoldable pub find_arguments : Entry → Bytes → Option (Command × Bytes)
  find_arguments e line =
      if has_room (length e.name) e.name
      then elim (arguments_loop (max_args - 1) (e.name ∷ []) line) [
        | none ↦ none
        | some (argc, args, rest) ↦ some (record { entry = e; argc = argc; arguments = args }, rest)
      ]
      else none

  -- The loop of `parser`; `st` is what the local variable `status` holds.
  unfoldable pub parser_loop : ℕ → Status → List Command → Bytes → Option Parsed
  parser_loop zero st found line = none
  parser_loop (suc fuel) st found line = elim (at line 0 == b'\n') [
    | true ↦ some (st, found, foreground)
    | false ↦ elim (skip_blank line) [
      | none ↦ none
      | some (b, line) ↦ elim (at line 0 == b'\n') [
        | true ↦ some (st, found, foreground)
        | false ↦ elim (find_shell_command line) [
          | none ↦ none
          | some none ↦ some (no_command, found, foreground)
          | some (some (e, line)) ↦ elim (skip_blank line) [
            | none ↦ none
            | some (b, line) ↦ elim (find_arguments e line) [
              | none ↦ none
              | some (cmd, line) ↦ elim (skip_blank line) [
                | none ↦ none
                | some (b, line) ↦ elim (at line 0 == b'&') [
                  | true ↦ elim (skip_blank (skip 1 line)) [
                    | none ↦ none
                    | some (b, line) ↦ some (
                      if at line 0 == b'\n' then ok else syntax_err,
                      found ++ cmd ∷ [],
                      background,
                    )
                  ]
                  | false ↦ elim (at line 0 == b'|') [
                    | true ↦ parser_loop fuel buffering (found ++ cmd ∷ []) (skip 1 line)
                    | false ↦ parser_loop fuel ok (found ++ cmd ∷ []) line
                  ]
                ]
              ]
            ]
          ]
        ]
      ]
    ]
  ]

  -- A round of the loop takes a byte of the line at least, and the fuel is one more than its bytes.
  unfoldable pub parser : Status → Bytes → Option Parsed
  parser st line = parser_loop (suc (length line)) st [] line
