-- ===== src/Server/Parser.antt =====
-- concurrent_stockserver/event_driven/parser.c and the table of impl.c. A buffer is the list of
-- its bytes; reading past its end is undefined in C, and `none` here.
pub mod Words
pub mod Lines
use Prim.Native.Char.{code}
use Prim.Native.String.{String}
use system_software.Prelude.{
  ℕ, List, [], ◌∷◌, ◌++◌, Bool, true, false, not, ◌||◌, Option, none, some, ◌==◌, if◌then◌else◌,
}
use system_software.Server.Text.{Bytes}
use system_software.Server.Tree.{Status, success, error, no_cmd, inv_arg, nl}

-- The bytes of a literal.
abbrev pub codes : String → Bytes
codes String.[] = []
codes (String.◌∷◌ c s) = code c ∷ codes s

-- The functions that `fp` points to.
pub data Handler : Type 0 where
  show sell buy exit_client : Handler

pub data Flag : Type 0 where
  no_args int_int : Flag

-- An entry of `command_list`.
pub record Frame : Type 0 where
  pub flag : Flag
  pub name : Bytes
  pub fp : Handler

abbrev pub command_list : List Frame
command_list =
    record { flag = no_args; name = codes "show"; fp = show }
    ∷ record { flag = int_int; name = codes "sell"; fp = sell }
    ∷ record { flag = int_int; name = codes "buy"; fp = buy }
    ∷ record { flag = no_args; name = codes "exit"; fp = exit_client }
    ∷ []

-- What the parser fills in of `struct command`; `args[1]` and `args[2]` start as NULL.
pub record Command : Type 0 where
  pub frame : Frame
  pub argc : ℕ
  pub arg1 : Option Bytes
  pub arg2 : Option Bytes

abbrev pub whitespace : ℕ → Bool
whitespace c = c == b' ' || c == b'\t'

abbrev pub ends_name : ℕ → Bool
ends_name c = whitespace c || c == b'\n'

-- `while (!stop(buf[pos])) pos++`: the bytes passed, and what `buf + pos` points to then.
unfoldable pub scan_until : (ℕ → Bool) → Bytes → Option (Bytes × Bytes)
scan_until stop [] = none
scan_until stop (c ∷ cs) =
    if stop c
    then some ([], c ∷ cs)
    else elim (scan_until stop cs) [ none ↦ none | some (w, r) ↦ some (c ∷ w, r) ]

-- `!strncmp(name, buf, pos)` where the second argument is the first `pos` bytes of `buf`.
unfoldable pub strncmp_eq : Bytes → Bytes → Bool
strncmp_eq name [] = true
strncmp_eq [] (c ∷ w) = c == 0
strncmp_eq (a ∷ name) (c ∷ w) = if a == c then strncmp_eq name w else false

-- The loop over `command_list`: every match overwrites the one before.
unfoldable pub pick : List Frame → Bytes → Option Frame → Option Frame
pick [] w found = found
pick (f ∷ fs) w found = pick fs w (if strncmp_eq f.name w then some f else found)

-- The command with no arguments yet, and `buf + pos`; the inner `none` is ERROR.
unfoldable pub find_cmd : Bytes → Option (Option (Command × Bytes))
find_cmd [] = none
find_cmd (c ∷ cs) = if c == b'\n' then some none else elim (scan_until ends_name (c ∷ cs)) [
  | none ↦ none
  | some (w, rest) ↦ elim (pick command_list w none) [
    | none ↦ some none
    | some f ↦ some (some (record { frame = f; argc = 1; arg1 = none; arg2 = none }, rest))
  ]
]

-- `if (buf[pos] != ENTER) return ERROR;` at the end of both cases.
unfoldable pub at_enter : Bytes → Command → Option (Status × Command)
at_enter [] cmd = none
at_enter (c ∷ cs) cmd = some (if c == b'\n' then success else error, cmd)

abbrev pub skip_blanks : Bytes → Option (Bytes × Bytes)
skip_blanks = scan_until (λ c. not (whitespace c))

unfoldable pub find_args : Bytes → Command → Option (Status × Command)
find_args buf cmd = elim cmd.frame.flag [
  | no_args ↦ elim (skip_blanks buf) [ none ↦ none | some (b, r) ↦ at_enter r cmd ]
  | int_int ↦ elim (skip_blanks buf) [
    | none ↦ none
    | some (b, r) ↦ elim (scan_until whitespace r) [
      | none ↦ none
      | some (first, r) ↦ elim (skip_blanks r) [
        | none ↦ none
        | some (b, r) ↦ elim (scan_until ends_name r) [
          | none ↦ none
          | some (second, r) ↦ elim (skip_blanks r) [
            | none ↦ none
            | some (b, r) ↦
                at_enter r (record cmd { argc = 3; arg1 = some first; arg2 = some second })
          ]
        ]
      ]
    ]
  ]
]

-- The status, and the command if one was found. `rc` is the number of bytes that were read.
unfoldable pub parser : Bytes → ℕ → Option (Status × Option Command)
parser buf rc = if rc == 1 then some (nl, none) else elim (find_cmd buf) [
  | none ↦ none
  | some none ↦ some (no_cmd, none)
  | some (some (cmd, rest)) ↦ elim (find_args rest cmd) [
    | none ↦ none
    | some (error, cmd) ↦ some (inv_arg, some cmd)
    | some (st, cmd) ↦ some (success, some cmd)
  ]
]
