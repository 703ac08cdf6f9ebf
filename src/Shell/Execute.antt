-- ===== src/Shell/Execute.antt =====
-- How the shell starts the commands of a line, myshell/execute.c: the pipes between them, and the program
-- that each one runs. `pipe` and `fork` succeed. `none` is a write outside an array, or the exit of the
-- process that has no command to run.
pub mod Pipes
use system_software.Prelude.{
  ℕ, zero, suc, ◌+◌, ◌<◌, List, [], ◌∷◌, ◌++◌, Bool, true, false, Option, none, some, ltb, leb,
  ◌==◌, length, if◌then◌else◌,
}
use system_software.Server.Text.{Bytes}
use system_software.Server.Parser.{codes}
use system_software.Shell.Parser.{Command, absolute, function, relative}

-- The descriptors in `fds[i][READ_END]` and `fds[i][WRITE_END]`.
pub data End : Type 0 where
  read_end write_end : ℕ → End

abbrev pub max_cmd : ℕ
max_cmd = 16

-- What stands behind the standard input and output, `none` for what the shell has there, and the
-- other descriptors that are open.
pub record Process : Type 0 where
  pub stdin : Option End
  pub stdout : Option End
  pub open_ends : List End

abbrev pub same_end : End → End → Bool
same_end (read_end i) (read_end j) = i == j
same_end (write_end i) (write_end j) = i == j
same_end (read_end i) (write_end j) = false
same_end (write_end i) (read_end j) = false

abbrev pub without : End → List End → List End
without e [] = []
without e (x ∷ xs) = let rest = without e xs in if same_end e x then rest else x ∷ rest

abbrev pub make_pipe : ℕ → Process → Process
make_pipe i p = record p { open_ends = read_end i ∷ write_end i ∷ p.open_ends }

abbrev pub close_end : End → Process → Process
close_end e p = record p { open_ends = without e p.open_ends }

-- The child for the command `i`, up to `switch_case_cmd`.
unfoldable pub child : ℕ → Bool → Bool → Process → Process
child i redirectfrom redirectto p =
    let p = if redirectfrom then record p { stdin = some (read_end i) } else p in
    let p = if redirectto then record p { stdout = some (write_end (suc i)) } else p in
    close_end (write_end (suc i))
      (close_end (read_end (suc i)) (close_end (write_end i) (close_end (read_end i) p)))

abbrev pub any_left : List Command → Bool
any_left [] = false
any_left (c ∷ cs) = true

-- The loop; the children with their commands, and what is left open in the process itself.
unfoldable pub execute_loop :
    Process → ℕ → Bool → List Command → Option (List (Command × Process) × Process)
execute_loop p i redirectfrom [] = some ([], p)
execute_loop p i redirectfrom (c ∷ cs) = elim (ltb (suc i) max_cmd) [
  | false ↦ none
  | true ↦
      let p = make_pipe (suc i) p in
      let started = child i redirectfrom (any_left cs) p in
      let p = close_end (write_end i) (close_end (write_end (suc i)) (close_end (read_end i) p)) in
      elim (execute_loop p (suc i) true cs) [
        | none ↦ none
        | some (children, q) ↦ some ((c, started) ∷ children, q)
      ]
]

unfoldable pub execute_commands :
    Process → List Command → Option (List (Command × Process) × Process)
execute_commands p [] = none
execute_commands p (c ∷ cs) = execute_loop (make_pipe 0 p) 0 false (c ∷ cs)

-- What becomes of a child.
pub data Outcome : Type 0 where
  called : Bytes → Outcome
  running : Bytes → List Bytes → Outcome
  not_found : Outcome

abbrev fits_buffer : Bytes → ℕ → Bool
fits_buffer text size = ltb (length text) size

-- `switch_case_cmd`; `execv` says of a path and arguments whether the program is started. The function
-- of the table is not run here.
unfoldable pub switch_case_cmd : (Bytes → List Bytes → Bool) → Command → Option Outcome
switch_case_cmd execv c =
    let name = c.entry.name in
    let bin = codes "/bin/" ++ name in
    let usr_bin = codes "/usr/bin/" ++ name in
    elim c.entry.flag [
      | function ↦ some (called name)
      | absolute ↦
          if fits_buffer bin 20
          then if execv bin c.arguments
            then some (running bin c.arguments)
            else if fits_buffer usr_bin 23
            then some (if execv usr_bin c.arguments then running usr_bin c.arguments else not_found)
            else none
          else none
      | relative ↦ some (if execv name c.arguments then running name c.arguments else not_found)
    ]
