-- ===== src/Shell/Interpreter.antt =====
-- `interpreter` of myshell/interpreter.c with what it calls: one line, in the shell and in the process
-- that it forks. What the calls of the system answer is an argument; `fork` succeeds. `none` is a fault.
pub mod Reap
pub mod Rounds
pub mod Done
pub mod Children
use system_software.Prelude.{
  ℕ, zero, suc, List, [], ◌∷◌, ◌++◌, Bool, true, false, Option, none, some, if◌then◌else◌,
  get_elem?,
}
use system_software.Prelude.Int.{pos}
use system_software.Server.Text.{Bytes, decimal}
use system_software.Server.Parser.{codes}
use system_software.Shell.Jobs.{
  running, suspended, Shell, cont, print, send, insert_jobs, print_jobs, print_done_jobs,
  reap_dead_jobs,
}
use system_software.Shell.Control.{Report, same_text, fg, bg, kill_job, exit_jobs, sigchild_handler}
use system_software.Shell.Parser.{
  Status, ok, buffering, syntax_err, no_command, Command, CmdFlag, function, Mode, background,
  foreground, parser,
}
use system_software.Shell.Execute.{Process, execute_commands}

-- What the system answers while a line is read and run: the working directory; the children that
-- SIGCHLD reports before the line is there, and before `waitpid` returns; the line, `none` at the end of
-- the input; what the parser's `status` holds at first; whether `chdir` succeeds; what `waitpid` tells
-- `fg`, and `interpreter`, of the child: whether it was stopped; and the pids of the child, of the
-- shell, and of the process that started it.
pub record Answers : Type 0 where
  pub cwd : Bytes
  pub at_prompt : List Report
  pub line : Option Bytes
  pub unset : Status
  pub chdir : Option Bytes → Bool
  pub fg_stopped : Bool
  pub pid : ℕ
  pub at_wait : List Report
  pub stopped : Bool
  pub parent_pid : ℕ
  pub getppid : ℕ

-- The shell goes on, or exits.
pub data Next : Type 0 where
  goes_on exits : Shell → Next

abbrev pub continued : Option Shell → Option Next
continued none = none
continued (some s) = some (goes_on s)

unfoldable pub change_directory : (Option Bytes → Bool) → Option Bytes → Shell → Shell
change_directory chdir argv s = if chdir argv then s else print (codes "No Such Directory\n") s

-- `func_cmd->builtin->fp(func_cmd->arguments)`; the table has no other functions.
unfoldable pub call_function : Answers → Command → Shell → Option Next
call_function a c s =
    let argv = get_elem? c.arguments 1 in
    if same_text c.entry.name (codes "bg")
    then continued (bg argv s)
    else if same_text c.entry.name (codes "cd")
    then some (goes_on (change_directory a.chdir argv s))
    else if same_text c.entry.name (codes "exit")
    then elim (exit_jobs s) [ none ↦ none | some t ↦ some (exits t) ]
    else if same_text c.entry.name (codes "fg")
    then continued (fg a.fg_stopped argv s)
    else if same_text c.entry.name (codes "jobs")
    then continued (print_jobs s)
    else if same_text c.entry.name (codes "kill")
    then continued (kill_job argv s)
    else none

unfoldable pub execute_function_command : Answers → Command → Shell → Option Next
execute_function_command a c s = elim (call_function a c s) [
  | none ↦ none
  | some (exits t) ↦ some (exits t)
  | some (goes_on t) ↦ some (goes_on (send a.getppid cont t))
]

abbrev pub is_function : CmdFlag → Bool
is_function function = true
is_function _ = false

-- The condition for a command that the shell runs itself.
unfoldable pub runs_itself : List Command → Mode → Bool
runs_itself (c ∷ []) foreground = is_function c.entry.flag
runs_itself _ _ = false

unfoldable pub run_itself : Answers → List Command → Shell → Option Next
run_itself a [] s = some (goes_on s)
run_itself a (c ∷ cs) s = execute_function_command a c s

-- What the shell does after `fork`.
unfoldable pub await_child : Answers → Mode → Shell → Option Shell
await_child a foreground s = elim (reap_dead_jobs (record s { child_pid = a.pid })) [
  | none ↦ none
  | some s ↦ elim (sigchild_handler a.parent_pid a.at_wait s) [
    | none ↦ none
    | some s ↦ elim a.stopped [
      | false ↦ some s
      | true ↦ elim (insert_jobs s.child_pid s.buf suspended s) [
        | none ↦ none
        | some t ↦ some (print (b'[' ∷ decimal (pos s.jobs_rear) (codes "] Stopped " ++ s.buf)) t)
      ]
    ]
  ]
]
await_child a background s =
    insert_jobs a.pid s.buf running
      (print (b'[' ∷ decimal (pos s.jobs_rear) (codes "] : " ++ s.buf)) s)

-- `if (jobs_done[0]) print_done_jobs();`
unfoldable pub show_done : Shell → Option Shell
show_done s = elim s.jobs_done [
  | [] ↦ none
  | zero ∷ done ↦ some s
  | suc k ∷ done ↦ print_done_jobs s
]

-- What the shell does with a line.
unfoldable pub run_line : Answers → Bytes → Shell → Option Next
run_line a line s = elim (parser s.usable a.unset line) [
  | none ↦ none
  | some (st, cmds, mode) ↦
      let s = record s { buf = line } in
      elim (if runs_itself cmds mode then run_itself a cmds s else some (goes_on s)) [
        | none ↦ none
        | some (exits t) ↦ some (exits t)
        | some (goes_on t) ↦ continued (await_child a mode t)
      ]
]

unfoldable pub interpreter : Answers → Shell → Option Next
interpreter a s =
    let s = print (a.cwd ++ b'>' ∷ []) (record s { buf = a.cwd }) in
    elim (sigchild_handler a.parent_pid a.at_prompt s) [
      | none ↦ none
      | some s ↦ elim a.line [
        | none ↦ some (exits s)
        | some line ↦ elim (show_done s) [ none ↦ none | some s ↦ run_line a line s ]
      ]
    ]

-- What the forked process does: it writes a message and exits, or starts the commands.
pub data Child : Type 0 where
  says : Bytes → Child
  starts : List (Command × Process) → Child

-- The byte behind the text is written too.
abbrev pub message_of : Status → Bytes
message_of no_command = codes "No Command Error\n" ++ 0 ∷ []
message_of syntax_err = codes "Syntax Error\n" ++ 0 ∷ []
message_of _ = []

unfoldable pub run_child : Process → Status → List Command → Option Child
run_child p no_command [] = some (says (message_of no_command))
run_child p st [] = some (says [])
run_child p ok (c ∷ cs) = elim (execute_commands p (c ∷ cs)) [
  | none ↦ none
  | some (children, q) ↦ some (starts children)
]
run_child p st (c ∷ cs) = some (says (message_of st))

-- The forked process for a line; a command that the shell has run itself is taken off.
unfoldable pub line_child : (ℕ → ℕ) → Process → Status → Bytes → Option Child
line_child usable p unset line = elim (parser usable unset line) [
  | none ↦ none
  | some (st, cmds, mode) ↦ run_child p st (if runs_itself cmds mode then [] else cmds)
]
