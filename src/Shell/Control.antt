-- ===== src/Shell/Control.antt =====
-- The commands fg, bg and kill of myshell/module/jobs.c, module/exit.c, and the parent's handler of
-- SIGCHLD in sig.c.
pub mod Faults
pub mod Handler
use system_software.Prelude.{
  ℕ, zero, suc, ◌+◌, ◌-◌, List, [], ◌∷◌, ◌++◌, Bool, true, false, not, ◌&&◌, Option, none, some,
  ltb, ◌==◌, if◌then◌else◌, get_elem?, set, length,
}
use system_software.Prelude.Int.{ℤ, pos, negsuc, add_int, eqb_ℤ}
use system_software.Server.Text.{Bytes, decimal, atoi}
use system_software.Server.Parser.{codes}
use system_software.Shell.Jobs.{
  State, running, suspended, terminated, Job, Slot, null, freed, live, Signal, cont, usr1, usr2,
  Shell, deref, print, send, set_state, insert_jobs, is_terminated, find_jobs_by_pid, copies,
}

-- `strcmp(a, b) == 0`
unfoldable pub same_text : Bytes → Bytes → Bool
same_text [] [] = true
same_text [] (y ∷ ys) = false
same_text (x ∷ xs) [] = false
same_text (x ∷ xs) (y ∷ ys) = if x == y then same_text xs ys else false

-- The number that the text is the decimal form of, or -1. The decimal form is printed to a block of as
-- many bytes as the text has.
unfoldable pub job_index_parser : (ℕ → ℕ) → Bytes → Option ℤ
job_index_parser usable arg =
    let index = atoi arg in
    let buf = decimal index [] in
    if copies usable buf (length arg)
    then some (if same_text buf arg then index else negsuc 0)
    else none

-- The index of the first of `left` jobs from `i` on with a command line; -1 if there is none.
unfoldable pub find_command : List Slot → Bytes → ℕ → ℕ → Option ℤ
find_command list arg zero i = some (negsuc 0)
find_command list arg (suc left) i = elim (get_elem? list i) [
  | none ↦ none
  | some null ↦ find_command list arg left (suc i)
  | some freed ↦ none
  | some (live j) ↦ elim (same_text arg j.cmdline) [
    | true ↦ some (pos i)
    | false ↦ find_command list arg left (suc i)
  ]
]

unfoldable pub find_job_by_command : Bytes → Shell → Option ℤ
find_job_by_command arg s = find_command s.jobs_list arg s.jobs_rear 0

-- What the beginning of `fg`, `bg` and `kill_job` comes to: a message, or a job that is not
-- terminated, with its index.
pub data Choice : Type 0 where
  message : Bytes → Choice
  chosen : ℕ → Job → Choice

-- `jobs_list[index]`, and the tests on it.
unfoldable pub inspect : ℤ → Shell → Option Choice
inspect (negsuc n) s = none
inspect (pos k) s = elim (get_elem? s.jobs_list k) [
  | none ↦ none
  | some null ↦ some (message (codes "No Such job\n"))
  | some freed ↦ none
  | some (live j) ↦ some (
      if is_terminated j.state
      then message (b'[' ∷ decimal (pos k) (codes "] Already Terminated job\n"))
      else chosen k j)
]

-- `argv[1]` is `none` for NULL. The message about a missing % does not end the function.
unfoldable pub choose : Option Bytes → Shell → Option Choice
choose none s = some (message (codes "Usage"))
choose (some []) s = some (message (codes "Usage"))
choose (some (c ∷ [])) s = some (message (codes "Usage"))
choose (some (c ∷ d ∷ cs)) s = elim (job_index_parser s.usable (d ∷ cs)) [
  | none ↦ none
  | some index ↦ elim (eqb_ℤ index (pos 0)) [
    | true ↦ elim (find_job_by_command (c ∷ d ∷ cs) s) [ none ↦ none | some k ↦ inspect k s ]
    | false ↦ inspect index s
  ]
]

-- `fg`; `stopped` is what `waitpid` tells of the job at the end.
unfoldable pub fg : Bool → Option Bytes → Shell → Option Shell
fg stopped argv s = elim (choose argv s) [
  | none ↦ none
  | some (message text) ↦ some (print text s)
  | some (chosen k j) ↦
      let resumed = record s {
        child_pid = j.pgid;
        buf = j.cmdline;
        out = (codes "Resumed [" ++ decimal (pos k) (codes "] " ++ j.cmdline)) ∷ s.out;
        jobs_list = set s.jobs_list k freed;
        jobs_n = add_int s.jobs_n (negsuc 0);
        sent = (j.pgid, usr1) ∷ (j.pgid, cont) ∷ s.sent;
      } in
      elim stopped [
        | false ↦ some resumed
        | true ↦ elim (insert_jobs j.pgid j.cmdline suspended resumed) [
          | none ↦ none
          | some t ↦
              some (print (b'[' ∷ decimal (pos s.jobs_rear) (codes "] Stopped " ++ j.cmdline)) t)
        ]
      ]
]

unfoldable pub bg : Option Bytes → Shell → Option Shell
bg argv s = elim (choose argv s) [
  | none ↦ none
  | some (message text) ↦ some (print text s)
  | some (chosen k j) ↦
      let line = b'[' ∷ decimal (pos k) (codes "] " ++ j.cmdline) in
      some (send j.pgid usr1 (send j.pgid cont (print line (set_state k j running s))))
]

unfoldable pub kill_job : Option Bytes → Shell → Option Shell
kill_job argv s = elim (choose argv s) [
  | none ↦ none
  | some (message text) ↦ some (print text s)
  | some (chosen k j) ↦ some (send j.pgid usr2 (set_state k j terminated s))
]

-- The loop of `exit_` over `left` jobs from index `i` on.
unfoldable pub exit_from : ℕ → ℕ → Shell → Option Shell
exit_from zero i s = some s
exit_from (suc left) i s = elim (deref s.jobs_list i) [
  | none ↦ none
  | some j ↦ exit_from left (suc i) (send j.pgid usr2 s)
]

unfoldable pub exit_jobs : Shell → Option Shell
exit_jobs s = exit_from (s.jobs_rear - s.jobs_front) s.jobs_front s

-- What `waitpid` reports of a child: stopped, or exited, with its pid. (For one that a signal ended
-- the handler waits in `sigsuspend`.)
pub data Report : Type 0 where
  stopped exited : ℕ → Report

-- `sigchild_handler` for the reports that wait; `parent_pid` gets SIGCONT.
unfoldable pub sigchild_handler : ℕ → List Report → Shell → Option Shell
sigchild_handler parent_pid [] s = some s
sigchild_handler parent_pid (stopped pid ∷ rest) s =
    elim (insert_jobs s.child_pid s.buf suspended s) [
      | none ↦ none
      | some t ↦
          let line = b'[' ∷ decimal (pos s.jobs_rear) (codes "] Stopped " ++ s.buf) in
          sigchild_handler parent_pid rest (send parent_pid cont (print line t))
    ]
sigchild_handler parent_pid (exited pid ∷ rest) s = elim (pid == s.child_pid) [
  | true ↦ sigchild_handler parent_pid rest (send parent_pid cont (record s { child_pid = 0 }))
  | false ↦ elim (find_jobs_by_pid pid s) [
    | none ↦ none
    | some (none, t) ↦ sigchild_handler parent_pid rest t
    | some (some k, t) ↦ elim (deref t.jobs_list k) [
      | none ↦ none
      | some j ↦ sigchild_handler parent_pid rest (set_state k j terminated t)
    ]
  ]
]
