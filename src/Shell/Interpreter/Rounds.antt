-- ===== src/Shell/Interpreter/Rounds.antt =====
-- A line whose commands run in the forked process, with no reports of other children.
use system_software.Prelude.{
  ℕ, ◌+◌, ◌<◌, ◌≡◌, refl, ap, ◌∙◌, List, [], ◌∷◌, ◌++◌, Option, none, some, true, false, Bool, set,
  arith, sym, subst, length, Bool-cases, inl, inr, if◌then◌else◌,
}
use system_software.Prelude.Int.{pos, add_int}
use system_software.Server.Parser.{codes}
use system_software.Server.Text.{Bytes, decimal}
use system_software.Shell.Jobs.{
  State, running, suspended, live, Job, Shell, max_jobs, insert_jobs, print, copies,
}
use system_software.Shell.Jobs.Table.{IsTable, insert_jobs-IsTable}
use system_software.Shell.Control.{sigchild_handler}
use system_software.Shell.Parser.{Status, Command, Mode, background, foreground, parser}
use system_software.Shell.Interpreter.{
  Answers, goes_on, runs_itself, await_child, show_done, run_line, interpreter,
}
use system_software.Shell.Interpreter.Reap.{front_of, rear_of, reap_dead_jobs-IsTable}

-- The state of the job that the line becomes, if it does.
abbrev pub becomes : Answers → Mode → Option State
becomes a foreground = if a.stopped then some suspended else none
becomes a background = some running

-- The line, parsed to a pipe that the shell does not run itself; no reports.
pub record IsPlain (usable : ℕ → ℕ) (a : Answers) (line : Bytes) (st : Status) (cmds : List Command)
    (mode : Mode) : Type 0 where
  pub quiet_prompt : a.at_prompt ≡ []
  pub quiet_wait : a.at_wait ≡ []
  pub typed : a.line ≡ some line
  pub parsed : parser usable a.unset line ≡ some (st, cmds, mode)
  pub forked : runs_itself cmds mode ≡ false

-- The place of the next job, and the front, when the line is taken up: in the foreground
-- `reap_dead_jobs` has run.
abbrev pub next_place : Mode → Shell → ℕ
next_place foreground s = rear_of s
next_place background s = s.jobs_rear

abbrev pub first_place : Mode → Shell → ℕ
first_place foreground s = front_of s
first_place background s = s.jobs_front

-- The table behind the line.
unfoldable pub After : Answers → Bytes → Mode → Option State → Shell → Shell → Type 0
After a line mode none s t =
    (t.jobs_list ≡ s.jobs_list)
    × (t.jobs_front ≡ first_place mode s)
    × (t.jobs_rear ≡ next_place mode s)
    × (t.jobs_n ≡ s.jobs_n)
After a line mode (some st) s t =
    (t.jobs_list
      ≡ set s.jobs_list (next_place mode s)
          (live (record { pgid = a.pid; state = st; cmdline = line })))
    × (t.jobs_front ≡ first_place mode s)
    × (t.jobs_rear ≡ next_place mode s + 1)
    × (t.jobs_n ≡ add_int s.jobs_n (pos 1))

-- What the shell comes to before it runs the line.
abbrev pub prompted : Answers → Shell → Shell
prompted a s = print (a.cwd ++ b'>' ∷ []) (record s { buf = a.cwd })

abbrev stop_line : Shell → Bytes
stop_line r = b'[' ∷ decimal (pos r.jobs_rear) (codes "] Stopped " ++ r.buf)

pub interpreter-plain :
    (a : Answers) (line : Bytes) (st : Status) (cmds : List Command) (mode : Mode) (s u t : Shell)
    → IsPlain s.usable a line st cmds mode
    → u.usable ≡ s.usable
    → show_done (prompted a s) ≡ some u
    → await_child a mode (record u { buf = line }) ≡ some t
    → interpreter a s ≡ some (goes_on t)
unfolding interpreter run_line sigchild_handler
interpreter-plain a line st cmds mode s u t p same shown waited =
    let parsed : parser u.usable a.unset line ≡ some (st, cmds, mode) =
      ap (λ f. parser f a.unset line) same ∙ p.parsed in
    ground (arith, p.quiet_prompt, p.typed, parsed, p.forked, shown, waited)

-- The table depends on the array and its bounds only.
pub IsTable-ap :
    (s t : Shell)
    → t.jobs_list ≡ s.jobs_list
    → t.jobs_front ≡ s.jobs_front
    → t.jobs_rear ≡ s.jobs_rear
    → IsTable s
    → IsTable t
IsTable-ap s t l f r v = record {
  size = ap length l ∙ v.size;
  order = omega (arith, f, r, v.order);
  room = omega (arith, r, v.room);
  jobs_live = rw (l, f, r) v.jobs_live;
}

stopped_job :
    (a : Answers) (s r : Shell)
    → IsTable r
    → r.jobs_rear < max_jobs
    → copies s.usable s.buf (length s.buf) ≡ true
    → r.usable ≡ s.usable
    → r.buf ≡ s.buf
    → r.child_pid ≡ a.pid
    → r.jobs_list ≡ s.jobs_list
    → r.jobs_front ≡ front_of s
    → r.jobs_rear ≡ rear_of s
    → r.jobs_n ≡ s.jobs_n
    → (t : Shell) × (insert_jobs r.child_pid r.buf suspended r ≡ some t)
      × IsTable (print (stop_line r) t)
      × After a s.buf foreground (some suspended) s (print (stop_line r) t)
unfolding After
stopped_job a s r v room fits u b c l f k m =
    let fits' : copies r.usable r.buf (length r.buf) ≡ true = rw (u, b) fits in
    let (t, e, w, list, front, rear, count) =
      insert_jobs-IsTable r.child_pid r.buf suspended r room fits' v in
    (
      t,
      e,
      IsTable-ap t (print (stop_line r) t) refl refl refl w,
      (
        list
            ∙ ap (λ x. set x r.jobs_rear (live (job_of r.child_pid r.buf))) l
            ∙ ap (λ x. set s.jobs_list x (live (job_of r.child_pid r.buf))) k
            ∙ ap (λ x. set s.jobs_list (rear_of s) (live (job_of x r.buf))) c
            ∙ ap (λ x. set s.jobs_list (rear_of s) (live (job_of a.pid x))) b,
        front ∙ f,
        rear ∙ ap (λ x. x + 1) k,
        count ∙ ap (λ x. add_int x (pos 1)) m,
      ),
    )
  where
    job_of : ℕ → Bytes → Job
    job_of p x = record { pgid = p; state = suspended; cmdline = x }

pub await_child-After :
    (a : Answers) (mode : Mode) (s : Shell)
    → a.at_wait ≡ []
    → IsTable s
    → s.jobs_rear < max_jobs
    → copies s.usable s.buf (length s.buf) ≡ true
    → (t : Shell) × (await_child a mode s ≡ some t)
      × IsTable t
      × After a s.buf mode (becomes a mode) s t
unfolding await_child After sigchild_handler
await_child-After a background s quiet v room fits =
    let told = print (b'[' ∷ decimal (pos s.jobs_rear) (codes "] : " ++ s.buf)) s in
    let (t, e, w, list, front, rear, count) =
      insert_jobs-IsTable a.pid s.buf running told room fits (IsTable-ap s told refl refl refl v) in
    (t, e, w, (list, front, rear, count))
await_child-After a foreground s quiet v room fits =
    let start = record s { child_pid = a.pid } in
    let (r, e, w, list, room', b, c, f, k, u, m) =
      reap_dead_jobs-IsTable start (IsTable-ap s start refl refl refl v) room in
    let after =
      λ (x : Bool) (t : Shell). After a s.buf foreground (if x then some suspended else none) s t in
    elim (Bool-cases a.stopped) [
      | inl was ↦
          let (t, i, w', placed) = stopped_job a s r w room' fits u b c list f k m in
          (
            print (stop_line r) t,
            ground (arith, e, quiet, was, i),
            w',
            subst (λ x. after x (print (stop_line r) t)) (sym was) placed,
          )
      | inr not_stopped ↦ (
        r,
        ground (arith, e, quiet, not_stopped),
        w,
        subst (λ x. after x r) (sym not_stopped) (list, f, k, m),
      )
    ]

-- A line whose commands the shell does not run itself, on a table of live jobs that is not full, while no
-- ended job waits to be shown and no reports come, and with room for a NUL in the block for the line: the
-- shell goes on with a table of live jobs. If the line is in the background (running) or was stopped
-- (suspended), its job stands at the rear, which is one further, and is counted; all other entries are
-- the same, and all of them and the count if it becomes no job. Before that, a line in the foreground with no jobs counted sets the front
-- and the rear back to 1; otherwise the front stays.
pub interpreter-After :
    (a : Answers) (line : Bytes) (st : Status) (cmds : List Command) (mode : Mode) (s : Shell)
    (done : List ℕ)
    → IsPlain s.usable a line st cmds mode
    → IsTable s
    → s.jobs_rear < max_jobs
    → copies s.usable line (length line) ≡ true
    → s.jobs_done ≡ 0 ∷ done
    → (t : Shell) × (interpreter a s ≡ some (goes_on t))
      × IsTable t
      × After a line mode (becomes a mode) s t
unfolding show_done After
interpreter-After a line st cmds mode s done p v room fits none_done =
    let u = record (prompted a s) { buf = line } in
    let (t, e, w, after) =
      await_child-After a mode u p.quiet_wait (IsTable-ap s u refl refl refl v) room fits in
    (
      t,
      interpreter-plain a line st cmds mode s (prompted a s) t p refl (ground (arith, none_done)) e,
      w,
      same_After a line mode (becomes a mode) s t after,
    )
  where
    same_After :
        (a : Answers) (line : Bytes) (mode : Mode) (b : Option State) (s t : Shell)
        → After a line mode b (record (prompted a s) { buf = line }) t
        → After a line mode b s t
    same_After a line foreground none s t h = h
    same_After a line background none s t h = h
    same_After a line foreground (some st) s t h = h
    same_After a line background (some st) s t h = h
