-- ===== src/Shell/Jobs.antt =====
-- The table of jobs of myshell/module/jobs.c.
-- A pointer of `jobs_list` is NULL, a job, or a job that was freed; following one of the others, or
-- leaving an array, is undefined in C and `none` here.
pub mod Table
use system_software.Prelude.{
  ℕ, zero, suc, ◌+◌, ◌-◌, List, [], ◌∷◌, ◌++◌, Bool, true, false, not, Option, none, some, ltb,
  ◌==◌, if◌then◌else◌, get_elem?, set, drop, length, ◌&&◌,
}
use system_software.Prelude.Int.{ℤ, pos, negsuc, add_int, eqb_ℤ}
use system_software.Server.Text.{Bytes, decimal, atoi}
use system_software.Server.Parser.{codes}

-- `STATE`
pub data State : Type 0 where
  running suspended terminated : State

-- `JOB`
pub record Job : Type 0 where
  pub pgid : ℕ
  pub state : State
  pub cmdline : Bytes

pub data Slot : Type 0 where
  null freed : Slot
  live : Job → Slot

pub data Signal : Type 0 where
  cont usr1 usr2 : Signal

-- The globals of jobs.h and common.h, what was printed and which signals were sent, latest first; and
-- the number of bytes that the allocator's block for a size has.
pub record Shell : Type 0 where
  pub jobs_front : ℕ
  pub jobs_rear : ℕ
  pub jobs_n : ℤ
  pub jobs_list : List Slot
  pub jobs_done : List ℕ
  pub child_pid : ℕ
  pub buf : Bytes
  pub out : List Bytes
  pub sent : List (ℕ × Signal)
  pub usable : ℕ → ℕ

-- MAXJOBS
abbrev pub max_jobs : ℕ
max_jobs = 1024

-- `jobs_list[i]->…`
unfoldable pub deref : List Slot → ℕ → Option Job
deref list i = elim (get_elem? list i) [
  | none ↦ none
  | some null ↦ none
  | some freed ↦ none
  | some (live j) ↦ some j
]

abbrev pub print : Bytes → Shell → Shell
print text s = record s { out = text ∷ s.out }

abbrev pub send : ℕ → Signal → Shell → Shell
send pid sig s = record s { sent = (pid, sig) ∷ s.sent }

abbrev pub set_state : ℕ → Job → State → Shell → Shell
set_state i j st s = record s { jobs_list = set s.jobs_list i (live (record j { state = st })) }

-- A block of that size holds the text and its NUL.
abbrev pub copies : (ℕ → ℕ) → Bytes → ℕ → Bool
copies usable text size = ltb (length text) (usable size)

unfoldable pub insert_jobs : ℕ → Bytes → State → Shell → Option Shell
insert_jobs pgid cmdline state s =
    if ltb s.jobs_rear max_jobs && copies s.usable cmdline (length cmdline)
    then some (record s {
      jobs_n = add_int s.jobs_n (pos 1);
      jobs_list =
          set s.jobs_list s.jobs_rear
            (live (record { pgid = pgid; state = state; cmdline = cmdline }));
      jobs_rear = s.jobs_rear + 1;
    })
    else none

abbrev pub state_text : State → Bytes
state_text running = codes "RUNNING   "
state_text suspended = codes "SUSPENDED "
state_text terminated = codes "TERMINATED "

-- The lines for `left` jobs from index `i` on.
unfoldable pub print_from : ℕ → ℕ → Shell → Option Shell
print_from zero i s = some s
print_from (suc left) i s = elim (deref s.jobs_list i) [
  | none ↦ none
  | some j ↦
      let line = b'[' ∷ decimal (pos i) (codes "] " ++ (state_text j.state ++ j.cmdline)) in
      print_from left (suc i) (print line s)
]

unfoldable pub print_jobs : Shell → Option Shell
print_jobs s = print_from (s.jobs_rear - s.jobs_front) s.jobs_front s

-- `while (jobs_done[i])`, on the array from index `i` on.
unfoldable pub print_done_from : List ℕ → ℕ → Shell → Option Shell
print_done_from [] i s = none
print_done_from (zero ∷ done) i s = some s
print_done_from (suc k ∷ done) i s = elim (deref s.jobs_list (suc k)) [
  | none ↦ none
  | some j ↦
      let line = b'[' ∷ decimal (pos (suc k)) (codes "] Done " ++ j.cmdline) in
      print_done_from done (suc i) (record s {
        out = line ∷ s.out;
        jobs_list = set s.jobs_list (suc k) freed;
        jobs_done = set s.jobs_done i 0;
        jobs_n = add_int s.jobs_n (negsuc 0);
      })
]

unfoldable pub print_done_jobs : Shell → Option Shell
print_done_jobs s = print_done_from s.jobs_done 0 s

abbrev pub is_terminated : State → Bool
is_terminated terminated = true
is_terminated _ = false

-- The loop over `left` jobs from index `i` on; the next entry of `jobs_done` is `j`.
unfoldable pub reap_from : ℕ → ℕ → ℕ → Shell → Option Shell
reap_from zero i j s = some s
reap_from (suc left) i j s = elim (deref s.jobs_list i) [
  | none ↦ none
  | some job ↦ elim (is_terminated job.state) [
    | true ↦ reap_from left (suc i) (suc j) (record s { jobs_done = set s.jobs_done j i })
    | false ↦ reap_from left (suc i) j s
  ]
]

unfoldable pub reap_dead_jobs : Shell → Option Shell
reap_dead_jobs s = elim (reap_from (s.jobs_rear - s.jobs_front) s.jobs_front 0 s) [
  | none ↦ none
  | some t ↦ some (if eqb_ℤ t.jobs_n (pos 0) then record t { jobs_front = 1; jobs_rear = 1 } else t)
]

-- `while (!jobs_list[i]) i++`, on the array from index `i` on.
unfoldable pub skip_null : List Slot → ℕ → Option ℕ
skip_null [] i = none
skip_null (null ∷ rest) i = skip_null rest (suc i)
skip_null (freed ∷ rest) i = some i
skip_null (live j ∷ rest) i = some i

-- The index of the first of `left` jobs from `i` on with a process group, `none` inside for -1.
unfoldable pub find_pgid : List Slot → ℕ → ℕ → ℕ → Option (Option ℕ)
find_pgid list pid zero i = some none
find_pgid list pid (suc left) i = elim (deref list i) [
  | none ↦ none
  | some j ↦ elim (j.pgid == pid) [ true ↦ some (some i) | false ↦ find_pgid list pid left (suc i) ]
]

unfoldable pub find_jobs_by_pid : ℕ → Shell → Option (Option ℕ × Shell)
find_jobs_by_pid pid s = elim (skip_null (drop s.jobs_front s.jobs_list) s.jobs_front) [
  | none ↦ none
  | some i ↦ elim (find_pgid s.jobs_list pid (s.jobs_rear - i) i) [
    | none ↦ none
    | some found ↦ some (found, record s { jobs_front = i })
  ]
]
