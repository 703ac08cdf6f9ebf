-- ===== src/Shell/Control/Faults.antt =====
-- What fg, bg and kill do to the table, and which of their uses follow a bad pointer.
use system_software.Prelude.{
  ℕ, zero, suc, ◌+◌, ◌-◌, ◌<◌, ◌≤◌, ◌≡◌, refl, ◌∙◌, List, [], ◌∷◌, ◌++◌, false, Option, none, some,
  get_elem?, set, length, arith, Bool-cases, Option-cases, inl, inr, ◌⊎◌, get_elem?-set_self,
  length-set, ℕ_discrete,
}
use system_software.Prelude.Int.{ℤ, pos, negsuc, add_int, eqb_ℤ}
use system_software.Server.Text.{Bytes, decimal, atoi}
use system_software.Server.Parser.{codes}
use system_software.Shell.Jobs.{
  State, terminated, Job, Slot, freed, live, Shell, deref, print, send, set_state, print_from,
  print_jobs, state_text, is_terminated, cont, usr1, usr2, copies,
}
use system_software.Shell.Jobs.Table.{IsTable, Live-set}
use system_software.Shell.Control.{
  same_text, job_index_parser, find_job_by_command, Choice, message, chosen, inspect, choose, fg,
  kill_job,
}

-- The job that is chosen is live, and not terminated.
inspect-chosen :
    (index : ℤ) (s : Shell) (k : ℕ) (j : Job)
    → inspect index s ≡ some (chosen k j)
    → (get_elem? s.jobs_list k ≡ some (live j)) × (is_terminated j.state ≡ false)
unfolding inspect
inspect-chosen index s k j h = ground arith

choose-chosen :
    (argv : Option Bytes) (s : Shell) (k : ℕ) (j : Job)
    → choose argv s ≡ some (chosen k j)
    → (get_elem? s.jobs_list k ≡ some (live j)) × (is_terminated j.state ≡ false)
unfolding choose
choose-chosen none s k j h = absurd (cc)
choose-chosen (some []) s k j h = absurd (cc)
choose-chosen (some (c ∷ [])) s k j h = absurd (cc)
choose-chosen (some (c ∷ d ∷ cs)) s k j h =
    elim (Option-cases (job_index_parser s.usable (d ∷ cs))) [
      | inl f ↦ absurd (ground (arith, f, h))
      | inr (index, f) ↦ elim (Bool-cases (eqb_ℤ index (pos 0))) [
        | inl e ↦ elim (Option-cases (find_job_by_command (c ∷ d ∷ cs) s)) [
          | inl n ↦ absurd (ground (arith, f, e, n, h))
          | inr (x, n) ↦ inspect-chosen x s k j (ground (arith, f, e, n, h))
        ]
        | inr e ↦ inspect-chosen index s k j (ground (arith, f, e, h))
      ]
    ]

pub in_range : (list : List Slot) (k : ℕ) (x : Slot) → get_elem? list k ≡ some x → k < length list
in_range [] zero x h = cc
in_range [] (suc k) x h = cc
in_range (y ∷ list) zero x h = omega arith
in_range (y ∷ list) (suc k) x h = omega (arith, in_range list k x h)

pub set_state-IsTable :
    (s : Shell) (k : ℕ) (j : Job) (st : State)
    → get_elem? s.jobs_list k ≡ some (live j)
    → IsTable s
    → IsTable (set_state k j st s)
set_state-IsTable s k j st h v = record {
  size = length-set s.jobs_list k (live (record j { state = st })) ∙ v.size;
  order = v.order;
  room = v.room;
  jobs_live =
      Live-set s.jobs_list (s.jobs_rear - s.jobs_front) s.jobs_front k (record j { state = st })
        (in_range s.jobs_list k (live j) h) v.jobs_live;
}

-- `kill` keeps the table. It prints a message and changes no job, or marks one job that was not
-- terminated as terminated, sends it SIGUSR2, and changes no other job.
pub kill_job-IsTable :
    (argv : Option Bytes) (s t : Shell)
    → IsTable s
    → kill_job argv s ≡ some t
    → IsTable t
      × ((t.jobs_list ≡ s.jobs_list) × (t.sent ≡ s.sent)
          ⊎ ((k : ℕ) × (j : Job) × (get_elem? s.jobs_list k ≡ some (live j))
              × (is_terminated j.state ≡ false)
              × (t.jobs_list ≡ set s.jobs_list k (live (record j { state = terminated })))
              × (t.sent ≡ (j.pgid, usr2) ∷ s.sent)))
unfolding kill_job
kill_job-IsTable argv s t v h = answer (choose argv s) refl
  where
    answer :
        (c : Option Choice)
        → choose argv s ≡ c
        → IsTable t
          × ((t.jobs_list ≡ s.jobs_list) × (t.sent ≡ s.sent)
              ⊎ ((k : ℕ) × (j : Job) × (get_elem? s.jobs_list k ≡ some (live j))
                  × (is_terminated j.state ≡ false)
                  × (t.jobs_list ≡ set s.jobs_list k (live (record j { state = terminated })))
                  × (t.sent ≡ (j.pgid, usr2) ∷ s.sent)))
    answer none e = absurd (ground (arith, e, h))
    answer (some (message text)) e =
        let same : t ≡ print text s = ground (arith, e, h) in
        rw same (
          record { size = v.size; order = v.order; room = v.room; jobs_live = v.jobs_live },
          inl (refl, refl),
        )
    answer (some (chosen k j)) e =
        let (held, alive) = choose-chosen argv s k j e in
        let same : t ≡ send j.pgid usr2 (set_state k j terminated s) = ground (arith, e, h) in
        let w = set_state-IsTable s k j terminated held v in
        rw same (
          record { size = w.size; order = w.order; room = w.room; jobs_live = w.jobs_live },
          inr (k, j, held, alive, refl, refl),
        )

-- With a job spec whose text behind its first byte is not the decimal form of what `atoi` reads of it,
-- the choice of a job is a fault: it writes behind the block for that form, or reads `jobs_list[-1]`.
pub choose-none :
    (c d : ℕ) (cs : Bytes) (s : Shell)
    → same_text (decimal (atoi (d ∷ cs)) []) (d ∷ cs) ≡ false
    → choose (some (c ∷ d ∷ cs)) s ≡ none
unfolding choose job_index_parser inspect
choose-none c d cs s h =
    elim (Bool-cases (copies s.usable (decimal (atoi (d ∷ cs)) []) (length (d ∷ cs)))) [
      | inl e ↦ ground (arith, h, e)
      | inr e ↦ ground (arith, h, e)
    ]

pub deref-freed : (list : List Slot) (i : ℕ) → get_elem? list i ≡ some freed → deref list i ≡ none
unfolding deref
deref-freed list i h = ground arith

print_from-freed :
    (left i k : ℕ) (s : Shell)
    → i ≤ k
    → k < i + left
    → get_elem? s.jobs_list k ≡ some freed
    → print_from left i s ≡ none
unfolding print_from
print_from-freed zero i k s h l e = absurd (omega arith)
print_from-freed (suc left) i k s h l e = elim (Option-cases (deref s.jobs_list i)) [
  | inl n ↦ ground (arith, n)
  | inr (j, n) ↦ elim (ℕ_discrete k i) [
    | yes p ↦ absurd (ground (arith, n, deref-freed s.jobs_list k e, p))
    | no p ↦
        let line = b'[' ∷ decimal (pos i) (codes "] " ++ (state_text j.state ++ j.cmdline)) in
        let rest = print_from-freed left (suc i) k (print line s) (omega arith) (omega arith) e in
        ground (arith, n, rest)
  ]
]

-- `fg` with a job of the table that runs to its end frees the job and leaves it in the table: the
-- next `jobs` follows the freed pointer.
pub fg-print_jobs :
    (argv : Option Bytes) (s : Shell) (k : ℕ) (j : Job)
    → choose argv s ≡ some (chosen k j)
    → s.jobs_front ≤ k
    → k < s.jobs_rear
    → (t : Shell) × (fg false argv s ≡ some t) × (print_jobs t ≡ none)
unfolding fg print_jobs
fg-print_jobs argv s k j h l r =
    let (held, alive) = choose-chosen argv s k j h in
    let line = codes "Resumed [" ++ decimal (pos k) (codes "] " ++ j.cmdline) in
    let t : Shell = record s {
      child_pid = j.pgid;
      buf = j.cmdline;
      out = line ∷ s.out;
      jobs_list = set s.jobs_list k freed;
      jobs_n = add_int s.jobs_n (negsuc 0);
      sent = (j.pgid, usr1) ∷ (j.pgid, cont) ∷ s.sent;
    } in
    let gone = get_elem?-set_self s.jobs_list k freed (in_range s.jobs_list k (live j) held) in
    (
      t,
      ground (arith, h),
      print_from-freed (s.jobs_rear - s.jobs_front) s.jobs_front k t l (omega arith) gone,
    )
