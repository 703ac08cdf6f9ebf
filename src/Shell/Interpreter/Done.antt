-- ===== src/Shell/Interpreter/Done.antt =====
-- What becomes of the shell when a job in the background has ended.
use system_software.Prelude.{
  ℕ, zero, suc, ◌-◌, ◌<◌, ◌≤◌, ◌≡◌, refl, ap, ◌∙◌, List, [], ◌∷◌, ◌++◌, none, some, true, false,
  get_elem?, set, length, arith, Option-cases, inl, inr, get_elem?-set_self,
}
use system_software.Prelude.Int.{pos, negsuc, add_int, eqb_ℤ}
use system_software.Server.Text.{Bytes, decimal}
use system_software.Server.Parser.{codes}
use system_software.Shell.Jobs.{
  Job, freed, live, Shell, deref, is_terminated, print_done_from, print_done_jobs, reap_dead_jobs,
}
use system_software.Shell.Jobs.Table.{IsTable}
use system_software.Shell.Control.{sigchild_handler}
use system_software.Shell.Parser.{Status, Command, foreground, parser}
use system_software.Shell.Interpreter.{
  Answers, goes_on, await_child, show_done, run_line, interpreter,
}
use system_software.Shell.Interpreter.Reap.{
  reap_from-terminated, reap_from-freed, print_done_from-freed,
}
use system_software.Shell.Interpreter.Rounds.{IsPlain, IsTable-ap, prompted, interpreter-plain}

-- A job that is noted in `jobs_done`, and is in the range that the next loop goes over.
pub record IsNoted (s : Shell) (k : ℕ) (done : List ℕ) : Type 0 where
  pub noted : s.jobs_done ≡ suc k ∷ done
  pub low : s.jobs_front ≤ suc k
  pub high : suc k < s.jobs_rear
  pub inside : suc k < length s.jobs_list

-- The loop of `reap_dead_jobs` follows the pointer of a job that `print_done_jobs` has freed.
show_done-freed :
    (a : Answers) (s u : Shell) (k : ℕ) (done : List ℕ) (line : Bytes)
    → IsNoted s k done
    → show_done s ≡ some u
    → (reap_dead_jobs (record u { buf = line; child_pid = a.pid }) ≡ none) × (u.usable ≡ s.usable)
unfolding show_done print_done_jobs print_done_from reap_dead_jobs
show_done-freed a s u k done line n h =
    let start = record u { buf = line; child_pid = a.pid } in
    elim (Option-cases (deref s.jobs_list (suc k))) [
      | inl gone ↦ absurd (ground (arith, n.noted, h, gone))
      | inr (job, found) ↦
          let text = b'[' ∷ decimal (pos (suc k)) (codes "] Done " ++ job.cmdline) in
          let s' = record s {
            out = text ∷ s.out;
            jobs_list = set s.jobs_list (suc k) freed;
            jobs_done = set s.jobs_done 0 0;
            jobs_n = add_int s.jobs_n (negsuc 0);
          } in
          let rest : print_done_from done 1 s' ≡ some u = ground (arith, n.noted, h, found) in
          let (f, front, rear, same) =
            print_done_from-freed done 1 (suc k) s' u
              (get_elem?-set_self s.jobs_list (suc k) freed n.inside) rest in
          let followed =
            reap_from-freed (u.jobs_rear - u.jobs_front) u.jobs_front 0 (suc k) start
              (omega (arith, front, n.low)) (omega (arith, front, rear, n.low, n.high)) f in
          (ground (arith, followed), same)
    ]

first_entry : (xs : List ℕ) (x : ℕ) → get_elem? xs 0 ≡ some x → (rest : List ℕ) × (xs ≡ x ∷ rest)
first_entry [] x h = absurd (cc)
first_entry (y ∷ xs) x h = (xs, ground (arith, h))

positive : (n : ℕ) → 1 ≤ n → (k : ℕ) × (n ≡ suc k)
positive zero h = absurd (omega (arith, h))
positive (suc k) h = (k, refl)

-- A terminated job is in the table, and none waits to be shown.
pub record HasEnded (s : Shell) (k : ℕ) (job : Job) (done : List ℕ) : Type 0 where
  pub table : IsTable s
  pub front : 1 ≤ s.jobs_front
  pub low : s.jobs_front ≤ k
  pub high : k < s.jobs_rear
  pub held : get_elem? s.jobs_list k ≡ some (live job)
  pub ended : is_terminated job.state ≡ true
  pub counted : eqb_ℤ s.jobs_n (pos 0) ≡ false
  pub unseen : s.jobs_done ≡ 0 ∷ done

HasEnded-prompted :
    (a : Answers) (s : Shell) (k : ℕ) (job : Job) (done : List ℕ)
    → HasEnded s k job done
    → HasEnded (prompted a s) k job done
HasEnded-prompted a s k job done v = record {
  table = IsTable-ap s (prompted a s) refl refl refl v.table;
  front = v.front;
  low = v.low;
  high = v.high;
  held = v.held;
  ended = v.ended;
  counted = v.counted;
  unseen = v.unseen;
}

-- The first round notes a job.
reap_dead_jobs-IsNoted :
    (s : Shell) (k : ℕ) (job : Job) (done : List ℕ) (pid : ℕ) (line : Bytes)
    → HasEnded s k job done
    → (t : Shell) × (reap_dead_jobs (record s { buf = line; child_pid = pid }) ≡ some t)
      × (t.usable ≡ s.usable)
      × ((first : ℕ) × (rest : List ℕ) × IsNoted t first rest)
unfolding reap_dead_jobs
reap_dead_jobs-IsNoted s k job done pid line v =
    let start = record s { buf = line; child_pid = pid } in
    let (done', run, (first, g, lo, hi)) =
      reap_from-terminated (s.jobs_rear - s.jobs_front) s.jobs_front 0 k start job v.table.jobs_live
        v.low (omega (arith, v.low, v.high)) v.held v.ended (omega (arith, ap length v.unseen)) in
    let (rest, e) = first_entry done' first g in
    let (k', e') = positive first (omega (arith, lo, v.front)) in
    (
      record start { jobs_done = done' },
      ground (arith, run, v.counted),
      refl,
      (
        k',
        rest,
        record {
          noted = e ∙ ap (λ x. x ∷ rest) e';
          low = omega (arith, lo, e');
          high = omega (arith, hi, e');
          inside = omega (arith, hi, e', v.table.size, v.table.room);
        },
      ),
    )

-- A line in the foreground that does not stop.
foreground_run :
    (a : Answers) (line : Bytes) (st : Status) (cmds : List Command) (s u t : Shell)
    → IsPlain s.usable a line st cmds foreground
    → u.usable ≡ s.usable
    → a.stopped ≡ false
    → show_done (prompted a s) ≡ some u
    → reap_dead_jobs (record u { buf = line; child_pid = a.pid }) ≡ some t
    → interpreter a s ≡ some (goes_on t)
unfolding await_child sigchild_handler
foreground_run a line st cmds s u t p same ran shown reaped =
    interpreter-plain a line st cmds foreground s u t p same shown
      (ground (arith, ran, p.quiet_wait, reaped))

foreground_fault :
    (a : Answers) (line : Bytes) (st : Status) (cmds : List Command) (s u : Shell)
    → IsPlain s.usable a line st cmds foreground
    → u.usable ≡ s.usable
    → show_done (prompted a s) ≡ some u
    → reap_dead_jobs (record u { buf = line; child_pid = a.pid }) ≡ none
    → interpreter a s ≡ none
unfolding interpreter run_line await_child sigchild_handler
foreground_fault a line st cmds s u p same shown reaped =
    let parsed : parser u.usable a.unset line ≡ some (st, cmds, foreground) =
      ap (λ f. parser f a.unset line) same ∙ p.parsed in
    ground (arith, p.quiet_prompt, p.typed, parsed, p.forked, shown, reaped)

show_fault :
    (a : Answers) (line : Bytes) (st : Status) (cmds : List Command) (s : Shell)
    → IsPlain s.usable a line st cmds foreground
    → show_done (prompted a s) ≡ none
    → interpreter a s ≡ none
unfolding interpreter sigchild_handler
show_fault a line st cmds s p shown = ground (arith, p.quiet_prompt, p.typed, shown)

-- With a terminated job in a table of live jobs: after a line in the foreground whose commands the shell
-- does not run itself, and that is not stopped, the shell goes on; the next such line makes it follow the
-- pointer of a job that it has freed. No reports come, and no job was noted as ended before.
pub interpreter-ended :
    (a b : Answers) (line line' : Bytes) (st st' : Status) (cmds cmds' : List Command) (s : Shell)
    (k : ℕ) (job : Job) (done : List ℕ)
    → IsPlain s.usable a line st cmds foreground
    → IsPlain s.usable b line' st' cmds' foreground
    → a.stopped ≡ false
    → HasEnded s k job done
    → (t : Shell) × (interpreter a s ≡ some (goes_on t)) × (interpreter b t ≡ none)
unfolding show_done
interpreter-ended a b line line' st st' cmds cmds' s k job done p p' ran v =
    let (t, reaped, kept, (first, rest, n)) =
      reap_dead_jobs-IsNoted (prompted a s) k job done a.pid line
        (HasEnded-prompted a s k job done v) in
    let n' : IsNoted (prompted b t) first rest = record {
      noted = n.noted;
      low = n.low;
      high = n.high;
      inside = n.inside;
    } in
    let plain : IsPlain t.usable b line' st' cmds' foreground = rw kept p' in
    (
      t,
      foreground_run a line st cmds s (prompted a s) t p refl ran (ground (arith, v.unseen)) reaped,
      elim (Option-cases (show_done (prompted b t))) [
        | inl gone ↦ show_fault b line' st' cmds' t plain gone
        | inr (u, shown) ↦
            let (followed, same) = show_done-freed b (prompted b t) u first rest line' n' shown in
            foreground_fault b line' st' cmds' t u plain same shown followed
      ],
    )
