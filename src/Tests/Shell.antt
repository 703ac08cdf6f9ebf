-- ===== src/Tests/Shell.antt =====
-- The shell with two jobs and with none, and lines of it.
use Prim.{tt}
use system_software.Prelude.{
  ℕ, suc, ◌+◌, ◌⊎◌, ◌≡◌, refl, List, [], ◌∷◌, ◌++◌, Option, none, some, true, false, arith,
  get_elem?, replicate, ◌-◌, length, set, if◌then◌else◌, ltb, ◌*◌, ◌/◌,
}
use system_software.Prelude.Int.{ℤ, pos}
use system_software.Server.Text.{decimal, atoi}
use system_software.Server.Parser.{codes}
use system_software.Shell.Jobs.{
  Job, Slot, null, live, running, suspended, terminated, Shell, max_jobs, print_jobs, is_terminated,
  usr2,
}
use system_software.Shell.Jobs.Table.{IsTable}
use system_software.Shell.Control.{
  choose, chosen, job_index_parser, inspect, fg, kill_job, same_text,
}
use system_software.Shell.Control.Faults.{kill_job-IsTable, fg-print_jobs}
use system_software.Shell.Parser.{Entry, command_list, search, num_command, starts}
use system_software.Shell.Parser.Search.{Found, search_lem}

abbrev sleeper : Job
sleeper = record { pgid = 40; state = running; cmdline = codes "sleep 9" }

abbrev editor : Job
editor = record { pgid = 41; state = suspended; cmdline = codes "vi" }

-- Blocks are multiples of 16 bytes, 8 of them for the size, and have 24 at least.
abbrev pub usable : ℕ → ℕ
usable n = if ltb n 25 then 24 else (n + 23) / 16 * 16 - 8

abbrev shell_of : List Slot → ℤ → Shell
shell_of jobs n = record {
  jobs_front = 0;
  jobs_rear = length jobs;
  jobs_n = n;
  jobs_list = jobs ++ replicate (max_jobs - length jobs) null;
  jobs_done = [];
  child_pid = 0;
  buf = [];
  out = [];
  sent = [];
  usable = usable;
}

abbrev two_jobs : Shell
two_jobs = shell_of (live sleeper ∷ live editor ∷ []) (pos 2)

abbrev no_jobs : Shell
no_jobs = shell_of [] (pos 0)

two_jobs-IsTable : IsTable two_jobs
two_jobs-IsTable = record {
  size = refl;
  order = omega arith;
  room = omega arith;
  jobs_live = ((sleeper, refl), ((editor, refl), tt));
}

-- Job 1 has process group 41.
job_1 : choose (some (codes "%1")) two_jobs ≡ some (chosen 1 editor)
unfolding choose same_text job_index_parser inspect decimal atoi
job_1 = refl

killed : Shell
killed = record two_jobs {
  jobs_list = set two_jobs.jobs_list 1 (live (record editor { state = terminated }));
  sent = (41, usr2) ∷ [];
}

kill_job_run : kill_job (some (codes "%1")) two_jobs ≡ some killed
unfolding kill_job killed
kill_job_run = ground (arith, job_1)

kill_job-IsTable_example :
    IsTable killed
    × ((killed.jobs_list ≡ two_jobs.jobs_list) × (killed.sent ≡ [])
        ⊎ ((k : ℕ) × (j : Job) × (get_elem? two_jobs.jobs_list k ≡ some (live j))
            × (is_terminated j.state ≡ false)
            × (killed.jobs_list ≡ set two_jobs.jobs_list k (live (record j { state = terminated })))
            × (killed.sent ≡ (j.pgid, usr2) ∷ [])))
kill_job-IsTable_example =
    kill_job-IsTable (some (codes "%1")) two_jobs killed two_jobs-IsTable kill_job_run

fg-print_jobs_example :
    (t : Shell) × (fg false (some (codes "%1")) two_jobs ≡ some t) × (print_jobs t ≡ none)
fg-print_jobs_example =
    fg-print_jobs (some (codes "%1")) two_jobs 1 editor job_1 (omega arith) (omega arith)

search_lem_example :
    (r : Option Entry) × (search (suc (num_command + 1)) 0 (num_command + 1) (codes "pwd\n")
      ≡ some r)
    × Found (codes "pwd\n") r
    × ((i : ℕ) (e : Entry)
        → get_elem? command_list i ≡ some e
        → starts (codes "pwd\n") e.name ≡ true
        → r ≡ some e)
search_lem_example = search_lem (codes "pwd\n")
