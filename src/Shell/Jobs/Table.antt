-- ===== src/Shell/Jobs/Table.antt =====
-- When every job of the table is live, its functions follow no bad pointer.
use system_software.Prelude.{
  ℕ, zero, suc, ◌+◌, ◌-◌, ◌<◌, ◌≤◌, ◌≡◌, ◌≢◌, refl, sym, ap, ◌∙◌, subst, List, [], ◌∷◌, ◌++◌, true,
  false, Option, none, some, ◌==◌, get_elem?, set, length, drop, arith, Bool-cases, inl, inr,
  get_elem?-set_self, get_elem?-set_ne, length-set, replicate, ℕ_discrete,
}
use system_software.Prelude.Int.{pos, add_int}
use native.Mathlib.Nat.{add-zero}
use system_software.Server.Text.{Bytes, decimal}
use system_software.Server.Parser.{codes}
use system_software.Shell.Jobs.{
  State, Job, Slot, null, live, Shell, max_jobs, deref, print, insert_jobs, print_from, print_jobs,
  skip_null, find_pgid, find_jobs_by_pid, state_text, copies,
}

-- The `left` slots from `i` on hold jobs.
abbrev pub Live : List Slot → ℕ → ℕ → Type 0
Live list zero i = Unit {0}
Live list (suc left) i = ((j : Job) × (get_elem? list i ≡ some (live j))) × Live list left (suc i)

pub deref-live :
    (list : List Slot) (i : ℕ) (j : Job) → get_elem? list i ≡ some (live j) → deref list i ≡ some j
unfolding deref
deref-live list i j h = ground arith

-- A job that is written keeps all slots live.
pub Live-set :
    (list : List Slot) (left i k : ℕ) (job : Job)
    → k < length list
    → Live list left i
    → Live (set list k (live job)) left i
Live-set list zero i k job h v = tt
Live-set list (suc left) i k job h v = elim (ℕ_discrete k i) [
  | yes e ↦ (
    (job, rw (← e) (get_elem?-set_self list k (live job) h)),
    Live-set list left (suc i) k job h v.1,
  )
  | no n ↦
      ((v.0.0, get_elem?-set_ne list (live job) n ∙ v.0.1), Live-set list left (suc i) k job h v.1)
]

pub Live-extend :
    (list : List Slot) (left i : ℕ) (job : Job)
    → Live list left i
    → get_elem? list (i + left) ≡ some (live job)
    → Live list (suc left) i
Live-extend list zero i job v h = ((job, rw add-zero at h), tt)
Live-extend list (suc left) i job v h =
    let shift : i + suc left ≡ suc i + left = omega arith in
    (v.0, Live-extend list left (suc i) job v.1 (rw shift at h))

skip_null-live :
    (list : List Slot) (i start : ℕ) (j : Job)
    → get_elem? list i ≡ some (live j)
    → skip_null (drop i list) start ≡ some start
unfolding skip_null
skip_null-live [] zero start j h = cc
skip_null-live [] (suc i) start j h = cc
skip_null-live (x ∷ list) zero start j h = ground arith
skip_null-live (x ∷ list) (suc i) start j h = skip_null-live list i start j h

skip_null-nulls : (n i : ℕ) → skip_null (replicate n null) i ≡ none
unfolding skip_null
skip_null-nulls zero i = refl
skip_null-nulls (suc n) i = skip_null-nulls n (suc i)

-- The table between two commands: the array is whole, and its jobs are live.
pub record IsTable (s : Shell) : Type 0 where
  pub size : length s.jobs_list ≡ max_jobs
  pub order : s.jobs_front ≤ s.jobs_rear
  pub room : s.jobs_rear ≤ max_jobs
  pub jobs_live : Live s.jobs_list (s.jobs_rear - s.jobs_front) s.jobs_front

-- A new job keeps the table and stands at its end; nothing else of it changes. To fail takes a full
-- array, or a block with no room for the NUL of the line.
pub insert_jobs-IsTable :
    (pgid : ℕ) (cmdline : Bytes) (state : State) (s : Shell)
    → s.jobs_rear < max_jobs
    → copies s.usable cmdline (length cmdline) ≡ true
    → IsTable s
    → (t : Shell) × (insert_jobs pgid cmdline state s ≡ some t)
      × IsTable t
      × (t.jobs_list
          ≡ set s.jobs_list s.jobs_rear
              (live (record { pgid = pgid; state = state; cmdline = cmdline })))
      × (t.jobs_front ≡ s.jobs_front)
      × (t.jobs_rear ≡ s.jobs_rear + 1)
      × (t.jobs_n ≡ add_int s.jobs_n (pos 1))
unfolding insert_jobs
insert_jobs-IsTable pgid cmdline state s h fits v =
    let job : Job = record { pgid = pgid; state = state; cmdline = cmdline } in
    let list = set s.jobs_list s.jobs_rear (live job) in
    let inside : s.jobs_rear < length s.jobs_list = omega (arith, v.size) in
    let placed = get_elem?-set_self s.jobs_list s.jobs_rear (live job) inside in
    let end : s.jobs_front + (s.jobs_rear - s.jobs_front) ≡ s.jobs_rear = omega (arith, v.order) in
    let count : suc (s.jobs_rear - s.jobs_front) ≡ s.jobs_rear + 1 - s.jobs_front =
      omega (arith, v.order) in
    let older =
      Live-set s.jobs_list (s.jobs_rear - s.jobs_front) s.jobs_front s.jobs_rear job inside
        v.jobs_live in
    let all =
      Live-extend list (s.jobs_rear - s.jobs_front) s.jobs_front job older (rw end placed) in
    (
      record s { jobs_n = add_int s.jobs_n (pos 1); jobs_list = list; jobs_rear = s.jobs_rear + 1 },
      ground arith,
      record {
        size = length-set s.jobs_list s.jobs_rear (live job) ∙ v.size;
        order = omega (arith, v.order);
        room = omega arith;
        jobs_live = subst (λ n. Live list n s.jobs_front) count all;
      },
      refl,
      refl,
      refl,
      refl,
    )

print_from-Live :
    (left i : ℕ) (s : Shell)
    → Live s.jobs_list left i
    → (t : Shell) × (print_from left i s ≡ some t)
      × (t.jobs_list ≡ s.jobs_list)
      × (length t.out ≡ length s.out + left)
unfolding print_from
print_from-Live zero i s v = (s, refl, refl, omega arith)
print_from-Live (suc left) i s v =
    let j = v.0.0 in
    let line = b'[' ∷ decimal (pos i) (codes "] " ++ (state_text j.state ++ j.cmdline)) in
    let found = deref-live s.jobs_list i j v.0.1 in
    let (t, e, k, n) = print_from-Live left (suc i) (print line s) v.1 in
    (t, ground (arith, found, e), k, omega (arith, n))

-- On such a table `print_jobs` follows no bad pointer, prints one line for each job, and changes no
-- job.
pub print_jobs-IsTable :
    (s : Shell)
    → IsTable s
    → (t : Shell) × (print_jobs s ≡ some t)
      × (t.jobs_list ≡ s.jobs_list)
      × (length t.out ≡ length s.out + (s.jobs_rear - s.jobs_front))
unfolding print_jobs
print_jobs-IsTable s v = print_from-Live (s.jobs_rear - s.jobs_front) s.jobs_front s v.jobs_live

-- No job of the `left` slots from `i` on has the process group.
abbrev pub NoPgid : List Slot → ℕ → ℕ → ℕ → Type 0
NoPgid list pid zero i = Unit {0}
NoPgid list pid (suc left) i =
    ((j : Job) → get_elem? list i ≡ some (live j) → j.pgid ≢ pid) × NoPgid list pid left (suc i)

-- The outcome of a search of those slots: the first that has it, or none has it.
abbrev pub FirstPgid : List Slot → ℕ → ℕ → ℕ → Option ℕ → Type 0
FirstPgid list pid left i none = NoPgid list pid left i
FirstPgid list pid left i (some k) =
    (before : ℕ) × (j : Job) × (k ≡ i + before)
    × (before < left)
    × (get_elem? list k ≡ some (live j))
    × (j.pgid ≡ pid)
    × NoPgid list pid before i

other_pgid :
    (list : List Slot) (pid i : ℕ) (j : Job)
    → get_elem? list i ≡ some (live j)
    → (j.pgid == pid) ≡ false
    → (k : Job) → get_elem? list i ≡ some (live k)
    → k.pgid ≢ pid
other_pgid list pid i j h n k e p =
    let same : k ≡ j = live-injective k j (sym e ∙ h) in
    ground (arith, ap (λ (x : Job). x.pgid) same)
  where
    live-injective : (a b : Job) → some (live a) ≡ some (live b) → a ≡ b
    live-injective a b e = cc

pub find_pgid-FirstPgid :
    (list : List Slot) (pid left i : ℕ)
    → Live list left i
    → (r : Option ℕ) × (find_pgid list pid left i ≡ some r) × FirstPgid list pid left i r
unfolding find_pgid
find_pgid-FirstPgid list pid zero i v = (none, refl, tt)
find_pgid-FirstPgid list pid (suc left) i v =
    let j = v.0.0 in
    let found = deref-live list i j v.0.1 in
    elim (Bool-cases (j.pgid == pid)) [
      | inl e ↦ (
        some i,
        ground (arith, found, e),
        (0, j, omega arith, omega arith, v.0.1, ground (arith, e), tt),
      )
      | inr n ↦
          let other = other_pgid list pid i j v.0.1 n in
          later other (find_pgid-FirstPgid list pid left (suc i) v.1) (ground (arith, found, n))
    ]
  where
    later :
        ((k : Job) → get_elem? list i ≡ some (live k) → k.pgid ≢ pid)
        → ((r : Option ℕ) × (find_pgid list pid left (suc i) ≡ some r)
            × FirstPgid list pid left (suc i) r)
        → find_pgid list pid (suc left) i ≡ find_pgid list pid left (suc i)
        → (r : Option ℕ) × (find_pgid list pid (suc left) i ≡ some r)
          × FirstPgid list pid (suc left) i r
    later other (none, e, f) same = (none, same ∙ e, (other, f))
    later other (some k, e, (before, j, p, q, h, g, f)) same =
        (some k, same ∙ e, (suc before, j, omega (arith, p), omega arith, h, g, (other, f)))

-- With a job in the table `find_jobs_by_pid` finds the first with the process group, or tells that
-- there is none.
pub find_jobs_by_pid-FirstPgid :
    (pid : ℕ) (s : Shell)
    → IsTable s
    → s.jobs_front < s.jobs_rear
    → (r : Option ℕ) × (find_jobs_by_pid pid s ≡ some (r, s))
      × FirstPgid s.jobs_list pid (s.jobs_rear - s.jobs_front) s.jobs_front r
unfolding find_jobs_by_pid
find_jobs_by_pid-FirstPgid pid s v h =
    let first = head-live (s.jobs_rear - s.jobs_front) v.jobs_live (omega arith) in
    let start = skip_null-live s.jobs_list s.jobs_front s.jobs_front first.0 first.1 in
    let (r, e, f) =
      find_pgid-FirstPgid s.jobs_list pid (s.jobs_rear - s.jobs_front) s.jobs_front v.jobs_live in
    (r, ground (arith, start, e), f)
  where
    head-live :
        (left : ℕ)
        → Live s.jobs_list left s.jobs_front
        → 0 < left
        → (j : Job) × (get_elem? s.jobs_list s.jobs_front ≡ some (live j))
    head-live zero v h = absurd (omega arith)
    head-live (suc left) v h = v.0

-- Where no slot from the front on holds a job, the search for one leaves the array.
pub find_jobs_by_pid-none :
    (pid n : ℕ) (s : Shell)
    → drop s.jobs_front s.jobs_list ≡ replicate n null
    → find_jobs_by_pid pid s ≡ none
unfolding find_jobs_by_pid
find_jobs_by_pid-none pid n s h = ground (arith, h, skip_null-nulls n s.jobs_front)
