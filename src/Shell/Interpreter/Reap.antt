-- ===== src/Shell/Interpreter/Reap.antt =====
-- What `reap_dead_jobs` and `print_done_jobs` do to a table whose jobs are live, and to a freed job.
use Prim.{tt}
use system_software.Prelude.{
  ℕ, zero, suc, ◌+◌, ◌-◌, ◌<◌, ◌≤◌, ◌≡◌, ◌≢◌, refl, ◌∙◌, List, [], ◌∷◌, ◌++◌, none, some, get_elem?,
  set, length, arith, true, Bool-cases, Option-cases, inl, inr, get_elem?-set_self,
  get_elem?-set_ne, length-set, ℕ_discrete, if◌then◌else◌,
}
use system_software.Prelude.Int.{pos, negsuc, add_int, eqb_ℤ}
use system_software.Server.Text.{decimal}
use system_software.Server.Parser.{codes}
use system_software.Shell.Jobs.{
  Job, Slot, freed, live, Shell, max_jobs, deref, print_done_from, is_terminated, reap_from,
  reap_dead_jobs,
}
use system_software.Shell.Jobs.Table.{Live, deref-live, IsTable}
use system_software.Shell.Control.Faults.{in_range, deref-freed}

-- The loop over live jobs changes `jobs_done` only, from index `j` on.
pub reap_from-Live :
    (left i j : ℕ) (s : Shell)
    → Live s.jobs_list left i
    → (done : List ℕ) × (reap_from left i j s ≡ some (record s { jobs_done = done }))
      × ((m : ℕ) → m < j → get_elem? done m ≡ get_elem? s.jobs_done m)
      × (length done ≡ length s.jobs_done)
unfolding reap_from
reap_from-Live zero i j s v = (s.jobs_done, refl, (λ m h. refl), refl)
reap_from-Live (suc left) i j s ((job, held), v) =
    let found = deref-live s.jobs_list i job held in
    elim (Bool-cases (is_terminated job.state)) [
      | inl e ↦
          let t = record s { jobs_done = set s.jobs_done j i } in
          let (done, run, same, size) = reap_from-Live left (suc i) (suc j) t v in
          (
            done,
            ground (arith, found, e, run),
            (λ m h. same m (omega (arith, h)) ∙ get_elem?-set_ne s.jobs_done i (omega (arith, h))),
            size ∙ length-set s.jobs_done j i,
          )
      | inr e ↦
          let (done, run, same, size) = reap_from-Live left (suc i) j s v in
          (done, ground (arith, found, e, run), same, size)
    ]

-- A terminated job in the range: the first such index is noted at `j`.
pub reap_from-terminated :
    (left i j k : ℕ) (s : Shell) (job : Job)
    → Live s.jobs_list left i
    → i ≤ k
    → k < i + left
    → get_elem? s.jobs_list k ≡ some (live job)
    → is_terminated job.state ≡ true
    → j < length s.jobs_done
    → (done : List ℕ) × (reap_from left i j s ≡ some (record s { jobs_done = done }))
      × ((first : ℕ) × (get_elem? done j ≡ some first) × (i ≤ first) × (first < i + left))
unfolding reap_from
reap_from-terminated zero i j k s job v l r e q h = absurd (omega (arith, l, r))
reap_from-terminated (suc left) i j k s job ((here, held), v) l r e q h =
    let found = deref-live s.jobs_list i here held in
    elim (Bool-cases (is_terminated here.state)) [
      | inl t ↦
          let s' = record s { jobs_done = set s.jobs_done j i } in
          let (done, run, same, size) = reap_from-Live left (suc i) (suc j) s' v in
          (
            done,
            ground (arith, found, t, run),
            (
              i,
              same j (omega arith) ∙ get_elem?-set_self s.jobs_done j i h,
              omega arith,
              omega arith,
            ),
          )
      | inr t ↦
          let later : i ≢ k = λ p. ground (arith, held, e, q, t, p) in
          let (done, run, (first, g, lo, hi)) =
            reap_from-terminated left (suc i) j k s job v (omega (arith, l, later))
              (omega (arith, r)) e q h in
          (done, ground (arith, found, t, run), (first, g, omega (arith, lo), omega (arith, hi)))
    ]

-- A freed job in the range is followed.
pub reap_from-freed :
    (left i j k : ℕ) (s : Shell)
    → i ≤ k
    → k < i + left
    → get_elem? s.jobs_list k ≡ some freed
    → reap_from left i j s ≡ none
unfolding reap_from
reap_from-freed zero i j k s h l e = absurd (omega (arith, h, l))
reap_from-freed (suc left) i j k s h l e = elim (Option-cases (deref s.jobs_list i)) [
  | inl n ↦ ground (arith, n)
  | inr (job, n) ↦ elim (ℕ_discrete k i) [
    | yes p ↦ absurd (ground (arith, n, deref-freed s.jobs_list k e, p))
    | no p ↦ elim (Bool-cases (is_terminated job.state)) [
      | inl t ↦
          let rest =
            reap_from-freed left (suc i) (suc j) k (record s { jobs_done = set s.jobs_done j i })
              (omega arith) (omega arith) e in
          ground (arith, n, t, rest)
      | inr t ↦
          let rest = reap_from-freed left (suc i) j k s (omega arith) (omega arith) e in
          ground (arith, n, t, rest)
    ]
  ]
]

-- A freed job stays freed.
set-freed :
    (list : List Slot) (m k : ℕ)
    → get_elem? list k ≡ some freed
    → get_elem? (set list m freed) k ≡ some freed
set-freed list m k e = elim (ℕ_discrete m k) [
  | yes p ↦ ground (arith, p, get_elem?-set_self list k freed (in_range list k freed e))
  | no p ↦ get_elem?-set_ne list freed p ∙ e
]

pub print_done_from-freed :
    (done : List ℕ) (i k : ℕ) (s t : Shell)
    → get_elem? s.jobs_list k ≡ some freed
    → print_done_from done i s ≡ some t
    → (get_elem? t.jobs_list k ≡ some freed)
      × (t.jobs_front ≡ s.jobs_front)
      × (t.jobs_rear ≡ s.jobs_rear)
      × (t.usable ≡ s.usable)
unfolding print_done_from
print_done_from-freed [] i k s t e h = absurd (cc)
print_done_from-freed (zero ∷ done) i k s t e h =
    (ground (arith, e, h), ground (arith, h), ground (arith, h), ground (arith, h))
print_done_from-freed (suc m ∷ done) i k s t e h = elim (Option-cases (deref s.jobs_list (suc m))) [
  | inl n ↦ absurd (ground (arith, n, h))
  | inr (job, n) ↦
      let line = b'[' ∷ decimal (pos (suc m)) (codes "] Done " ++ job.cmdline) in
      print_done_from-freed done (suc i) k
        (record s {
          out = line ∷ s.out;
          jobs_list = set s.jobs_list (suc m) freed;
          jobs_done = set s.jobs_done i 0;
          jobs_n = add_int s.jobs_n (negsuc 0);
        })
        t (set-freed s.jobs_list (suc m) k e) (ground (arith, n, h))
]

-- Where `reap_dead_jobs` leaves the front and the rear: with no jobs counted the table starts anew.
abbrev pub front_of : Shell → ℕ
front_of s = if eqb_ℤ s.jobs_n (pos 0) then 1 else s.jobs_front

abbrev pub rear_of : Shell → ℕ
rear_of s = if eqb_ℤ s.jobs_n (pos 0) then 1 else s.jobs_rear

-- `reap_dead_jobs` keeps such a table; its jobs stay as they are.
pub reap_dead_jobs-IsTable :
    (s : Shell)
    → IsTable s
    → s.jobs_rear < max_jobs
    → (t : Shell) × (reap_dead_jobs s ≡ some t)
      × IsTable t
      × (t.jobs_list ≡ s.jobs_list)
      × (t.jobs_rear < max_jobs)
      × (t.buf ≡ s.buf)
      × (t.child_pid ≡ s.child_pid)
      × (t.jobs_front ≡ front_of s)
      × (t.jobs_rear ≡ rear_of s)
      × (t.usable ≡ s.usable)
      × (t.jobs_n ≡ s.jobs_n)
unfolding reap_dead_jobs
reap_dead_jobs-IsTable s v room =
    let (done, run, same, size) =
      reap_from-Live (s.jobs_rear - s.jobs_front) s.jobs_front 0 s v.jobs_live in
    elim (Bool-cases (eqb_ℤ s.jobs_n (pos 0))) [
      | inl e ↦ (
        record s { jobs_done = done; jobs_front = 1; jobs_rear = 1 },
        ground (arith, run, e),
        record { size = v.size; order = omega arith; room = omega arith; jobs_live = tt },
        refl,
        omega arith,
        refl,
        refl,
        ground (arith, e),
        ground (arith, e),
        refl,
        refl,
      )
      | inr e ↦ (
        record s { jobs_done = done },
        ground (arith, run, e),
        record { size = v.size; order = v.order; room = v.room; jobs_live = v.jobs_live },
        refl,
        room,
        refl,
        refl,
        ground (arith, e),
        ground (arith, e),
        refl,
        refl,
      )
    ]
