-- ===== src/Shell/Control/Handler.antt =====
-- What the reports of children that ended do to the table.
use system_software.Prelude.{
  ℕ, ◌-◌, ◌<◌, ◌≡◌, ◌≢◌, refl, [], ◌∷◌, Option, none, some, ◌==◌, set, arith, false,
}
use system_software.Shell.Jobs.{live, terminated, Shell, deref, set_state, find_jobs_by_pid}
use system_software.Shell.Jobs.Table.{IsTable, FirstPgid, find_jobs_by_pid-FirstPgid, deref-live}
use system_software.Shell.Control.{exited, sigchild_handler}
use system_software.Shell.Control.Faults.{set_state-IsTable}

-- A child other than the one in front that ended, reported to a shell with jobs: the first job with
-- its process group is marked as terminated, or nothing changes if no job has it; the table is kept,
-- and nothing is sent.
pub sigchild_handler-exited :
    (parent_pid pid : ℕ) (s : Shell)
    → IsTable s
    → s.jobs_front < s.jobs_rear
    → pid ≢ s.child_pid
    → (r : Option ℕ) × (t : Shell) × FirstPgid s.jobs_list pid
        (s.jobs_rear - s.jobs_front)
        s.jobs_front
        r
      × (sigchild_handler parent_pid (exited pid ∷ []) s ≡ some t)
      × IsTable t
      × (t.jobs_list ≡ elim r [
        | none ↦ s.jobs_list
        | some k ↦ elim (deref s.jobs_list k) [
          | none ↦ s.jobs_list
          | some j ↦ set s.jobs_list k (live (record j { state = terminated }))
        ]
      ])
      × (t.sent ≡ s.sent)
unfolding sigchild_handler
sigchild_handler-exited parent_pid pid s v h ne = answer (find_jobs_by_pid-FirstPgid pid s v h)
  where
    other : (pid == s.child_pid) ≡ false
    other = ground arith

    answer :
        ((r : Option ℕ) × (find_jobs_by_pid pid s ≡ some (r, s))
          × FirstPgid s.jobs_list pid (s.jobs_rear - s.jobs_front) s.jobs_front r)
        → (r : Option ℕ) × (t : Shell) × FirstPgid s.jobs_list pid
            (s.jobs_rear - s.jobs_front)
            s.jobs_front
            r
          × (sigchild_handler parent_pid (exited pid ∷ []) s ≡ some t)
          × IsTable t
          × (t.jobs_list ≡ elim r [
            | none ↦ s.jobs_list
            | some k ↦ elim (deref s.jobs_list k) [
              | none ↦ s.jobs_list
              | some j ↦ set s.jobs_list k (live (record j { state = terminated }))
            ]
          ])
          × (t.sent ≡ s.sent)
    answer (none, e, f) = (none, s, f, ground (arith, e, other), v, refl, refl)
    answer (some k, e, f) =
        let found = deref-live s.jobs_list k f.1 f.4 in
        (
          some k,
          set_state k f.1 terminated s,
          f,
          ground (arith, e, other, found),
          set_state-IsTable s k f.1 terminated f.4 v,
          ground (arith, found),
          refl,
        )
