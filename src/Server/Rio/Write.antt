-- ===== src/Server/Rio/Write.antt =====
-- `rio_writen` writes everything, in order, or stops with an error.
use system_software.Prelude.{
  ℕ, suc, ◌≡◌, ◌≤◌, refl, ◌∙◌, sym, ap, List, [], ◌∷◌, ◌++◌, take, drop, length, take-append-drop,
  append_assoc, append-nil, arith, length-drop,
}
use system_software.Server.Text.{Bytes}
use system_software.Server.Rio.{
  WriteEvent, took_suc, Written, done, error, waiting, writen_loop, rio_writen,
}

-- `done` only with all bytes; otherwise what was written is a beginning of them.
abbrev pub WritesPrefix : Bytes → Written → Type 0
WritesPrefix s (done out) = out ≡ s
WritesPrefix s (error out) = (rest : Bytes) × (out ++ rest ≡ s)
WritesPrefix s (waiting out) = (rest : Bytes) × (out ++ rest ≡ s)

writen_loop-WritesPrefix :
    (out s : Bytes) (env : List WriteEvent) → WritesPrefix (out ++ s) (writen_loop out s env)
unfolding writen_loop
writen_loop-WritesPrefix out [] env = sym (append-nil out)
writen_loop-WritesPrefix out (c ∷ cs) [] = (c ∷ cs, refl)
writen_loop-WritesPrefix out (c ∷ cs) (took_suc k ∷ env) =
    let joined : (out ++ take (suc k) (c ∷ cs)) ++ drop (suc k) (c ∷ cs) ≡ out ++ c ∷ cs =
      append_assoc out (take (suc k) (c ∷ cs)) (drop (suc k) (c ∷ cs))
      ∙ ap (λ t. out ++ t) (take-append-drop (suc k) (c ∷ cs)) in
    rw joined at
      (writen_loop-WritesPrefix (out ++ take (suc k) (c ∷ cs)) (drop (suc k) (c ∷ cs)) env)
writen_loop-WritesPrefix out (c ∷ cs) (WriteEvent.interrupted ∷ env) =
    writen_loop-WritesPrefix out (c ∷ cs) env
writen_loop-WritesPrefix out (c ∷ cs) (WriteEvent.failed ∷ env) = (c ∷ cs, refl)

-- Whatever the kernel answers, what is written is a beginning of the buffer in its order, and the
-- whole buffer if the function returns its length.
pub rio_writen-WritesPrefix :
    (s : Bytes) (env : List WriteEvent) → WritesPrefix s (rio_writen s env)
unfolding rio_writen
rio_writen-WritesPrefix s env = writen_loop-WritesPrefix [] s env

-- Each answer that takes bytes counts; `n` such answers and no error are enough for `n` bytes.
abbrev pub taking : List WriteEvent → ℕ
taking [] = 0
taking (took_suc k ∷ env) = suc (taking env)
taking (WriteEvent.interrupted ∷ env) = taking env
taking (WriteEvent.failed ∷ env) = 0

abbrev pub NoFailure : List WriteEvent → Type 0
NoFailure [] = Unit {0}
NoFailure (took_suc k ∷ env) = NoFailure env
NoFailure (WriteEvent.interrupted ∷ env) = NoFailure env
NoFailure (WriteEvent.failed ∷ env) = ⊥

writen_loop_total :
    (out s : Bytes) (env : List WriteEvent)
    → NoFailure env
    → length s ≤ taking env
    → writen_loop out s env ≡ done (out ++ s)
unfolding writen_loop
writen_loop_total out [] env f h = rw (append-nil out) refl
writen_loop_total out (c ∷ cs) [] f h = absurd (omega arith)
writen_loop_total out (c ∷ cs) (took_suc k ∷ env) f h =
    let shorter : length (drop (suc k) (c ∷ cs)) ≤ taking env =
      omega (arith, length-drop {0} k cs) in
    writen_loop_total (out ++ take (suc k) (c ∷ cs)) (drop (suc k) (c ∷ cs)) env f shorter
    ∙ ap done (
        append_assoc out (take (suc k) (c ∷ cs)) (drop (suc k) (c ∷ cs))
        ∙ ap (λ t. out ++ t) (take-append-drop (suc k) (c ∷ cs)))
writen_loop_total out (c ∷ cs) (WriteEvent.interrupted ∷ env) f h =
    writen_loop_total out (c ∷ cs) env f h
writen_loop_total out (c ∷ cs) (WriteEvent.failed ∷ env) f h = elim f [ ]

-- If no `write` fails, and as many of them take something as there are bytes, interrupts not
-- counted, the loop ends with everything written.
pub rio_writen_total :
    (s : Bytes) (env : List WriteEvent)
    → NoFailure env
    → length s ≤ taking env
    → rio_writen s env ≡ done s
unfolding rio_writen
rio_writen_total s env f h = writen_loop_total [] s env f h
