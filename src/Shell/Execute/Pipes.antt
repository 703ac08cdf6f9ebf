-- ===== src/Shell/Execute/Pipes.antt =====
-- The pipes of a command line.
use system_software.Prelude.{
  ℕ, suc, ◌+◌, ◌≡◌, ◌<◌, ◌≤◌, dec_lt, List, [], ◌∷◌, Bool, true, false, Option, none, some, length,
  if◌then◌else◌, arith, refl, ap, ◌∙◌,
}
use system_software.Shell.Parser.{Command}
use system_software.Shell.Execute.{
  End, read_end, write_end, Process, without, make_pipe, close_end, child, any_left, execute_loop,
  execute_commands,
}

-- Every command reads from the pipe of its number and writes to the next one, but for the input of the
-- first and the output of the last; it has no other end of a pipe.
abbrev pub plumbing : Option End → ℕ → Option End → List Command → List (Command × Process)
plumbing out i source [] = []
plumbing out i source (c ∷ cs) =
    (
      c,
      record {
        stdin = source;
        stdout = if any_left cs then some (write_end (suc i)) else out;
        open_ends = [];
      },
    )
    ∷ plumbing out (suc i) (some (read_end (suc i))) cs

-- What is open before a command is started: of the first pipe both ends.
abbrev held : ℕ → Bool → List End
held i both = read_end i ∷ (if both then write_end i ∷ [] else [])

abbrev ends_of_child : ℕ → List End → List End
ends_of_child i ends = without (write_end (suc i)) (
    without (read_end (suc i))
      (without (write_end i) (without (read_end i) (read_end (suc i) ∷ write_end (suc i) ∷ ends))))

ends_of_child_lem : (i : ℕ) (both : Bool) → ends_of_child i (held i both) ≡ []
ends_of_child_lem i true = ground arith
ends_of_child_lem i false = ground arith

child_lem :
    (i : ℕ) (from to both : Bool) (p : Process)
    → p.open_ends ≡ held i both
    → child i from to (make_pipe (suc i) p) ≡ record {
      stdin = if from then some (read_end i) else p.stdin;
      stdout = if to then some (write_end (suc i)) else p.stdout;
      open_ends = [];
    }
unfolding child
child_lem i from to both p e = cases from to
  where
    none_left : ends_of_child i p.open_ends ≡ []
    none_left = ap (ends_of_child i) e ∙ ends_of_child_lem i both

    cases :
        (from to : Bool)
        → child i from to (make_pipe (suc i) p) ≡ record {
          stdin = if from then some (read_end i) else p.stdin;
          stdout = if to then some (write_end (suc i)) else p.stdout;
          open_ends = [];
        }
    cases true true =
        ap
          (λ t. record {
            stdin = some (read_end i);
            stdout = some (write_end (suc i));
            open_ends = t;
          })
          none_left
    cases true false =
        ap (λ t. record { stdin = some (read_end i); stdout = p.stdout; open_ends = t }) none_left
    cases false true =
        ap (λ t. record { stdin = p.stdin; stdout = some (write_end (suc i)); open_ends = t })
          none_left
    cases false false =
        ap (λ t. record { stdin = p.stdin; stdout = p.stdout; open_ends = t }) none_left

abbrev ends_of_parent : ℕ → List End → List End
ends_of_parent i ends = without (write_end i) (
    without (write_end (suc i))
      (without (read_end i) (read_end (suc i) ∷ write_end (suc i) ∷ ends)))

ends_of_parent_lem : (i : ℕ) (both : Bool) → ends_of_parent i (held i both) ≡ held (suc i) false
ends_of_parent_lem i true = ground arith
ends_of_parent_lem i false = ground arith

parent_lem :
    (i : ℕ) (both : Bool) (p : Process)
    → p.open_ends ≡ held i both
    → close_end
        (write_end i)
        (close_end (write_end (suc i)) (close_end (read_end i) (make_pipe (suc i) p)))
      ≡ record p { open_ends = held (suc i) false }
parent_lem i both p e =
    ap (λ t. record p { open_ends = t }) (ap (ends_of_parent i) e ∙ ends_of_parent_lem i both)

loop_run :
    (i : ℕ) (from : Bool) (p started next q : Process) (c : Command) (cs : List Command)
    (children : List (Command × Process))
    → suc i < 16
    → child i from (any_left cs) (make_pipe (suc i) p) ≡ started
    → close_end
        (write_end i)
        (close_end (write_end (suc i)) (close_end (read_end i) (make_pipe (suc i) p)))
      ≡ next
    → execute_loop next (suc i) true cs ≡ some (children, q)
    → execute_loop p i from (c ∷ cs) ≡ some ((c, started) ∷ children, q)
unfolding execute_loop
loop_run i from p started next q c cs children h e f ran = ground (arith, h, e, f, ran)

-- What is open behind the last command.
left_open :
    (i : ℕ) (cs : List Command)
    → (if any_left cs then held (suc i + length cs) false else held (suc i) false)
      ≡ held (i + suc (length cs)) false
left_open i [] = ap (λ k. held k false) (omega arith)
left_open i (c ∷ cs) = ap (λ k. held k false) (omega arith)

loop_lem :
    (i : ℕ) (from both : Bool) (p : Process) (cs : List Command)
    → p.open_ends ≡ held i both
    → i + length cs < 16
    → execute_loop p i from cs
      ≡ some (
        plumbing p.stdout i (if from then some (read_end i) else p.stdin) cs,
        record p { open_ends = if any_left cs then held (i + length cs) false else p.open_ends },
      )
loop_lem i from both p [] e h = unfold execute_loop in refl
loop_lem i from both p (c ∷ cs) e h =
    let next : Process = record p { open_ends = held (suc i) false } in
    let children = plumbing p.stdout (suc i) (some (read_end (suc i))) cs in
    let rest =
      loop_lem (suc i) true false next cs refl (omega (arith, h))
      ∙ ap (λ t. some (children, record p { open_ends = t })) (left_open i cs) in
    loop_run i from p
      (record {
        stdin = if from then some (read_end i) else p.stdin;
        stdout = if any_left cs then some (write_end (suc i)) else p.stdout;
        open_ends = [];
      })
      next (record p { open_ends = held (i + suc (length cs)) false }) c cs children
      (omega (arith, h)) (child_lem i from (any_left cs) both p e) (parent_lem i both p e) rest

-- A line of up to 15 commands, in a process that has no other descriptors open: every command is started
-- once, in order. It reads from the pipe that the one before it writes to, the first one reads the input
-- and the last one writes the output of the process, and none has another end of a pipe, so that the end
-- of the input is seen. The process keeps the reading end of the last pipe.
pub execute_commands-plumbing :
    (p : Process) (c : Command) (cs : List Command)
    → p.open_ends ≡ []
    → length cs < 15
    → execute_commands p (c ∷ cs)
      ≡ some (
        plumbing p.stdout 0 p.stdin (c ∷ cs),
        record p { open_ends = read_end (suc (length cs)) ∷ [] },
      )
unfolding execute_commands
execute_commands-plumbing p c cs e h =
    loop_lem 0 false true (make_pipe 0 p) (c ∷ cs) (ap (λ t. read_end 0 ∷ write_end 0 ∷ t) e)
      (omega (arith, h))
    ∙ ap (λ k. some (plumbing p.stdout 0 p.stdin (c ∷ cs), record p { open_ends = held k false }))
        (omega arith)

loop_overflow :
    (i : ℕ) (from : Bool) (p : Process) (cs : List Command)
    → i < 16
    → 16 ≤ i + length cs
    → execute_loop p i from cs ≡ none
unfolding execute_loop
loop_overflow i from p [] h l = absurd (omega (arith, h, l))
loop_overflow i from p (c ∷ cs) h l =
    let next =
      close_end (write_end i)
        (close_end (write_end (suc i)) (close_end (read_end i) (make_pipe (suc i) p))) in
    elim (dec_lt (suc i) 16) [
      | yes room ↦ ground (arith, room, loop_overflow (suc i) true next cs room (omega (arith, l)))
      | no full ↦ ground (arith, full)
    ]

-- With 16 commands or more the descriptors of a pipe are written behind the array.
pub execute_commands-overflow :
    (p : Process) (cs : List Command) → 16 ≤ length cs → execute_commands p cs ≡ none
unfolding execute_commands
execute_commands-overflow p [] h = refl
execute_commands-overflow p (c ∷ cs) h =
    loop_overflow 0 false (make_pipe 0 p) (c ∷ cs) (omega arith) (omega (arith, h))
