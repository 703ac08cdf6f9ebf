-- ===== src/Shell/Interpreter/Children.antt =====
-- The forked process for a line of commands with pipes.
use system_software.Prelude.{
  ℕ, suc, ◌≡◌, ◌<◌, refl, ap, ◌∙◌, List, [], ◌∷◌, map, some, length, arith, false, none,
}
use system_software.Server.Text.{Bytes}
use system_software.Shell.Parser.{Status, ok, Command, foreground, parser}
use system_software.Shell.Parser.Pipes.{Segment, AreSegments, pipeline, command_of, parser-pipeline}
use system_software.Shell.Execute.{Process}
use system_software.Shell.Execute.Pipes.{plumbing, execute_commands-plumbing}
use system_software.Shell.Interpreter.{runs_itself, starts, run_child, line_child}

length-map : (gs : List Segment) → length (map command_of gs) ≡ length gs
length-map [] = refl
length-map (g ∷ gs) = ap suc (length-map gs)

run_line_child :
    (usable : ℕ → ℕ) (p : Process) (unset st : Status) (line : Bytes) (c : Command)
    (cs : List Command)
    → parser usable unset line ≡ some (ok, c ∷ cs, foreground)
    → runs_itself (c ∷ cs) foreground ≡ false
    → line_child usable p unset line ≡ run_child p ok (c ∷ cs)
unfolding line_child
run_line_child usable p unset st line c cs e h = ground (arith, e, h)

-- A line of up to 15 commands with pipes between them, each a name of the table with at most 14 plain
-- words, that is not a single function of the shell, where the blocks that `calloc` gives for the copies
-- of the names and words have room for a NUL, cleared: the forked process, which has no descriptors of a
-- pipe open, starts these commands in their order, each with the words as its arguments and with the ends
-- of the pipes to its neighbours as its input and output.
pub line_child-pipeline :
    (usable : ℕ → ℕ) (p : Process) (unset : Status) (g : Segment) (gs : List Segment) (rest : Bytes)
    → AreSegments usable g gs
    → p.open_ends ≡ []
    → length gs < 15
    → runs_itself (map command_of (g ∷ gs)) foreground ≡ false
    → line_child usable p unset (pipeline g gs rest)
      ≡ some (starts (plumbing p.stdout 0 p.stdin (map command_of (g ∷ gs))))
unfolding run_child
line_child-pipeline usable p unset g gs rest are none_open few forked =
    let cs = map command_of gs in
    let started =
      execute_commands-plumbing p (command_of g) cs none_open (omega (arith, length-map gs, few)) in
    run_line_child usable p unset ok (pipeline g gs rest) (command_of g) cs
      (parser-pipeline usable unset g gs rest are) forked
    ∙ ap (λ r. elim r [ none ↦ none | some (children, q) ↦ some (starts children) ]) started
