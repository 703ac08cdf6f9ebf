-- ===== src/Tests/ShellLines.antt =====
-- A line of two commands.
use Prim.{tt}
use system_software.Prelude.{◌≡◌, refl, [], ◌∷◌, none, some, arith, inr}
use system_software.Server.Parser.{codes}
use system_software.Shell.Parser.{entry, absolute, syntax_err}
use system_software.Shell.Parser.Arguments.{AreArguments, IsArgument, AreBlank, joined, words}
use system_software.Shell.Execute.{Process}
use system_software.Tests.Shell.{usable}
use system_software.Shell.Execute.Pipes.{plumbing}
use system_software.Shell.Interpreter.{starts, line_child, runs_itself}
use system_software.Shell.Interpreter.Children.{line_child-pipeline}
use system_software.Shell.Parser.Pipes.{Segment, IsSegment, AreSegments, pipeline, text, command_of}

abbrev listing : Segment
listing = record {
  pre = [];
  entry = entry absolute "ls";
  gap = codes " ";
  args = (codes "-l", codes " ") ∷ [];
}

abbrev filter : Segment
filter = record {
  pre = codes " ";
  entry = entry absolute "grep";
  gap = codes " ";
  args = (codes "x", []) ∷ [];
}

listing-IsSegment : IsSegment usable listing
unfolding IsSegment AreArguments IsArgument AreBlank
listing-IsSegment = (
  (14, refl),
  tt,
  (refl, tt),
  (((λ e. omega (arith, e)), (refl, (refl, tt)), refl), (refl, tt), inr refl, tt),
  omega arith,
  refl,
  refl,
)

filter-IsSegment : IsSegment usable filter
unfolding IsSegment AreArguments IsArgument AreBlank
filter-IsSegment = (
  (10, refl),
  (refl, tt),
  (refl, tt),
  (((λ e. omega (arith, e)), (refl, tt), refl), tt, inr refl, tt),
  omega arith,
  refl,
  refl,
)

abbrev terminal : Process
terminal = record { stdin = none; stdout = none; open_ends = [] }

line_child-pipeline_example :
    line_child usable terminal syntax_err (codes "ls -l | grep x\n")
    ≡ some (starts (plumbing none 0 none (command_of listing ∷ command_of filter ∷ [])))
unfolding pipeline text joined command_of words AreSegments runs_itself
line_child-pipeline_example =
    line_child-pipeline usable terminal syntax_err listing (filter ∷ []) []
      (listing-IsSegment, filter-IsSegment) refl (omega arith) refl
