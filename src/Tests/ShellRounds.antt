-- ===== src/Tests/ShellRounds.antt =====
-- Lines of the shell on a table with two jobs, one of which has ended.
use Prim.{tt}
use system_software.Prelude.{◌≡◌, refl, [], ◌∷◌, none, some, true, false, arith, replicate}
use system_software.Prelude.Int.{pos}
use system_software.Server.Text.{Bytes}
use system_software.Server.Parser.{codes, scan_until}
use system_software.Shell.Jobs.{Job, null, live, running, terminated, Shell}
use system_software.Shell.Jobs.Table.{IsTable}
use system_software.Tests.Shell.{usable}
use system_software.Shell.Parser.{
  Command, ok, syntax_err, entry, absolute, background, foreground, parser, parser_loop, find_name,
  find_shell_command, search, starts, find_arguments, arguments_loop, argument,
}
use system_software.Shell.Interpreter.{Answers, goes_on, runs_itself, interpreter}
use system_software.Shell.Interpreter.Rounds.{IsPlain, After, interpreter-After}
use system_software.Shell.Interpreter.Done.{HasEnded, interpreter-ended}

abbrev waiting : Job
waiting = record { pgid = 40; state = running; cmdline = codes "sleep 9 &\n" }

abbrev over : Job
over = record { pgid = 41; state = terminated; cmdline = codes "ls &\n" }

abbrev shell : Shell
shell = record {
  jobs_front = 1;
  jobs_rear = 3;
  jobs_n = pos 2;
  jobs_list = null ∷ live waiting ∷ live over ∷ replicate 1021 null;
  jobs_done = 0 ∷ replicate 1023 0;
  child_pid = 0;
  buf = [];
  out = [];
  sent = [];
  usable = usable;
}

shell-IsTable : IsTable shell
shell-IsTable = record {
  size = refl;
  order = omega arith;
  room = omega arith;
  jobs_live = ((waiting, refl), ((over, refl), tt));
}

abbrev typing : Bytes → Answers
typing line = record {
  cwd = codes "/";
  at_prompt = [];
  line = some line;
  unset = syntax_err;
  chdir = λ d. true;
  fg_stopped = false;
  pid = 50;
  at_wait = [];
  stopped = false;
  parent_pid = 10;
  getppid = 9;
}

abbrev behind : Bytes
behind = codes "less &\n"

abbrev paging : Command
paging = record { entry = entry absolute "less"; argc = 0; arguments = codes "less" ∷ [] }

behind-IsPlain : IsPlain usable (typing behind) behind ok (paging ∷ []) background
unfolding parser parser_loop find_shell_command find_name search starts find_arguments
    arguments_loop argument scan_until runs_itself
behind-IsPlain = record {
  quiet_prompt = refl;
  quiet_wait = refl;
  typed = refl;
  parsed = refl;
  forked = refl;
}

interpreter-After_example :
    (t : Shell) × (interpreter (typing behind) shell ≡ some (goes_on t))
    × IsTable t
    × After (typing behind) behind background (some running) shell t
interpreter-After_example =
    interpreter-After (typing behind) behind ok (paging ∷ []) background shell (replicate 1023 0)
      behind-IsPlain shell-IsTable (omega arith) refl refl

abbrev before : Bytes
before = codes "ls\n"

abbrev listing : Command
listing = record { entry = entry absolute "ls"; argc = 1; arguments = codes "ls" ∷ [] }

before-IsPlain : IsPlain usable (typing before) before ok (listing ∷ []) foreground
unfolding parser parser_loop find_shell_command find_name search starts find_arguments
    arguments_loop argument scan_until runs_itself
before-IsPlain = record {
  quiet_prompt = refl;
  quiet_wait = refl;
  typed = refl;
  parsed = refl;
  forked = refl;
}

shell-HasEnded : HasEnded shell 2 over (replicate 1023 0)
shell-HasEnded = record {
  table = shell-IsTable;
  front = omega arith;
  low = omega arith;
  high = omega arith;
  held = refl;
  ended = refl;
  counted = refl;
  unseen = refl;
}

interpreter-ended_example :
    (t : Shell) × (interpreter (typing before) shell ≡ some (goes_on t))
    × (interpreter (typing before) t ≡ none)
interpreter-ended_example =
    interpreter-ended (typing before) (typing before) before before ok ok (listing ∷ [])
      (listing ∷ []) shell 2 over (replicate 1023 0) before-IsPlain before-IsPlain refl
      shell-HasEnded
