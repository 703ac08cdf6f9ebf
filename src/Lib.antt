-- ===== src/Lib.antt =====
-- Verification of the programs of this repository, by translation of their C functions.
--
-- concurrent_stockserver/event_driven, a stock server that serves all clients from one loop:
-- * binary_tree.c is Server.Tree (`insert`, `find`, `modify`); Server.Ledger is what a caller sees
--   of it, a list of entries. A node pointer is the path to the node from the root.
-- * The C library's `isspace`, %d, `atoi` and %s are Server.Text; stockfile_handle.c and
--   `print_to_buf` are Server.StockFile; `open` without O_TRUNC overwrites the front of a file.
-- * parser.c and the table of impl.c are Server.Parser; a buffer is the list of its bytes.
-- * util.c is Server.Rio: what the kernel answers to `read` and `write` is a list of events.
-- * network.c is Server.Pool (the table of clients) and Server.Event (the commands of impl.c,
--   `execute`, `write_pool`, and a round of the loop of stockserver.c, and in
--   Server.Event.Restart the start of the server). `select`, `accept` and
--   `close` are what the environment chooses: a record of the round, and a function.
--
-- concurrent_stockserver/thread_based, the same server with threads: the buffer of connections of
-- threading.c is Threaded.Sbuf. A thread stands before one of its semaphore operations or its access
-- to the array, a step is one operation of some thread, and a run is any sequence of steps. In the same
-- way Threaded.Requests has the commands of impl.c with `modify` of binary_tree.c, over what the
-- threads share; Threaded.Family sums over threads. Threaded.Service is `service` and `execute` of
-- network.c, over what the commands, writing and closing do; its fuel counts the lines.
--
-- myshell, a shell with jobs:
-- * module/jobs.c is Shell.Jobs (the table of jobs, whose slots are NULL, a job, or freed) and
--   Shell.Control (fg, bg and kill; exit of module/exit.c and the handler of SIGCHLD of sig.c).
-- * `parser`, `find_shell_command` and `find_arguments` of interpreter.c with the table of builtin.c
--   are Shell.Parser; a position in the line is what stands from there on.
-- * execute.c is Shell.Execute: the pipes between the commands of a line, with the ends that each
--   process has open, and the program that a command runs. `execv` is a parameter.
-- * `interpreter` of interpreter.c, with execute_function_command and module/cd.c, is
--   Shell.Interpreter: a line in the shell, and in the process that it forks. What the calls of the
--   system answer is a record.
--
-- mymalloc_nextfit/mm.c, a malloc for 32 bits, is NextFit: the heap is the list of its words, an
-- address counts words. NextFit.Layout and NextFit.Invariant read it as a list of blocks. `mem_sbrk`
-- of memlib.c is a parameter; NextFit.Grow says what memlib.c promises of it.
--
-- mymalloc_buddy/mm.c, a malloc by buddies of pages, is Buddy: the links of the lists are two maps on
-- nodes, the bitmaps are maps to words. Buddy.Ring and Buddy.Areas read the links as lists of blocks;
-- Buddy.Layout is where `mm_init` and `mapping_bitmap` place the areas, of which Buddy takes the
-- bitmaps to be apart.
--
-- CSE3030/calculator/hw1.c, addition and subtraction of 64-bit numbers by their bits, is Calculator.
-- A variable that is not initialised is an argument.
--
-- A C `int` is an integer brought back into 32 bits (Prelude.Int). Reading or writing outside a
-- buffer, which C leaves undefined, gives `none`; so do FD_SET with a descriptor outside of the set and
-- the exit of the program. The shell copies texts to blocks with no byte of their own for the NUL: how
-- many bytes the allocator's block for a size has is a parameter, `usable`, of its parser and of its
-- table of jobs, and a copy that does not fit with its NUL is `none`.
-- Loops over buffers and tables recur on them. `read_lines` has fuel, one more than the bytes of the
-- file, which is enough since each line takes a byte at least; the digits of a number have fuel above
-- the number. The binary search of the shell has fuel for one more than the places of its table, each
-- of which it looks at once at most. The loop of the shell's `parser` has fuel for one more than the
-- bytes of the line, of which a round takes one at least. A search of next_fit has fuel for one more
-- than the words of the heap, since it passes a block in each round.
--
-- Not modelled: csapp.c, memlib.c, the timing and trace drivers of the malloc labs (copies
-- of the CS:APP course's code), the exercises under excode, the clients, printing to the terminal,
-- name lookups, the set-up of the listening socket, the arguments of `main`,
-- and process groups.
pub mod Prelude
pub mod Server
pub mod Shell
pub mod Threaded
pub mod Calculator
pub mod Buddy
pub mod NextFit
pub mod Tests
