-- ===== src/Lib.antt =====
-- simbly: an interpreter of a small assembly language for many programs at once, in C.
--
-- The program. A shell (src/main.c) starts programs from files and gives each to a runtime, a thread
-- that runs the lines of its programs in turn (src/runtime.c). A line is read by the scanner
-- (src/scanner.c), which leaves tokens in a ring buffer, and is run by the executor (src/exec.c),
-- which takes them from there. A program has its own variables and labels in a hash table; the
-- global variables (src/global.c) are shared by all programs, and their elements serve as semaphores.
--
-- The files.
--   Prelude    the names, lists, integers, outcomes and strings that the others share. `Outcome` is
--              how a call ends: it returns, it ends the process, or its behaviour is undefined.
--   Voids      the hash table, the ring buffer and the circular list of libvoids, which is not in the
--              repository, as records of operations and laws. Every definition that uses them takes
--              them as a parameter; Voids.Lists and Voids.Chain have instances over lists.
--   Program    the structs of src/program.h, src/scanner.h and src/exec.h, the messages of
--              src/error.c, program_init and program_stop of src/program.c.
--   Scanner    src/scanner.c: Chars has NEXT_CHAR, the flushes and get_next_word; Magic parse_magic;
--              Tokens add_new_token; Operand parse_varval_token; Lines is_valid_label and the
--              handlers; Tokenize lexer_init, call_instruction_handler and tokenize_next_line.
--   Global     src/global.c: load, store, up, down, and program_state_blocked.
--   Exec       src/exec.c: Values has __varval_get_value and __varval_set_value; Machine the labels
--              and jumps; Handlers and Branch the handlers; Lines exec_instruction_line and
--              interpret_next_line, the one step of a program that a runtime takes.
--   Runtime    src/runtime.c: Clock has the slice of a turn and what a line costs, Turn the `switch` of
--              runtime_thread, Thread the list of programs with its cursor, the rounds of the thread,
--              runtime_init, runtime_attach_program and runtime_stop.
--   Shell      src/main.c: Input has read_line; Args the words and the arguments of `run`; Balance the
--              choice of a runtime; Kill mark_program_as_finished; Commands the loop of main.
--   System     the shell and its runtimes as one: any commands and any rounds of the threads, in any
--              order, and how many programs have an ID.
--   Tests      whole programs that are run, and the properties at concrete inputs.
-- Modules below these hold the proofs, by what they are about. A function keeps its name in C; where
-- it has several branches or loops, the helpers above it are its pieces, in the order of the source.
--
-- The state. `Reader` is what the scanner moves: the text of the file, what is unread, the position,
-- the state of the program and what has gone to stderr. `Program` adds the variables, the tokens and
-- the arguments, `Machine` the global variables and what PRINT has written. Calls pass these on.
-- `Runtime` is the list of programs with its cursor and count, `Shell` the runtimes with the global
-- variables, the next ID and what the shell has said.
--
-- Integers. `int` is an integer in the range of 32 bits, and a result outside of it is undefined
-- behaviour, also of `len` in `run`; `unsigned int` and `size_t` wrap at 2 ^ 32 and 2 ^ 64.
--
-- Memory. The arrays and the labels of a program and the arrays of the global variables are allocated
-- under a limit `max_alloc`, a parameter, above which the process ends as ENO makes it. The tokens, with
-- their data, and the places of the ring buffer are under parameters of the buffer: `alloc` tells
-- whether there is memory for a token, and `resize` whether there is for a size; where there is none
-- the process ends.
-- All other allocations are taken to succeed: those of src/main.c, src/program.c and src/runtime.c, the
-- name and the struct of an array operand in parse_varval_token, and what libvoids allocates for a pair
-- of a table or a node of a list.
--
-- Loops. The loops over characters recur on the unread bytes, or on the word. Five have fuel: the index
-- of an array has one more than the characters left in the word, of which each call takes one; the
-- tokens that a branch passes over, and the values of PRINT, one more than there are tokens; the
-- arguments of PRINT two more than the unread bytes, since each round takes one, but for a last
-- character of the file and for EOF; the search for a label three more, for its first line may still
-- have tokens of the line before.
--
-- Threads. A runtime is a step function: a round of its loops is one step, and what a step meets from
-- outside (the random number, the clock before and after each line, what other threads do to the
-- global variables during a timed wait) is an argument, `Moment`. Other threads act between steps: a
-- program is attached or marked by the shell there, and the global variables may have changed. A turn
-- of several lines is one step too, so the interleaving of single lines is not seen in it. Where the
-- readings of the clock run out, a turn ends; those behind the lines that use up its slice change
-- nothing. The shell is a step function on a line of input, and in System a command is one step between
-- rounds.
--
-- Not modelled. print_banner and the text of messages; the condition variable on which an idle runtime waits; the ownership of memory (free, and
-- pointers that a realloc makes stale, but for the variable that src/global.c frees); debug output;
-- locks, since each operation on global variables holds the lock throughout, so it is one step; files
-- with NUL bytes in a word, and I/O errors. What other threads do during a timed wait is a parameter.
pub mod Prelude
pub mod Voids
pub mod Program
pub mod Scanner
pub mod Global
pub mod Exec
pub mod Runtime
pub mod Shell
pub mod System
pub mod Tests
