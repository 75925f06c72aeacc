-- ===== src/Shell/Commands.antt =====
-- The commands of main in src/main.c, on the words of a line.
pub mod Run
pub mod Reads
use Prim.Native.String.{String}
use simbly.Global.{GlobalVar}
use simbly.Prelude.{
  ℕ, zero, suc, Bool, true, false, not, ◌||◌, Option, none, some, List, [], ◌∷◌, ◌++◌, Bytes, codes,
  str_eq, ℤ, pos, replicate, length, leb, if◌then◌else◌, Outcome, done, undefined, ◌>>=◌,
  out_of_bounds, null_dereference, uninitialised_read, use_after_free,
}
use simbly.Program.{Program, Cell, Token}
use simbly.Program.Init.{program_init}
use simbly.Runtime.Thread.{Runtime, runtime_init, runtime_attach_program, runtime_stop, deref}
use simbly.Shell.Args.{
  words, max_int_str_len, all_digits, word_value, Parsed, arguments, not_a_number, number_too_long,
  read_args, no_args,
}
use simbly.Shell.Balance.{least_loaded}
use simbly.Shell.Input.{read_line}
use simbly.Shell.Kill.{id_of, mark_program_as_finished}
use simbly.Voids.{HashTable, RingBuffer, CircularList}

-- What shell_msg is called with; a runtime is named by its index.
pub data ShellMessage : Type 0 where
  empty_input run_usage kill_usage kill_expects_id id_too_long argument_too_long : ShellMessage
  all_usage unrecognized_command : ShellMessage
  no_such_program : ℤ → ShellMessage
  no_such_file : Bytes → ShellMessage
  nothing_running : ℕ → ShellMessage
  running : ℤ → ℕ → ℤ → ShellMessage

-- The locals of main and what it shares with the runtimes. `has_read` is whether strtok_r has written
-- saveptr.
pub record Shell (Chain Node GlobalTable : Type 0) : Type 0 where
  pub runtimes : List (Runtime Chain Node)
  pub globals : GlobalTable
  pub id_cnt : ℤ
  pub has_read : Bool
  pub messages : List ShellMessage

-- DEFAULT_THREAD_NUM
abbrev default_thread_num : ℕ
default_thread_num = 4

abbrev pub either : String → String → Bytes → Bool
either a b w = str_eq (codes a) w || str_eq (codes b) w

module _ (max_alloc : ℕ) (vars : HashTable Cell) (ring : RingBuffer Token)
    (globals : HashTable (Option GlobalVar))
    (list : CircularList (Program vars.Table ring.Buffer)) where
  open list use {Chain, Node, at}

  abbrev pub Sh : Type 0
  Sh = Shell Chain Node globals.Table

  abbrev pub R : Type 0
  R = Runtime Chain Node

  -- The shell before its first command, on a machine with so many processors.
  unfoldable pub shell_init : ℕ → globals.Table → Sh
  unfolding runtime_init
  shell_init nprocs t = record {
    runtimes = replicate (if leb nprocs 1 then default_thread_num else nprocs) (runtime_init list);
    globals = t;
    id_cnt = pos 1;
    has_read = false;
    messages = [];
  }

  abbrev pub shell_msg : ShellMessage → Sh → Sh
  shell_msg m s = record s { messages = s.messages ++ m ∷ [] }

  abbrev pub not_found : Option ℤ → Sh → Sh
  not_found none s = s
  not_found (some id) s = shell_msg (no_such_program id) s

  -- `kill`, on the words behind it
  unfoldable pub kill_command : List Bytes → Sh → Outcome Sh
  unfolding mark_program_as_finished
  kill_command [] s = done (shell_msg kill_expects_id s)
  kill_command (w ∷ words) s =
      let marked =
        mark_program_as_finished max_alloc globals list s.runtimes s.globals (word_value w)
        >>= λ (rts, t, missing).
            done (not_found missing (record s { runtimes = rts; globals = t })) in
      if not (all_digits w)
      then done (shell_msg kill_usage s)
      else if leb max_int_str_len (length w)
      then done (shell_msg id_too_long s)
      else marked

  -- The counts of the runtimes, each read under its lock.
  abbrev pub counts : List R → List ℤ
  counts [] = []
  counts (rt ∷ rts) = rt.program_cnt ∷ counts rts

  abbrev pub attach_at : List R → ℕ → Program vars.Table ring.Buffer → Outcome (List R)
  attach_at [] i p = undefined out_of_bounds
  attach_at (rt ∷ rts) zero p = runtime_attach_program list rt p >>= λ rt'. done (rt' ∷ rts)
  attach_at (rt ∷ rts) (suc i) p = attach_at rts i p >>= λ rts'. done (rt ∷ rts')

  -- The program that is started goes to the runtime with the fewest.
  abbrev pub started : Bytes → Sh → Parsed → Outcome Sh
  started text s not_a_number = done (shell_msg run_usage s)
  started text s number_too_long = done (shell_msg argument_too_long s)
  started text s (arguments vs) = program_init vars ring s.id_cnt text vs >>= λ (next, p).
      attach_at s.runtimes (least_loaded (counts s.runtimes)) p >>= λ rts.
      done (record s { runtimes = rts; id_cnt = next })

  abbrev pub on_file : Bytes → List Bytes → Sh → Option Bytes → Outcome Sh
  on_file fname words s none = done (shell_msg (no_such_file fname) s)
  on_file fname words s (some text) = read_args words no_args >>= started text s

  -- `run`, on the words behind it. `files` is the text of each file that access lets be read.
  unfoldable pub run_command : (Bytes → Option Bytes) → List Bytes → Sh → Outcome Sh
  unfolding read_args program_init least_loaded runtime_attach_program
  run_command files [] s = done (shell_msg run_usage s)
  run_command files (fname ∷ words) s = on_file fname words s (files fname)

  abbrev listed : ℕ → R → Option Node → Outcome ShellMessage
  listed i rt none = done (nothing_running i)
  listed i rt (some n) = deref (at rt.programs n) λ p. done (running (id_of p) i rt.program_cnt)

  -- `list`, from the runtime with the index on
  abbrev pub list_from : ℕ → List R → Outcome (List ShellMessage)
  list_from i [] = done []
  list_from i (rt ∷ rts) =
      listed i rt rt.curr >>= λ m. list_from (suc i) rts >>= λ ms. done (m ∷ ms)

  unfoldable pub list_command : Sh → Outcome Sh
  list_command s = list_from 0 s.runtimes >>= λ ms. done (record s { messages = s.messages ++ ms })

  abbrev pub go_on : Outcome Sh → Outcome (Sh × Bool)
  go_on o = o >>= λ s. done (s, true)

  -- The comparisons of the first word; `false` leaves the loop.
  unfoldable pub command : (Bytes → Option Bytes) → List Bytes → Sh → Outcome (Sh × Bool)
  unfolding kill_command run_command list_command str_eq
  command files [] s = undefined null_dereference
  command files (w ∷ words) s =
      if str_eq (codes "q") w || either "exit" "quit" w
      then done (s, false)
      else if either "k" "kill" w
      then go_on (kill_command words s)
      else if either "r" "run" w
      then go_on (run_command files words s)
      else if either "l" "list" w
      then go_on (list_command s)
      else if either "h" "help" w
      then done (shell_msg all_usage s, true)
      else done (shell_msg unrecognized_command s, true)

  -- strtok_r on what read_line returned. On NULL it goes on from saveptr: that was never written, or
  -- is in a line that was freed.
  abbrev pub on_line : (Bytes → Option Bytes) → Sh → Option Bytes → Outcome (Sh × Bool)
  on_line files s none = undefined (if s.has_read then use_after_free else uninitialised_read)
  on_line files s (some line) = command files (words line) (record s { has_read = true })

  -- The body of the loop in main, on what standard input still has.
  unfoldable pub shell_step : (Bytes → Option Bytes) → Bytes → Sh → Outcome ((Sh × Bool) × Bytes)
  unfolding read_line command
  shell_step files input s = read_line input >>= λ l.
      on_line files (record s { messages = s.messages ++ replicate l.empty_inputs empty_input })
        l.line
      >>= λ o. done (o, l.unread)

  -- `runtime_stop`, of each runtime, behind the loop.
  abbrev pub stop_all : List R → List R
  stop_all [] = []
  stop_all (rt ∷ rts) = runtime_stop list rt ∷ stop_all rts
