-- ===== src/System.antt =====
-- The whole program: the shell (src/main.c) and its runtimes (src/runtime.c) as one system, in which
-- commands and the turns of programs follow each other in any order.
pub mod Count
pub mod Commands
pub mod Follows
pub mod Rounds
pub mod Ids
pub mod Invariant
pub mod Shell
pub mod Kill
use simbly.Global.{GlobalVar}
use simbly.Prelude.{ℕ, ◌≡◌, Bool, Option, List, ◌∷◌, ◌++◌, Bytes, done}
use simbly.Program.{Program, Cell, Token, Instruction}
use simbly.Runtime.Thread.{Runtime, Shared, runtime_step}
use simbly.Runtime.Turn.{Moment}
use simbly.Shell.Commands.{Sh, shell_init, shell_step}
use simbly.Voids.{HashTable, RingBuffer, CircularList}

module _ (max_alloc : ℕ) (instructions : HashTable Instruction) (vars : HashTable Cell)
    (ring : RingBuffer Token) (globals : HashTable (Option GlobalVar)) (table : instructions.Table)
    (list : CircularList (Program vars.Table ring.Buffer)) where
  open list use {Chain, Node}

  -- The shell and its runtimes after any sequence of commands and of rounds of the threads. A round is
  -- on the global variables as the last step has left them; what has been written before does not
  -- matter to it.
  pub data Reached : Sh max_alloc vars ring globals list → Type 0 where
    begins :
        (nprocs : ℕ) (t : globals.Table)
        → Reached (shell_init max_alloc vars ring globals list nprocs t)
    commands :
        {s : Sh max_alloc vars ring globals list} (files : Bytes → Option Bytes)
        (input rest : Bytes) (s' : Sh max_alloc vars ring globals list) (go : Bool)
        → Reached s
        → shell_step max_alloc vars ring globals list files input s ≡ done ((s', go), rest)
        → Reached s'
    rounds :
        {s : Sh max_alloc vars ring globals list} (moment : Moment globals.Table)
        (w w' : Shared globals.Table) (rs rest : List (Runtime Chain Node))
        (rt rt' : Runtime Chain Node)
        → Reached s
        → s.runtimes ≡ rs ++ (rt ∷ rest)
        → w.globals ≡ s.globals
        → runtime_step max_alloc instructions vars ring globals table list moment rt w
          ≡ done (rt', w')
        → Reached (record s { runtimes = rs ++ (rt' ∷ rest); globals = w'.globals })
