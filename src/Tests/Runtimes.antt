-- ===== src/Tests/Runtimes.antt =====
-- The theorems on runtimes at concrete inputs: programs that sleep, in a list of two.
use simbly.Global.{GlobalVar}
use simbly.Prelude.{
  ℕ, ◌≡◌, refl, true, Option, none, some, List, [], ◌∷◌, ℤ, pos, ◌+◌, ◌*◌, done, arith,
}
use simbly.Program.Init.{program_with_id, open_file}
use simbly.Program.{Program, Cell, Token, Instruction, sleeping, instruction_line}
use simbly.Runtime.Clock.{nsec_per_sec, time_slice, line_cost}
use simbly.Runtime.Sleep.{sleeps, sleeps-total}
use simbly.Runtime.Slice.{later, line_cost-later}
use simbly.Runtime.Thread.Invariant.{IsRuntime, started, attaches, Reached-IsRuntime}
use simbly.Runtime.Thread.Queue.{Holds, from}
use simbly.Runtime.Thread.Rounds.{runtime_step-refines, run_steps, run_steps-reaches}
use simbly.Runtime.Thread.{
  Runtime, Shared, runtime_init, runtime_attach_program, runtime_step, machine_of,
}
use simbly.Runtime.Turn.{Moment, program_turn}
use simbly.Voids.Chain.{list_chain}
use simbly.Voids.Lists.{list_table, list_ring}

abbrev V : Type 0
V = (list_table Cell).Table

abbrev B : Type 0
B = (list_ring Token).Buffer

abbrev G : Type 0
G = (list_table (Option GlobalVar)).Table

abbrev P : Type 0
P = Program V B

abbrev dozing : ℤ → ℕ → ℕ → P
dozing id a b = record (program_with_id (list_table Cell) (list_ring Token) [] [] id) {
  reader = record (open_file []) { state = sleeping };
  sleep_sec = pos a;
  sleep_nsec = pos b;
}

abbrev R : Type 0
R = Runtime (list_chain P).Chain ℕ

abbrev one : R
one = record {
  programs = ((list_chain P).append (list_chain P).init (dozing (pos 1) 0 5)).0;
  curr = none;
  running = true;
  program_cnt = pos 1;
}

abbrev two : R
two = record {
  programs = ((list_chain P).append one.programs (dozing (pos 2) 3 9)).0;
  curr = some 1;
  running = true;
  program_cnt = pos 2;
}

abbrev w : Shared G
w = record { globals = []; output = []; notices = []; slept = [] }

abbrev moment : Moment G
moment = record { random = pos 5; clock = []; wait = λ t. t }

two-Holds :
    Holds 1000
      (list_table Instruction)
      (list_table Cell)
      (list_ring Token)
      (list_table (Option GlobalVar))
      []
      (list_chain P)
      two
      ((1, dozing (pos 1) 0 5) ∷ (2, dozing (pos 2) 3 9) ∷ [])
two-Holds = (from [] ((2, dozing (pos 2) 3 9) ∷ []) 1 (dozing (pos 1) 0 5) refl refl, refl)

runtime_step-refines_example :
    (rt' : R) × (w' : Shared G) × (runtime_step 1000
        (list_table Instruction)
        (list_table Cell)
        (list_ring Token)
        (list_table (Option GlobalVar))
        []
        (list_chain P)
        moment
        two
        w
      ≡ done (rt', w'))
    × Holds 1000
        (list_table Instruction)
        (list_table Cell)
        (list_ring Token)
        (list_table (Option GlobalVar))
        []
        (list_chain P)
        rt'
        ((2, dozing (pos 2) 3 9) ∷ (1, dozing (pos 1) 0 0) ∷ [])
    × (rt'.running ≡ true)
unfolding program_turn time_slice
runtime_step-refines_example =
    runtime_step-refines 1000 (list_table Instruction) (list_table Cell) (list_ring Token)
      (list_table (Option GlobalVar)) [] (list_chain P) moment two w 1 (dozing (pos 1) 0 5)
      ((2, dozing (pos 2) 3 9) ∷ [])
      (record {
        machine =
            machine_of 1000 (list_table Instruction) (list_table Cell) (list_ring Token)
              (list_table (Option GlobalVar)) [] (list_chain P) (dozing (pos 1) 0 0) w;
        slept = some (record { sec = pos 0; nsec = pos 5 });
      })
      refl two-Holds refl

run_steps-reaches_example :
    (rt' : R) × (w' : Shared G) × (rest : List (ℕ × P)) × (run_steps 1000
        (list_table Instruction)
        (list_table Cell)
        (list_ring Token)
        (list_table (Option GlobalVar))
        []
        (list_chain P)
        (moment ∷ [])
        (two, w)
      ≡ done (rt', w'))
    × Holds 1000
        (list_table Instruction)
        (list_table Cell)
        (list_ring Token)
        (list_table (Option GlobalVar))
        []
        (list_chain P)
        rt'
        ((2, dozing (pos 2) 3 9) ∷ rest)
    × (rt'.running ≡ true)
unfolding program_turn time_slice
run_steps-reaches_example =
    run_steps-reaches 1000 (list_table Instruction) (list_table Cell) (list_ring Token)
      (list_table (Option GlobalVar)) [] (list_chain P) ((moment, (1, dozing (pos 1) 0 5)) ∷ []) []
      2 (dozing (pos 2) 3 9) two w refl two-Holds
      (
        record {
          machine =
              machine_of 1000 (list_table Instruction) (list_table Cell) (list_ring Token)
                (list_table (Option GlobalVar)) [] (list_chain P) (dozing (pos 1) 0 0) w;
          slept = some (record { sec = pos 0; nsec = pos 5 });
        },
        refl,
        tt,
      )

Reached-IsRuntime_example :
    IsRuntime 1000
      (list_table Instruction)
      (list_table Cell)
      (list_ring Token)
      (list_table (Option GlobalVar))
      []
      (list_chain P)
      one
unfolding runtime_init runtime_attach_program
Reached-IsRuntime_example =
    Reached-IsRuntime 1000 (list_table Instruction) (list_table Cell) (list_ring Token)
      (list_table (Option GlobalVar)) [] (list_chain P)
      (attaches (dozing (pos 1) 0 5) one started refl)

sleeps-total_example :
    ((sleeps (4 ∷ 10 ∷ []) (dozing (pos 1) 0 5)).0.state ≡ instruction_line)
    × ((sleeps (4 ∷ 10 ∷ []) (dozing (pos 1) 0 5)).1 ≡ 0 * nsec_per_sec + 5)
sleeps-total_example =
    sleeps-total (4 ∷ 10 ∷ []) 0 5 (dozing (pos 1) 0 5) (refl, refl, refl, omega arith)
      (omega arith, (omega arith, tt)) (omega arith)

line_cost-later_example :
    line_cost (record { sec = pos 3; nsec = pos 999999000 }) (later 3 999999000 4000)
    ≡ some (pos 999996000)
line_cost-later_example = line_cost-later 3 999999000 4000 (omega arith) (omega arith)
