-- ===== src/Tests/Kills.antt =====
-- The theorems on `kill` at concrete inputs.
use simbly.Global.{GlobalVar, block, wake, program_state_blocked}
use simbly.Global.Elements.{element}
use simbly.Prelude.{
  ℕ, ◌≡◌, refl, ap, neg_part, true, Option, none, some, [], ◌∷◌, Bytes, codes, str_eq, ℤ, pos,
  negsuc, done, arith,
}
use simbly.Program.Init.{program_with_id}
use simbly.Program.{Program, Cell, Token, Instruction}
use simbly.Runtime.Clock.{time_slice}
use simbly.Runtime.Thread.Queue.{Holds, from}
use simbly.Runtime.Thread.{Runtime, Shared, program_killed, runtime_step}
use simbly.Shell.Kill.Ends.{killed-leaves}
use simbly.Shell.Kill.Permit.{wake_blocked-wakes_other}
use simbly.Shell.Kill.{killed, wake_blocked}
use simbly.Voids.Chain.{list_chain}
use simbly.Voids.Lists.{list_table, list_ring}

abbrev P : Type 0
P = Program (list_table Cell).Table (list_ring Token).Buffer

abbrev G : Type 0
G = (list_table (Option GlobalVar)).Table

abbrev R : Type 0
R = Runtime (list_chain P).Chain ℕ

abbrev prog : ℤ → P
prog id = program_with_id (list_table Cell) (list_ring Token) (codes "#PROGRAM\n") [] id

abbrev idle : R
idle = record { programs = (list_chain P).init; curr = none; running = true; program_cnt = pos 0 }

abbrev busy : R
busy = record {
  programs = ((list_chain P).append (list_chain P).init (prog (pos 1))).0;
  curr = some 1;
  running = true;
  program_cnt = pos 1;
}

abbrev none_yet : Shared G
none_yet = record { globals = []; output = []; notices = []; slept = [] }

abbrev marked : R
marked = record busy { programs = (list_chain P).write busy.programs 1 (killed (prog (pos 1))) }

killed-leaves_example :
    (rt' : R) × (runtime_step 1000
        (list_table Instruction)
        (list_table Cell)
        (list_ring Token)
        (list_table (Option GlobalVar))
        []
        (list_chain P)
        (record { random = negsuc 4; clock = []; wait = λ t. t })
        marked
        none_yet
      ≡ done (rt', record none_yet { notices = program_killed (pos 1) ∷ [] }))
    × Holds 1000
        (list_table Instruction)
        (list_table Cell)
        (list_ring Token)
        (list_table (Option GlobalVar))
        []
        (list_chain P)
        rt'
        []
unfolding time_slice
killed-leaves_example =
    killed-leaves 1000 (list_table Instruction) (list_table Cell) (list_ring Token)
      (list_table (Option GlobalVar)) [] (list_chain P)
      (record { random = negsuc 4; clock = []; wait = λ t. t }) marked none_yet 1 (prog (pos 1)) []
      refl (from [] [] 1 (killed (prog (pos 1))) refl refl, refl) refl
      (λ e. omega (arith, ap neg_part e))

abbrev key : Bytes
key = codes "s"

abbrev zeros : G
zeros = (key, some (record { count = pos 0 ∷ [] })) ∷ []

abbrev waiting : ℤ → P
waiting id = block 1000 (list_table (Option GlobalVar)) (prog id) key 0

wake_blocked-wakes_other_example :
    (t' t'' : G) × (wake_blocked 1000 (list_table (Option GlobalVar)) (waiting (pos 1)) zeros
      ≡ done t')
    × (program_state_blocked 1000 (list_table (Option GlobalVar)) (λ t. t) (waiting (pos 2)) t'
        ≡ done (wake 1000 (list_table (Option GlobalVar)) (waiting (pos 2)), t''))
    × (element 1000 (list_table (Option GlobalVar)) t'' key 0 ≡ some (pos 0))
unfolding str_eq
wake_blocked-wakes_other_example =
    wake_blocked-wakes_other 1000 (list_table (Option GlobalVar)) (λ t. t) zeros key
      (waiting (pos 1)) (waiting (pos 2)) (pos 0) refl refl refl refl refl
