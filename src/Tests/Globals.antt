-- ===== src/Tests/Globals.antt =====
-- The properties of the global variables at concrete inputs.
use simbly.Global.Elements.{element}
use simbly.Global.Permits.{Run-Balanced, begin, up, pass}
use simbly.Global.Semaphore.{blocked_suc, Passes}
use simbly.Global.Store.{global_var_load-store}
use simbly.Global.{
  GlobalVar, global_var_load, global_var_store, global_var_up, block, wake, program_state_blocked,
}
use simbly.Prelude.{
  ℕ, ◌+◌, ◌≡◌, refl, Option, some, List, [], ◌∷◌, Bytes, codes, str_eq, ℤ, pos, arith, done,
}
use simbly.Program.Init.{program_with_id}
use simbly.Program.{Program, Cell, Token}
use simbly.Voids.Lists.{list_table, list_ring}

abbrev G : Type 0
G = List (Bytes × Option GlobalVar)

abbrev P : Type 0
P = Program (list_table Cell).Table (list_ring Token).Buffer

abbrev s : Bytes
s = codes "s"

abbrev holding : List ℤ → G
holding xs = (s, some (record { count = xs })) ∷ []

abbrev idle : P
idle = program_with_id (list_table Cell) (list_ring Token) [] [] (pos 1)

-- A program that waits for the first element of `s`.
abbrev waiting : P
waiting = block 1000 (list_table (Option GlobalVar)) idle s 0

Run-Balanced_example :
    (c : ℕ) × (element 1000 (list_table (Option GlobalVar)) (holding (pos 1 ∷ [])) s 0
      ≡ some (pos c))
    × (c + 1 ≡ 1 + 1)
unfolding global_var_up program_state_blocked str_eq
Run-Balanced_example =
    Run-Balanced 1000 (list_table (Option GlobalVar)) (list_table Cell).Table
      (list_ring Token).Buffer s 0 {start = holding (pos 1 ∷ [])} 1 refl
      (pass waiting (wake 1000 (list_table (Option GlobalVar)) waiting) (holding (pos 1 ∷ []))
        (up (holding (pos 2 ∷ [])) begin refl) refl refl refl refl refl)

global_var_load-store_example :
    global_var_load 1000 (list_table (Option GlobalVar)) (holding (pos 4 ∷ pos 9 ∷ [])) s 1
    ≡ done (holding (pos 4 ∷ pos 9 ∷ []), pos 9)
unfolding global_var_store str_eq
global_var_load-store_example =
    global_var_load-store 1000 (list_table (Option GlobalVar)) (holding (pos 4 ∷ pos 5 ∷ [])) s 1
      (pos 9) (omega arith) refl

blocked_suc_example :
    (t : G) × Passes 1000
      (list_table (Option GlobalVar))
      (λ t. t)
      waiting
      (holding (pos 3 ∷ []))
      s
      2
      t
unfolding str_eq
blocked_suc_example =
    blocked_suc 1000 (list_table (Option GlobalVar)) (λ t. t) waiting (holding (pos 3 ∷ [])) s 2
      refl refl
