-- ===== src/Tests/Values.antt =====
-- The properties of values, branches and arithmetic at concrete inputs.
use simbly.Exec.Branch.Jump.{jump-back, back_at}
use simbly.Exec.Branch.{jump}
use simbly.Exec.Handlers.Arithmetic.{primitive_op-div_mod}
use simbly.Exec.Handlers.Printing.{print_values-fuel}
use simbly.Exec.Handlers.{primitive_op, print_values}
use simbly.Global.{GlobalVar}
use simbly.Exec.Machine.{next_token, insert_label_to_vartable}
use simbly.Exec.Values.Again.{get_value-again}
use simbly.Exec.Values.Frame.{Keeps, set_value-Keeps}
use simbly.Exec.Values.Growth.{get_value-set_behind}
use simbly.Exec.Values.Invariant.{IsValid, LeavesValid, init-IsValid, set_value-IsValid}
use simbly.Exec.Values.Store.{get_value-set_element}
use simbly.Exec.Values.{get_value, set_value}
use simbly.Prelude.{
  Option, ◌<◌, ◌≡◌, refl, ◌≢◌, true, some, List, [], ◌∷◌, Bytes, codes, str_eq, ℤ, pos, negsuc,
  ◌+ℤ◌, ◌*ℤ◌, abs, fits_int, arith, done, str_eq_iff,
}
use simbly.Program.Init.{program_with_id}
use simbly.Program.{
  operand, Program, Cell, array, Token, Operand, int_val, int_var, int_arr, label, LabelData,
  label_data, Instruction,
}
use simbly.Scanner.Tokens.{add_new_token}
use simbly.Voids.Lists.{list_table, list_ring}

abbrev P : Type 0
P = Program (list_table Cell).Table (list_ring Token).Buffer

abbrev with : List (Bytes × Cell) → P
with t =
    record (program_with_id (list_table Cell) (list_ring Token) (codes "#PROGRAM\nRETURN\n") []
      (pos 1)) { vartable = t }

abbrev x : Bytes
x = codes "x"

abbrev y : Bytes
y = codes "y"

-- `x` with three elements.
abbrev three : P
three = with ((x, array (pos 4 ∷ pos 5 ∷ pos 6 ∷ [])) ∷ [])

abbrev single : ℤ → P
single v = with ((x, array (v ∷ [])) ∷ [])

abbrev Get : P → Operand → ℤ → Type 0
Get p o v = get_value 1000 (list_table Cell) (list_ring Token) p o ≡ done (p, some v)

get_value-set_element_example :
    Get (with ((x, array (pos 4 ∷ pos 9 ∷ pos 6 ∷ [])) ∷ [])) (int_arr x (int_val (pos 1))) (pos 9)
unfolding set_value str_eq
get_value-set_element_example =
    get_value-set_element 1000 (list_table Cell) (list_ring Token) three x 1 (pos 9) refl

-- The third element was 6.
get_value-set_behind_example :
    Get
      (with ((x, array (pos 4 ∷ pos 5 ∷ pos 0 ∷ pos 0 ∷ pos 9 ∷ [])) ∷ []))
      (int_arr x (int_val (pos 2)))
      (pos 0)
unfolding set_value str_eq
get_value-set_behind_example =
    get_value-set_behind 1000 (list_table Cell) (list_ring Token) three x
      (pos 4 ∷ pos 5 ∷ pos 6 ∷ []) 4 2 (pos 9) refl (omega arith) (omega arith) refl

y≢x : y ≢ x
unfolding str_eq
y≢x e = ground (arith, (str_eq_iff y x).1 e)

set_value-Keeps_example :
    Keeps 1000
      (list_table Cell)
      (list_ring Token)
      y
      three
      (set_value 1000 (list_table Cell) (list_ring Token) three (int_var x) (pos 9))
set_value-Keeps_example =
    set_value-Keeps 1000 (list_table Cell) (list_ring Token) y three (int_var x) (pos 9) y≢x

empty-IsValid : IsValid 1000 (list_table Cell) (list_ring Token) []
empty-IsValid = init-IsValid 1000 (list_table Cell) (list_ring Token)

set_value-IsValid_example :
    LeavesValid 1000
      (list_table Cell)
      (list_ring Token)
      (set_value 1000 (list_table Cell) (list_ring Token) (with []) (int_var x) (pos 9))
set_value-IsValid_example =
    set_value-IsValid 1000 (list_table Cell) (list_ring Token) (with []) (int_var x) (pos 9)
      empty-IsValid

-- The first reading gives `x` two more elements and clears the third.
get_value-again_example :
    Get
      (with ((x, array (pos 4 ∷ pos 5 ∷ pos 0 ∷ pos 0 ∷ pos 0 ∷ [])) ∷ []))
      (int_arr x (int_val (pos 4)))
      (pos 0)
unfolding get_value str_eq
get_value-again_example =
    get_value-again 1000 (list_table Cell) (list_ring Token) three (int_arr x (int_val (pos 4))) tt
      refl

-- -7 = -2 * 3 - 1
primitive_op-div_mod_example :
    (fits_int (negsuc 1) ≡ true)
    × (negsuc 1 *ℤ pos 3 +ℤ negsuc 0 ≡ negsuc 6)
    × (abs (negsuc 0) < abs (pos 3))
unfolding primitive_op
primitive_op-div_mod_example =
    primitive_op-div_mod (negsuc 6) (pos 3) (negsuc 1) (negsuc 0) refl refl

-- The scanner has read the first word of the second line.
abbrev at_label : P
at_label =
    let p = with [] in
    record p {
      reader = record p.reader {
        text = codes "#PROGRAM\nL1 RETURN\n";
        unread = codes "RETURN\n";
        offset = 12;
        line = 2;
        column = 4;
        prev_col = 1;
      };
    }

abbrev a_label : Token
a_label = record { payload = label (codes "L1") 12; line = 2; column = 4; prev_col = 1 }

abbrev recorded : LabelData
recorded = record { line = 2; column = 4; prev_col = 1; offset = 12 }

abbrev labelled : P
labelled = record at_label { vartable = (codes "L1", label_data recorded) ∷ [] }

-- At the end of the file, with another variable.
abbrev at_end : P
at_end = record labelled {
  reader = record labelled.reader { unread = []; offset = 19; line = 3; column = 0; prev_col = 6 };
  vartable = (x, array (pos 4 ∷ pos 5 ∷ pos 6 ∷ [])) ∷ (codes "L1", label_data recorded) ∷ [];
}

jump-back_example :
    jump 1000
      (list_table Instruction)
      (list_table Cell)
      (list_ring Token)
      []
      at_end
      (record a_label { line = 3; column = 1 })
    ≡ done (record at_end {
      reader =
          back_at 1000
            (list_table Instruction)
            (list_table Cell)
            (list_ring Token)
            []
            at_label.reader
            at_end.reader;
    })
unfolding add_new_token next_token insert_label_to_vartable str_eq
jump-back_example =
    jump-back 1000 (list_table Instruction) (list_table Cell) (list_ring Token) [] at_label
      (record at_label { translated_line = (7, a_label ∷ []) }) at_label labelled at_end a_label
      (record a_label { line = 3; column = 1 }) (codes "L1") recorded 12 refl refl refl refl refl
      refl refl refl refl

abbrev tokens_left : P
tokens_left = record three { translated_line = (6, a_label ∷ a_label ∷ []) }

-- `y` and a number are left to print.
abbrev to_print : P
to_print = record three {
  translated_line = (
    6,
    record { payload = operand (int_var y); line = 1; column = 1; prev_col = 0 }
        ∷ record { payload = operand (int_val (pos 7)); line = 1; column = 4; prev_col = 0 }
        ∷ [],
  );
}

print_values-fuel_example :
    print_values 1000
      (list_table Cell)
      (list_ring Token)
      (list_table (Option GlobalVar))
      3
      to_print
      []
    ≡ print_values 1000
        (list_table Cell)
        (list_ring Token)
        (list_table (Option GlobalVar))
        9
        to_print
        []
print_values-fuel_example =
    print_values-fuel 1000 (list_table Cell) (list_ring Token) (list_table (Option GlobalVar)) 3 9
      to_print [] (omega arith) (omega arith)
