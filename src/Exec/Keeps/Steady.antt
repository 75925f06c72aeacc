-- ===== src/Exec/Keeps/Steady.antt =====
-- What a program keeps through a line: its arguments, its file, a reader that stands in the file where its
-- offset says, and arrays that are not empty.
use simbly.Exec.Keeps.{Kept}
use simbly.Exec.Keeps.Lines.{interpret_next_line-Keeps}
use simbly.Exec.Lines.{interpret_next_line}
use simbly.Exec.Machine.{Machine}
use simbly.Exec.Values.Invariant.{
  IsValid, init-IsValid, insert-IsValid, update-IsValid, insert_label-IsValid,
}
use simbly.Global.{GlobalVar}
use simbly.Prelude.{ℕ, ◌≡◌, refl, ◌∙◌, List, Option, Bytes, ℤ, Always}
use simbly.Program.Init.{program_with_id}
use simbly.Program.{Program, Token, Cell, Instruction}
use simbly.Scanner.Tokenize.Position.{IsReader}
use simbly.Voids.{HashTable, RingBuffer}

module _ (max_alloc : ℕ) (vars : HashTable Cell) (ring : RingBuffer Token) where
  open vars use {Table}
  open ring use {Buffer}

  -- The program has the arguments `args`, its ID and their count in front, and the file `text`, in
  -- which its reader stands where its offset says; and no array of its variables is empty.
  pub record Steady (text : Bytes) (args : List ℤ) (p : Program Table Buffer) : Type 0 where
    pub argv_eq : p.argv ≡ args
    pub text_eq : p.text ≡ text
    pub in_file : IsReader p.reader
    pub no_empty : IsValid max_alloc vars ring p.vartable

  pub Steady-Kept : (text : Bytes) (args : List ℤ) → Kept max_alloc vars ring (Steady text args)
  Steady-Kept text args = record {
    reads = λ q r (t, s) h. record {
      argv_eq = h.argv_eq;
      text_eq = t ∙ h.text_eq;
      in_file = s h.in_file;
      no_empty = h.no_empty;
    };
    tokens = λ q b h. record {
      argv_eq = h.argv_eq;
      text_eq = h.text_eq;
      in_file = h.in_file;
      no_empty = h.no_empty;
    };
    binds = λ q x xs h l t. record {
      argv_eq = h.argv_eq;
      text_eq = h.text_eq;
      in_file = h.in_file;
      no_empty = insert-IsValid max_alloc vars ring q.vartable x xs h.no_empty l t;
    };
    writes = λ q x xs h l b. record {
      argv_eq = h.argv_eq;
      text_eq = h.text_eq;
      in_file = h.in_file;
      no_empty = update-IsValid max_alloc vars ring q.vartable x xs h.no_empty l b;
    };
    labels = λ q x l h. record {
      argv_eq = h.argv_eq;
      text_eq = h.text_eq;
      in_file = h.in_file;
      no_empty = insert_label-IsValid max_alloc vars ring q.vartable x l h.no_empty;
    };
    sleeps = λ q sec nsec h. record {
      argv_eq = h.argv_eq;
      text_eq = h.text_eq;
      in_file = h.in_file;
      no_empty = h.no_empty;
    };
    waits = λ q key idx h. record {
      argv_eq = h.argv_eq;
      text_eq = h.text_eq;
      in_file = h.in_file;
      no_empty = h.no_empty;
    };
  }

  -- A program as program_init makes it.
  pub program_with_id-Steady :
      (text : Bytes) (args : List ℤ) (id : ℤ)
      → let p = program_with_id vars ring text args id in Steady text p.argv p
  program_with_id-Steady text args id = record {
    argv_eq = refl;
    text_eq = refl;
    in_file = refl;
    no_empty = init-IsValid max_alloc vars ring;
  }

  -- In a program whose reader stands in its file where its offset says, and that has no empty array,
  -- this is so where interpret_next_line returns, and the file and the arguments, the ID with them, are
  -- the same.
  pub interpret_next_line-Steady :
      (instructions : HashTable Instruction) (globals : HashTable (Option GlobalVar))
      (table : instructions.Table) (m : Machine Table Buffer globals.Table) (text : Bytes)
      (args : List ℤ)
      → Steady text args m.program
      → Always
          (λ n. Steady text args n.program)
          (interpret_next_line max_alloc instructions vars ring globals table m)
  interpret_next_line-Steady instructions globals table m text args h =
      interpret_next_line-Keeps max_alloc instructions vars ring globals table
        (Steady-Kept text args) m h
