-- ===== src/System/Follows.antt =====
-- What a round of a thread, a command to kill and a new program do to the programs of a runtime.
use simbly.Exec.Keeps.Steady.{Steady, Steady-Kept}
use simbly.Exec.Keeps.{Kept, same_place}
use simbly.Exec.Machine.{Machine}
use simbly.Global.{GlobalVar}
use simbly.Prelude.{
  ℕ, ◌≤◌, ◌≡◌, refl, subst, Option, List, [], ◌∷◌, ◌++◌, arith, ℤ, pos, length, Bytes, Outcome,
  done, Always,
}
use simbly.Program.{Program, Cell, Token, Instruction}
use simbly.Runtime.Keeps.{program_turn-Keeps}
use simbly.Runtime.Thread.Invariant.{IsRuntime}
use simbly.Runtime.Thread.{Runtime, Shared}
use simbly.Runtime.Turn.{Moment, Turn, program_turn}
use simbly.Shell.Kill.{killed}
use simbly.System.Count.{hit_same, times_in, times_in-append, times_in-split}
use simbly.Voids.{HashTable, RingBuffer, CircularList}

module _ (max_alloc : ℕ) (instructions : HashTable Instruction) (vars : HashTable Cell)
    (ring : RingBuffer Token) (globals : HashTable (Option GlobalVar)) (table : instructions.Table)
    (list : CircularList (Program vars.Table ring.Buffer)) where
  open list use {
    Chain, Node, items, append, next, prev, write, delete, items-append, items-write, items-delete,
    prev-next,
  }

  abbrev Prog : Type 0
  Prog = Program vars.Table ring.Buffer

  abbrev R : Type 0
  R = Runtime Chain Node

  abbrev S : Type 0
  S = Shared globals.Table

  -- A program with an ID, the count of its arguments and the arguments, which is steady in its file.
  abbrev pub IsProgram : Prog → Type 0
  IsProgram p =
      (text : Bytes) × (args : List ℤ) × (id : ℤ) × Steady max_alloc vars ring text
        (id ∷ pos (length args) ∷ args) p

  abbrev pub Every : List (Node × Prog) → Type 0
  Every [] = Unit
  Every ((n, p) ∷ xs) = IsProgram p × Every xs

  pub Every-append : (xs ys : List (Node × Prog)) → Every xs → Every ys → Every (xs ++ ys)
  Every-append [] ys h k = k
  Every-append ((n, p) ∷ xs) ys (a, h) k = (a, Every-append xs ys h k)

  Every-parts : (xs ys : List (Node × Prog)) → Every (xs ++ ys) → Every xs × Every ys
  Every-parts [] ys h = (tt, h)
  Every-parts ((n, p) ∷ xs) ys (a, h) = let (b, c) = Every-parts xs ys h in ((a, b), c)

  -- The cursor and the count of a runtime are right, and its programs are.
  abbrev pub IsSound : R → Type 0
  IsSound rt =
      IsRuntime max_alloc instructions vars ring globals table list rt × Every (items rt.programs)

  -- No ID has more programs than before.
  abbrev pub NoMore : R → R → Type 0
  NoMore rt rt' = (i : ℤ) → times_in i (items rt'.programs) ≤ times_in i (items rt.programs)

  -- What happens to a program: it keeps its ID and its arguments, and it stays steady.
  pub record Turned (p p' : Prog) : Type 0 where
    pub argv_eq : p'.argv ≡ p.argv
    pub program : IsProgram p → IsProgram p'

  argv-Kept : (args : List ℤ) → Kept max_alloc vars ring (λ q. q.argv ≡ args)
  argv-Kept args = record {
    reads = λ q r m h. h;
    tokens = λ q b h. h;
    binds = λ q x xs h l t. h;
    writes = λ q x xs h l b. h;
    labels = λ q x l h. h;
    sleeps = λ q sec nsec h. h;
    waits = λ q key idx h. h;
  }

  returned : {A : Type 0} (Q : A → Type 0) (o : Outcome A) (a : A) → o ≡ done a → Always Q o → Q a
  returned Q o a e h = subst (Always Q) e h

  pub program_turn-Turned :
      (moment : Moment globals.Table) (m : Machine vars.Table ring.Buffer globals.Table)
      (t : Turn (Machine vars.Table ring.Buffer globals.Table))
      → program_turn max_alloc instructions vars ring globals table moment m ≡ done t
      → Turned m.program t.machine.program
  program_turn-Turned moment m t e = record {
    argv_eq =
        returned (λ t. t.machine.program.argv ≡ m.program.argv) _ t e
          (program_turn-Keeps max_alloc instructions vars ring globals table
            (argv-Kept m.program.argv) moment m refl);
    program = λ (text, args, id, h). (
      text,
      args,
      id,
      returned
          (λ t. Steady max_alloc vars ring text (id ∷ pos (length args) ∷ args) t.machine.program) _
          t e
          (program_turn-Keeps max_alloc instructions vars ring globals table
            (Steady-Kept max_alloc vars ring text (id ∷ pos (length args) ∷ args)) moment m h),
    );
  }

  pub killed-Turned : (p : Prog) → Turned p (killed p)
  killed-Turned p = record {
    argv_eq = refl;
    program = λ (text, args, id, h). (
      text,
      args,
      id,
      same_place max_alloc vars ring
          (Steady-Kept max_alloc vars ring text (id ∷ pos (length args) ∷ args)) p _ refl refl refl
          h,
    );
  }

  -- A program in its place in the list, and then another in that place.
  pub replaced :
      (xs ys : List (Node × Prog)) (n : Node) (p p' : Prog)
      → Turned p p'
      → ((i : ℤ) → times_in i (xs ++ ((n, p') ∷ ys)) ≡ times_in i (xs ++ ((n, p) ∷ ys)))
        × (Every (xs ++ ((n, p) ∷ ys)) → Every (xs ++ ((n, p') ∷ ys)))
  replaced xs ys n p p' t = (
    λ i.
        omega (
          arith,
          times_in-split i xs ys n p',
          times_in-split i xs ys n p,
          hit_same p p' i t.argv_eq,
        ),
    λ h.
        let (before, (this, behind)) = Every-parts xs ((n, p) ∷ ys) h in
        Every-append xs ((n, p') ∷ ys) before (t.program this, behind),
  )

  -- Without it.
  pub left_out :
      (xs ys : List (Node × Prog)) (n : Node) (p : Prog)
      → ((i : ℤ) → times_in i (xs ++ ys) ≤ times_in i (xs ++ ((n, p) ∷ ys)))
        × (Every (xs ++ ((n, p) ∷ ys)) → Every (xs ++ ys))
  left_out xs ys n p = (
    λ i. omega (arith, times_in-split i xs ys n p, times_in-append i xs ys),
    λ h.
        let (before, (this, behind)) = Every-parts xs ((n, p) ∷ ys) h in
        Every-append xs ys before behind,
  )
