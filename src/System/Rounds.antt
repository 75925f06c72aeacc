-- ===== src/System/Rounds.antt =====
-- A round of a runtime's thread takes no program from its file or its arguments, and makes none.
use simbly.Global.{GlobalVar}
use simbly.Prelude.{
  ℕ, ◌≤◌, ◌≡◌, sym, ap, subst, ◌∙◌, true, Bool-cases, inl, inr, Option, List, ◌∷◌, ◌++◌, arith, ℤ,
  done, done_inj, >>=-eq-done,
}
use simbly.Program.{Program, Cell, Token, Instruction}
use simbly.Runtime.Thread.Invariant.{IsRuntime, Cursor, step_idle, step_off, step-IsRuntime}
use simbly.Runtime.Thread.Queue.{empty, from, end_turn-leaves, end_turn-stays}
use simbly.Runtime.Thread.Rounds.{step-turn}
use simbly.Runtime.Thread.{Runtime, Shared, machine_of, runtime_step, leaves, end_turn}
use simbly.Runtime.Turn.{Moment, program_turn}
use simbly.System.Count.{times_in}
use simbly.System.Follows.{Every, IsSound, NoMore, Turned, program_turn-Turned, replaced, left_out}
use simbly.Voids.{HashTable, RingBuffer, CircularList}

module _ (max_alloc : ℕ) (instructions : HashTable Instruction) (vars : HashTable Cell)
    (ring : RingBuffer Token) (globals : HashTable (Option GlobalVar)) (table : instructions.Table)
    (list : CircularList (Program vars.Table ring.Buffer)) where
  open list use {
    Chain, Node, items, next, prev, write, delete, items-write, items-delete, prev-next,
  }

  abbrev Prog : Type 0
  Prog = Program vars.Table ring.Buffer

  abbrev R : Type 0
  R = Runtime Chain Node

  abbrev S : Type 0
  S = Shared globals.Table

  abbrev All : List (Node × Prog) → Type 0
  All = Every max_alloc instructions vars ring globals table list

  -- The programs behind a change are among those before it.
  abbrev Among : List (Node × Prog) → List (Node × Prog) → Type 0
  Among xs ys = ((i : ℤ) → times_in i ys ≤ times_in i xs) × (All xs → All ys)

  Among-refl : (xs ys : List (Node × Prog)) → ys ≡ xs → Among xs ys
  Among-refl xs ys e = subst (Among xs) (sym e) ((λ i. omega arith), (λ h. h))

  -- The end of a turn, with the program as the turn has left it.
  end_turn-Among :
      (rt : R) (xs ys : List (Node × Prog)) (n : Node) (p p' : Prog) (w : S)
      → items rt.programs ≡ xs ++ ((n, p) ∷ ys)
      → Turned max_alloc instructions vars ring globals table list p p'
      → Among (xs ++ ((n, p) ∷ ys)) (
          items
            (end_turn max_alloc instructions vars ring globals table list
              (record rt { programs = write rt.programs n p' })
              n
              p'
              w).0.programs)
  end_turn-Among rt xs ys n p p' w e t =
      let new : R = record rt { programs = write rt.programs n p' } in
      let e' = items-write rt.programs xs ys n p p' e in
      let (same, good) =
        replaced max_alloc instructions vars ring globals table list xs ys n p p' t in
      let (less, rest) = left_out max_alloc instructions vars ring globals table list xs ys n p' in
      elim (Bool-cases (leaves max_alloc instructions vars ring globals table list p')) [
        | inl off ↦
            subst (Among (xs ++ ((n, p) ∷ ys)))
              (sym (
                ap (λ (o : R). items o.programs)
                  (end_turn-leaves max_alloc instructions vars ring globals table list new n p' w
                    off)
                ∙ ap (λ m. items (delete new.programs m)) (prev-next new.programs xs ys n p' e')
                ∙ items-delete new.programs xs ys n p' e'))
              ((λ i. omega (arith, less i, same i)), (λ h. rest (good h)))
        | inr on ↦
            subst (Among (xs ++ ((n, p) ∷ ys)))
              (sym (
                ap (λ (o : R). items o.programs)
                  (end_turn-stays max_alloc instructions vars ring globals table list new n p' w on)
                ∙ e'))
              ((λ i. omega (arith, same i)), good)
      ]

  turned :
      (moment : Moment globals.Table) (rt rt' : R) (w w' : S) (q : List (Node × Prog))
      → rt.running ≡ true
      → Cursor max_alloc instructions vars ring globals table list rt q
      → runtime_step max_alloc instructions vars ring globals table list moment rt w
        ≡ done (rt', w')
      → Among (items rt.programs) (items rt'.programs)
  turned moment rt rt' w w' q r (inr (i, c)) e = Among-refl _ _ (
      ap (λ (o : R × S). items o.0.programs)
        (done_inj
          (sym e ∙ step_idle max_alloc instructions vars ring globals table list moment rt w r c)))
  turned moment rt rt' w w' _ r (inl (empty i c)) e = Among-refl _ _ (
      ap (λ (o : R × S). items o.0.programs)
        (done_inj
          (sym e ∙ step_idle max_alloc instructions vars ring globals table list moment rt w r c)))
  turned moment rt rt' w w' _ r (inl (from xs ys n p i c)) e =
      let (t, took, same) =
        >>=-eq-done
          (program_turn max_alloc instructions vars ring globals table moment
            (machine_of max_alloc instructions vars ring globals table list p w))
          _
          (sym (
              step-turn max_alloc instructions vars ring globals table list moment rt w n p
                (ys ++ xs) r (from xs ys n p i c))
            ∙ e) in
      subst (λ (l : List (Node × Prog)). Among l (items rt'.programs)) (sym i)
        (subst (λ (o : R × S). Among (xs ++ ((n, p) ∷ ys)) (items o.0.programs)) (done_inj same)
          (end_turn-Among rt xs ys n p t.machine.program _ i (
            program_turn-Turned max_alloc instructions vars ring globals table list moment _ t
              took)))

  step-Among :
      (moment : Moment globals.Table) (rt rt' : R) (w w' : S)
      → IsRuntime max_alloc instructions vars ring globals table list rt
      → runtime_step max_alloc instructions vars ring globals table list moment rt w
        ≡ done (rt', w')
      → Among (items rt.programs) (items rt'.programs)
  step-Among moment rt rt' w w' (q, c, k) e = elim (Bool-cases rt.running) [
    | inl on ↦ turned moment rt rt' w w' q on c e
    | inr off ↦ Among-refl _ _ (
        ap (λ (o : R × S). items o.0.programs)
          (done_inj
            (sym e ∙ step_off max_alloc instructions vars ring globals table list moment rt w off)))
  ]

  pub runtime_step-IsSound :
      (moment : Moment globals.Table) (rt rt' : R) (w w' : S)
      → IsSound max_alloc instructions vars ring globals table list rt
      → runtime_step max_alloc instructions vars ring globals table list moment rt w
        ≡ done (rt', w')
      → IsSound max_alloc instructions vars ring globals table list rt'
        × NoMore max_alloc instructions vars ring globals table list rt rt'
  runtime_step-IsSound moment rt rt' w w' (h, all) e =
      let (less, good) = step-Among moment rt rt' w w' h e in
      (
        (
          step-IsRuntime max_alloc instructions vars ring globals table list moment rt rt' w w' e h,
          good all,
        ),
        less,
      )
