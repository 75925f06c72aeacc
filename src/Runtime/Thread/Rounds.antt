-- ===== src/Runtime/Thread/Rounds.antt =====
-- Rounds of a runtime: each step serves the first program of the queue, so every program has its turn.
use mathlib.Core.List.{append_assoc}
use simbly.Exec.Machine.{Machine}
use simbly.Global.{GlobalVar}
use simbly.Prelude.{
  ℕ, ◌≡◌, refl, ap, subst, ◌∙◌, true, Option, List, [], ◌∷◌, ◌++◌, Bool-cases, inl, inr, Outcome,
  done, ◌>>=◌,
}
use simbly.Program.{Program, Cell, Token, Instruction}
use simbly.Runtime.Thread.Queue.{IsQueue, from, Holds, served, end_turn-Holds}
use simbly.Runtime.Thread.{
  Runtime, Shared, leaves, end_turn, after_turn, machine_of, turn, runtime_step,
}
use simbly.Runtime.Turn.{Moment, Turn, program_turn}
use simbly.Voids.{HashTable, RingBuffer, CircularList}

module _ (max_alloc : ℕ) (instructions : HashTable Instruction) (vars : HashTable Cell)
    (ring : RingBuffer Token) (globals : HashTable (Option GlobalVar)) (table : instructions.Table)
    (list : CircularList (Program vars.Table ring.Buffer)) where
  open list use {Chain, Node, at, write, at_item}

  abbrev Prog : Type 0
  Prog = Program vars.Table ring.Buffer

  abbrev R : Type 0
  R = Runtime Chain Node

  abbrev S : Type 0
  S = Shared globals.Table

  end_turn-running :
      (rt : R) (n : Node) (p : Prog) (w : S)
      → (end_turn max_alloc instructions vars ring globals table list rt n p w).0.running
        ≡ rt.running
  unfolding end_turn
  end_turn-running rt n p w =
      elim (Bool-cases (leaves max_alloc instructions vars ring globals table list p)) [
        | inl off ↦ rw off refl
        | inr on ↦ rw on refl
      ]

  -- A step at a program is the turn of that program.
  pub step-turn :
      (moment : Moment globals.Table) (rt : R) (w : S) (n : Node) (p : Prog)
      (q : List (Node × Prog))
      → rt.running ≡ true
      → IsQueue max_alloc instructions vars ring globals table list rt ((n, p) ∷ q)
      → runtime_step max_alloc instructions vars ring globals table list moment rt w ≡ (
          program_turn max_alloc instructions vars ring globals table moment
            (machine_of max_alloc instructions vars ring globals table list p w)
          >>= λ t. done (after_turn max_alloc instructions vars ring globals table list rt n w t))
  unfolding runtime_step turn
  step-turn moment rt w n p _ r (from xs ys _ _ e c) =
      rw (r, c, at_item rt.programs xs ys n p e) refl

  -- A step whose turn returns, with what it leaves.
  step-served :
      (moment : Moment globals.Table) (rt : R) (w : S) (n : Node) (p : Prog)
      (q : List (Node × Prog)) (t : Turn (Machine vars.Table ring.Buffer globals.Table))
      → rt.running ≡ true
      → Holds max_alloc instructions vars ring globals table list rt ((n, p) ∷ q)
      → program_turn max_alloc instructions vars ring globals table moment
          (machine_of max_alloc instructions vars ring globals table list p w)
        ≡ done t
      → let o = after_turn max_alloc instructions vars ring globals table list rt n w t in
        (runtime_step max_alloc instructions vars ring globals table list moment rt w ≡ done o)
        × Holds max_alloc instructions vars ring globals table list o.0
            (served max_alloc instructions vars ring globals table list n t.machine.program q)
        × (o.0.running ≡ true)
  step-served moment rt w n p q t r h e = (
    step-turn moment rt w n p q r h.0
        ∙ ap
            (λ m. m >>= λ t.
              done (after_turn max_alloc instructions vars ring globals table list rt n w t))
            e,
    end_turn-Holds max_alloc instructions vars ring globals table list rt n p t.machine.program q _
        h,
    end_turn-running (record rt { programs = write rt.programs n t.machine.program }) n
          t.machine.program _
        ∙ r,
  )

  -- A runtime that runs serves its programs as a fair scheduler serves a queue: where the turn of the
  -- first program returns, the step returns, the program is off the queue if it has finished or
  -- failed and at its end if not, all the others are as they were and keep their order, and the
  -- count of programs is that of the queue.
  pub runtime_step-refines :
      (moment : Moment globals.Table) (rt : R) (w : S) (n : Node) (p : Prog)
      (q : List (Node × Prog)) (t : Turn (Machine vars.Table ring.Buffer globals.Table))
      → rt.running ≡ true
      → Holds max_alloc instructions vars ring globals table list rt ((n, p) ∷ q)
      → program_turn max_alloc instructions vars ring globals table moment
          (machine_of max_alloc instructions vars ring globals table list p w)
        ≡ done t
      → (rt' : R) × (w' : S) × (runtime_step max_alloc instructions vars ring globals table list
            moment rt w
          ≡ done (rt', w'))
        × Holds max_alloc instructions vars ring globals table list rt'
            (served max_alloc instructions vars ring globals table list n t.machine.program q)
        × (rt'.running ≡ true)
  runtime_step-refines moment rt w n p q t r h e =
      let o = after_turn max_alloc instructions vars ring globals table list rt n w t in
      let (step, holds, running) = step-served moment rt w n p q t r h e in
      (o.0, o.1, step, holds, running)

  unfoldable pub run_steps : List (Moment globals.Table) → R × S → Outcome (R × S)
  unfolding runtime_step
  run_steps [] (rt, w) = done (rt, w)
  run_steps (moment ∷ moments) (rt, w) =
      runtime_step max_alloc instructions vars ring globals table list moment rt w
      >>= run_steps moments

  -- The queue behind a turn of its first program still has the others in front.
  served_behind :
      (n : Node) (p' : Prog) (us vs : List (Node × Prog)) (m : Node) (b : Prog)
      → (rest : List (Node × Prog)) × (served max_alloc instructions vars ring globals table list n
            p'
            (us ++ ((m, b) ∷ vs))
          ≡ us ++ ((m, b) ∷ rest))
  served_behind n p' us vs m b =
      elim (Bool-cases (leaves max_alloc instructions vars ring globals table list p')) [
        | inl off ↦ (vs, rw off refl)
        | inr on ↦ (vs ++ ((n, p') ∷ []), rw on (append_assoc us ((m, b) ∷ vs) ((n, p') ∷ [])))
      ]

  -- Programs in the order of the queue, each with what its turn meets.
  abbrev pub Round : Type 0
  Round = List (Moment globals.Table × (Node × Prog))

  abbrev pub moments : Round → List (Moment globals.Table)
  moments [] = []
  moments ((x, _) ∷ us) = x ∷ moments us

  abbrev pub programs : Round → List (Node × Prog)
  programs [] = []
  programs ((_, u) ∷ us) = u ∷ programs us

  -- Each of the turns returns, at the runtime and the globals that the turns before it have left.
  abbrev pub TurnsReturn : Round → R → S → Type 0
  TurnsReturn [] rt w = Unit
  TurnsReturn ((x, (n, p)) ∷ us) rt w =
      (t : Turn (Machine vars.Table ring.Buffer globals.Table)) × (program_turn max_alloc
          instructions vars ring globals table x
          (machine_of max_alloc instructions vars ring globals table list p w)
        ≡ done t)
      × (let o = after_turn max_alloc instructions vars ring globals table list rt n w t in
          TurnsReturn us o.0 o.1)

  -- Round robin: in a runtime that runs, where the turns of the k programs at the front of the queue
  -- return, each at the runtime and the shared state that the turns before it have left, k steps
  -- return, and the program behind them is then at the front, unchanged.
  pub run_steps-reaches :
      (us : Round) (vs : List (Node × Prog)) (m : Node) (b : Prog) (rt : R) (w : S)
      → rt.running ≡ true
      → Holds max_alloc instructions vars ring globals table list rt (programs us ++ ((m, b) ∷ vs))
      → TurnsReturn us rt w
      → (rt' : R) × (w' : S) × (rest : List (Node × Prog)) × (run_steps (moments us) (rt, w)
          ≡ done (rt', w'))
        × Holds max_alloc instructions vars ring globals table list rt' ((m, b) ∷ rest)
        × (rt'.running ≡ true)
  unfolding run_steps
  run_steps-reaches [] vs m b rt w r h k = (rt, w, vs, refl, h, r)
  run_steps-reaches ((x, (n, p)) ∷ us) vs m b rt w r h (t, turned, k) =
      let o = after_turn max_alloc instructions vars ring globals table list rt n w t in
      let (run, holds, running) =
        step-served x rt w n p (programs us ++ ((m, b) ∷ vs)) t r h turned in
      let (rest, shape) = served_behind n t.machine.program (programs us) vs m b in
      let (rt', w', last, runs, reached, still) =
        run_steps-reaches us rest m b o.0 o.1 running
          (subst (Holds max_alloc instructions vars ring globals table list o.0) shape holds) k in
      (rt', w', last, ap (λ o. o >>= run_steps (moments us)) run ∙ runs, reached, still)
