-- ===== src/Runtime/Thread/Invariant.antt =====
-- What holds of a runtime whatever happens to it.
use mathlib.Core.List.{append_assoc, append-nil}
use simbly.Global.{GlobalVar}
use simbly.Prelude.{
  ℕ, suc, ◌≡◌, ◌≢◌, refl, sym, ap, subst, ◌∙◌, ◌⊎◌, inl, inr, true, false, Bool-cases, Option, none,
  List, [], ◌∷◌, ◌++◌, arith, ℤ, pos, ◌+ℤ◌, length, length-append, done, >>=-eq-done, done_inj,
}
use simbly.Program.{Program, Cell, Token, Instruction}
use simbly.Runtime.Thread.Attach.{attach_shape}
use simbly.Runtime.Thread.Replaced.{resplit}
use simbly.Runtime.Thread.Queue.{IsQueue, empty, from, end_turn-Holds}
use simbly.Runtime.Thread.Rounds.{step-turn}
use simbly.Runtime.Thread.{
  Runtime, Shared, machine_of, runtime_init, runtime_attach_program, runtime_step, head, head_of,
}
use simbly.Runtime.Turn.{Moment, program_turn}
use simbly.Voids.{HashTable, RingBuffer, CircularList}

module _ (max_alloc : ℕ) (instructions : HashTable Instruction) (vars : HashTable Cell)
    (ring : RingBuffer Token) (globals : HashTable (Option GlobalVar)) (table : instructions.Table)
    (list : CircularList (Program vars.Table ring.Buffer)) where
  open list use {Chain, Node, init, items, append, write, items-init, items-append, items-write}

  abbrev Prog : Type 0
  Prog = Program vars.Table ring.Buffer

  abbrev R : Type 0
  R = Runtime Chain Node

  abbrev S : Type 0
  S = Shared globals.Table

  -- The cursor is NULL or at a node of the list.
  abbrev pub Cursor : R → List (Node × Prog) → Type 0
  Cursor rt q =
      IsQueue max_alloc instructions vars ring globals table list rt q
      ⊎ ((items rt.programs ≡ q) × (rt.curr ≡ none))

  -- The cursor is safe, and the count is that of the programs.
  abbrev pub IsRuntime : R → Type 0
  IsRuntime rt = (q : List (Node × Prog)) × Cursor rt q × (rt.program_cnt ≡ pos (length q))

  -- A runtime after any sequence of steps of its thread, programs that are attached, and programs that
  -- the shell marks. Other threads change what is shared between two steps.
  pub data Reached : R → Type 0 where
    started : Reached (runtime_init list)
    attaches :
        {rt : R} (p : Prog) (rt' : R)
        → Reached rt
        → runtime_attach_program list rt p ≡ done rt'
        → Reached rt'
    steps :
        {rt : R} (moment : Moment globals.Table) (w w' : S) (rt' : R)
        → Reached rt
        → runtime_step max_alloc instructions vars ring globals table list moment rt w
          ≡ done (rt', w')
        → Reached rt'
    marks :
        {rt : R} (xs ys : List (Node × Prog)) (n : Node) (p p' : Prog)
        → Reached rt
        → items rt.programs ≡ xs ++ ((n, p) ∷ ys)
        → Reached (record rt { programs = write rt.programs n p' })

  pub init-IsRuntime : IsRuntime (runtime_init list)
  unfolding runtime_init
  init-IsRuntime = ([], inr (items-init, refl), refl)

  pub plus_one : (k : ℕ) → pos k +ℤ pos 1 ≡ pos (suc k)
  unfolding ◌+ℤ◌
  plus_one k = ground arith

  -- One more program, whose list is one longer.
  appended :
      (rt : R) (c : Chain) (cnt : ℤ) (q : List (Node × Prog)) (x : Node × Prog)
      → items c ≡ items rt.programs ++ (x ∷ [])
      → Cursor rt q
      → (q' : List (Node × Prog)) × Cursor (record rt { programs = c; program_cnt = cnt }) q'
        × (length q' ≡ suc (length q))
  appended rt c cnt _ x e (inl (empty i n)) = (x ∷ [], inr (e ∙ ap (λ l. l ++ (x ∷ [])) i, n), refl)
  appended rt c cnt _ x e (inl (from xs ys n p i k)) = (
    (n, p) ∷ ((ys ++ (x ∷ [])) ++ xs),
    inl (
        from xs (ys ++ (x ∷ [])) n p
          (e ∙ ap (λ l. l ++ (x ∷ [])) i ∙ append_assoc xs ((n, p) ∷ ys) (x ∷ [])) k),
    omega (
      arith,
      length-append {0} (ys ++ (x ∷ [])) xs,
      length-append {0} ys (x ∷ []),
      length-append {0} ys xs,
    ),
  )
  appended rt c cnt q x e (inr (i, n)) = (
    q ++ (x ∷ []),
    inr (e ∙ ap (λ l. l ++ (x ∷ [])) i, n),
    omega (arith, length-append {0} q (x ∷ [])),
  )

  pub attach-IsRuntime :
      (rt rt' : R) (p : Prog)
      → runtime_attach_program list rt p ≡ done rt'
      → IsRuntime rt
      → IsRuntime rt'
  attach-IsRuntime rt rt' p e (q, c, k) =
      let (n, i, t) = items-append rt.programs p in
      let cnt = rt.program_cnt +ℤ pos 1 in
      let (q', c', l) = appended rt (append rt.programs p).0 cnt q (n, p) i c in
      subst IsRuntime (sym (attach_shape list rt rt' p e))
        (q', c', ap (λ v. v +ℤ pos 1) k ∙ plus_one (length q) ∙ ap pos (sym l))

  -- Marking a program leaves the cursor at its node.
  marked :
      (rt : R) (q xs ys : List (Node × Prog)) (n : Node) (p p' : Prog)
      → items rt.programs ≡ xs ++ ((n, p) ∷ ys)
      → Cursor rt q
      → (q' : List (Node × Prog)) × Cursor (record rt { programs = write rt.programs n p' }) q'
        × (length q' ≡ length q)
  marked rt _ xs ys n p p' e (inl (empty i c)) = absurd (ne xs (sym i ∙ e))
    where
      ne : (xs : List (Node × Prog)) → [] ≢ xs ++ ((n, p) ∷ ys)
      ne [] h = cc
      ne (x ∷ xs) h = cc
  marked rt _ xs ys n p p' e (inl (from us vs m b i c)) =
      let (us', vs', b', same, l) = resplit xs ys us vs n m p p' b (sym e ∙ i) in
      (
        (m, b') ∷ (vs' ++ us'),
        inl (from us' vs' m b' (items-write rt.programs xs ys n p p' e ∙ same) c),
        omega (arith, l, length-append {0} vs' us', length-append {0} vs us),
      )
  marked rt q xs ys n p p' e (inr (i, c)) = (
    xs ++ ((n, p') ∷ ys),
    inr (items-write rt.programs xs ys n p p' e, c),
    omega (
      arith,
      ap length (sym i ∙ e),
      length-append {0} xs ((n, p') ∷ ys),
      length-append {0} xs ((n, p) ∷ ys),
    ),
  )

  pub marks-IsRuntime :
      (rt : R) (xs ys : List (Node × Prog)) (n : Node) (p p' : Prog)
      → items rt.programs ≡ xs ++ ((n, p) ∷ ys)
      → IsRuntime rt
      → IsRuntime (record rt { programs = write rt.programs n p' })
  marks-IsRuntime rt xs ys n p p' e (q, c, k) =
      let (q', c', l) = marked rt q xs ys n p p' e c in (q', c', k ∙ ap pos (sym l))

  pub step_idle :
      (moment : Moment globals.Table) (rt : R) (w : S)
      → rt.running ≡ true
      → rt.curr ≡ none
      → runtime_step max_alloc instructions vars ring globals table list moment rt w
        ≡ done (record rt { curr = head list rt.programs }, w)
  unfolding runtime_step
  step_idle moment rt w r c = rw (r, c) refl

  pub step_off :
      (moment : Moment globals.Table) (rt : R) (w : S)
      → rt.running ≡ false
      → runtime_step max_alloc instructions vars ring globals table list moment rt w ≡ done (rt, w)
  unfolding runtime_step
  step_off moment rt w r = rw r refl

  idle-Cursor :
      (rt : R) (q : List (Node × Prog))
      → items rt.programs ≡ q
      → Cursor (record rt { curr = head list rt.programs }) q
  idle-Cursor rt [] e = inr (e, ap (head_of list) e)
  idle-Cursor rt ((n, p) ∷ q) e = inl (
      subst
        (IsQueue max_alloc instructions vars ring globals table list
          (record rt { curr = head list rt.programs }))
        (ap (λ l. (n, p) ∷ l) (append-nil q)) (from [] q n p e (ap (head_of list) e)))

  running_step :
      (moment : Moment globals.Table) (rt rt' : R) (w w' : S) (q : List (Node × Prog))
      → rt.running ≡ true
      → runtime_step max_alloc instructions vars ring globals table list moment rt w
        ≡ done (rt', w')
      → Cursor rt q
      → rt.program_cnt ≡ pos (length q)
      → IsRuntime rt'
  running_step moment rt rt' w w' q r e (inr (i, c)) k =
      subst IsRuntime (ap (λ o. o.0) (done_inj (sym (step_idle moment rt w r c) ∙ e)))
        (q, idle-Cursor rt q i, k)
  running_step moment rt rt' w w' _ r e (inl (empty i c)) k =
      subst IsRuntime (ap (λ o. o.0) (done_inj (sym (step_idle moment rt w r c) ∙ e)))
        ([], idle-Cursor rt [] i, k)
  running_step moment rt rt' w w' _ r e (inl (from xs ys n p i c)) k =
      let (t, turned, same) =
        >>=-eq-done
          (program_turn max_alloc instructions vars ring globals table moment
            (machine_of max_alloc instructions vars ring globals table list p w))
          _
          (sym (
              step-turn max_alloc instructions vars ring globals table list moment rt w n p
                (ys ++ xs) r (from xs ys n p i c))
            ∙ e) in
      let (queue, count) =
        end_turn-Holds max_alloc instructions vars ring globals table list rt n p t.machine.program
          (ys ++ xs) _ (from xs ys n p i c, k) in
      subst IsRuntime (ap (λ o. o.0) (done_inj same)) (_, inl queue, count)

  pub step-IsRuntime :
      (moment : Moment globals.Table) (rt rt' : R) (w w' : S)
      → runtime_step max_alloc instructions vars ring globals table list moment rt w
        ≡ done (rt', w')
      → IsRuntime rt
      → IsRuntime rt'
  step-IsRuntime moment rt rt' w w' e (q, c, k) = elim (Bool-cases rt.running) [
    | inl on ↦ running_step moment rt rt' w w' q on e c k
    | inr off ↦
        subst IsRuntime (ap (λ o. o.0) (done_inj (sym (step_off moment rt w off) ∙ e))) (q, c, k)
  ]

  -- In every runtime that is reached, the count of programs is the number of programs in the list, and
  -- the cursor is NULL or at a node of the list.
  pub Reached-IsRuntime : {rt : R} → Reached rt → IsRuntime rt
  Reached-IsRuntime started = init-IsRuntime
  Reached-IsRuntime (attaches p rt' h e) = attach-IsRuntime _ rt' p e (Reached-IsRuntime h)
  Reached-IsRuntime (steps moment w w' rt' h e) =
      step-IsRuntime moment _ rt' w w' e (Reached-IsRuntime h)
  Reached-IsRuntime (marks xs ys n p p' h e) =
      marks-IsRuntime _ xs ys n p p' e (Reached-IsRuntime h)
