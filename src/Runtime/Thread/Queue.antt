-- ===== src/Runtime/Thread/Queue.antt =====
-- The list of a runtime and its cursor as a queue: what the end of a turn does to it.
use mathlib.Core.List.{append_assoc, append-nil}
use simbly.Global.{GlobalVar}
use simbly.Prelude.{
  ℕ, suc, ◌≡◌, refl, sym, ap, subst, ◌∙◌, true, false, Option, none, some, List, [], ◌∷◌, ◌++◌,
  arith, ℤ, pos, ◌-ℤ◌, Bool-cases, inl, inr, length, length-append, if◌then◌else◌,
}
use simbly.Program.{Program, Cell, Token, Instruction}
use simbly.Runtime.Thread.{Runtime, Shared, head, leaves, end_turn}
use simbly.Voids.{HashTable, RingBuffer, CircularList}

module _ (max_alloc : ℕ) (instructions : HashTable Instruction) (vars : HashTable Cell)
    (ring : RingBuffer Token) (globals : HashTable (Option GlobalVar)) (table : instructions.Table)
    (list : CircularList (Program vars.Table ring.Buffer)) where
  open list use {
    Chain, Node, items, at, next, prev, write, delete, next_inner, next_last, prev-next,
    items-write, items-delete,
  }

  abbrev Prog : Type 0
  Prog = Program vars.Table ring.Buffer

  -- The programs of a runtime from its cursor on, round the list.
  pub data IsQueue (rt : Runtime Chain Node) : List (Node × Prog) → Type 0 where
    empty : items rt.programs ≡ [] → rt.curr ≡ none → IsQueue rt []
    from :
        (xs ys : List (Node × Prog)) (n : Node) (p : Prog)
        → items rt.programs ≡ xs ++ ((n, p) ∷ ys)
        → rt.curr ≡ some n
        → IsQueue rt ((n, p) ∷ (ys ++ xs))

  -- What a fair scheduler does with the first program of its queue, as the turn has left it.
  abbrev pub served : Node → Prog → List (Node × Prog) → List (Node × Prog)
  served n p q =
      if leaves max_alloc instructions vars ring globals table list p then q else q ++ ((n, p) ∷ [])

  -- The cursor behind a program that stays.
  move_on :
      (rt : Runtime Chain Node) (xs ys : List (Node × Prog)) (n : Node) (p : Prog)
      → items rt.programs ≡ xs ++ ((n, p) ∷ ys)
      → IsQueue (record rt { curr = some (next rt.programs n) }) ((ys ++ xs) ++ ((n, p) ∷ []))
  move_on rt xs ((m, b) ∷ ys) n p e =
      subst (IsQueue (record rt { curr = some (next rt.programs n) }))
        (ap (λ l. (m, b) ∷ l) (sym (append_assoc ys xs ((n, p) ∷ []))))
        (from (xs ++ ((n, p) ∷ [])) ys m b (e ∙ sym (append_assoc xs ((n, p) ∷ []) ((m, b) ∷ ys)))
          (ap some (next_inner rt.programs xs ys n m p b e)))
  move_on rt [] [] n p e = from [] [] n p e (ap some (next_last rt.programs [] [] n n p p e e))
  move_on rt ((m, b) ∷ xs) [] n p e =
      subst (IsQueue (record rt { curr = some (next rt.programs n) }))
        (append-nil ((m, b) ∷ (xs ++ ((n, p) ∷ []))))
        (from [] (xs ++ ((n, p) ∷ [])) m b e
          (ap some (next_last rt.programs ((m, b) ∷ xs) (xs ++ ((n, p) ∷ [])) n m p b e e)))

  abbrev pub cursor : Chain → Node → Option Node
  cursor rest nxt = elim (head list rest) [ none ↦ none | some _ ↦ some nxt ]

  cursor-some :
      (rest : Chain) (nxt : Node) (xs ys : List (Node × Prog)) (m : Node) (b : Prog)
      → items rest ≡ xs ++ ((m, b) ∷ ys)
      → cursor rest nxt ≡ some nxt
  cursor-some rest nxt [] ys m b e = rw (e, cursor) refl
  cursor-some rest nxt (x ∷ xs) ys m b e = rw (e, cursor) refl

  cursor-none : (rest : Chain) (nxt : Node) → items rest ≡ [] → cursor rest nxt ≡ none
  cursor-none rest nxt e = rw (e, cursor) refl

  -- The list without a program that leaves.
  move_off :
      (rt : Runtime Chain Node) (rest : Chain) (nxt : Node) (cnt : ℤ) (xs ys : List (Node × Prog))
      (n : Node) (p : Prog)
      → items rt.programs ≡ xs ++ ((n, p) ∷ ys)
      → nxt ≡ next rt.programs n
      → items rest ≡ xs ++ ys
      → IsQueue
          (record rt { programs = rest; curr = cursor rest nxt; program_cnt = cnt })
          (ys ++ xs)
  move_off rt rest nxt cnt xs ((m, b) ∷ ys) n p e s d =
      from xs ys m b d
        (cursor-some rest nxt xs ys m b d ∙ ap some (s ∙ next_inner rt.programs xs ys n m p b e))
  move_off rt rest nxt cnt [] [] n p e s d = empty d (cursor-none rest nxt d)
  move_off rt rest nxt cnt ((m, b) ∷ xs) [] n p e s d =
      let d' = d ∙ append-nil ((m, b) ∷ xs) in
      subst (IsQueue (record rt { programs = rest; curr = cursor rest nxt; program_cnt = cnt }))
        (append-nil ((m, b) ∷ xs))
        (from [] xs m b d' (
          cursor-some rest nxt [] xs m b d'
          ∙ ap some (s ∙ next_last rt.programs ((m, b) ∷ xs) (xs ++ ((n, p) ∷ [])) n m p b e e)))

  -- A runtime with its queue, and with the right count of programs.
  abbrev pub Holds : Runtime Chain Node → List (Node × Prog) → Type 0
  Holds rt q = IsQueue rt q × (rt.program_cnt ≡ pos (length q))

  minus_one : (k : ℕ) → pos (suc k) -ℤ pos 1 ≡ pos k
  unfolding ◌-ℤ◌
  minus_one k = ground arith

  pub end_turn-leaves :
      (rt : Runtime Chain Node) (n : Node) (p : Prog) (w : Shared globals.Table)
      → leaves max_alloc instructions vars ring globals table list p ≡ true
      → let nxt = next rt.programs n in
        let rest = delete rt.programs (prev rt.programs nxt) in
        (end_turn max_alloc instructions vars ring globals table list rt n p w).0 ≡ record rt {
          programs = rest;
          curr = cursor rest nxt;
          program_cnt = rt.program_cnt -ℤ pos 1;
        }
  unfolding end_turn
  end_turn-leaves rt n p w h = rw h refl

  pub end_turn-stays :
      (rt : Runtime Chain Node) (n : Node) (p : Prog) (w : Shared globals.Table)
      → leaves max_alloc instructions vars ring globals table list p ≡ false
      → (end_turn max_alloc instructions vars ring globals table list rt n p w).0
        ≡ record rt { curr = some (next rt.programs n) }
  unfolding end_turn
  end_turn-stays rt n p w h = rw h refl

  -- The end of a turn does to the queue what a fair scheduler does.
  pub end_turn-Holds :
      (rt : Runtime Chain Node) (n : Node) (p p' : Prog) (q : List (Node × Prog))
      (w : Shared globals.Table)
      → Holds rt ((n, p) ∷ q)
      → Holds
          (end_turn max_alloc instructions vars ring globals table list
            (record rt { programs = write rt.programs n p' })
            n
            p'
            w).0
          (served n p' q)
  end_turn-Holds rt n p p' _ w (from xs ys _ _ e c, k) =
      let new = record rt { programs = write rt.programs n p' } in
      let e' = items-write rt.programs xs ys n p p' e in
      elim (Bool-cases (leaves max_alloc instructions vars ring globals table list p')) [
        | inl off ↦
            rw (end_turn-leaves new n p' w off, off)
              (
                move_off new (delete new.programs (prev new.programs (next new.programs n)))
                    (next new.programs n) _ xs ys n p' e' refl
                    (ap (λ m. items (delete new.programs m)) (prev-next new.programs xs ys n p' e')
                      ∙ items-delete new.programs xs ys n p' e'),
                ap (λ v. v -ℤ pos 1) k ∙ minus_one (length (ys ++ xs)),
              )
        | inr on ↦
            rw (end_turn-stays new n p' w on, on)
              (
                move_on new xs ys n p' e',
                k ∙ ap pos (omega (arith, length-append {0} (ys ++ xs) ((n, p') ∷ []))),
              )
      ]
