-- ===== src/Shell/Kill/Ends.antt =====
-- A killed program on its next turn.
use simbly.Exec.Machine.{Machine}
use simbly.Global.{GlobalVar}
use simbly.Prelude.{
  ℕ, ◌-◌, ◌^◌, pos, negsuc, ◌≢◌, ◌≡◌, refl, ap, ◌∙◌, true, Option, none, List, [], ◌∷◌, ◌++◌, ℤ,
  done, ◌>>=◌,
}
use simbly.Program.{Program, Cell, Token, Instruction}
use simbly.Runtime.Clock.{fits_long, time_slice}
use simbly.Runtime.Slice.{time_slice-bounds}
use simbly.Runtime.Thread.Queue.{Holds, end_turn-Holds}
use simbly.Runtime.Thread.Rounds.{step-turn}
use simbly.Runtime.Thread.{
  Runtime, Shared, program_killed, end_turn, after_turn, machine_of, runtime_step,
}
use simbly.Runtime.Turn.{Moment, Turn, program_turn}
use simbly.Shell.Kill.{id_of, killed}
use simbly.Voids.{HashTable, RingBuffer, CircularList}

module _ (max_alloc : ℕ) (instructions : HashTable Instruction) (vars : HashTable Cell)
    (ring : RingBuffer Token) (globals : HashTable (Option GlobalVar)) (table : instructions.Table)
    (list : CircularList (Program vars.Table ring.Buffer)) where
  open list use {Chain, Node, write}

  abbrev Prog : Type 0
  Prog = Program vars.Table ring.Buffer

  finished_turn :
      (moment : Moment globals.Table) (p : Prog) (w : Shared globals.Table) (v : ℤ)
      → time_slice moment.random ≡ done v
      → program_turn max_alloc instructions vars ring globals table moment
          (machine_of max_alloc instructions vars ring globals table list (killed p) w)
        ≡ done (record {
          machine = machine_of max_alloc instructions vars ring globals table list (killed p) w;
          slept = none;
        })
  unfolding program_turn
  finished_turn moment p w v e = rw e refl

  finished_end :
      (rt : Runtime Chain Node) (n : Node) (p : Prog) (w : Shared globals.Table)
      → (end_turn max_alloc instructions vars ring globals table list rt n (killed p) w).1
        ≡ record w { notices = w.notices ++ program_killed (id_of p) ∷ [] }
  unfolding end_turn
  finished_end rt n p w = refl

  -- A program that the shell has marked executes no line any more: at its next turn it leaves the
  -- queue, the others stay as they are, and the one thing that is written is that it was killed. It takes
  -- that the random number of the turn is a `long` but the least.
  pub killed-leaves :
      (moment : Moment globals.Table) (rt : Runtime Chain Node) (w : Shared globals.Table)
      (n : Node) (p : Prog) (q : List (Node × Prog))
      → rt.running ≡ true
      → Holds max_alloc instructions vars ring globals table list rt ((n, killed p) ∷ q)
      → fits_long moment.random ≡ true
      → moment.random ≢ negsuc (2 ^ 63 - 1)
      → (rt' : Runtime Chain Node) × (runtime_step max_alloc instructions vars ring globals table
            list moment rt w
          ≡ done (rt', record w { notices = w.notices ++ program_killed (id_of p) ∷ [] }))
        × Holds max_alloc instructions vars ring globals table list rt' q
  killed-leaves moment rt w n p q r h f l =
      let (k, slice, _) = time_slice-bounds moment.random f l in
      let t : Turn (Machine vars.Table ring.Buffer globals.Table) = record {
        machine = machine_of max_alloc instructions vars ring globals table list (killed p) w;
        slept = none;
      } in
      (
        (after_turn max_alloc instructions vars ring globals table list rt n w t).0,
        step-turn max_alloc instructions vars ring globals table list moment rt w n (killed p) q r
              h.0
            ∙ ap
                (λ m. m >>= λ t.
                  done (after_turn max_alloc instructions vars ring globals table list rt n w t))
                (finished_turn moment p w (pos k) slice)
            ∙ ap
                (λ u.
                  done (
                    (after_turn max_alloc instructions vars ring globals table list rt n w t).0,
                    u,
                  ))
                (finished_end (record rt { programs = write rt.programs n (killed p) }) n p w),
        end_turn-Holds max_alloc instructions vars ring globals table list rt n (killed p)
            (killed p) q w h,
      )
