-- ===== src/System/Invariant.antt =====
-- What holds of the whole system whatever is typed and whatever the programs do.
use simbly.Global.{GlobalVar}
use simbly.Prelude.{
  ℕ, zero, suc, ◌≡◌, refl, sym, ap, subst, Bool, Option, List, [], ◌∷◌, ◌++◌, arith, ℤ, Bytes, leb,
  replicate, if◌then◌else◌, Outcome, done, Always,
}
use simbly.Program.{Program, Cell, Token, Instruction}
use simbly.Runtime.Thread.Invariant.{init-IsRuntime}
use simbly.Runtime.Thread.{Runtime, Shared, runtime_init, runtime_step}
use simbly.Shell.Commands.{Sh, shell_init}
use simbly.System.Commands.{AllSound, FewerIn}
use simbly.System.Count.{times_in, times, times-cons}
use simbly.Runtime.Turn.{Moment}
use simbly.System.Follows.{Every}
use simbly.System.Rounds.{runtime_step-IsSound}
use simbly.System.{Reached, begins, commands, rounds}
use simbly.Voids.{HashTable, RingBuffer, CircularList}
use simbly.System.Ids.{IsSystem, fewer-IsSystem}
use simbly.System.Shell.{Good, shell_step-Good}

module _ (max_alloc : ℕ) (instructions : HashTable Instruction) (vars : HashTable Cell)
    (ring : RingBuffer Token) (globals : HashTable (Option GlobalVar)) (table : instructions.Table)
    (list : CircularList (Program vars.Table ring.Buffer)) where
  open list use {Chain, Node, items, items-init}

  abbrev R : Type 0
  R = Runtime Chain Node

  abbrev Sys : Type 0
  Sys = Sh max_alloc vars ring globals list

  -- The runtimes that runtime_init makes.
  init-AllSound :
      (n : ℕ)
      → AllSound max_alloc instructions vars ring globals table list
          (replicate n (runtime_init list))
        × ((i : ℤ) → times list i (replicate n (runtime_init list)) ≡ 0)
  unfolding runtime_init times times_in
  init-AllSound zero = (tt, λ i. refl)
  init-AllSound (suc n) =
      let (sound, nothing) = init-AllSound n in
      let nobody : items (runtime_init list).programs ≡ [] = items-init in
      (
        (
          (
            init-IsRuntime max_alloc instructions vars ring globals table list,
            subst (Every max_alloc instructions vars ring globals table list) (sym nobody) tt,
          ),
          sound,
        ),
        λ i. omega (arith, ap (times_in i) nobody, nothing i),
      )

  shell_init-Good :
      (nprocs : ℕ) (t : globals.Table)
      → Good max_alloc instructions vars ring globals table list
          (shell_init max_alloc vars ring globals list nprocs t)
  unfolding shell_init
  shell_init-Good nprocs t =
      let (sound, nothing) = init-AllSound (if leb nprocs 1 then 4 else nprocs) in
      record {
        next_id = 1;
        counter = (refl, omega arith);
        sound = sound;
        once = λ i. omega (arith, nothing i);
        given = λ i l. absurd (omega (arith, nothing i, l));
      }

  -- A round of one of the runtimes.
  round-Good :
      (rts : List R) (id_cnt : ℤ) (moment : Moment globals.Table) (w w' : Shared globals.Table)
      (rs rest : List R) (rt rt' : R)
      → rts ≡ rs ++ (rt ∷ rest)
      → runtime_step max_alloc instructions vars ring globals table list moment rt w
        ≡ done (rt', w')
      → IsSystem max_alloc instructions vars ring globals table list rts id_cnt
      → IsSystem max_alloc instructions vars ring globals table list (rs ++ (rt' ∷ rest)) id_cnt
  round-Good rts id_cnt moment w w' rs rest rt rt' e step h =
      fewer-IsSystem max_alloc instructions vars ring globals table list rts (rs ++ (rt' ∷ rest))
        id_cnt h
        (subst
          (λ l. FewerIn max_alloc instructions vars ring globals table list l (rs ++ (rt' ∷ rest)))
          (sym e)
          (in_place rs
            (subst (AllSound max_alloc instructions vars ring globals table list) e h.sound)))
    where
      in_place :
          (rs : List R)
          → AllSound max_alloc instructions vars ring globals table list (rs ++ (rt ∷ rest))
          → FewerIn max_alloc instructions vars ring globals table list
              (rs ++ (rt ∷ rest))
              (rs ++ (rt' ∷ rest))
      in_place [] (a, all) =
          let (sound, less) =
            runtime_step-IsSound max_alloc instructions vars ring globals table list moment rt rt' w
              w' a step in
          (
            (sound, all),
            λ i. omega (arith, less i, times-cons list i rt rest, times-cons list i rt' rest),
          )
      in_place (r ∷ rs) (a, all) =
          let (sound, fewer) = in_place rs all in
          (
            (a, sound),
            λ i. omega (
              arith,
              fewer i,
              times-cons list i r (rs ++ (rt ∷ rest)),
              times-cons list i r (rs ++ (rt' ∷ rest)),
            ),
          )

  command_done :
      (o : Outcome ((Sys × Bool) × Bytes)) (s : Sys) (go : Bool) (rest : Bytes)
      → o ≡ done ((s, go), rest)
      → Always (λ o. Good max_alloc instructions vars ring globals table list o.0.0) o
      → Good max_alloc instructions vars ring globals table list s
  command_done o s go rest e h =
      subst
        (Always λ (o : (Sys × Bool) × Bytes).
          Good max_alloc instructions vars ring globals table list o.0.0)
        e h

  -- In every state that the shell and its runtimes reach, by any commands and any rounds of the threads
  -- in any order, no two programs have the same ID, every ID is at least 1 and below the next one,
  -- each runtime's count is that of its programs and its cursor is NULL or at one of them, and every
  -- program has an ID, the count of its arguments and the arguments in its argv, a reader that
  -- stands in its file where its offset says, and no empty array.
  pub Reached-IsSystem :
      {s : Sys}
      → Reached max_alloc instructions vars ring globals table list s
      → IsSystem max_alloc instructions vars ring globals table list s.runtimes s.id_cnt
  Reached-IsSystem (begins nprocs t) = shell_init-Good nprocs t
  Reached-IsSystem (commands files input rest s' go h e) = command_done _ s' go rest e (
      shell_step-Good max_alloc instructions vars ring globals table list files input _
        (Reached-IsSystem h))
  Reached-IsSystem (rounds moment w w' rs rest rt rt' h e g step) =
      round-Good _ _ moment w w' rs rest rt rt' e step (Reached-IsSystem h)
