-- ===== src/System/Shell.antt =====
-- A line of input leaves the IDs and the programs of the system as they are to be.
use simbly.Exec.Keeps.Steady.{program_with_id-Steady}
use simbly.Global.{GlobalVar}
use simbly.Prelude.{
  ℕ, ◌≡◌, refl, sym, ap, subst, ◌||◌, true, not, Bool-cases, inl, inr, Option, none, some, List, [],
  ◌∷◌, ℤ, pos, Bytes, codes, str_eq, leb, length, if_both, ◌+ℤ◌, fits_int, Outcome, Always,
  Always->>=, any_outcome,
}
use simbly.Program.Init.{program_with_id, program_init}
use simbly.Program.{Program, Cell, Token, Instruction}
use simbly.Runtime.Thread.{Runtime}
use simbly.Shell.Args.{
  Parsed, arguments, not_a_number, number_too_long, read_args, no_args, all_digits, max_int_str_len,
  word_value, words,
}
use simbly.Shell.Commands.{
  Sh, either, not_found, kill_command, counts, attach_at, started, on_file, run_command, list_from,
  list_command, go_on, command, on_line, shell_step,
}
use simbly.Shell.Balance.{least_loaded}
use simbly.Shell.Input.{read_line}
use simbly.Shell.Kill.{id_of, mark_all, mark_program_as_finished}
use simbly.System.Commands.{FewerIn, mark_all-FewerIn, OneMore, attach_at-OneMore}
use simbly.Voids.{HashTable, RingBuffer, CircularList}
use simbly.System.Ids.{IsSystem, fewer-IsSystem, more-IsSystem}

module _ (max_alloc : ℕ) (instructions : HashTable Instruction) (vars : HashTable Cell)
    (ring : RingBuffer Token) (globals : HashTable (Option GlobalVar)) (table : instructions.Table)
    (list : CircularList (Program vars.Table ring.Buffer)) where
  open list use {Chain, Node, items, items-init}

  abbrev R : Type 0
  R = Runtime Chain Node

  abbrev Sys : Type 0
  Sys = Sh max_alloc vars ring globals list

  -- A system that a step leaves is as it is to be.
  abbrev pub Good : Sys → Type 0
  Good s = IsSystem max_alloc instructions vars ring globals table list s.runtimes s.id_cnt

  not_found-Good :
      (o : Option ℤ) (s : Sys) → Good s → Good (not_found max_alloc vars ring globals list o s)
  not_found-Good none s h = h
  not_found-Good (some id) s h = h

  kill_command-Good :
      (ws : List Bytes) (s : Sys)
      → Good s
      → Always Good (kill_command max_alloc vars ring globals list ws s)
  unfolding kill_command mark_program_as_finished
  kill_command-Good [] s h = h
  kill_command-Good (w ∷ ws) s h = if_both (Always Good) (not (all_digits w)) h (
      if_both (Always Good) (leb max_int_str_len (length w)) h (
        Always->>= (λ o. FewerIn max_alloc instructions vars ring globals table list s.runtimes o.0)
          Good (mark_program_as_finished max_alloc globals list s.runtimes s.globals (word_value w))
          _
          (Always->>=
            (λ o. FewerIn max_alloc instructions vars ring globals table list s.runtimes o.0)
            (λ o. FewerIn max_alloc instructions vars ring globals table list s.runtimes o.0)
            (mark_all max_alloc globals list s.runtimes s.globals (word_value w)) _
            (mark_all-FewerIn max_alloc instructions vars ring globals table list s.runtimes
              s.globals (word_value w) h.sound)
            (λ o a. a))
          λ (rts, t, missing) a. not_found-Good missing _ (
            fewer-IsSystem max_alloc instructions vars ring globals table list s.runtimes rts
              s.id_cnt h a)))

  init_result :
      (id : ℤ) (text : Bytes) (vs : List ℤ)
      → Always
          (λ o. (o.0 ≡ id +ℤ pos 1) × (o.1 ≡ program_with_id vars ring text vs id))
          (program_init vars ring id text vs)
  unfolding program_init
  init_result id text vs = elim (Bool-cases (fits_int (id +ℤ pos 1))) [
    | inl fits ↦ rw fits (refl, refl)
    | inr over ↦ rw over tt
  ]

  started-Good :
      (text : Bytes) (s : Sys) (o : Parsed)
      → Good s
      → Always Good (started max_alloc vars ring globals list text s o)
  started-Good text s not_a_number h = h
  started-Good text s number_too_long h = h
  started-Good text s (arguments vs) h =
      Always->>=
        (λ o. (o.0 ≡ s.id_cnt +ℤ pos 1) × (o.1 ≡ program_with_id vars ring text vs s.id_cnt)) Good
        (program_init vars ring s.id_cnt text vs) _ (init_result s.id_cnt text vs)
        λ (next, p) (e, same).
          Always->>= (OneMore max_alloc instructions vars ring globals table list p s.runtimes) Good
            (attach_at max_alloc vars ring globals list s.runtimes
              (least_loaded (counts max_alloc vars ring globals list s.runtimes)) p)
            _
            (attach_at-OneMore max_alloc instructions vars ring globals table list s.runtimes
              (least_loaded (counts max_alloc vars ring globals list s.runtimes)) p
              (
                text,
                vs,
                s.id_cnt,
                rw same (program_with_id-Steady max_alloc vars ring text vs s.id_cnt),
              )
              h.sound)
            λ rts a.
              subst (IsSystem max_alloc instructions vars ring globals table list rts) (sym e) (
                more-IsSystem max_alloc instructions vars ring globals table list s.runtimes rts
                  s.id_cnt p (ap (λ (q : Program vars.Table ring.Buffer). id_of q) same) h a)

  on_file-Good :
      (fname : Bytes) (ws : List Bytes) (s : Sys) (o : Option Bytes)
      → Good s
      → Always Good (on_file max_alloc vars ring globals list fname ws s o)
  on_file-Good fname ws s none h = h
  on_file-Good fname ws s (some text) h =
      Always->>= (λ x. Unit) Good (read_args ws no_args) _ (any_outcome _)
        (λ o _. started-Good text s o h)

  run_command-Good :
      (files : Bytes → Option Bytes) (ws : List Bytes) (s : Sys)
      → Good s
      → Always Good (run_command max_alloc vars ring globals list files ws s)
  unfolding run_command
  run_command-Good files [] s h = h
  run_command-Good files (fname ∷ ws) s h = on_file-Good fname ws s (files fname) h

  list_command-Good :
      (s : Sys) → Good s → Always Good (list_command max_alloc vars ring globals list s)
  unfolding list_command
  list_command-Good s h =
      Always->>= (λ x. Unit) Good (list_from max_alloc vars ring globals list 0 s.runtimes) _
        (any_outcome _) (λ ms _. h)

  go_on-Good :
      (o : Outcome Sys)
      → Always Good o
      → Always (λ r. Good r.0) (go_on max_alloc vars ring globals list o)
  go_on-Good o h = Always->>= Good (λ r. Good r.0) o _ h (λ s a. a)

  command-Good :
      (files : Bytes → Option Bytes) (ws : List Bytes) (s : Sys)
      → Good s
      → Always (λ r. Good r.0) (command max_alloc vars ring globals list files ws s)
  unfolding command
  command-Good files [] s h = tt
  command-Good files (w ∷ ws) s h =
      if_both (Always λ r. Good r.0) (str_eq (codes "q") w || either "exit" "quit" w) h (
        if_both (Always λ r. Good r.0) (either "k" "kill" w)
          (go_on-Good _ (kill_command-Good ws s h))
          (if_both (Always λ r. Good r.0) (either "r" "run" w)
            (go_on-Good _ (run_command-Good files ws s h))
            (if_both (Always λ r. Good r.0) (either "l" "list" w)
              (go_on-Good _ (list_command-Good s h))
              (if_both (Always λ r. Good r.0) (either "h" "help" w) h h))))

  on_line-Good :
      (files : Bytes → Option Bytes) (s : Sys) (o : Option Bytes)
      → Good s
      → Always (λ r. Good r.0) (on_line max_alloc vars ring globals list files s o)
  on_line-Good files s none h = tt
  on_line-Good files s (some line) h =
      command-Good files (words line) (record s { has_read = true }) h

  pub shell_step-Good :
      (files : Bytes → Option Bytes) (input : Bytes) (s : Sys)
      → Good s
      → Always (λ o. Good o.0.0) (shell_step max_alloc vars ring globals list files input s)
  unfolding shell_step
  shell_step-Good files input s h =
      Always->>= (λ x. Unit) (λ o. Good o.0.0) (read_line input) _ (any_outcome _)
        λ l _.
          Always->>= (λ r. Good r.0) (λ o. Good o.0.0)
            (on_line max_alloc vars ring globals list files _ l.line) _
            (on_line-Good files _ l.line h) (λ r a. a)
