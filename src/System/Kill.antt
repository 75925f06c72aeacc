-- ===== src/System/Kill.antt =====
-- `kill` in a system that has been reached: an ID names one program.
use simbly.Global.{GlobalVar}
use simbly.Prelude.{
  ℕ, ◌+◌, ◌<◌, ◌≡◌, refl, ap, ◌∙◌, true, false, inl, inr, Option, none, List, [], ◌∷◌, ◌++◌, arith,
  ℤ, negsuc, Bytes, length, leb, eqb_ℤ, done,
}
use simbly.Program.{Program, Cell, Token, Instruction}
use simbly.Runtime.Thread.{Runtime}
use simbly.Shell.Args.{all_digits, max_int_str_len, word_value}
use simbly.Shell.Commands.{Sh, kill_command}
use simbly.Shell.Kill.Marks.{NoneHas, mark_program_as_finished-first}
use simbly.Shell.Kill.{id_of, killed, wake_blocked, mark_program_as_finished}
use simbly.System.Count.{
  hit, times_in, times_in-split, times_in-find_id, times, times-cons, times-append,
}
use simbly.System.Ids.{IsSystem, times_cases}
use simbly.System.Invariant.{Reached-IsSystem}
use simbly.System.{Reached}
use simbly.Voids.{HashTable, RingBuffer, CircularList}

module _ {VarTable TokenBuffer : Type 0} where
  hit_self : (p : Program VarTable TokenBuffer) → hit (id_of p) p ≡ 1
  unfolding hit
  hit_self p = let same : eqb_ℤ (id_of p) (id_of p) ≡ true = ground arith in rw same refl

  module _ (max_alloc : ℕ) (globals : HashTable (Option GlobalVar))
      (list : CircularList (Program VarTable TokenBuffer)) where
    open list use {Chain, Node, items}

    times-NoneHas :
        (i : ℤ) (rts : List (Runtime Chain Node))
        → times list i rts ≡ 0
        → NoneHas max_alloc globals list i rts
    times-NoneHas i [] h = tt
    times-NoneHas i (rt ∷ rts) h = (
      times_in-find_id i (items rt.programs) (omega (arith, h, times-cons list i rt rts)),
      times-NoneHas i rts (omega (arith, h, times-cons list i rt rts)),
    )

module _ (max_alloc : ℕ) (instructions : HashTable Instruction) (vars : HashTable Cell)
    (ring : RingBuffer Token) (globals : HashTable (Option GlobalVar)) (table : instructions.Table)
    (list : CircularList (Program vars.Table ring.Buffer)) where
  open list use {Chain, Node, items}

  abbrev R : Type 0
  R = Runtime Chain Node

  -- No program has the ID that marks the end of the search.
  no_negative :
      (rts : List R) (id_cnt : ℤ)
      → IsSystem max_alloc instructions vars ring globals table list rts id_cnt
      → times list (negsuc 0) rts ≡ 0
  no_negative rts id_cnt h = elim (times_cases (times list (negsuc 0) rts)) [
    | inl nobody ↦ nobody
    | inr somebody ↦ let (k, at, positive, below) = h.given (negsuc 0) somebody in cc
  ]

  -- Who has an ID: the program, those around it, and those of the other runtimes.
  spread :
      (rts rs rest : List R) (rt : R) (xs ys : List (Node × Program vars.Table ring.Buffer))
      (n : Node) (p : Program vars.Table ring.Buffer)
      → rts ≡ rs ++ (rt ∷ rest)
      → items rt.programs ≡ xs ++ ((n, p) ∷ ys)
      → (j : ℤ)
      → times list j rts
        ≡ times list j rs + (hit j p + (times_in j xs + times_in j ys) + times list j rest)
  spread rts rs rest rt xs ys n p e i j =
      ap (times list j) e
      ∙ times-append list j rs (rt ∷ rest)
      ∙ omega (arith, times-cons list j rt rest, ap (times_in j) i, times_in-split j xs ys n p)

  -- `kill` with the ID of a program that is marked.
  kill_word :
      (w : Bytes) (ws : List Bytes) (s : Sh max_alloc vars ring globals list) (id : ℤ)
      (rts rts' : List R) (t : globals.Table)
      → all_digits w ≡ true
      → length w < max_int_str_len
      → word_value w ≡ id
      → s.runtimes ≡ rts
      → mark_program_as_finished max_alloc globals list rts s.globals id ≡ done (rts', t, none)
      → kill_command max_alloc vars ring globals list (w ∷ ws) s
        ≡ done (record s { runtimes = rts'; globals = t })
  unfolding kill_command
  kill_word w ws s id rts rts' t d l v e m =
      let short : leb max_int_str_len (length w) ≡ false = ground (arith, l) in
      rw (d, short, v, e, m) refl

  -- In every state that the system reaches, `kill` with the ID of a program, in at most eight digits, marks that program and
  -- writes nothing: all other programs and all other runtimes stay as they were. The global variables are as
  -- the wake-up of the program leaves them. It takes that this wake-up returns.
  pub kill_command-marks :
      {s : Sh max_alloc vars ring globals list} (w : Bytes) (ws : List Bytes) (rs rest : List R)
      (rt : R) (xs ys : List (Node × Program vars.Table ring.Buffer)) (n : Node)
      (p : Program vars.Table ring.Buffer) (t' : globals.Table)
      → Reached max_alloc instructions vars ring globals table list s
      → s.runtimes ≡ rs ++ (rt ∷ rest)
      → items rt.programs ≡ xs ++ ((n, p) ∷ ys)
      → all_digits w ≡ true
      → length w < max_int_str_len
      → word_value w ≡ id_of p
      → wake_blocked max_alloc globals p s.globals ≡ done t'
      → (c : Chain) × (items c ≡ xs ++ ((n, killed p) ∷ ys))
        × (kill_command max_alloc vars ring globals list (w ∷ ws) s
            ≡ done
                (record s { runtimes = rs ++ (record rt { programs = c } ∷ rest); globals = t' }))
  kill_command-marks {s = s} w ws rs rest rt xs ys n p t' h e i d l v woken =
      let sys = Reached-IsSystem max_alloc instructions vars ring globals table list h in
      let all = spread s.runtimes rs rest rt xs ys n p e i in
      let once = sys.once (id_of p) in
      let unmarked = no_negative s.runtimes s.id_cnt sys in
      let (c, marked, found) =
        mark_program_as_finished-first max_alloc globals list rs rest rt s.globals t' (id_of p) xs
          ys n p
          (times-NoneHas max_alloc globals list (id_of p) rs
            (omega (arith, once, all (id_of p), hit_self p)))
          i (times_in-find_id (id_of p) xs (omega (arith, once, all (id_of p), hit_self p))) refl
          woken
          (times-NoneHas max_alloc globals list (negsuc 0) rest
            (omega (arith, unmarked, all (negsuc 0)))) in
      (
        c,
        marked,
        kill_word w ws s (id_of p) (rs ++ (rt ∷ rest)) (rs ++ (record rt { programs = c } ∷ rest))
            t' d l v e found,
      )
