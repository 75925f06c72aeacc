-- ===== src/Shell/Commands/Run.antt =====
-- `run`: where the program that it starts goes.
use simbly.Global.{GlobalVar}
use simbly.Prelude.{
  ℕ, zero, suc, ◌<◌, ◌≡◌, refl, sym, ap, ◌∙◌, subst, true, Option, some, List, [], ◌∷◌, ◌++◌, Bytes,
  ℤ, pos, ◌+ℤ◌, length, get_elem?, fits_int, done, ◌>>=◌,
}
use simbly.Program.Init.{program_init, program_with_id}
use simbly.Program.{Program, Cell, Token}
use simbly.Runtime.Thread.Attach.{attach_done}
use simbly.Runtime.Thread.{Runtime, runtime_attach_program}
use simbly.Shell.Args.Growth.{max_args}
use simbly.Shell.Args.Numbers.{values, read_args_fits}
use simbly.Shell.Args.{arguments}
use simbly.Shell.Balance.{IsLeast, least_loaded, least_loaded-IsLeast}
use simbly.Shell.Commands.{Sh, counts, attach_at, run_command, started}
use simbly.Voids.{HashTable, RingBuffer, CircularList}

module _ (max_alloc : ℕ) (vars : HashTable Cell) (ring : RingBuffer Token)
    (globals : HashTable (Option GlobalVar))
    (list : CircularList (Program vars.Table ring.Buffer)) where
  open list use {Chain, Node, items, append, items-append}

  abbrev R : Type 0
  R = Runtime Chain Node

  -- The runtime at an index.
  split_at :
      (rts : List R) (i : ℕ) (x : ℤ)
      → get_elem? (counts max_alloc vars ring globals list rts) i ≡ some x
      → (rs rest : List R) × (rt : R) × (rts ≡ rs ++ (rt ∷ rest))
        × (length rs ≡ i)
        × (rt.program_cnt ≡ x)
  split_at [] i x h = cc
  split_at (r ∷ rts) zero x h = ([], rts, r, refl, refl, cc)
  split_at (r ∷ rts) (suc i) x h =
      let (rs, rest, rt, e, l, c) = split_at rts i x h in
      (r ∷ rs, rest, rt, ap (λ l. r ∷ l) e, ap suc l, c)

  attach_at_lem :
      (rs rest : List R) (rt rt' : R) (p : Program vars.Table ring.Buffer)
      → runtime_attach_program list rt p ≡ done rt'
      → attach_at max_alloc vars ring globals list (rs ++ (rt ∷ rest)) (length rs) p
        ≡ done (rs ++ (rt' ∷ rest))
  attach_at_lem [] rest rt rt' p h = rw h refl
  attach_at_lem (r ∷ rs) rest rt rt' p h = rw (attach_at_lem rs rest rt rt' p h) refl

  program_init_fits :
      (id : ℤ) (text : Bytes) (vs : List ℤ)
      → fits_int (id +ℤ pos 1) ≡ true
      → program_init vars ring id text vs ≡ done (id +ℤ pos 1, program_with_id vars ring text vs id)
  unfolding program_init
  program_init_fits id text vs h = rw h refl

  started_at :
      (text : Bytes) (s : Sh max_alloc vars ring globals list) (vs : List ℤ) (rs rest : List R)
      (rt rt' : R)
      → s.runtimes ≡ rs ++ (rt ∷ rest)
      → length rs ≡ least_loaded (counts max_alloc vars ring globals list s.runtimes)
      → fits_int (s.id_cnt +ℤ pos 1) ≡ true
      → runtime_attach_program list rt (program_with_id vars ring text vs s.id_cnt) ≡ done rt'
      → started max_alloc vars ring globals list text s (arguments vs)
        ≡ done (record s { runtimes = rs ++ (rt' ∷ rest); id_cnt = s.id_cnt +ℤ pos 1 })
  started_at text s vs rs rest rt rt' e l fits a =
      let p = program_with_id vars ring text vs s.id_cnt in
      rw (program_init_fits s.id_cnt text vs fits, sym l)
        (ap
            (λ rts. attach_at max_alloc vars ring globals list rts (length rs) p >>= λ rts.
              done (record s { runtimes = rts; id_cnt = s.id_cnt +ℤ pos 1 }))
            e
          ∙ ap (λ o. o >>= λ rts. done (record s { runtimes = rts; id_cnt = s.id_cnt +ℤ pos 1 }))
              (attach_at_lem rs rest rt rt' p a))

  run_starts :
      (files : Bytes → Option Bytes) (fname text : Bytes) (words : List Bytes) (vs : List ℤ)
      (s : Sh max_alloc vars ring globals list)
      → files fname ≡ some text
      → length words < max_args
      → values words ≡ arguments vs
      → run_command max_alloc vars ring globals list files (fname ∷ words) s
        ≡ started max_alloc vars ring globals list text s (arguments vs)
  unfolding run_command
  run_starts files fname text words vs s f l v = rw (f, read_args_fits words l, v) refl

  -- `run`, for a file that can be read and words that are all numbers of at most eight digits, starts
  -- one program: it gets the next ID and the numbers as its arguments, and goes behind the programs of
  -- the first of the runtimes that have the fewest. All other runtimes, and the programs that this one
  -- has, stay as they are. It takes that there is a runtime, that
  -- there are fewer than 12 * 2 ^ 27 words and that the counters do not overflow.
  pub run_command-attaches :
      (files : Bytes → Option Bytes) (fname text : Bytes) (words : List Bytes) (vs : List ℤ)
      (s : Sh max_alloc vars ring globals list) (r : R) (rts : List R)
      → files fname ≡ some text
      → length words < max_args
      → values words ≡ arguments vs
      → s.runtimes ≡ r ∷ rts
      → fits_int (s.id_cnt +ℤ pos 1) ≡ true
      → ((i : ℕ) (x : ℤ)
          → get_elem? (counts max_alloc vars ring globals list s.runtimes) i ≡ some x
          → fits_int (x +ℤ pos 1) ≡ true)
      → (rs rest : List R) × (rt rt' : R) × (n : Node) × (s.runtimes ≡ rs ++ (rt ∷ rest))
        × IsLeast (counts max_alloc vars ring globals list s.runtimes) (length rs) rt.program_cnt
        × (run_command max_alloc vars ring globals list files (fname ∷ words) s
            ≡ done (record s { runtimes = rs ++ (rt' ∷ rest); id_cnt = s.id_cnt +ℤ pos 1 }))
        × (items rt'.programs
            ≡ items rt.programs ++ ((n, program_with_id vars ring text vs s.id_cnt) ∷ []))
        × (rt'.program_cnt ≡ rt.program_cnt +ℤ pos 1)
  run_command-attaches files fname text words vs s r rts f l v e fits room =
      let cnts = counts max_alloc vars ring globals list s.runtimes in
      let same : counts max_alloc vars ring globals list s.runtimes
          ≡ r.program_cnt ∷ counts max_alloc vars ring globals list rts =
        ap (counts max_alloc vars ring globals list) e in
      let (x, first) =
        least_loaded-IsLeast r.program_cnt (counts max_alloc vars ring globals list rts) in
      let least : IsLeast cnts (least_loaded cnts) x =
        subst (λ c. IsLeast c (least_loaded c) x) (sym same) first in
      let (rs, rest, rt, split, here, cnt) = split_at s.runtimes (least_loaded cnts) x least.0 in
      let p = program_with_id vars ring text vs s.id_cnt in
      let (n, added, ok) = items-append rt.programs p in
      let rt' : R = record rt {
        programs = (append rt.programs p).0;
        program_cnt = rt.program_cnt +ℤ pos 1;
      } in
      let attached = attach_done list rt p (rw cnt (room (least_loaded cnts) x least.0)) in
      (
        rs,
        rest,
        rt,
        rt',
        n,
        split,
        rw (here, cnt) least,
        run_starts files fname text words vs s f l v
            ∙ started_at text s vs rs rest rt rt' split here fits attached,
        added,
        refl,
      )
