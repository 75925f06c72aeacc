-- ===== src/System/Commands.antt =====
-- What the commands of the shell do to the programs of all runtimes: `kill` leaves the IDs as they are,
-- `run` adds the ID that is next.
use simbly.Global.{GlobalVar}
use simbly.Prelude.{
  ℕ, zero, suc, ◌+◌, ◌≤◌, ◌≡◌, refl, sym, ap, subst, ◌∙◌, Option, none, some, List, [], ◌∷◌, ◌++◌,
  arith, ℤ, Outcome, done, fatal, undefined, Always, Always->>=, any_outcome,
}
use simbly.Program.{Program, Cell, Token, Instruction}
use simbly.Runtime.Thread.Attach.{attach_shape}
use simbly.Runtime.Thread.Invariant.{attach-IsRuntime, marks-IsRuntime}
use simbly.Runtime.Thread.{Runtime, runtime_attach_program}
use simbly.Shell.Commands.{attach_at}
use simbly.Shell.Kill.{killed, find_id, wake_blocked, mark_found, mark_in, mark_all}
use simbly.System.Count.{
  hit, times_in, times_in-append, times_in-one, times, times-cons, find_id-split,
}
use simbly.System.Follows.{Every, IsProgram, IsSound, NoMore, Every-append, replaced, killed-Turned}
use simbly.Voids.{HashTable, RingBuffer, CircularList}

module _ (max_alloc : ℕ) (instructions : HashTable Instruction) (vars : HashTable Cell)
    (ring : RingBuffer Token) (globals : HashTable (Option GlobalVar)) (table : instructions.Table)
    (list : CircularList (Program vars.Table ring.Buffer)) where
  open list use {Chain, Node, items, append, write, items-append, items-write}

  abbrev Prog : Type 0
  Prog = Program vars.Table ring.Buffer

  abbrev R : Type 0
  R = Runtime Chain Node

  -- Every runtime is sound.
  abbrev pub AllSound : List R → Type 0
  AllSound [] = Unit
  AllSound (rt ∷ rts) =
      IsSound max_alloc instructions vars ring globals table list rt × AllSound rts

  -- The runtimes are sound, and no ID has more programs than in the others.
  abbrev pub FewerIn : List R → List R → Type 0
  FewerIn rts rts' = AllSound rts' × ((i : ℤ) → times list i rts' ≤ times list i rts)

  abbrev OneFollows : R → R × globals.Table × ℤ → Type 0
  OneFollows rt (rt', t, id) =
      IsSound max_alloc instructions vars ring globals table list rt'
      × NoMore max_alloc instructions vars ring globals table list rt rt'

  found-Follows :
      (rt : R) (t : globals.Table) (id : ℤ) (o : Option (Node × Prog))
      → find_id id (items rt.programs) ≡ o
      → IsSound max_alloc instructions vars ring globals table list rt
      → Always (OneFollows rt) (mark_found max_alloc globals list rt t id o)
  found-Follows rt t id none e h = (h, λ i. omega arith)
  found-Follows rt t id (some (n, p)) e (h, all) =
      let (us, vs, s) = find_id-split id (items rt.programs) n p e in
      let (same, good) =
        replaced max_alloc instructions vars ring globals table list us vs n p (killed p)
          (killed-Turned max_alloc instructions vars ring globals table list p) in
      let now = items-write rt.programs us vs n p (killed p) s in
      Always->>= (λ u. Unit) (OneFollows rt) (wake_blocked max_alloc globals p t) _ (any_outcome _)
        λ u _. (
          (
            marks-IsRuntime max_alloc instructions vars ring globals table list rt us vs n p
                (killed p) s h,
            subst (Every max_alloc instructions vars ring globals table list) (sym now)
                (good (subst (Every max_alloc instructions vars ring globals table list) s all)),
          ),
          λ i. omega (arith, ap (times_in i) now, ap (times_in i) s, same i),
        )

  pub mark_all-FewerIn :
      (rts : List R) (t : globals.Table) (id : ℤ)
      → AllSound rts
      → Always (λ o. FewerIn rts o.0) (mark_all max_alloc globals list rts t id)
  unfolding mark_all mark_in
  mark_all-FewerIn [] t id h = (tt, λ i. omega arith)
  mark_all-FewerIn (rt ∷ rts) t id (h, hs) =
      Always->>= (OneFollows rt) (λ o. FewerIn (rt ∷ rts) o.0)
        (mark_in max_alloc globals list rt t id) _
        (found-Follows rt t id (find_id id (items rt.programs)) refl h)
        λ (rt', t', id') (k, less).
          Always->>= (λ o. FewerIn rts o.0) (λ o. FewerIn (rt ∷ rts) o.0)
            (mark_all max_alloc globals list rts t' id') _ (mark_all-FewerIn rts t' id' hs)
            λ (rts', u, last) (ks, fewer). (
              (k, ks),
              λ i.
                  omega
                    (arith, less i, fewer i, times-cons list i rt rts, times-cons list i rt' rts'),
            )

  -- One more program, with the ID of `p`.
  abbrev pub OneMore : Prog → List R → List R → Type 0
  OneMore p rts rts' = AllSound rts' × ((i : ℤ) → times list i rts' ≡ hit i p + times list i rts)

  attached-Sound :
      (p : Prog) (rt rt' : R)
      → IsProgram max_alloc instructions vars ring globals table list p
      → IsSound max_alloc instructions vars ring globals table list rt
      → runtime_attach_program list rt p ≡ done rt'
      → IsSound max_alloc instructions vars ring globals table list rt'
        × ((i : ℤ) → times_in i (items rt'.programs) ≡ hit i p + times_in i (items rt.programs))
  attached-Sound p rt rt' g (h, all) e =
      let (n, added, ok) = items-append rt.programs p in
      let now : items rt'.programs ≡ items rt.programs ++ ((n, p) ∷ []) =
        ap (λ (o : R). items o.programs) (attach_shape list rt rt' p e) ∙ added in
      (
        (
          attach-IsRuntime max_alloc instructions vars ring globals table list rt rt' p e h,
          subst (Every max_alloc instructions vars ring globals table list) (sym now) (
              Every-append max_alloc instructions vars ring globals table list (items rt.programs)
                ((n, p) ∷ []) all (g, tt)),
        ),
        λ i. omega (
          arith,
          ap (times_in i) now,
          times_in-append i (items rt.programs) ((n, p) ∷ []),
          times_in-one i n p,
        ),
      )

  remember : {A : Type 0} (o : Outcome A) → Always (λ a. o ≡ done a) o
  remember (done a) = refl
  remember fatal = tt
  remember (undefined u) = tt

  pub attach_at-OneMore :
      (rts : List R) (k : ℕ) (p : Prog)
      → IsProgram max_alloc instructions vars ring globals table list p
      → AllSound rts
      → Always (OneMore p rts) (attach_at max_alloc vars ring globals list rts k p)
  attach_at-OneMore [] k p g h = tt
  attach_at-OneMore (rt ∷ rts) zero p g (h, hs) =
      Always->>= (λ rt'. runtime_attach_program list rt p ≡ done rt') (OneMore p (rt ∷ rts))
        (runtime_attach_program list rt p) _ (remember _)
        λ rt' e.
          let (sound, more) = attached-Sound p rt rt' g h e in
          (
            (sound, hs),
            λ i. omega (arith, more i, times-cons list i rt rts, times-cons list i rt' rts),
          )
  attach_at-OneMore (rt ∷ rts) (suc k) p g (h, hs) =
      Always->>= (OneMore p rts) (OneMore p (rt ∷ rts))
        (attach_at max_alloc vars ring globals list rts k p) _ (attach_at-OneMore rts k p g hs)
        λ rts' (sound, more). (
          (h, sound),
          λ i. omega (arith, more i, times-cons list i rt rts, times-cons list i rt rts'),
        )
