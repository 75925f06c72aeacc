-- ===== src/Runtime/Lines.antt =====
-- The lines of a turn: how many readings of the clock a turn needs.
use simbly.Exec.Lines.{interpret_next_line}
use simbly.Exec.Machine.{Machine}
use simbly.Global.{GlobalVar}
use simbly.Prelude.{
  ℕ, ◌+◌, ◌-◌, ◌<◌, ◌≤◌, ◌≡◌, refl, subst, if_both, sym, ap, inl, inr, false, Option, none, some,
  List, [], ◌∷◌, ◌++◌, ℤ, pos, negsuc, ◌-ℤ◌, pos_part, ltb_ℤ, eqb_ℤ, ltb, Bool-cases, if◌then◌else◌,
  arith, Outcome, done, same_bind, Always-all,
}
use simbly.Program.{Cell, Token, Instruction}
use simbly.Runtime.Clock.{Timespec, counted, line_cost}
use simbly.Runtime.Turn.{goes_on, after_line, run_lines}
use simbly.Voids.{HashTable, RingBuffer}

-- What a line takes off the slice.
abbrev charge : Option ℤ → ℕ
charge none = 0
charge (some d) = pos_part d

-- What the lines take off the slice together.
abbrev pub charges : List (Timespec × Timespec) → ℕ
charges [] = 0
charges ((start, end) ∷ clock) = charge (line_cost start end) + charges clock

-- A charge is not negative.
Counted : Option ℤ → Type 0
Counted none = Unit
Counted (some d) = d ≡ pos (pos_part d)

counted-Counted : (d : ℤ) → Counted (counted d)
unfolding Counted
counted-Counted (pos n) = ground arith
counted-Counted (negsuc n) = ground arith

line_cost-Counted : (start end : Timespec) → Counted (line_cost start end)
unfolding line_cost Counted
line_cost-Counted start end =
    let late : Option ℤ =
      if ltb_ℤ (pos 1) (end.sec -ℤ start.sec) then none else counted (start.nsec -ℤ end.nsec) in
    if_both Counted (eqb_ℤ start.sec end.sec) {y = late} (counted-Counted (end.nsec -ℤ start.nsec))
      (if_both Counted (ltb_ℤ (pos 1) (end.sec -ℤ start.sec)) {x = none} tt
        (counted-Counted (start.nsec -ℤ end.nsec)))

left_over : (s d : ℕ) → d < s → pos s -ℤ pos d ≡ pos (s - d)
unfolding ◌-ℤ◌
left_over s d h = ground arith

used_up : (s d : ℕ) → s ≤ d → ltb_ℤ (pos 0) (pos s -ℤ pos d) ≡ false
unfolding ◌-ℤ◌
used_up s d h = ground arith

module _ (max_alloc : ℕ) (instructions : HashTable Instruction) (vars : HashTable Cell)
    (ring : RingBuffer Token) (globals : HashTable (Option GlobalVar))
    (table : instructions.Table) where
  open ring use {Buffer}

  abbrev M : Type 0
  M = Machine vars.Table Buffer globals.Table

  abbrev lines : List (Timespec × Timespec) → ℤ → M → Outcome M
  lines = run_lines max_alloc instructions vars ring globals table

  same_after_pos :
      (f g : ℤ → M → Outcome M) (s d : ℕ) (m : M)
      → (d < s → f (pos (s - d)) m ≡ g (pos (s - d)) m)
      → after_line max_alloc instructions vars ring globals table f (pos s) m (some (pos d))
        ≡ after_line max_alloc instructions vars ring globals table g (pos s) m (some (pos d))
  same_after_pos f g s d m h = elim (Bool-cases (ltb d s)) [
    | inl less ↦ rw (left_over s d (ground (arith, less))) (
        ap
          (λ r.
            if goes_on max_alloc instructions vars ring globals table (pos (s - d)) m
            then r
            else done m)
          (h (ground (arith, less))))
    | inr over ↦ rw (used_up s d (ground (arith, over))) refl
  ]

  -- Two ways to go on that are the same where there is time left.
  same_after :
      (f g : ℤ → M → Outcome M) (s : ℕ) (o : Option ℤ) (m : M)
      → Counted o
      → (charge o < s → f (pos (s - charge o)) m ≡ g (pos (s - charge o)) m)
      → after_line max_alloc instructions vars ring globals table f (pos s) m o
        ≡ after_line max_alloc instructions vars ring globals table g (pos s) m o
  unfolding Counted
  same_after f g s none m c h = refl
  same_after f g s (some v) m c h =
      subst
        (λ w.
          after_line max_alloc instructions vars ring globals table f (pos s) m (some w)
          ≡ after_line max_alloc instructions vars ring globals table g (pos s) m (some w))
        (sym c) (same_after_pos f g s (pos_part v) m h)

  -- Once the lines of a turn have cost its slice, the turn is over: readings of the clock behind
  -- those change nothing.
  pub run_lines-slice :
      (x : Timespec × Timespec) (clock more : List (Timespec × Timespec)) (s : ℕ) (m : M)
      → s ≤ charges (x ∷ clock)
      → lines ((x ∷ clock) ++ more) (pos s) m ≡ lines (x ∷ clock) (pos s) m
  unfolding run_lines
  run_lines-slice (start, end) [] more s m h =
      same_bind (interpret_next_line max_alloc instructions vars ring globals table m) _ _ (
        Always-all _ _ λ m'.
          same_after (lines more) (lines []) s (line_cost start end) m'
            (line_cost-Counted start end) (λ l. absurd (omega (arith, l, h))))
  run_lines-slice (start, end) (y ∷ clock) more s m h =
      same_bind (interpret_next_line max_alloc instructions vars ring globals table m) _ _ (
        Always-all _ _ λ m'.
          same_after (lines ((y ∷ clock) ++ more)) (lines (y ∷ clock)) s (line_cost start end) m'
            (line_cost-Counted start end)
            (λ l.
              run_lines-slice y clock more (s - charge (line_cost start end)) m'
                (omega (arith, l, h))))
