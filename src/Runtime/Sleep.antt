-- ===== src/Runtime/Sleep.antt =====
-- A program that sleeps: what its turns take off the time that is left.
use simbly.Prelude.{
  ℕ, ◌+◌, ◌-◌, ◌*◌, ◌≤◌, ◌<◌, ◌≡◌, refl, ap, ◌∙◌, inl, inr, Bool, true, false, List, [], ◌∷◌, pos,
  ◌+ℤ◌, ◌-ℤ◌, ltb, ◌==◌, ltb_ℤ, eqb_ℤ, pos_part, if◌then◌else◌, arith, Bool-cases,
}
use simbly.Program.{Program, State, instruction_line, sleeping}
use simbly.Runtime.Clock.{Timespec, nsec_per_sec, time_slice_max_nsec}
use simbly.Runtime.Turn.{set_state, sleep_turn}

abbrev pub is_sleeping : State → Bool
is_sleeping sleeping = true
is_sleeping _ = false

abbrev pub nanos : Timespec → ℕ
nanos t = pos_part t.sec * nsec_per_sec + pos_part t.nsec

abbrev pub AreSlices : List ℕ → Type 0
AreSlices [] = Unit
AreSlices (s ∷ slices) = (s ≤ time_slice_max_nsec) × AreSlices slices

abbrev pub sum : List ℕ → ℕ
sum [] = 0
sum (s ∷ slices) = s + sum slices

is_less : (b s : ℕ) → ltb_ℤ (pos b -ℤ pos s) (pos 0) ≡ ltb b s
unfolding ◌-ℤ◌
is_less b s = ground arith

eqb_zero : (a : ℕ) → eqb_ℤ (pos a) (pos 0) ≡ (a == 0)
eqb_zero a = ground arith

less_sec : (a : ℕ) → (a == 0) ≡ false → pos a -ℤ pos 1 ≡ pos (a - 1)
unfolding ◌-ℤ◌
less_sec a h = ground arith

minus : (b s : ℕ) → ltb b s ≡ false → pos b -ℤ pos s ≡ pos (b - s)
unfolding ◌-ℤ◌
minus b s h = ground arith

less_time :
    (b s : ℕ)
    → b < s
    → s ≤ time_slice_max_nsec
    → (pos b -ℤ pos s) +ℤ pos nsec_per_sec ≡ pos (b + nsec_per_sec - s)
unfolding ◌+ℤ◌ ◌-ℤ◌
less_time b s h k = ground arith

module _ {VarTable TokenBuffer : Type 0} where
  -- A program that is to sleep `a` seconds and `b` nanoseconds.
  abbrev pub ToSleep : Program VarTable TokenBuffer → ℕ → ℕ → Type 0
  ToSleep p a b =
      (p.state ≡ sleeping) × (p.sleep_sec ≡ pos a) × (p.sleep_nsec ≡ pos b) × (b < nsec_per_sec)

  -- The program with another time left.
  abbrev left : Program VarTable TokenBuffer → ℕ → ℕ → Program VarTable TokenBuffer
  left p a b = record p { sleep_sec = pos a; sleep_nsec = pos b }

  -- A turn of a program that sleeps: it is asleep for the slice, which is taken off the time that is
  -- left, or for all that is left where that is less than the slice.
  pub sleep_turn_lem :
      (s a b : ℕ) (p : Program VarTable TokenBuffer)
      → p.sleep_sec ≡ pos a
      → p.sleep_nsec ≡ pos b
      → s ≤ time_slice_max_nsec
      → sleep_turn (pos s) p ≡ (
          if ltb b s
          then (if a == 0
              then (set_state instruction_line p, record { sec = pos a; nsec = pos b })
              else (left p (a - 1) (b + nsec_per_sec - s), record { sec = pos 0; nsec = pos s }))
          else (left p a (b - s), record { sec = pos 0; nsec = pos s }))
  unfolding sleep_turn
  sleep_turn_lem s a b p h k m =
      rw (h, k)
        (elim (Bool-cases (ltb b s)) [
          | inl less ↦ elim (Bool-cases (a == 0)) [
            | inl none_left ↦ rw (is_less b s, less, eqb_zero a, none_left) refl
            | inr more ↦
                rw
                  (
                    is_less b s,
                    less,
                    eqb_zero a,
                    more,
                    less_sec a more,
                    less_time b s (ground (arith, less)) m,
                  )
                  refl
          ]
          | inr enough ↦ rw (is_less b s, enough, minus b s enough) refl
        ])

  -- Turns with the given slices, while the program sleeps, and for how long it slept.
  unfoldable pub sleeps : List ℕ → Program VarTable TokenBuffer → Program VarTable TokenBuffer × ℕ
  unfolding sleep_turn
  sleeps [] p = (p, 0)
  sleeps (s ∷ slices) p =
      let (q, t) = sleep_turn (pos s) p in
      let (r, n) = sleeps slices q in if is_sleeping p.state then (r, nanos t + n) else (p, 0)

  waking_turn :
      (s a b : ℕ) (p : Program VarTable TokenBuffer)
      → ToSleep p a b
      → s ≤ time_slice_max_nsec
      → a * nsec_per_sec + b < s
      → sleep_turn (pos s) p ≡ (set_state instruction_line p, record { sec = pos a; nsec = pos b })
  waking_turn s a b p (i, h, k, l) bound less =
      sleep_turn_lem s a b p h k bound ∙ (rw (less_now, zero_sec) refl)
    where
      less_now : ltb b s ≡ true
      less_now = ground arith

      zero_sec : (a == 0) ≡ true
      zero_sec = ground arith

  sleeps_on :
      (s a b : ℕ) (p : Program VarTable TokenBuffer)
      → ToSleep p a b
      → s ≤ time_slice_max_nsec
      → s ≤ a * nsec_per_sec + b
      → (a' b' : ℕ) × (q : Program VarTable TokenBuffer) × (sleep_turn (pos s) p
          ≡ (q, record { sec = pos 0; nsec = pos s }))
        × ToSleep q a' b'
        × (a' * nsec_per_sec + b' + s ≡ a * nsec_per_sec + b)
  sleeps_on s a b p (i, h, k, l) bound more = elim (Bool-cases (ltb b s)) [
    | inl less ↦ (
      a - 1,
      b + nsec_per_sec - s,
      left p (a - 1) (b + nsec_per_sec - s),
      sleep_turn_lem s a b p h k bound ∙ rw (less, some_sec less) refl,
      (i, refl, refl, ground arith),
      ground arith,
    )
    | inr enough ↦ (
      a,
      b - s,
      left p a (b - s),
      sleep_turn_lem s a b p h k bound ∙ rw enough refl,
      (i, refl, refl, ground arith),
      ground arith,
    )
  ]
    where
      some_sec : ltb b s ≡ true → (a == 0) ≡ false
      some_sec less = ground arith

  turn_then :
      (s : ℕ) (slices : List ℕ) (p q : Program VarTable TokenBuffer) (t : Timespec)
      → p.state ≡ sleeping
      → sleep_turn (pos s) p ≡ (q, t)
      → sleeps (s ∷ slices) p ≡ ((sleeps slices q).0, nanos t + (sleeps slices q).1)
  unfolding sleeps
  turn_then s slices p q t i e = rw (e, i) refl

  awake :
      (slices : List ℕ) (p : Program VarTable TokenBuffer)
      → p.state ≡ instruction_line
      → sleeps slices p ≡ (p, 0)
  unfolding sleeps
  awake [] p i = refl
  awake (s ∷ slices) p i = rw i refl

  -- A program that is to sleep wakes, and goes on to execute lines, once its turns have had slices of
  -- more than the time that it asked for. By then it has slept for exactly that time.
  pub sleeps-total :
      (slices : List ℕ) (a b : ℕ) (p : Program VarTable TokenBuffer)
      → ToSleep p a b
      → AreSlices slices
      → a * nsec_per_sec + b < sum slices
      → ((sleeps slices p).0.state ≡ instruction_line)
        × ((sleeps slices p).1 ≡ a * nsec_per_sec + b)
  sleeps-total [] a b p h bound more = absurd (omega (arith, more))
  sleeps-total (s ∷ slices) a b p h (bound, bounds) more =
      elim (Bool-cases (ltb (a * nsec_per_sec + b) s)) [
        | inl less ↦
            let e =
              turn_then s slices p _ _ h.0 (waking_turn s a b p h bound (ground (arith, less)))
              ∙ ap (λ r. (r.0, a * nsec_per_sec + b + r.1))
                  (awake slices (set_state instruction_line p) refl) in
            (ap (λ r. r.0.state) e, omega (arith, ap (λ r. r.1) e))
        | inr enough ↦
            let (a', b', q, turned, to_sleep, l) =
              sleeps_on s a b p h bound (ground (arith, enough)) in
            let e = turn_then s slices p q _ h.0 turned in
            let (woken, total) =
              sleeps-total slices a' b' q to_sleep bounds (omega (arith, l, more)) in
            (ap (λ r. r.0.state) e ∙ woken, omega (arith, ap (λ r. r.1) e, total, l))
      ]
