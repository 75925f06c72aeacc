-- ===== src/Runtime/Clock.antt =====
-- Times in runtime_thread of src/runtime.c: the slice that a turn may last, and what a line has cost.
use simbly.Prelude.{
  ℕ, ◌^◌, Bool, Option, none, some, ℤ, pos, negsuc, ◌-ℤ◌, rem_ℤ, ltb_ℤ, eqb_ℤ, ltb, if◌then◌else◌,
  Outcome, done, undefined, signed_overflow, ◌>>=◌,
}

-- struct timespec
pub record Timespec : Type 0 where
  pub sec : ℤ
  pub nsec : ℤ

-- TIME_SLICE_MAX_NSEC, and a second in nanoseconds.
abbrev pub time_slice_max_nsec : ℕ
time_slice_max_nsec = 10000000

abbrev pub nsec_per_sec : ℕ
nsec_per_sec = 1000000000

-- The value is representable as a `long`.
abbrev pub fits_long : ℤ → Bool
fits_long (pos n) = ltb n (2 ^ 63)
fits_long (negsuc n) = ltb n (2 ^ 63)

-- `time_slice = 0 - time_slice`, on a `long`.
abbrev negated : ℤ → Outcome ℤ
negated v = if fits_long (pos 0 -ℤ v) then done (pos 0 -ℤ v) else undefined signed_overflow

-- The slice, from what the generator of random numbers gives.
unfoldable pub time_slice : ℤ → Outcome ℤ
unfolding ◌-ℤ◌ rem_ℤ
time_slice random = (if ltb_ℤ random (pos 0) then negated random else done random) >>= λ v.
    done (rem_ℤ v (pos time_slice_max_nsec))

abbrev pub counted : ℤ → Option ℤ
counted diff = if ltb_ℤ diff (pos 0) then none else some diff

-- What a line has cost, from the clock before and after it; `none` ends the turn.
unfoldable pub line_cost : Timespec → Timespec → Option ℤ
unfolding ◌-ℤ◌
line_cost start end =
    if eqb_ℤ start.sec end.sec
    then counted (end.nsec -ℤ start.nsec)
    else if ltb_ℤ (pos 1) (end.sec -ℤ start.sec)
    then none
    else counted (start.nsec -ℤ end.nsec)
