-- ===== src/Runtime/Slice.antt =====
-- Time slices of src/runtime.c: the time that a turn may last and what a line is charged.
use simbly.Prelude.{
  ℕ, suc, ◌+◌, ◌-◌, ◌%◌, ◌^◌, ◌<◌, ◌≡◌, ◌≢◌, true, some, ℤ, pos, negsuc, ◌-ℤ◌, rem_ℤ, ltb,
  if◌then◌else◌, arith, done,
}
use simbly.Runtime.Clock.{
  Timespec, time_slice_max_nsec, nsec_per_sec, fits_long, time_slice, line_cost,
}

-- The slice is a number below TIME_SLICE_MAX_NSEC for each `long` but the least, which cannot be
-- negated.
pub time_slice-bounds :
    (random : ℤ)
    → fits_long random ≡ true
    → random ≢ negsuc (2 ^ 63 - 1)
    → (k : ℕ) × (time_slice random ≡ done (pos k)) × (k < time_slice_max_nsec)
unfolding time_slice ◌-ℤ◌ rem_ℤ
time_slice-bounds (pos n) f h = (n % time_slice_max_nsec, ground arith, omega arith)
time_slice-bounds (negsuc n) f h = (suc n % time_slice_max_nsec, ground (arith), omega arith)

-- A clock at `e` nanoseconds after `s` seconds and `a` nanoseconds, where `e` is below a second.
abbrev pub later : ℕ → ℕ → ℕ → Timespec
later s a e =
    if ltb (a + e) nsec_per_sec
    then record { sec = pos s; nsec = pos (a + e) }
    else record { sec = pos (suc s); nsec = pos (a + e - nsec_per_sec) }

-- A line that takes `e` nanoseconds, less than a second, is charged `e` where the clock stays in the
-- same second, and what `e` lacks of a second where it does not.
pub line_cost-later :
    (s a e : ℕ)
    → a < nsec_per_sec
    → e < nsec_per_sec
    → line_cost (record { sec = pos s; nsec = pos a }) (later s a e)
      ≡ some (pos (if ltb (a + e) nsec_per_sec then e else nsec_per_sec - e))
unfolding line_cost ◌-ℤ◌
line_cost-later s a e h k = ground arith
