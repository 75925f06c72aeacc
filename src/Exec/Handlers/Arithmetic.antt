-- ===== src/Exec/Handlers/Arithmetic.antt =====
-- The arithmetic of primitive_op_handler.
use simbly.Prelude.{
  ℕ, zero, ◌+◌, ◌*◌, ◌/◌, ◌%◌, ◌<◌, ◌≡◌, true, false, some, arith, ℤ, pos, negsuc, ◌+ℤ◌, ◌*ℤ◌,
  quot_ℤ, rem_ℤ, abs, fits_int, eqb_ℤ, done, suc, sub_ℕ,
}
use simbly.Exec.Handlers.{primitive_op}
use simbly.Program.{div_sym, mod_sym}

abbrev neg : ℕ → ℤ
neg n = sub_ℕ 0 n

div_mod : (a b : ℕ) → a / suc b * suc b + a % suc b ≡ a
div_mod a b = omega arith

neg-suc : (n : ℕ) → neg (suc n) ≡ negsuc n
neg-suc n = ground arith

times_pp : (x y : ℕ) → pos x *ℤ pos y ≡ pos (x * y)
unfolding ◌*ℤ◌
times_pp x y = ground arith

times_pn : (x y : ℕ) → pos x *ℤ negsuc y ≡ neg (x * suc y)
unfolding ◌*ℤ◌
times_pn x y = ground arith

times_np : (x y : ℕ) → neg x *ℤ pos y ≡ neg (x * y)
unfolding ◌*ℤ◌
times_np zero y = ground arith
times_np (suc x) y = ground arith

times_nn : (x y : ℕ) → neg x *ℤ negsuc y ≡ pos (x * suc y)
unfolding ◌*ℤ◌
times_nn zero y = ground arith
times_nn (suc x) y = ground arith

plus_pp : (x y : ℕ) → pos x +ℤ pos y ≡ pos (x + y)
unfolding ◌+ℤ◌
plus_pp x y = ground arith

plus_nn : (x y : ℕ) → neg x +ℤ neg y ≡ neg (x + y)
unfolding ◌+ℤ◌
plus_nn x y = ground arith

quot_pp :
    (n m : ℕ)
    → (quot_ℤ (pos n) (pos (suc m)) ≡ pos (n / suc m))
      × (rem_ℤ (pos n) (pos (suc m)) ≡ pos (n % suc m))
unfolding quot_ℤ rem_ℤ
quot_pp n m = ground arith

quot_pn :
    (n m : ℕ)
    → (quot_ℤ (pos n) (negsuc m) ≡ neg (n / suc m)) × (rem_ℤ (pos n) (negsuc m) ≡ pos (n % suc m))
unfolding quot_ℤ rem_ℤ
quot_pn n m = ground arith

quot_np :
    (n m : ℕ)
    → (quot_ℤ (negsuc n) (pos (suc m)) ≡ neg (suc n / suc m))
      × (rem_ℤ (negsuc n) (pos (suc m)) ≡ neg (suc n % suc m))
unfolding quot_ℤ rem_ℤ
quot_np n m = ground arith

quot_nn :
    (n m : ℕ)
    → (quot_ℤ (negsuc n) (negsuc m) ≡ pos (suc n / suc m))
      × (rem_ℤ (negsuc n) (negsuc m) ≡ neg (suc n % suc m))
unfolding quot_ℤ rem_ℤ
quot_nn n m = ground arith

quot_rem :
    (a b : ℤ)
    → eqb_ℤ b (pos 0) ≡ false
    → (quot_ℤ a b *ℤ b +ℤ rem_ℤ a b ≡ a) × (abs (rem_ℤ a b) < abs b)
quot_rem a (pos zero) h = absurd (ground arith)
quot_rem (pos n) (pos (suc m)) h =
    let (q, r) = quot_pp n m in
    (
      cc (q, r, times_pp (n / suc m) (suc m), plus_pp (n / suc m * suc m) (n % suc m), div_mod n m),
      ground (arith, r),
    )
quot_rem (pos n) (negsuc m) h =
    let (q, r) = quot_pn n m in
    (
      cc (q, r, times_nn (n / suc m) m, plus_pp (n / suc m * suc m) (n % suc m), div_mod n m),
      ground (arith, r),
    )
quot_rem (negsuc n) (pos (suc m)) h =
    let (q, r) = quot_np n m in
    (
      cc (
        q,
        r,
        times_np (suc n / suc m) (suc m),
        plus_nn (suc n / suc m * suc m) (suc n % suc m),
        div_mod (suc n) m,
        neg-suc n,
      ),
      ground (arith, r),
    )
quot_rem (negsuc n) (negsuc m) h =
    let (q, r) = quot_nn n m in
    (
      cc (
        q,
        r,
        times_pn (suc n / suc m) m,
        plus_nn (suc n / suc m * suc m) (suc n % suc m),
        div_mod (suc n) m,
        neg-suc n,
      ),
      ground (arith, r),
    )

ops_lem :
    (a b q r : ℤ)
    → primitive_op div_sym a b ≡ some (done q)
    → primitive_op mod_sym a b ≡ some (done r)
    → (eqb_ℤ b (pos 0) ≡ false) × (q ≡ quot_ℤ a b) × (r ≡ rem_ℤ a b) × (fits_int q ≡ true)
unfolding primitive_op
ops_lem a b q r e f = ground arith

-- Where DIV and MOD of the same two values give results, the first is an int, the dividend is the
-- quotient times the divisor plus the remainder, and the remainder is smaller than the divisor.
pub primitive_op-div_mod :
    (a b q r : ℤ)
    → primitive_op div_sym a b ≡ some (done q)
    → primitive_op mod_sym a b ≡ some (done r)
    → (fits_int q ≡ true) × (q *ℤ b +ℤ r ≡ a) × (abs r < abs b)
primitive_op-div_mod a b q r e f =
    let (nonzero, eq, er, fits) = ops_lem a b q r e f in
    let (sum, less) = quot_rem a b nonzero in (fits, cc (eq, er, sum), ground (arith, er, less))
