-- ===== src/Exec/Branch/Compare.antt =====
-- The comparisons of branch_handler.
use simbly.Prelude.{
  ◌≡◌, refl, ap, true, false, not, ◌≢◌, ◌⊎◌, inl, inr, Bool-cases, some, arith, ℤ, eq_of_parts,
  ltb_ℤ, leb_ℤ, eqb_ℤ,
}
use simbly.Exec.Branch.{compare_op}
use simbly.Program.{brgt_sym, brge_sym, brlt_sym, brle_sym, breq_sym}

breq_cases :
    (a b : ℤ)
    → ((a ≡ b) × (compare_op breq_sym a b ≡ some true))
      ⊎ ((a ≢ b) × (compare_op breq_sym a b ≡ some false))
unfolding compare_op
breq_cases a b = elim (Bool-cases (eqb_ℤ a b)) [
  | inl e ↦ inl (ground (arith, eq_of_parts a b), ap some e)
  | inr n ↦ inr ((λ e. ground (arith, e)), ap some n)
]

-- For any two values, BRGT jumps exactly where the first is not at most the second, BRGE exactly
-- where it is not below the second, BRGT and BRGE with the values swapped are BRLT and BRLE, and BREQ
-- jumps exactly where the values are equal.
compare_op-order :
    (a b : ℤ)
    → (compare_op brgt_sym a b ≡ some (not (leb_ℤ a b)))
      × (compare_op brge_sym a b ≡ some (not (ltb_ℤ a b)))
      × (compare_op brgt_sym b a ≡ compare_op brlt_sym a b)
      × (compare_op brge_sym b a ≡ compare_op brle_sym a b)
      × (((a ≡ b) × (compare_op breq_sym a b ≡ some true))
          ⊎ ((a ≢ b) × (compare_op breq_sym a b ≡ some false)))
unfolding compare_op
compare_op-order a b = (ground arith, ground arith, refl, refl, breq_cases a b)
