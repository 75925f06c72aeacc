-- ===== src/Shell/Balance.antt =====
-- Which runtime `run` gives a program to, in main of src/main.c.
use mathlib.Core.List.{append_assoc, append-nil}
use simbly.Prelude.{
  ◌⊎◌, ◌++◌, sym, subst, ℕ, zero, suc, ◌<◌, ◌≡◌, refl, ap, true, false, some, List, [], ◌∷◌, ℤ,
  ◌≤ℤ◌, ltb_ℤ, length, length-append, get_elem?, if◌then◌else◌, arith, Bool-cases, inl, inr,
}

-- The loop over the other runtimes: `i` is the index of the next, `min_prog_cnt` the least count up to
-- it and `rt_min_idx` where that is.
abbrev pub scan_counts : ℕ → ℤ → ℕ → List ℤ → ℕ
scan_counts i min_prog_cnt rt_min_idx [] = rt_min_idx
scan_counts i min_prog_cnt rt_min_idx (cnt ∷ cnts) =
    if ltb_ℤ cnt min_prog_cnt
    then scan_counts (suc i) cnt i cnts
    else scan_counts (suc i) min_prog_cnt rt_min_idx cnts

-- The index, from the program_cnt of each runtime; there is at least one.
unfoldable pub least_loaded : List ℤ → ℕ
least_loaded [] = 0
least_loaded (cnt ∷ cnts) = scan_counts 1 cnt 0 cnts

-- `x` is in the list at the index, no count is below it, and those before it are above it.
abbrev pub IsLeast : List ℤ → ℕ → ℤ → Type 0
IsLeast cnts idx x =
    (get_elem? cnts idx ≡ some x)
    × ((j : ℕ) (y : ℤ) → get_elem? cnts j ≡ some y → (x ≤ℤ y) × (j < idx → ltb_ℤ x y ≡ true))

found_before :
    (xs ys : List ℤ) (k : ℕ) {x : ℤ} → get_elem? xs k ≡ some x → get_elem? (xs ++ ys) k ≡ some x
found_before [] ys k h = cc
found_before (x ∷ xs) ys zero h = h
found_before (x ∷ xs) ys (suc k) h = found_before xs ys k h

found_last : (xs : List ℤ) (c : ℤ) → get_elem? (xs ++ (c ∷ [])) (length xs) ≡ some c
found_last [] c = refl
found_last (x ∷ xs) c = found_last xs c

found-lt : (xs : List ℤ) (k : ℕ) {x : ℤ} → get_elem? xs k ≡ some x → k < length xs
found-lt [] k h = cc
found-lt (x ∷ xs) zero h = omega arith
found-lt (x ∷ xs) (suc k) h = omega (arith, found-lt xs k h)

found_cases :
    (xs : List ℤ) (c : ℤ) (j : ℕ) {y : ℤ}
    → get_elem? (xs ++ (c ∷ [])) j ≡ some y
    → (get_elem? xs j ≡ some y) ⊎ ((j ≡ length xs) × (y ≡ c))
found_cases [] c zero h = inr (refl, cc)
found_cases [] c (suc j) h = cc
found_cases (x ∷ xs) c zero h = inl h
found_cases (x ∷ xs) c (suc j) h = elim (found_cases xs c j h) [
  | inl old ↦ inl old
  | inr (e, s) ↦ inr (ap suc e, s)
]

keeps-IsLeast :
    (xs : List ℤ) (c m : ℤ) (k : ℕ)
    → ltb_ℤ c m ≡ false
    → IsLeast xs k m
    → IsLeast (xs ++ (c ∷ [])) k m
keeps-IsLeast xs c m k h (e, all) = (
  found_before xs (c ∷ []) k e,
  λ j y f. elim (found_cases xs c j f) [
    | inl old ↦ all j y old
    | inr (here, same) ↦
        (rw same (ground (arith, h)), λ l. absurd (omega (arith, l, here, found-lt xs k e)))
  ],
)

drops-IsLeast :
    (xs : List ℤ) (c m : ℤ) (k : ℕ)
    → ltb_ℤ c m ≡ true
    → IsLeast xs k m
    → IsLeast (xs ++ (c ∷ [])) (length xs) c
drops-IsLeast xs c m k h (e, all) = (
  found_last xs c,
  λ j y f. elim (found_cases xs c j f) [
    | inl old ↦ (ground (arith, h, (all j y old).0), λ l. ground (arith, h, (all j y old).0))
    | inr (here, same) ↦ (rw same (omega arith), λ l. absurd (omega (arith, l, here)))
  ],
)

scan-IsLeast :
    (xs cnts : List ℤ) (m : ℤ) (k : ℕ)
    → IsLeast xs k m
    → (x : ℤ) × IsLeast (xs ++ cnts) (scan_counts (length xs) m k cnts) x
scan-IsLeast xs [] m k h = (m, subst (λ l. IsLeast l k m) (sym (append-nil xs)) h)
scan-IsLeast xs (c ∷ cnts) m k h =
    let l : length (xs ++ (c ∷ [])) ≡ suc (length xs) =
      omega (arith, length-append {0} xs (c ∷ [])) in
    elim (Bool-cases (ltb_ℤ c m)) [
      | inl less ↦
          let (x, least) =
            scan-IsLeast (xs ++ (c ∷ [])) cnts c (length xs) (drops-IsLeast xs c m k less h) in
          rw less (
            x,
            subst (λ n. IsLeast (xs ++ (c ∷ cnts)) (scan_counts n c (length xs) cnts) x) l
                (subst
                  (λ ys. IsLeast ys (scan_counts (length (xs ++ (c ∷ []))) c (length xs) cnts) x)
                  (append_assoc xs (c ∷ []) cnts) least),
          )
      | inr not_less ↦
          let (x, least) =
            scan-IsLeast (xs ++ (c ∷ [])) cnts m k (keeps-IsLeast xs c m k not_less h) in
          rw not_less (
            x,
            subst (λ n. IsLeast (xs ++ (c ∷ cnts)) (scan_counts n m k cnts) x) l
                (subst (λ ys. IsLeast ys (scan_counts (length (xs ++ (c ∷ []))) m k cnts) x)
                  (append_assoc xs (c ∷ []) cnts) least),
          )
    ]

-- The runtime that gets a new program is the first of those with the fewest.
pub least_loaded-IsLeast :
    (cnt : ℤ) (cnts : List ℤ) → (x : ℤ) × IsLeast (cnt ∷ cnts) (least_loaded (cnt ∷ cnts)) x
unfolding least_loaded
least_loaded-IsLeast cnt cnts = scan-IsLeast (cnt ∷ []) cnts cnt 0 (
  refl,
  λ j y h. elim (found_cases [] cnt j h) [
    | inl old ↦ cc
    | inr (here, same) ↦ (rw same (omega arith), λ l. absurd (omega (arith, l)))
  ],
)
