-- ===== src/Shell/Args/Growth.antt =====
-- How far the array of the arguments of `run` can grow, in main of src/main.c.
use simbly.Prelude.{
  ℕ, zero, suc, lt→ltb, ge→ltb, le→leb, lt→leb, ◌⊎◌, undefined, signed_overflow, int_bound, ◌+◌,
  ◌<◌, ◌≤◌, ◌≡◌, refl, inl, inr, List, [], ◌∷◌, ◌++◌, ℤ, length, length-append, leb, done, arith,
  Bool-cases,
}
use simbly.Shell.Args.{Args, grown, put_arg}

-- Where the arguments are this many, `len` can't be doubled once more: 12 * 2 ^ 27.
abbrev pub max_args : ℕ
max_args = 1610612736

-- `len` reaches `max_args` when it has been doubled `j` times more.
pub Doubles : ℕ → ℕ → Type 0
Doubles zero len = len ≡ max_args
Doubles (suc j) len = Doubles j (len + len)

pub Doubles-le : (j len : ℕ) → Doubles j len → len ≤ max_args
unfolding Doubles
Doubles-le zero len h = omega (arith, h)
Doubles-le (suc j) len h = omega (arith, Doubles-le j (len + len) h)

pub twelve-Doubles : Doubles 27 12
unfolding Doubles
twelve-Doubles = refl

-- Room for one more, in an array whose length has been doubled.
abbrev pub Room : Args → Type 0
Room a = (length a.argv < a.len) × (j : ℕ) × Doubles j a.len

grown-Room :
    (argv : List ℤ) (len j : ℕ)
    → Doubles j len
    → 0 < len
    → length argv ≤ len
    → length argv < max_args
    → (a : Args) × (grown argv len ≡ done a) × (a.argv ≡ argv) × Room a
unfolding Doubles
grown-Room argv len zero d nz le h = (
  record { argv = argv; len = len },
  rw (lt→leb len (length argv) (omega (arith, d, h))) refl,
  refl,
  (omega (arith, d, h), zero, d),
)
grown-Room argv len (suc j) d nz le h = elim (Bool-cases (leb len (length argv))) [
  | inl full ↦
      let small = Doubles-le j (len + len) d in
      (
        record { argv = argv; len = len + len },
        rw (full, lt→ltb (len + len) int_bound (omega (arith, small))) refl,
        refl,
        (omega (arith, le, nz), j, d),
      )
  | inr room ↦
      (record { argv = argv; len = len }, rw room refl, refl, (ground (arith, room), suc j, d))
]

-- The write that fills the array of the greatest length overflows `len`.
grown-overflow :
    (argv : List ℤ) (len j : ℕ)
    → Doubles j len
    → length argv ≤ len
    → length argv ≡ max_args
    → grown argv len ≡ undefined signed_overflow
grown-overflow argv len j d le h =
    let top = Doubles-le j len d in
    rw
      (
        le→leb len (length argv) (omega (arith, h, top)),
        ge→ltb (len + len) int_bound (omega (arith, le, h)),
      )
      refl

pub put_arg_lem :
    (v : ℤ) (a : Args) (left : ℕ)
    → Room a
    → length a.argv + suc left ≡ max_args
    → ((put_arg v a ≡ undefined signed_overflow) × (left ≡ 0))
      ⊎ ((a' : Args) × (put_arg v a ≡ done a') × (a'.argv ≡ a.argv ++ (v ∷ [])) × Room a')
put_arg_lem v a zero (lt, j, d) h =
    let l = length-append a.argv (v ∷ []) in
    inl (
      rw (lt→ltb (length a.argv) a.len lt) (
          grown-overflow (a.argv ++ v ∷ []) a.len j d (omega (arith, l, lt)) (omega (arith, l, h))),
      refl,
    )
put_arg_lem v a (suc left) (lt, j, d) h =
    let l = length-append a.argv (v ∷ []) in
    let (a', e, argv, room) =
      grown-Room (a.argv ++ v ∷ []) a.len j d (omega (arith, lt)) (omega (arith, l, lt))
        (omega (arith, l, h)) in
    inr (a', rw (lt→ltb (length a.argv) a.len lt) e, argv, room)
