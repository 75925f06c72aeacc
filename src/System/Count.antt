-- ===== src/System/Count.antt =====
-- How many programs have an ID, in a list of programs and in all runtimes.
use simbly.Prelude.{
  ℕ, ◌+◌, ◌≡◌, refl, sym, ap, ◌∙◌, Bool, true, false, Option, none, some, List, [], ◌∷◌, ◌++◌, ℤ,
  eqb_ℤ, if◌then◌else◌, arith, Bool-cases, inl, inr,
}
use simbly.Program.{Program}
use simbly.Runtime.Thread.{Runtime}
use simbly.Shell.Kill.{id_of, find_id}
use simbly.Voids.{CircularList}

some_inj : {A : Type 0} {a b : A} → some a ≡ some b → a ≡ b
some_inj h = cc

module _ {VarTable TokenBuffer : Type 0} where
  -- 1 for a program that has the ID.
  unfoldable pub hit : ℤ → Program VarTable TokenBuffer → ℕ
  hit i p = if eqb_ℤ (id_of p) i then 1 else 0

  pub hit_same : (p q : Program VarTable TokenBuffer) (i : ℤ) → q.argv ≡ p.argv → hit i q ≡ hit i p
  unfolding hit
  hit_same p q i e = rw e refl

  module _ {Node : Type 0} where
    unfoldable pub times_in : ℤ → List (Node × Program VarTable TokenBuffer) → ℕ
    unfolding hit
    times_in i [] = 0
    times_in i ((n, p) ∷ xs) = hit i p + times_in i xs

    pub times_in-one :
        (i : ℤ) (n : Node) (p : Program VarTable TokenBuffer) → times_in i ((n, p) ∷ []) ≡ hit i p
    unfolding times_in
    times_in-one i n p = omega arith

    pub times_in-append :
        (i : ℤ) (xs ys : List (Node × Program VarTable TokenBuffer))
        → times_in i (xs ++ ys) ≡ times_in i xs + times_in i ys
    unfolding times_in
    times_in-append i [] ys = omega arith
    times_in-append i ((n, p) ∷ xs) ys = omega (arith, times_in-append i xs ys)

    times_in-cons :
        (i : ℤ) (n : Node) (p : Program VarTable TokenBuffer)
        (xs : List (Node × Program VarTable TokenBuffer))
        → times_in i ((n, p) ∷ xs) ≡ hit i p + times_in i xs
    unfolding times_in
    times_in-cons i n p xs = refl

    -- A program in the middle of a list counts.
    pub times_in-split :
        (i : ℤ) (xs ys : List (Node × Program VarTable TokenBuffer)) (n : Node)
        (p : Program VarTable TokenBuffer)
        → times_in i (xs ++ ((n, p) ∷ ys)) ≡ hit i p + (times_in i xs + times_in i ys)
    times_in-split i xs ys n p =
        omega (arith, times_in-append i xs ((n, p) ∷ ys), times_in-cons i n p ys)

    -- The walk of `kill` finds none where none has the ID.
    pub times_in-find_id :
        (i : ℤ) (xs : List (Node × Program VarTable TokenBuffer))
        → times_in i xs ≡ 0
        → find_id i xs ≡ none
    unfolding times_in hit
    times_in-find_id i [] h = refl
    times_in-find_id i ((n, p) ∷ xs) h = elim (Bool-cases (eqb_ℤ (id_of p) i)) [
      | inl same ↦ absurd (ground (arith, h, same))
      | inr other ↦ rw other (times_in-find_id i xs (ground (arith, h, other)))
    ]

    abbrev entry :
        Node → Program VarTable TokenBuffer → Option (Node × Program VarTable TokenBuffer)
    entry n p = some (n, p)

    -- The program that the walk finds is in the list.
    pub find_id-split :
        (i : ℤ) (xs : List (Node × Program VarTable TokenBuffer)) (n : Node)
        (p : Program VarTable TokenBuffer)
        → find_id i xs ≡ some (n, p)
        → (us vs : List (Node × Program VarTable TokenBuffer)) × (xs ≡ us ++ ((n, p) ∷ vs))
    find_id-split i [] n p h = cc
    find_id-split i ((m, q) ∷ xs) n p h = elim (Bool-cases (eqb_ℤ (id_of q) i)) [
      | inl same ↦ ([], xs, ap (λ x. x ∷ xs) (some_inj (at_head same)))
      | inr other ↦
          let (us, vs, e) = find_id-split i xs n p (behind other) in
          ((m, q) ∷ us, vs, ap (λ l. (m, q) ∷ l) e)
    ]
      where
        step :
            (b : Bool) → eqb_ℤ (id_of q) i ≡ b → (if b then entry m q else find_id i xs) ≡ entry n p
        step b e = sym (ap (λ t. if t then entry m q else find_id i xs) e) ∙ h

        at_head : eqb_ℤ (id_of q) i ≡ true → entry m q ≡ entry n p
        at_head = step true

        behind : eqb_ℤ (id_of q) i ≡ false → find_id i xs ≡ some (n, p)
        behind = step false

  module _ (list : CircularList (Program VarTable TokenBuffer)) where
    open list use {Chain, Node, items}

    -- In all the runtimes.
    unfoldable pub times : ℤ → List (Runtime Chain Node) → ℕ
    unfolding times_in
    times i [] = 0
    times i (rt ∷ rts) = times_in i (items rt.programs) + times i rts

    pub times-cons :
        (i : ℤ) (rt : Runtime Chain Node) (rts : List (Runtime Chain Node))
        → times i (rt ∷ rts) ≡ times_in i (items rt.programs) + times i rts
    unfolding times
    times-cons i rt rts = refl

    pub times-append :
        (i : ℤ) (rs rts : List (Runtime Chain Node))
        → times i (rs ++ rts) ≡ times i rs + times i rts
    unfolding times
    times-append i [] rts = omega arith
    times-append i (rt ∷ rs) rts = omega (arith, times-append i rs rts)
