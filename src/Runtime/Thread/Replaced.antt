-- ===== src/Runtime/Thread/Replaced.antt =====
-- A list in which one item is replaced, as another of its items sees it.
use simbly.Prelude.{◌+◌, ◌≡◌, refl, ap, ◌∙◌, List, [], ◌∷◌, ◌++◌, arith, length, length-append}

module _ {Node P : Type 0} where
  cons_inj : {x y : Node × P} {xs ys : List (Node × P)} → x ∷ xs ≡ y ∷ ys → (x ≡ y) × (xs ≡ ys)
  cons_inj h = (cc, cc)

  -- A list with one item replaced, seen from another of its items.
  pub resplit :
      (xs ys us vs : List (Node × P)) (n m : Node) (p p' b : P)
      → xs ++ ((n, p) ∷ ys) ≡ us ++ ((m, b) ∷ vs)
      → (us' : List (Node × P)) × (vs' : List (Node × P)) × (b' : P) × (xs ++ ((n, p') ∷ ys)
          ≡ us' ++ ((m, b') ∷ vs'))
        × (length us' + length vs' ≡ length us + length vs)
  resplit [] ys [] vs n m p p' b e = (
    [],
    ys,
    p',
    ap (λ k. (k, p') ∷ ys) (ap (λ x. x.0) (cons_inj e).0),
    omega (arith, ap length (cons_inj e).1),
  )
  resplit [] ys (u ∷ us) vs n m p p' b e =
      ((n, p') ∷ us, vs, b, ap (λ l. (n, p') ∷ l) (cons_inj e).1, refl)
  resplit (x ∷ xs) ys [] vs n m p p' b e = (
    [],
    xs ++ ((n, p') ∷ ys),
    b,
    ap (λ y. y ∷ (xs ++ ((n, p') ∷ ys))) (cons_inj e).0,
    omega (
      arith,
      ap length (cons_inj e).1,
      length-append {0} xs ((n, p') ∷ ys),
      length-append {0} xs ((n, p) ∷ ys),
    ),
  )
  resplit (x ∷ xs) ys (u ∷ us) vs n m p p' b e =
      let (us', vs', b', same, l) = resplit xs ys us vs n m p p' b (cons_inj e).1 in
      (
        u ∷ us',
        vs',
        b',
        ap (λ y. y ∷ (xs ++ ((n, p') ∷ ys))) (cons_inj e).0 ∙ ap (λ r. u ∷ r) same,
        omega (arith, l),
      )
