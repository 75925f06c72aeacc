-- ===== src/Shell/Kill/Marks.antt =====
-- Which program `kill` marks, and what it does to the others.
use simbly.Global.{GlobalVar}
use simbly.Prelude.{
  ℕ, ◌≡◌, ◌≢◌, refl, sym, ap, ◌∙◌, true, false, Option, none, some, List, [], ◌∷◌, ◌++◌, ℤ, negsuc,
  eqb_ℤ, if◌then◌else◌, done, arith, Bool-cases, inl, inr,
}
use simbly.Program.{Program}
use simbly.Runtime.Thread.{Runtime}
use simbly.Shell.Kill.{
  id_of, killed, find_id, wake_blocked, mark_in, mark_all, mark_program_as_finished,
}
use simbly.Voids.{HashTable, CircularList}

eqb_self : (a b : ℤ) → a ≡ b → eqb_ℤ a b ≡ true
eqb_self a b h = rw h (ground arith)

module _ {VarTable TokenBuffer : Type 0} (max_alloc : ℕ) (globals : HashTable (Option GlobalVar))
    (list : CircularList (Program VarTable TokenBuffer)) where
  open globals use {Table}
  open list use {Chain, Node, items, write}

  abbrev R : Type 0
  R = Runtime Chain Node

  abbrev entry : Node → Program VarTable TokenBuffer → Option (Node × Program VarTable TokenBuffer)
  entry m b = some (m, b)

  not_none : {A : Type 0} {a : A} → some a ≢ none
  not_none h = cc

  find_id-first :
      (id : ℤ) (xs ys : List (Node × Program VarTable TokenBuffer)) (n : Node)
      (p : Program VarTable TokenBuffer)
      → find_id id xs ≡ none
      → id_of p ≡ id
      → find_id id (xs ++ ((n, p) ∷ ys)) ≡ some (n, p)
  find_id-first id [] ys n p h e = rw (eqb_self (id_of p) id e) refl
  find_id-first id ((m, b) ∷ xs) ys n p h e = elim (Bool-cases (eqb_ℤ (id_of b) id)) [
    | inl same ↦ absurd (not_none (found_head same))
    | inr other ↦ rw other (find_id-first id xs ys n p (not_head other) e)
  ]
    where
      found_head : eqb_ℤ (id_of b) id ≡ true → entry m b ≡ none
      found_head same = sym (ap (λ t. if t then entry m b else find_id id xs) same) ∙ h

      not_head : eqb_ℤ (id_of b) id ≡ false → find_id id xs ≡ none
      not_head other = sym (ap (λ t. if t then entry m b else find_id id xs) other) ∙ h

  -- No runtime has a program with the ID.
  abbrev pub NoneHas : ℤ → List R → Type 0
  NoneHas id [] = Unit
  NoneHas id (rt ∷ rts) = (find_id id (items rt.programs) ≡ none) × NoneHas id rts

  mark_all-none :
      (rts : List R) (t : Table) (id : ℤ)
      → NoneHas id rts
      → mark_all max_alloc globals list rts t id ≡ done (rts, t, id)
  unfolding mark_all mark_in
  mark_all-none [] t id h = refl
  mark_all-none (rt ∷ rts) t id (h, k) = rw (h, mark_all-none rts t id k) refl

  mark_all-first :
      (rs rest : List R) (rt : R) (t t' : Table) (id : ℤ)
      (xs ys : List (Node × Program VarTable TokenBuffer)) (n : Node)
      (p : Program VarTable TokenBuffer)
      → NoneHas id rs
      → items rt.programs ≡ xs ++ ((n, p) ∷ ys)
      → find_id id xs ≡ none
      → id_of p ≡ id
      → wake_blocked max_alloc globals p t ≡ done t'
      → NoneHas (negsuc 0) rest
      → mark_all max_alloc globals list (rs ++ (rt ∷ rest)) t id
        ≡ done
            (rs ++ (record rt { programs = write rt.programs n (killed p) } ∷ rest), t', negsuc 0)
  unfolding mark_all mark_in
  mark_all-first [] rest rt t t' id xs ys n p free i k e w last =
      rw (i, find_id-first id xs ys n p k e, w, mark_all-none rest t' (negsuc 0) last) refl
  mark_all-first (r ∷ rs) rest rt t t' id xs ys n p (h, free) i k e w last =
      rw (h, mark_all-first rs rest rt t t' id xs ys n p free i k e w last) refl

  -- `kill` marks the first program that has the ID, and leaves all the others and all the other
  -- runtimes as they were. The global variables are as the wake-up of that program leaves them, and
  -- the ID is not reported as missing. It takes that no later runtime has a program with the ID -1.
  pub mark_program_as_finished-first :
      (rs rest : List R) (rt : R) (t t' : Table) (id : ℤ)
      (xs ys : List (Node × Program VarTable TokenBuffer)) (n : Node)
      (p : Program VarTable TokenBuffer)
      → NoneHas id rs
      → items rt.programs ≡ xs ++ ((n, p) ∷ ys)
      → find_id id xs ≡ none
      → id_of p ≡ id
      → wake_blocked max_alloc globals p t ≡ done t'
      → NoneHas (negsuc 0) rest
      → (c : Chain) × (items c ≡ xs ++ ((n, killed p) ∷ ys))
        × (mark_program_as_finished max_alloc globals list (rs ++ (rt ∷ rest)) t id
            ≡ done (rs ++ (record rt { programs = c } ∷ rest), t', none))
  unfolding mark_program_as_finished
  mark_program_as_finished-first rs rest rt t t' id xs ys n p free i k e w last = (
    write rt.programs n (killed p),
    list.items-write rt.programs xs ys n p (killed p) i,
    rw (mark_all-first rs rest rt t t' id xs ys n p free i k e w last) refl,
  )
