-- ===== src/Voids/Chain.antt =====
-- A list of numbered items that meets the interface of the circular list: the numbers grow along the
-- list, and a new item gets a number above the last.
use simbly.Prelude.{
  ℕ, suc, ◌<◌, ◌≤◌, ◌≡◌, refl, ap, ◌∙◌, true, Option, none, some, List, [], ◌∷◌, ◌++◌, arith, ◌==◌,
  if◌then◌else◌, subst, Bool-cases, inl, inr,
}
use simbly.Voids.Defs.{CircularList}

module _ {A : Type 0} where
  abbrev pub Above : ℕ → List (ℕ × A) → Type 0
  Above lo [] = Unit
  Above lo ((n, a) ∷ xs) = (lo < n) × Above n xs

  abbrev pub at_in : List (ℕ × A) → ℕ → Option A
  at_in [] n = none
  at_in ((m, a) ∷ xs) n = if m == n then some a else at_in xs n

  -- The number of the first item, or `d`.
  abbrev pub first : ℕ → List (ℕ × A) → ℕ
  first d [] = d
  first d ((n, a) ∷ xs) = n

  -- The number behind `n`, where `d` is behind the last.
  abbrev pub next_in : ℕ → List (ℕ × A) → ℕ → ℕ
  next_in d [] n = n
  next_in d ((m, a) ∷ xs) n = if m == n then first d xs else next_in d xs n

  abbrev pub last : ℕ → List (ℕ × A) → ℕ
  last d [] = d
  last d ((n, a) ∷ xs) = last n xs

  -- The number before `n`, where `d` is before the first.
  abbrev pub prev_in : ℕ → List (ℕ × A) → ℕ → ℕ
  prev_in d [] n = n
  prev_in d ((m, a) ∷ xs) n = if m == n then d else prev_in m xs n

  abbrev pub write_in : List (ℕ × A) → ℕ → A → List (ℕ × A)
  write_in [] n b = []
  write_in ((m, a) ∷ xs) n b = if m == n then (m, b) ∷ xs else (m, a) ∷ write_in xs n b

  abbrev pub delete_in : List (ℕ × A) → ℕ → List (ℕ × A)
  delete_in [] n = []
  delete_in ((m, a) ∷ xs) n = if m == n then xs else (m, a) ∷ delete_in xs n

  Above-le : (lo hi : ℕ) (xs : List (ℕ × A)) → lo ≤ hi → Above hi xs → Above lo xs
  Above-le lo hi [] h k = tt
  Above-le lo hi ((n, a) ∷ xs) h (k, l) = (omega arith, l)

  Above-split :
      (lo : ℕ) (xs ys : List (ℕ × A)) (n : ℕ) (a : A) → Above lo (xs ++ ((n, a) ∷ ys)) → lo < n
  Above-split lo [] ys n a h = h.0
  Above-split lo ((m, b) ∷ xs) ys n a (h, k) = omega (arith, h, Above-split m xs ys n a k)

  pub at_split :
      (lo : ℕ) (xs ys : List (ℕ × A)) (n : ℕ) (a : A)
      → Above lo (xs ++ ((n, a) ∷ ys))
      → at_in (xs ++ ((n, a) ∷ ys)) n ≡ some a
  at_split lo [] ys n a h = ground arith
  at_split lo ((m, b) ∷ xs) ys n a (h, k) =
      ground (arith, Above-split m xs ys n a k, at_split m xs ys n a k)

  next_split :
      (lo d : ℕ) (xs ys : List (ℕ × A)) (n : ℕ) (a : A)
      → Above lo (xs ++ ((n, a) ∷ ys))
      → next_in d (xs ++ ((n, a) ∷ ys)) n ≡ first d ys
  next_split lo d [] ys n a h = ground arith
  next_split lo d ((m, b) ∷ xs) ys n a (h, k) =
      ground (arith, Above-split m xs ys n a k, next_split m d xs ys n a k)

  pub write_split :
      (lo : ℕ) (xs ys : List (ℕ × A)) (n : ℕ) (a b : A)
      → Above lo (xs ++ ((n, a) ∷ ys))
      → write_in (xs ++ ((n, a) ∷ ys)) n b ≡ xs ++ ((n, b) ∷ ys)
  write_split lo [] ys n a b h = ground arith
  write_split lo ((m, c) ∷ xs) ys n a b (h, k) =
      ground (arith, Above-split m xs ys n a k, write_split m xs ys n a b k)

  pub delete_split :
      (lo : ℕ) (xs ys : List (ℕ × A)) (n : ℕ) (a : A)
      → Above lo (xs ++ ((n, a) ∷ ys))
      → delete_in (xs ++ ((n, a) ∷ ys)) n ≡ xs ++ ys
  delete_split lo [] ys n a h = ground arith
  delete_split lo ((m, c) ∷ xs) ys n a (h, k) =
      ground (arith, Above-split m xs ys n a k, delete_split m xs ys n a k)

  prev_split :
      (lo d : ℕ) (xs ys : List (ℕ × A)) (n m : ℕ) (a b : A)
      → Above lo (xs ++ ((n, a) ∷ (m, b) ∷ ys))
      → prev_in d (xs ++ ((n, a) ∷ (m, b) ∷ ys)) m ≡ n
  prev_split lo d [] ys n m a b h = ground arith
  prev_split lo d ((k, c) ∷ xs) ys n m a b (h, l) = ground (
    arith,
    Above-split k xs ((m, b) ∷ ys) n a l,
    Above-second k xs ys n m a b l,
    prev_split k k xs ys n m a b l,
  )
    where
      Above-second :
          (lo : ℕ) (xs ys : List (ℕ × A)) (n m : ℕ) (a b : A)
          → Above lo (xs ++ ((n, a) ∷ (m, b) ∷ ys))
          → lo < m
      Above-second lo [] ys n m a b h = omega (arith, h.0, h.1)
      Above-second lo ((k, c) ∷ xs) ys n m a b (h, l) =
          omega (arith, h, Above-second k xs ys n m a b l)

  last_split : (d : ℕ) (xs : List (ℕ × A)) (n : ℕ) (a : A) → last d (xs ++ ((n, a) ∷ [])) ≡ n
  last_split d [] n a = refl
  last_split d ((m, b) ∷ xs) n a = last_split m xs n a

  pub write-Above :
      (lo : ℕ) (xs : List (ℕ × A)) (n : ℕ) (b : A) → Above lo xs → Above lo (write_in xs n b)
  write-Above lo [] n b h = tt
  write-Above lo ((m, a) ∷ xs) n b (h, k) = elim (Bool-cases (m == n)) [
    | inl same ↦ rw same (h, k)
    | inr other ↦ rw other (h, write-Above m xs n b k)
  ]

  pub delete-Above : (lo : ℕ) (xs : List (ℕ × A)) (n : ℕ) → Above lo xs → Above lo (delete_in xs n)
  delete-Above lo [] n h = tt
  delete-Above lo ((m, a) ∷ xs) n (h, k) = elim (Bool-cases (m == n)) [
    | inl same ↦ rw same (Above-le lo m xs (omega (arith, h)) k)
    | inr other ↦ rw other (h, delete-Above m xs n k)
  ]

  pub append-Above :
      (lo : ℕ) (xs : List (ℕ × A)) (a : A)
      → Above lo xs
      → Above lo (xs ++ ((suc (last lo xs), a) ∷ []))
  append-Above lo [] a h = (omega arith, tt)
  append-Above lo ((m, b) ∷ xs) a (h, k) = (h, append-Above m xs a k)

abbrev pub Numbered : Type 0 → Type 0
Numbered A = (xs : List (ℕ × A)) × Above 0 xs

module _ {A : Type 0} where
  abbrev pub next : Numbered A → ℕ → ℕ
  next c n = next_in (first 0 c.0) c.0 n

  abbrev pub prev : Numbered A → ℕ → ℕ
  prev c n = prev_in (last 0 c.0) c.0 n

  next_of :
      (c : Numbered A) (xs ys : List (ℕ × A)) (n : ℕ) (a : A)
      → c.0 ≡ xs ++ ((n, a) ∷ ys)
      → next c n ≡ first (first 0 c.0) ys
  next_of c xs ys n a e =
      ap (λ l. next_in (first 0 c.0) l n) e
      ∙ next_split 0 (first 0 c.0) xs ys n a (subst (Above 0) e c.1)

  prev_first :
      (d : ℕ) (xs : List (ℕ × A)) (n : ℕ) (a : A)
      → prev_in d (xs ++ ((n, a) ∷ [])) (first 0 (xs ++ ((n, a) ∷ []))) ≡ d
  prev_first d [] n a = ground arith
  prev_first d ((m, b) ∷ xs) n a = ground arith

  pub prev_next_of :
      (c : Numbered A) (xs ys : List (ℕ × A)) (n : ℕ) (a : A)
      → c.0 ≡ xs ++ ((n, a) ∷ ys)
      → prev c (next c n) ≡ n
  prev_next_of c xs [] n a e =
      ap (prev c) (next_of c xs [] n a e)
      ∙ ap (λ t. prev_in (last 0 t) t (first 0 t)) e
      ∙ prev_first (last 0 (xs ++ ((n, a) ∷ []))) xs n a
      ∙ last_split 0 xs n a
  prev_next_of c xs ((m, b) ∷ ys) n a e =
      ap (prev c) (next_of c xs ((m, b) ∷ ys) n a e)
      ∙ ap (λ l. prev_in (last 0 c.0) l m) e
      ∙ prev_split 0 (last 0 c.0) xs ys n m a b (subst (Above 0) e c.1)

  pub next_inner :
      (c : Numbered A) (xs ys : List (ℕ × A)) (n m : ℕ) (a b : A)
      → c.0 ≡ xs ++ ((n, a) ∷ (m, b) ∷ ys)
      → next c n ≡ m
  next_inner c xs ys n m a b e = next_of c xs ((m, b) ∷ ys) n a e

  pub next_last :
      (c : Numbered A) (xs ys : List (ℕ × A)) (n m : ℕ) (a b : A)
      → c.0 ≡ xs ++ ((n, a) ∷ [])
      → c.0 ≡ (m, b) ∷ ys
      → next c n ≡ m
  next_last c xs ys n m a b e f = next_of c xs [] n a e ∙ ap (first 0) f

abbrev pub list_chain : (A : Type 0) → CircularList A
list_chain A = record {
  Chain = Numbered A;
  Node = ℕ;
  init = ([], tt);
  items = λ c. c.0;
  at = λ c n. at_in c.0 n;
  next = next;
  prev = prev;
  append = λ c a. ((c.0 ++ ((suc (last 0 c.0), a) ∷ []), append-Above 0 c.0 a c.1), true);
  write = λ c n b. (write_in c.0 n b, write-Above 0 c.0 n b c.1);
  delete = λ c n. (delete_in c.0 n, delete-Above 0 c.0 n c.1);
  items-init = refl;
  at_item = λ c xs ys n a e. ap (λ l. at_in l n) e ∙ at_split 0 xs ys n a (subst (Above 0) e c.1);
  next_inner = next_inner;
  next_last = next_last;
  prev-next = prev_next_of;
  items-append = λ c a. (suc (last 0 c.0), refl, refl);
  items-write = λ c xs ys n a b e.
      ap (λ l. write_in l n b) e ∙ write_split 0 xs ys n a b (subst (Above 0) e c.1);
  items-delete =
      λ c xs ys n a e. ap (λ l. delete_in l n) e ∙ delete_split 0 xs ys n a (subst (Above 0) e c.1);
}
