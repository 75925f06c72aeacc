-- ===== src/Exec/Values/Growth.antt =====
-- What becomes of an array that is written behind its end.
use simbly.Prelude.{
  ℕ, ◌+◌, ◌-◌, ◌<◌, ◌≤◌, ◌≡◌, inl, inr, false, List, some, Bytes, codes, str_eq, ℤ, pos, int_bound,
  arith, ltb, ◌==◌, if◌then◌else◌, length, get_or, set, take, replicate, done, Bool-cases,
  length-set, length-take, get_or-set_self, get_or-set_ne, get_or-take, get_or-append_left,
  get_or-append_right, get_or-replicate, ◌∙◌,
}
use simbly.Exec.Values.Store.{length-grow}
use simbly.Exec.Values.{grow, allocate, get_value, set_value, set_element}
use simbly.Program.{Program, Token, Cell, array, int_val, int_arr}
use simbly.Voids.{HashTable, RingBuffer}

-- All elements but the last are kept.
get_or-grow_before :
    (m : ℕ) (xs : List ℤ) (i : ℕ)
    → i + 1 < length xs
    → get_or (grow m xs) i (pos 0) ≡ get_or xs i (pos 0)
get_or-grow_before m xs i h =
    get_or-append_left (take (length xs - 1) xs) (replicate (m - (length xs - 1)) (pos 0)) i (pos 0)
      (omega (arith, length-take {0} (length xs - 1) xs))
    ∙ get_or-take (length xs - 1) xs i (pos 0) (omega arith)

-- The last one is 0, as the new ones are.
pub get_or-grow_behind :
    (m : ℕ) (xs : List ℤ) (i : ℕ) → length xs ≤ i + 1 → get_or (grow m xs) i (pos 0) ≡ pos 0
get_or-grow_behind m xs i h =
    get_or-append_right (take (length xs - 1) xs) (replicate (m - (length xs - 1)) (pos 0)) i
      (pos 0) (omega (arith, length-take {0} (length xs - 1) xs))
    ∙ get_or-replicate (m - (length xs - 1)) (pos 0) _

module _ (max_alloc : ℕ) (vars : HashTable Cell) (ring : RingBuffer Token) where
  open vars use {Table, find, update, find-update_self}
  open ring use {Buffer}

  -- What an array with elements `xs` holds at `i` after `v` was written at `n`, behind its end: the
  -- last of its elements is gone.
  abbrev pub after_growth : List ℤ → ℕ → ℤ → ℕ → ℤ
  after_growth xs n v i =
      if i == n then v else if ltb (i + 1) (length xs) then get_or xs i (pos 0) else pos 0

  grown :
      (p : Program Table Buffer) (x : Bytes) (xs : List ℤ) (n : ℕ) (v : ℤ)
      {q : Program Table Buffer} {w : ℤ}
      → str_eq (codes "argv") x ≡ false
      → find p.vartable x ≡ some (array xs)
      → length xs ≤ n
      → set_element max_alloc vars ring p x v (done (p, some (pos n))) (some (array xs))
        ≡ done (q, some w)
      → (find q.vartable x ≡ some (array (set (grow (n + 1) xs) n v))) × (n + 1 < int_bound)
  unfolding allocate
  grown p x xs n v a e behind h =
      ground (arith, find-update_self p.vartable x (array (set (grow (n + 1) xs) n v)))

  -- Where writing `v` at `n`, behind the end of an array, succeeds, reading the array up to `n` gives
  -- `v` at `n`, 0 in the new elements, and the old elements but the last: that one reads as 0 too.
  pub get_value-set_behind :
      (p : Program Table Buffer) (x : Bytes) (xs : List ℤ) (n i : ℕ) (v : ℤ)
      {q : Program Table Buffer} {w : ℤ}
      → find p.vartable x ≡ some (array xs)
      → length xs ≤ n
      → i ≤ n
      → set_value max_alloc vars ring p (int_arr x (int_val (pos n))) v ≡ done (q, some w)
      → get_value max_alloc vars ring q (int_arr x (int_val (pos i)))
        ≡ done (q, some (after_growth xs n v i))
  unfolding set_value get_value
  get_value-set_behind p x xs n i v {q} e behind small h =
      elim (Bool-cases (str_eq (codes "argv") x)) [
        | inl const ↦ absurd (ground arith)
        | inr other ↦
            let (f, fits) = grown p x xs n v other e behind (rw (other, e) at h) in
            ground (
              arith,
              length-set (grow (n + 1) xs) n v,
              length-grow (n + 1) xs,
              get_or-set_self (grow (n + 1) xs) n v (pos 0),
              get_or-set_ne (grow (n + 1) xs) n i v (pos 0),
              get_or-grow_before (n + 1) xs i,
              get_or-grow_behind (n + 1) xs i,
            )
      ]
