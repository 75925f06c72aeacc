-- ===== src/Exec/Values/Ensures.antt =====
-- One induction for all that reading and setting values keep: a property of the program that holds
-- through its three kinds of steps (a message, a new name, an array written anew) holds through
-- get_value and set_value.
use simbly.Prelude.{
  ℕ, ◌+◌, ◌-◌, ◌<◌, ◌≤◌, ◌≡◌, refl, ◌≢◌, inl, inr, true, List, Option, none, some, [], ◌∷◌, Bytes,
  ℤ, pos, negsuc, arith, length, set, replicate, Outcome, done, fatal, undefined, ◌>>=◌, ltb, leb_ℤ,
  ◌==◌, leb, int_bound, Bool-cases, length-replicate, length-set, ◌*◌, take, length-append,
}
use simbly.Exec.Values.{
  Value, grow, allocate, same_array, with_index, get_var, get_at, get_element, get_argv, set_var,
  set_at, set_element, updated, inserted, argc, argv_slot, slot_value,
}
use simbly.Program.{
  Message, stop_with, Program, Token, Operand, Cell, array, label_data, int_val, int_var, int_arr,
  unset,
}
use simbly.Voids.{HashTable, RingBuffer}

-- Every name of the operand is in `N`.
abbrev pub Names : (Bytes → Type 0) → Operand → Type 0
Names N (int_val v) = Unit
Names N unset = Unit
Names N (int_var x) = N x
Names N (int_arr x i) = N x × Names N i

pub grow_nonempty : (n : ℕ) (xs : List ℤ) → length xs ≤ n → 0 < length (grow (n + 1) xs)
grow_nonempty n xs h = omega (
  arith,
  length-append {0} (take (length xs - 1) xs) (replicate (n + 1 - (length xs - 1)) (pos 0)),
  length-replicate {0} (n + 1 - (length xs - 1)) (pos 0),
)

module _ (max_alloc : ℕ) (vars : HashTable Cell) (ring : RingBuffer Token) where
  open vars use {Table, find, insert, update}
  open ring use {Buffer}

  -- The steps that keep `P`, on the names in `N`.
  pub record Steps (P : Program Table Buffer → Type 0) (N : Bytes → Type 0) : Type 0 where
    pub message :
        (q : Program Table Buffer) (m : Message)
        → P q
        → P (record q { reader = stop_with m q.reader })
    pub new_name :
        (q : Program Table Buffer) (x : Bytes) (xs : List ℤ)
        → N x
        → P q
        → 0 < length xs
        → (insert q.vartable x (array xs)).1 ≡ true
        → P (record q { vartable = (insert q.vartable x (array xs)).0 })
    pub write :
        (q : Program Table Buffer) (x : Bytes) (xs : List ℤ)
        → N x
        → P q
        → 0 < length xs
        → find q.vartable x ≢ none
        → P (updated max_alloc vars ring q x xs)

  module _ {P : Program Table Buffer → Type 0} {N : Bytes → Type 0} (s : Steps P N) where
    -- A call that returns has kept `P`.
    abbrev pub Ensures : Value max_alloc vars ring → Type 0
    Ensures (done (q, r)) = P q
    Ensures _ = Unit

    inserted-Ensures :
        (q : Program Table Buffer) (x : Bytes) (xs : List ℤ) (v : ℤ)
        → N x
        → P q
        → 0 < length xs
        → Ensures (inserted max_alloc vars ring q v (insert q.vartable x (array xs)))
    inserted-Ensures q x xs v n h l = ground (arith, s.new_name q x xs n h l)

    with_index-Ensures :
        (f : Program Table Buffer → ℕ → Value max_alloc vars ring) (m : Value max_alloc vars ring)
        → ((q : Program Table Buffer) (n : ℕ) → P q → Ensures (f q n))
        → Ensures m
        → Ensures (m >>= with_index max_alloc vars ring f)
    with_index-Ensures f (done (q, none)) k h = h
    with_index-Ensures f (done (q, some (negsuc n))) k h = s.message q _ h
    with_index-Ensures f (done (q, some (pos n))) k h = elim (Bool-cases (leb int_bound (n + 1))) [
      | inl over ↦ rw over tt
      | inr fits ↦ rw fits (k q n h)
    ]
    with_index-Ensures f fatal k h = tt
    with_index-Ensures f (undefined u) k h = tt

    -- What is done with the room that `allocate` gives.
    allocate-Ensures :
        (n : ℕ) (xs : List ℤ) (f : List ℤ → Value max_alloc vars ring)
        → Ensures (f xs)
        → Ensures (allocate max_alloc n xs >>= f)
    unfolding allocate
    allocate-Ensures n xs f h = elim (Bool-cases (leb int_bound (n + 2))) [
      | inl over ↦ rw over tt
      | inr fits ↦ rw fits (elim (Bool-cases (ltb max_alloc (4 * (n + 2)))) [
        | inl fails ↦ rw fails tt
        | inr room ↦ rw room h
      ])
    ]

    pub get_var-Ensures :
        (q : Program Table Buffer) (x : Bytes) (o : Option Cell)
        → N x
        → P q
        → Ensures (get_var max_alloc vars ring q x o)
    get_var-Ensures q x none n h =
        allocate-Ensures 0 (pos 0 ∷ []) _
          (inserted-Ensures q x (pos 0 ∷ []) (pos 0) n h (omega arith))
    get_var-Ensures q x (some (label_data l)) n h = s.message q _ h
    get_var-Ensures q x (some (array [])) n h = tt
    get_var-Ensures q x (some (array (v ∷ vs))) n h = elim (Bool-cases (ltb 1 (length (v ∷ vs)))) [
      | inl many ↦ rw many (s.message q _ h)
      | inr one ↦ rw one h
    ]

    pub set_var-Ensures :
        (q : Program Table Buffer) (x : Bytes) (v : ℤ) (o : Option Cell)
        → find q.vartable x ≡ o
        → N x
        → P q
        → Ensures (set_var max_alloc vars ring q x v o)
    set_var-Ensures q x v none e n h =
        allocate-Ensures 0 (v ∷ []) _ (inserted-Ensures q x (v ∷ []) v n h (omega arith))
    set_var-Ensures q x v (some (label_data l)) e n h = s.message q _ h
    set_var-Ensures q x v (some (array [])) e n h = tt
    set_var-Ensures q x v (some (array (w ∷ ws))) e n h =
        elim (Bool-cases (ltb 1 (length (w ∷ ws)))) [
          | inl many ↦ rw many (s.message q _ h)
          | inr one ↦ rw one (s.write q x (v ∷ ws) n h (omega arith) (λ m. cc))
        ]

    get_at-Ensures :
        (q : Program Table Buffer) (x : Bytes) (n : ℕ) (ys : List ℤ)
        → N x
        → P q
        → find q.vartable x ≢ none
        → Ensures (get_at max_alloc vars ring x q n ys)
    get_at-Ensures q x n ys a h b = elim (Bool-cases (ltb n (length ys))) [
      | inl inside ↦ rw inside h
      | inr behind ↦ rw behind (
          allocate-Ensures n (grow (n + 1) ys) _
            (s.write q x (grow (n + 1) ys) a h (grow_nonempty n ys (ground arith)) b))
    ]

    set_at-Ensures :
        (q : Program Table Buffer) (x : Bytes) (n : ℕ) (v : ℤ) (ys : List ℤ)
        → N x
        → P q
        → find q.vartable x ≢ none
        → Ensures (set_at max_alloc vars ring x v q n ys)
    set_at-Ensures q x n v ys a h b = elim (Bool-cases (ltb n (length ys))) [
      | inl inside ↦ rw inside (s.write q x (set ys n v) a h (ground (arith, length-set ys n v)) b)
      | inr behind ↦ rw behind (
          allocate-Ensures n (grow (n + 1) ys) _ (
            s.write q x (set (grow (n + 1) ys) n v) a h
              (ground (arith, length-set (grow (n + 1) ys) n v, grow_nonempty n ys)) b))
    ]

    same_array-Ensures :
        (xs : List ℤ) (c : Option Cell) (f : List ℤ → Value max_alloc vars ring)
        → ((ys : List ℤ) → c ≡ some (array ys) → Ensures (f ys))
        → Ensures (same_array xs c >>= f)
    same_array-Ensures xs none f h = tt
    same_array-Ensures xs (some (label_data l)) f h = tt
    same_array-Ensures xs (some (array ys)) f h = elim (Bool-cases (length ys == length xs)) [
      | inl same ↦ rw same (h ys refl)
      | inr stale ↦ rw stale tt
    ]

    pub get_element-Ensures :
        (p : Program Table Buffer) (x : Bytes) (m : Value max_alloc vars ring) (o : Option Cell)
        → N x
        → P p
        → Ensures m
        → Ensures (get_element max_alloc vars ring p x m o)
    get_element-Ensures p x m (some (label_data l)) a h k = s.message p _ h
    get_element-Ensures p x m (some (array xs)) a h k =
        with_index-Ensures _ m
          (λ q n g.
            same_array-Ensures xs (find q.vartable x) _
              (λ ys e. get_at-Ensures q x n ys a g (λ m. cc)))
          k
    get_element-Ensures p x m none a h k =
        with_index-Ensures _ m
          (λ q n g. allocate-Ensures n (replicate (n + 1) (pos 0)) _ (
            inserted-Ensures q x (replicate (n + 1) (pos 0)) (pos 0) a g
              (omega (arith, length-replicate {0} (n + 1) (pos 0)))))
          k

    pub set_element-Ensures :
        (p : Program Table Buffer) (x : Bytes) (v : ℤ) (m : Value max_alloc vars ring)
        (o : Option Cell)
        → N x
        → P p
        → Ensures m
        → Ensures (set_element max_alloc vars ring p x v m o)
    set_element-Ensures p x v m (some (label_data l)) a h k = s.message p _ h
    set_element-Ensures p x v m (some (array xs)) a h k =
        with_index-Ensures _ m
          (λ q n g.
            same_array-Ensures xs (find q.vartable x) _
              (λ ys e. set_at-Ensures q x n v ys a g (λ m. cc)))
          k
    set_element-Ensures p x v m none a h k =
        with_index-Ensures _ m
          (λ q n g. allocate-Ensures n (replicate (n + 1) (pos 0)) _ (
            inserted-Ensures q x (set (replicate (n + 1) (pos 0)) n v) v a g (
              omega (
                arith,
                length-set {0} (replicate (n + 1) (pos 0)) n v,
                length-replicate {0} (n + 1) (pos 0),
              ))))
          k

    bind-Ensures :
        (m : Outcome ℤ) (f : ℤ → Value max_alloc vars ring)
        → ((v : ℤ) → Ensures (f v))
        → Ensures (m >>= f)
    bind-Ensures (done v) f h = h v
    bind-Ensures fatal f h = tt
    bind-Ensures (undefined u) f h = tt

    pub get_argv-Ensures :
        (m : Value max_alloc vars ring) → Ensures m → Ensures (m >>= get_argv max_alloc vars ring)
    get_argv-Ensures (done (q, none)) h = h
    get_argv-Ensures (done (q, some i)) h = elim (Bool-cases (leb_ℤ (argc q.argv) i)) [
      | inl outside ↦ rw outside (s.message q _ h)
      | inr inside ↦ rw inside (bind-Ensures (slot_value q.argv (argv_slot i)) _ (λ v. h))
    ]
    get_argv-Ensures fatal h = tt
    get_argv-Ensures (undefined u) h = tt
