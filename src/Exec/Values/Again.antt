-- ===== src/Exec/Values/Again.antt =====
-- Reading a value again: what a first reading creates is found by the second.
use simbly.Prelude.{
  ℕ, ◌+◌, ◌≡◌, refl, Option, none, some, [], ◌∷◌, Bytes, codes, str_eq, ℤ, pos, negsuc, arith,
  replicate, done, length-replicate, get_or-replicate, ap, subst, Outcome, fatal, undefined, ◌>>=◌,
  done_inj, Bool-cases, inl, inr, false, leb_ℤ,
}
use simbly.Exec.Values.Store.{length-grow}
use simbly.Exec.Values.Growth.{get_or-grow_behind}
use simbly.Exec.Values.{
  grow, allocate, get_value, get_var, get_element, get_argv, argc, slot_value, argv_slot,
}
use simbly.Program.{
  Program, Token, Operand, Cell, array, label_data, int_val, int_var, int_arr, unset,
}
use simbly.Voids.{HashTable, RingBuffer}

-- A number, a variable, or an element at an index that is a number.
abbrev pub IsPlain : Operand → Type 0
IsPlain (int_val v) = Unit
IsPlain unset = Unit
IsPlain (int_var x) = Unit
IsPlain (int_arr x (int_val v)) = Unit
IsPlain (int_arr x _) = ⊥

module _ (max_alloc : ℕ) (vars : HashTable Cell) (ring : RingBuffer Token) where
  open vars use {Table, find, insert, update, insert_new, find-insert_self, find-update_self}
  open ring use {Buffer}

  abbrev Reads : Program Table Buffer → Operand → ℤ → Type 0
  Reads q o v = get_value max_alloc vars ring q o ≡ done (q, some v)

  get_var-again :
      (p : Program Table Buffer) (x : Bytes) {q : Program Table Buffer} {v : ℤ} (o : Option Cell)
      → str_eq (codes "argc") x ≡ false
      → find p.vartable x ≡ o
      → get_var max_alloc vars ring p x o ≡ done (q, some v)
      → Reads q (int_var x) v
  unfolding get_value allocate
  get_var-again p x none n e h = ground (
    arith,
    insert_new p.vartable x (array (pos 0 ∷ [])) e,
    find-insert_self p.vartable x (array (pos 0 ∷ [])) e,
  )
  get_var-again p x (some (label_data l)) n e h = cc
  get_var-again p x (some (array [])) n e h = cc
  get_var-again p x (some (array (y ∷ ys))) n e h = ground arith

  get_element-again :
      (p : Program Table Buffer) (x : Bytes) (i v : ℤ) {q : Program Table Buffer} (o : Option Cell)
      → str_eq (codes "argv") x ≡ false
      → find p.vartable x ≡ o
      → get_element max_alloc vars ring p x (done (p, some i)) o ≡ done (q, some v)
      → Reads q (int_arr x (int_val i)) v
  unfolding get_value allocate
  get_element-again p x (negsuc n) v (some (label_data l)) a e h = cc
  get_element-again p x (negsuc n) v (some (array xs)) a e h = cc
  get_element-again p x (negsuc n) v none a e h = cc
  get_element-again p x (pos n) v none a e h = ground (
    arith,
    insert_new p.vartable x (array (replicate (n + 1) (pos 0))) e,
    find-insert_self p.vartable x (array (replicate (n + 1) (pos 0))) e,
    length-replicate {0} (n + 1) (pos 0),
    get_or-replicate (n + 1) (pos 0) n,
  )
  get_element-again p x (pos n) v (some (label_data l)) a e h = cc
  get_element-again p x (pos n) v (some (array xs)) a e h = ground (
    arith,
    find-update_self p.vartable x (array (grow (n + 1) xs)),
    length-grow (n + 1) xs,
    get_or-grow_behind (n + 1) xs n,
  )

  returned :
      (p : Program Table Buffer) (m : Outcome ℤ) {q : Program Table Buffer} {v : ℤ}
      → (◌>>=◌ {B = Program Table Buffer × Option ℤ} m (λ w. done (p, some w))) ≡ done (q, some v)
      → p ≡ q
  returned p (done w) h = ap (λ o. o.0) (done_inj h)
  returned p fatal h = cc
  returned p (undefined u) h = cc

  get_argv-again :
      (p : Program Table Buffer) (i : ℤ) {q : Program Table Buffer} {v : ℤ}
      → get_argv max_alloc vars ring (p, some i) ≡ done (q, some v)
      → get_argv max_alloc vars ring (q, some i) ≡ done (q, some v)
  get_argv-again p i {q} {v} h = elim (Bool-cases (leb_ℤ (argc p.argv) i)) [
    | inl outside ↦ absurd (ground arith)
    | inr inside ↦
        let same = returned p (slot_value p.argv (argv_slot i)) (rw inside at h) in
        subst (λ u. get_argv max_alloc vars ring (u, some i) ≡ done (q, some v)) same h
  ]

  -- Reading again gives the same: where reading a number, a variable, or an element at an index that
  -- is a number succeeds, reading it once more, from the variables that the first reading has left,
  -- succeeds with the same value and changes nothing.
  pub get_value-again :
      (p : Program Table Buffer) (o : Operand) {q : Program Table Buffer} {v : ℤ}
      → IsPlain o
      → get_value max_alloc vars ring p o ≡ done (q, some v)
      → get_value max_alloc vars ring q o ≡ done (q, some v)
  unfolding get_value
  get_value-again p (int_val w) c h = cc
  get_value-again p unset c h = cc
  get_value-again p (int_var x) c h = elim (Bool-cases (str_eq (codes "argc") x)) [
    | inl const ↦ ground arith
    | inr other ↦ get_var-again p x (find p.vartable x) other refl (rw other at h)
  ]
  get_value-again p (int_arr x (int_val i)) c h = elim (Bool-cases (str_eq (codes "argv") x)) [
    | inl const ↦ rw const (get_argv-again p i (rw const at h))
    | inr other ↦ get_element-again p x i _ (find p.vartable x) other refl (rw other at h)
  ]
  get_value-again p (int_arr x unset) c h = elim c [ ]
  get_value-again p (int_arr x (int_var y)) c h = elim c [ ]
  get_value-again p (int_arr x (int_arr y i)) c h = elim c [ ]
