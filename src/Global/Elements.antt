-- ===== src/Global/Elements.antt =====
-- The value of one element of a global variable, and what each operation does to it.
use simbly.Prelude.{
  ℕ, suc, ◌+◌, ◌<◌, ◌≡◌, refl, ◌≢◌, ◌⊎◌, inl, inr, Option, none, some, Bytes, ℤ, pos, ◌+ℤ◌, arith,
  ltb, if◌then◌else◌, length, get_or, set, done, length-set, get_or-set_self, get_or-set_ne,
  replicate, name_cases, ap,
}
use simbly.Global.{
  write_count, GlobalVar, next_index, global_var_init, realloc_var, store_found, up_found,
  global_var_store, global_var_up,
}
use simbly.Voids.{HashTable}

abbrev element_in : ℕ → Option (Option GlobalVar) → Option ℤ
element_in idx (some (some w)) =
    if ltb idx (length w.count) then some (get_or w.count idx (pos 0)) else none
element_in idx _ = none

module _ (max_alloc : ℕ) (globals : HashTable (Option GlobalVar)) where
  open globals use {
    Table, find, insert, update, find-insert_ne, find-update_self, find-update_ne, insert_old,
  }

  -- The element, where the variable exists and is long enough.
  abbrev pub element : Table → Bytes → ℕ → Option ℤ
  element t key idx = element_in idx (find t key)

  -- A new variable leaves the elements that there are.
  pub element-insert :
      (t : Table) (key j : Bytes) (i : ℕ) (c : Option GlobalVar) {x : ℤ}
      → find t key ≡ none
      → element t j i ≡ some x
      → element (insert t key c).0 j i ≡ some x
  element-insert t key j i c e h = elim (name_cases j key) [
    | inl same ↦ cc
    | inr ne ↦ rw (find-insert_ne t key j c ne) h
  ]

  pub element-write_self :
      (t : Table) (key : Bytes) (w : GlobalVar) (idx : ℕ) (v : ℤ)
      → find t key ≡ some (some w)
      → idx < length w.count
      → element (write_count max_alloc globals t key w idx v) key idx ≡ some v
  element-write_self t key w idx v e h = ground (
    arith,
    find-update_self t key (some (record { count = set w.count idx v })),
    length-set w.count idx v,
    get_or-set_self w.count idx v (pos 0),
  )

  pub element-write_others :
      (t : Table) (key j : Bytes) (w : GlobalVar) (idx i : ℕ) (v : ℤ) {x : ℤ}
      → find t key ≡ some (some w)
      → (j ≢ key) ⊎ (i ≢ idx)
      → element t j i ≡ some x
      → element (write_count max_alloc globals t key w idx v) j i ≡ some x
  element-write_others t key j w idx i v e (inl ne) h =
      rw (find-update_ne t key j (some (record { count = set w.count idx v })) ne) h
  element-write_others t key j w idx i v e (inr ne) h = elim (name_cases j key) [
    | inl same ↦ ground (
      arith,
      find-update_self t key (some (record { count = set w.count idx v })),
      length-set w.count idx v,
      get_or-set_ne w.count idx i v (pos 0),
    )
    | inr other ↦ rw (find-update_ne t key j (some (record { count = set w.count idx v })) other) h
  ]

  store_found-others :
      (t : Table) (key j : Bytes) (idx i : ℕ) (v : ℤ) {w : ℤ} {t' : Table}
      (o : Option (Option GlobalVar))
      → find t key ≡ o
      → (j ≢ key) ⊎ (i ≢ idx)
      → element t j i ≡ some w
      → store_found max_alloc globals t key idx v o ≡ done (t', tt)
      → element t' j i ≡ some w
  unfolding global_var_init realloc_var
  store_found-others t key j idx i v none e ne k h = ground (
    arith,
    element-insert t key j i
        (some (record { count = set (replicate (next_index idx) (pos 0)) idx v })) e k,
  )
  store_found-others t key j idx i v (some none) e ne k h = cc
  store_found-others t key j idx i v (some (some var)) e ne k h =
      ground (arith, element-write_others t key j var idx i v e ne k)

  -- A STORE that returns leaves every other element that there is, of its variable or another, as it
  -- was.
  pub global_var_store-others :
      (t : Table) (key j : Bytes) (idx i : ℕ) (v : ℤ) {w : ℤ} {t' : Table}
      → (j ≢ key) ⊎ (i ≢ idx)
      → element t j i ≡ some w
      → global_var_store max_alloc globals t key idx v ≡ done (t', tt)
      → element t' j i ≡ some w
  unfolding global_var_store
  global_var_store-others t key j idx i v ne k h =
      store_found-others t key j idx i v (find t key) refl ne k h

  up_found-element :
      (t : Table) (key : Bytes) (idx c : ℕ) {t' : Table} (o : Option (Option GlobalVar))
      → find t key ≡ o
      → element t key idx ≡ some (pos c)
      → up_found max_alloc globals t key idx o ≡ done (t', tt)
      → element t' key idx ≡ some (pos (suc c))
  unfolding global_var_init realloc_var ◌+ℤ◌
  up_found-element t key idx c none e k h = cc (ap (element_in idx) e)
  up_found-element t key idx c (some none) e k h = cc
  up_found-element t key idx c (some (some var)) e k h =
      ground (arith, element-write_self t key var idx (pos (c + 1)) e)

  -- Where an element holds a count that is not negative and UP of it returns, it then holds one more.
  pub global_var_up-element :
      (t : Table) (key : Bytes) (idx c : ℕ) {t' : Table}
      → element t key idx ≡ some (pos c)
      → global_var_up max_alloc globals t key idx ≡ done (t', tt)
      → element t' key idx ≡ some (pos (suc c))
  unfolding global_var_up
  global_var_up-element t key idx c k h = up_found-element t key idx c (find t key) refl k h
