-- ===== src/Global/Store.antt =====
-- The global variables as a store: what STORE writes, LOAD reads, and nothing else changes.
use simbly.Prelude.{
  ℕ, ◌<◌, ◌≡◌, refl, Option, none, some, Bytes, ℤ, pos, size_mod, arith, set, replicate, done,
  length-set, length-replicate, get_or-set_self,
}
use simbly.Global.{
  GlobalVar, next_index, global_var_init, realloc_var, store_found, global_var_load,
  global_var_store,
}
use simbly.Voids.{HashTable}

module _ (max_alloc : ℕ) (globals : HashTable (Option GlobalVar)) where
  open globals use {
    Table, find, insert, update, insert_new, find-insert_self, find-insert_ne, find-update_self,
    find-update_ne,
  }

  store-load_found :
      (t : Table) (key : Bytes) (idx : ℕ) (v : ℤ) {t' : Table} (o : Option (Option GlobalVar))
      → idx < size_mod
      → find t key ≡ o
      → store_found max_alloc globals t key idx v o ≡ done (t', tt)
      → global_var_load max_alloc globals t' key idx ≡ done (t', v)
  unfolding global_var_load global_var_init realloc_var
  store-load_found t key idx v none small e h =
      let xs = replicate (next_index idx) (pos 0) in
      let var : Option GlobalVar = some (record { count = set xs idx v }) in
      ground (
        arith,
        insert_new t key var e,
        find-insert_self t key var e,
        length-set xs idx v,
        length-replicate (next_index idx) (pos 0),
        get_or-set_self xs idx v (pos 0),
      )
  store-load_found t key idx v (some none) small e h = cc
  store-load_found t key idx v (some (some w)) small e h =
      let var : Option GlobalVar = some (record { count = set w.count idx v }) in
      ground (
        arith,
        find-update_self t key var,
        length-set w.count idx v,
        get_or-set_self w.count idx v (pos 0),
      )

  -- Where a STORE to an element, with an index below 2 ^ 64, has returned, a LOAD of it returns the
  -- value stored and changes nothing.
  pub global_var_load-store :
      (t : Table) (key : Bytes) (idx : ℕ) (v : ℤ) {t' : Table}
      → idx < size_mod
      → global_var_store max_alloc globals t key idx v ≡ done (t', tt)
      → global_var_load max_alloc globals t' key idx ≡ done (t', v)
  unfolding global_var_store
  global_var_load-store t key idx v small h = store-load_found t key idx v (find t key) small refl h
