-- ===== src/Voids/Lists.antt =====
-- Containers over lists that meet the interfaces of the parent's file: an association list with the
-- laws of a hash table, and a bounded list with those of a ring buffer.
use simbly.Voids.Defs.{HashTable, RingBuffer}
use simbly.Prelude.{
  ℕ, ◌+◌, ◌≤◌, ◌<◌, ◌≡◌, refl, ◌≢◌, Bool, true, false, Option, none, some, List, [], ◌∷◌, ◌++◌,
  arith, Bytes, length, str_eq, str_eq_iff, if◌then◌else◌, zero, suc, ◌-◌,
}

module _ {V : Type 0} where
  abbrev pub find : List (Bytes × V) → Bytes → Option V
  find [] k = none
  find ((j, v) ∷ t) k = if str_eq j k then some v else find t k

  abbrev pub put : List (Bytes × V) → Bytes → V → List (Bytes × V)
  put [] k v = []
  put ((j, w) ∷ t) k v = if str_eq j k then (j, v) ∷ t else (j, w) ∷ put t k v

  abbrev insert_found : Option V → List (Bytes × V) → Bytes → V → List (Bytes × V) × Bool
  insert_found none t k v = ((k, v) ∷ t, true)
  insert_found (some _) t k v = (t, false)

  abbrev pub insert : List (Bytes × V) → Bytes → V → List (Bytes × V) × Bool
  insert t k v = insert_found (find t k) t k v

  pub insert_old :
      (t : List (Bytes × V)) (k : Bytes) (v : V) → find t k ≢ none → insert t k v ≡ (t, false)
  insert_old t k v h = ground arith

  pub insert_new :
      (t : List (Bytes × V)) (k : Bytes) (v : V) → find t k ≡ none → (insert t k v).1 ≡ true
  insert_new t k v h = ground arith

  pub find-insert_self :
      (t : List (Bytes × V)) (k : Bytes) (v : V)
      → find t k ≡ none
      → find (insert t k v).0 k ≡ some v
  find-insert_self t k v h = ground (arith, str_eq_iff k k)

  pub find-insert_ne :
      (t : List (Bytes × V)) (k j : Bytes) (v : V) → j ≢ k → find (insert t k v).0 j ≡ find t j
  find-insert_ne t k j v h = ground (arith, str_eq_iff k j)

  pub find-put_self :
      (t : List (Bytes × V)) (k : Bytes) (v : V) → find t k ≢ none → find (put t k v) k ≡ some v
  find-put_self [] k v h = absurd (h refl)
  find-put_self ((j, w) ∷ t) k v h = ground (arith, find-put_self t k v)

  pub find-put_ne :
      (t : List (Bytes × V)) (k j : Bytes) (v : V) → j ≢ k → find (put t k v) j ≡ find t j
  find-put_ne [] k j v h = refl
  find-put_ne ((i, w) ∷ t) k j v h =
      ground (arith, str_eq_iff i k, str_eq_iff i j, find-put_ne t k j v h)

abbrev pub list_table : (V : Type 0) → HashTable V
list_table V = record {
  Table = List (Bytes × V);
  init = [];
  find = find;
  insert = insert;
  update = put;
  find-init = λ k. refl;
  insert_old = insert_old;
  insert_new = insert_new;
  find-insert_self = find-insert_self;
  find-insert_ne = find-insert_ne;
  find-update_self = find-put_self;
  find-update_ne = find-put_ne;
}

pub init_lem : (n : ℕ) → n + 0 ≡ n
init_lem n = omega arith

-- The places that are free, and the items held.
abbrev Ring : Type 0 → Type 0
Ring T = ℕ × List T

module _ {T : Type 0} where
  abbrev write : Ring T → T → Ring T × Bool
  write (zero, xs) x = ((zero, xs), false)
  write (suc free, xs) x = ((free, xs ++ x ∷ []), true)

  abbrev read : Ring T → Option T × Ring T
  read (free, []) = (none, (free, []))
  read (free, x ∷ xs) = (some x, (suc free, xs))

  pub write_room :
      (b : Ring T) (x : T)
      → length b.1 < b.0 + length b.1
      → ((write b x).0.1 ≡ b.1 ++ x ∷ []) × ((write b x).1 ≡ true)
  write_room (zero, xs) x h = absurd (omega arith)
  write_room (suc free, xs) x h = (refl, refl)

  pub write_full : (b : Ring T) (x : T) → b.0 + length b.1 ≤ length b.1 → write b x ≡ (b, false)
  write_full (zero, xs) x h = refl
  write_full (suc free, xs) x h = absurd (omega arith)

  pub read_empty : (b : Ring T) → b.1 ≡ [] → read b ≡ (none, b)
  read_empty (free, []) h = refl
  read_empty (free, x ∷ xs) h = cc

  pub read_next :
      (b : Ring T) (x : T) (xs : List T)
      → b.1 ≡ x ∷ xs
      → ((read b).0 ≡ some x) × ((read b).1.1 ≡ xs)
  read_next (free, []) x xs h = cc
  read_next (free, y ∷ ys) x xs h = (cc, cc)

  pub resize_lem :
      (b : Ring T) (n : ℕ)
      → b.0 + length b.1 ≤ n
      → true ≡ true
      → (b.1 ≡ b.1) × (n - length b.1 + length b.1 ≡ n)
  resize_lem b n h _ = (refl, omega arith)

  pub items-le-size : (b : Ring T) → length b.1 ≤ b.0 + length b.1
  items-le-size b = omega arith

abbrev pub list_ring : (T : Type 0) → RingBuffer T
list_ring T = record {
  Buffer = Ring T;
  init = λ n. (n, []);
  size = λ b. b.0 + length b.1;
  items = λ b. b.1;
  write = write;
  read = read;
  resize = λ b n. ((n - length b.1, b.1), true);
  alloc = λ x. true;
  items-init = λ n. refl;
  size-init = init_lem;
  write_room = write_room;
  write_full = write_full;
  items-le-size = items-le-size;
  read_empty = read_empty;
  read_next = read_next;
  resize_lem = resize_lem;
}
