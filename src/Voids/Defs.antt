-- ===== src/Voids/Defs.antt =====
-- The two containers that src/program.c, src/scanner.c, src/exec.c and src/global.c call.
use simbly.Prelude.{
  ℕ, ◌≤◌, ◌<◌, ◌≡◌, ◌≢◌, Bool, true, false, Option, none, some, List, [], ◌∷◌, ◌++◌, Bytes, length,
}

-- QuadHashtable, with keys compared by `symbol_name_cmp`. `QuadHash_insert` stores a new pair, or
-- leaves the table alone and reports VDS_KEY_EXISTS (`false`). `update` writes the `pData` of the
-- pair that `QuadHash_find` returned.
pub record HashTable (V : Type 0) : Type 1 where
  pub Table : Type 0
  pub init : Table
  pub find : Table → Bytes → Option V
  pub insert : Table → Bytes → V → Table × Bool
  pub update : Table → Bytes → V → Table
  pub find-init : (k : Bytes) → find init k ≡ none
  pub insert_old : (t : Table) (k : Bytes) (v : V) → find t k ≢ none → insert t k v ≡ (t, false)
  pub insert_new : (t : Table) (k : Bytes) (v : V) → find t k ≡ none → (insert t k v).1 ≡ true
  pub find-insert_self :
      (t : Table) (k : Bytes) (v : V) → find t k ≡ none → find (insert t k v).0 k ≡ some v
  pub find-insert_ne :
      (t : Table) (k j : Bytes) (v : V) → j ≢ k → find (insert t k v).0 j ≡ find t j
  pub find-update_self :
      (t : Table) (k : Bytes) (v : V) → find t k ≢ none → find (update t k v) k ≡ some v
  pub find-update_ne : (t : Table) (k j : Bytes) (v : V) → j ≢ k → find (update t k v) j ≡ find t j

-- RingBuffer: a queue with `size` places. A write into a full buffer changes nothing and reports
-- VDS_BUFFER_FULL (`false`); a read of an empty one reports VDS_BUFFER_EMPTY (`none`). A change of the
-- size may lack memory (`false`). The items are on the heap: `alloc` tells whether malloc has memory
-- for one.
pub record RingBuffer (T : Type 0) : Type 1 where
  pub Buffer : Type 0
  pub init : ℕ → Buffer
  pub size : Buffer → ℕ
  pub items : Buffer → List T
  pub write : Buffer → T → Buffer × Bool
  pub read : Buffer → Option T × Buffer
  pub resize : Buffer → ℕ → Buffer × Bool
  pub alloc : T → Bool
  pub items-init : (n : ℕ) → items (init n) ≡ []
  pub size-init : (n : ℕ) → size (init n) ≡ n
  pub write_room :
      (b : Buffer) (x : T)
      → length (items b) < size b
      → (items (write b x).0 ≡ items b ++ x ∷ []) × ((write b x).1 ≡ true)
  pub write_full : (b : Buffer) (x : T) → size b ≤ length (items b) → write b x ≡ (b, false)
  pub items-le-size : (b : Buffer) → length (items b) ≤ size b
  pub read_empty : (b : Buffer) → items b ≡ [] → read b ≡ (none, b)
  pub read_next :
      (b : Buffer) (x : T) (xs : List T)
      → items b ≡ x ∷ xs
      → ((read b).0 ≡ some x) × (items (read b).1 ≡ xs)
  pub resize_lem :
      (b : Buffer) (n : ℕ)
      → size b ≤ n
      → (resize b n).1 ≡ true
      → (items (resize b n).0 ≡ items b) × (size (resize b n).0 ≡ n)

-- CDLList: a circular list through nodes, held by its head. `items` are the nodes from the head along
-- `nxt`, with the data that each points to; `at` is the data of a node that is in the list, `write`
-- changes it in place. A node keeps its identity while others come and go, and a new one is appended
-- behind the last.
pub record CircularList (A : Type 0) : Type 1 where
  pub Chain : Type 0
  pub Node : Type 0
  pub init : Chain
  pub items : Chain → List (Node × A)
  pub at : Chain → Node → Option A
  pub next : Chain → Node → Node
  pub prev : Chain → Node → Node
  pub append : Chain → A → Chain × Bool
  pub write : Chain → Node → A → Chain
  pub delete : Chain → Node → Chain
  pub items-init : items init ≡ []
  pub at_item :
      (c : Chain) (xs ys : List (Node × A)) (n : Node) (a : A)
      → items c ≡ xs ++ ((n, a) ∷ ys)
      → at c n ≡ some a
  pub next_inner :
      (c : Chain) (xs ys : List (Node × A)) (n m : Node) (a b : A)
      → items c ≡ xs ++ ((n, a) ∷ (m, b) ∷ ys)
      → next c n ≡ m
  pub next_last :
      (c : Chain) (xs ys : List (Node × A)) (n m : Node) (a b : A)
      → items c ≡ xs ++ ((n, a) ∷ [])
      → items c ≡ (m, b) ∷ ys
      → next c n ≡ m
  pub prev-next :
      (c : Chain) (xs ys : List (Node × A)) (n : Node) (a : A)
      → items c ≡ xs ++ ((n, a) ∷ ys)
      → prev c (next c n) ≡ n
  pub items-append :
      (c : Chain) (a : A)
      → (n : Node) × (items (append c a).0 ≡ items c ++ ((n, a) ∷ [])) × ((append c a).1 ≡ true)
  pub items-write :
      (c : Chain) (xs ys : List (Node × A)) (n : Node) (a b : A)
      → items c ≡ xs ++ ((n, a) ∷ ys)
      → items (write c n b) ≡ xs ++ ((n, b) ∷ ys)
  pub items-delete :
      (c : Chain) (xs ys : List (Node × A)) (n : Node) (a : A)
      → items c ≡ xs ++ ((n, a) ∷ ys)
      → items (delete c n) ≡ xs ++ ys
