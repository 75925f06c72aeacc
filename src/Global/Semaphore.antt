-- ===== src/Global/Semaphore.antt =====
-- A semaphore is one element of a global variable. A program that executes DOWN is blocked on it,
-- and program_state_blocked lets it go on when it has taken one from the count.
use simbly.Prelude.{
  ℕ, suc, ◌≡◌, refl, ◌≢◌, ◌⊎◌, Option, none, some, Bytes, ℤ, pos, ◌-ℤ◌, arith, done, replicate,
  >>=-eq-done,
}
use simbly.Global.{
  GlobalVar, next_index, global_var_init, realloc_var, down_found, global_var_down,
  program_state_blocked, block, wake, write_count,
}
use simbly.Global.Elements.{element, element-insert, element-write_self, element-write_others}
use simbly.Program.{Program}
use simbly.Voids.{HashTable}

module _ (max_alloc : ℕ) (globals : HashTable (Option GlobalVar)) where
  open globals use {Table, find}

  down_found-element :
      (t : Table) (key j : Bytes) (idx i : ℕ) {x : ℤ} {t' : Table} (o : Option (Option GlobalVar))
      → find t key ≡ o
      → element max_alloc globals t j i ≡ some x
      → down_found max_alloc globals t key idx o ≡ done (t', tt)
      → element max_alloc globals t' j i ≡ some x
  unfolding global_var_init realloc_var
  down_found-element t key j idx i none e k h =
      let xs = replicate (next_index idx) (pos 0) in
      ground (
        arith,
        element-insert max_alloc globals t key j i none e k,
        element-insert max_alloc globals t key j i (some (record { count = xs })) e k,
      )
  down_found-element t key j idx i (some none) e k h = cc
  down_found-element t key j idx i (some (some var)) e k h = ground arith

  -- Every element but one is as it was.
  Others : Table → Table → Bytes → ℕ → Type 0
  Others t t' key idx =
      (j : Bytes) (i : ℕ) (x : ℤ)
      → (j ≢ key) ⊎ (i ≢ idx)
      → element max_alloc globals t j i ≡ some x
      → element max_alloc globals t' j i ≡ some x

  module _ {VarTable TokenBuffer : Type 0} where
    -- A DOWN that returns only asks: it blocks the program on the element, and leaves every element
    -- that there is as it was.
    pub global_var_down-element :
        (p : Program VarTable TokenBuffer) (t : Table) (key j : Bytes) (idx i : ℕ) {x : ℤ}
        {q : Program VarTable TokenBuffer} {t' : Table}
        → element max_alloc globals t j i ≡ some x
        → global_var_down max_alloc globals p t key idx ≡ done (q, t')
        → (q ≡ block max_alloc globals p key idx) × (element max_alloc globals t' j i ≡ some x)
    unfolding global_var_down
    global_var_down-element p t key j idx i k h =
        let ((s, u), found, same) =
          >>=-eq-done (down_found max_alloc globals t key idx (find t key)) _ h in
        (ground arith, ground (arith, down_found-element t key j idx i (find t key) refl k found))

    -- A program that waits for an element with the count 0 and looks at it stays as it is, and so do
    -- the global variables.
    pub blocked_zero :
        (p : Program VarTable TokenBuffer) (t : Table) (key : Bytes)
        → p.sem ≡ some key
        → element max_alloc globals t key p.blocked_idx ≡ some (pos 0)
        → program_state_blocked max_alloc globals (λ s. s) p t ≡ done (p, t)
    unfolding program_state_blocked
    blocked_zero p t key e h = ground arith

    -- What a program that passes the semaphore does, seen from the elements.
    abbrev pub Passes :
        (Table → Table) → Program VarTable TokenBuffer → Table → Bytes → ℕ → Table → Type 0
    Passes wait p t key c t' =
        (program_state_blocked max_alloc globals wait p t ≡ done (wake max_alloc globals p, t'))
        × (element max_alloc globals t' key p.blocked_idx ≡ some (pos c))

    Passes-at :
        (wait : Table → Table) (p : Program VarTable TokenBuffer) (t : Table) (key : Bytes) (c : ℕ)
        (o : Option (Option GlobalVar))
        → find t key ≡ o
        → p.sem ≡ some key
        → element max_alloc globals t key p.blocked_idx ≡ some (pos (suc c))
        → (t' : Table) × Passes wait p t key c t' × Others t t' key p.blocked_idx
    unfolding program_state_blocked ◌-ℤ◌ Others
    Passes-at wait p t key c none f e h = absurd (ground arith)
    Passes-at wait p t key c (some none) f e h = absurd (ground arith)
    Passes-at wait p t key c (some (some w)) f e h = (
      write_count max_alloc globals t key w p.blocked_idx (pos c),
      (
        ground arith,
        ground (arith, element-write_self max_alloc globals t key w p.blocked_idx (pos c) f),
      ),
      λ j i x ne k. element-write_others max_alloc globals t key j w p.blocked_idx i (pos c) f ne k,
    )

    -- A program that waits for an element with a positive count and looks at it goes on, whatever the
    -- other threads would do in a wait, and the element then holds one less.
    pub blocked_suc :
        (wait : Table → Table) (p : Program VarTable TokenBuffer) (t : Table) (key : Bytes) (c : ℕ)
        → p.sem ≡ some key
        → element max_alloc globals t key p.blocked_idx ≡ some (pos (suc c))
        → (t' : Table) × Passes wait p t key c t'
    blocked_suc wait p t key c e h =
        let (t', passes, others) = Passes-at wait p t key c (find t key) refl e h in (t', passes)

    -- A program that passes a semaphore leaves every element but its count as it was.
    blocked_suc-others :
        (wait : Table → Table) (p : Program VarTable TokenBuffer) (t : Table) (key j : Bytes)
        (c i : ℕ) {x : ℤ} {q : Program VarTable TokenBuffer} {t' : Table}
        → p.sem ≡ some key
        → element max_alloc globals t key p.blocked_idx ≡ some (pos (suc c))
        → (j ≢ key) ⊎ (i ≢ p.blocked_idx)
        → element max_alloc globals t j i ≡ some x
        → program_state_blocked max_alloc globals wait p t ≡ done (q, t')
        → element max_alloc globals t' j i ≡ some x
    unfolding Others
    blocked_suc-others wait p t key j c i {x} {q} {t'} e h ne k run =
        let (u, passes, others) = Passes-at wait p t key c (find t key) refl e h in
        cc (passes.0, run, others j i x ne k)

    -- At a count of 0 a timed wait, during which the other threads change the table, is a look at
    -- the changed table.
    blocked_wait :
        (wait : Table → Table) (p : Program VarTable TokenBuffer) (t : Table) (key : Bytes)
        → p.sem ≡ some key
        → element max_alloc globals t key p.blocked_idx ≡ some (pos 0)
        → program_state_blocked max_alloc globals wait p t
          ≡ program_state_blocked max_alloc globals (λ s. s) p (wait t)
    unfolding program_state_blocked
    blocked_wait wait p t key e h = ground arith
