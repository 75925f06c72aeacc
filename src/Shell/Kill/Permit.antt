-- ===== src/Shell/Kill/Permit.antt =====
-- What killing a program that waits does to the semaphore.
use simbly.Global.{GlobalVar, write_count, wake, program_state_blocked}
use simbly.Global.Elements.{element, element-write_self}
use simbly.Global.Semaphore.{blocked_suc}
use simbly.Prelude.{ℕ, ◌≡◌, refl, subst, Option, none, some, Bytes, ℤ, pos, arith, done}
use simbly.Program.{Program, blocked}
use simbly.Shell.Kill.{wake_blocked}
use simbly.Voids.{HashTable}

module _ {VarTable TokenBuffer : Type 0} (max_alloc : ℕ)
    (globals : HashTable (Option GlobalVar)) where
  open globals use {Table, find}

  permit_at :
      (t : Table) (key : Bytes) (p : Program VarTable TokenBuffer) (v : ℤ)
      (o : Option (Option GlobalVar))
      → find t key ≡ o
      → p.state ≡ blocked
      → p.sem ≡ some key
      → element max_alloc globals t key p.blocked_idx ≡ some v
      → (t' : Table) × (wake_blocked max_alloc globals p t ≡ done t')
        × (element max_alloc globals t' key p.blocked_idx ≡ some (pos 1))
  unfolding wake_blocked
  permit_at t key p v none f i s h = absurd (ground arith)
  permit_at t key p v (some none) f i s h = absurd (ground arith)
  permit_at t key p v (some (some w)) f i s h = (
    write_count max_alloc globals t key w p.blocked_idx (pos 1),
    ground arith,
    ground (arith, element-write_self max_alloc globals t key w p.blocked_idx (pos 1) f),
  )

  -- Killing a program that waits for a semaphore sets its count to 1, whatever it was. Another program
  -- that waits for the same semaphore then goes on, though no program has executed UP.
  pub wake_blocked-wakes_other :
      (wait : Table → Table) (t : Table) (key : Bytes) (p other : Program VarTable TokenBuffer)
      (v : ℤ)
      → p.state ≡ blocked
      → p.sem ≡ some key
      → other.sem ≡ some key
      → other.blocked_idx ≡ p.blocked_idx
      → element max_alloc globals t key p.blocked_idx ≡ some v
      → (t' t'' : Table) × (wake_blocked max_alloc globals p t ≡ done t')
        × (program_state_blocked max_alloc globals wait other t'
            ≡ done (wake max_alloc globals other, t''))
        × (element max_alloc globals t'' key p.blocked_idx ≡ some (pos 0))
  wake_blocked-wakes_other wait t key p other v i s r e h =
      let (t', woken, permit) = permit_at t key p v (find t key) refl i s h in
      let (t'', (passes, left)) =
        blocked_suc max_alloc globals wait other t' key 0 r (rw e permit) in
      (
        t',
        t'',
        woken,
        passes,
        subst (λ i. element max_alloc globals t'' key i ≡ some (pos 0)) e left,
      )
