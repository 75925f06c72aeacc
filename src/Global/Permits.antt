-- ===== src/Global/Permits.antt =====
-- Runs of many programs over one semaphore, as sequences of the steps that the locks of
-- src/global.c make atomic.
use simbly.Prelude.{
  ℕ, zero, suc, ◌+◌, ◌≡◌, refl, ◌≢◌, ◌⊎◌, Option, some, Bytes, ℤ, pos, arith, done,
}
use simbly.Global.{
  GlobalVar, global_var_store, global_var_up, global_var_down, program_state_blocked, wake,
}
use simbly.Global.Elements.{element, global_var_up-element, global_var_store-others}
use simbly.Global.Semaphore.{global_var_down-element, blocked_zero, blocked_suc}
use simbly.Program.{Program, blocked, instruction_line}
use simbly.Voids.{HashTable}

module _ (max_alloc : ℕ) (globals : HashTable (Option GlobalVar)) (VarTable TokenBuffer : Type 0)
    (key : Bytes) (idx : ℕ) where
  open globals use {Table}

  -- The table after a run from `t₀`, with the count of UPs on the semaphore and of programs that
  -- have passed it. A program that looks at the semaphore is blocked on it. The other steps are
  -- DOWN of anything and STORE to any other element.
  pub data Run (start : Table) : Table → ℕ → ℕ → Type 0 where
    begin : Run start start 0 0
    up :
        {t : Table} {ups passed : ℕ} (t' : Table)
        → Run start t ups passed
        → global_var_up max_alloc globals t key idx ≡ done (t', tt)
        → Run start t' (suc ups) passed
    pass :
        {t : Table} {ups passed : ℕ} (p q : Program VarTable TokenBuffer) (t' : Table)
        → Run start t ups passed
        → p.sem ≡ some key
        → p.blocked_idx ≡ idx
        → p.state ≡ blocked
        → program_state_blocked max_alloc globals (λ s. s) p t ≡ done (q, t')
        → q.state ≡ instruction_line
        → Run start t' ups (suc passed)
    stay :
        {t : Table} {ups passed : ℕ} (p q : Program VarTable TokenBuffer) (t' : Table)
        → Run start t ups passed
        → p.sem ≡ some key
        → p.blocked_idx ≡ idx
        → program_state_blocked max_alloc globals (λ s. s) p t ≡ done (q, t')
        → q.state ≡ blocked
        → Run start t' ups passed
    down :
        {t : Table} {ups passed : ℕ} (p q : Program VarTable TokenBuffer) (j : Bytes) (i : ℕ)
        (t' : Table)
        → Run start t ups passed
        → global_var_down max_alloc globals p t j i ≡ done (q, t')
        → Run start t' ups passed
    store :
        {t : Table} {ups passed : ℕ} (j : Bytes) (i : ℕ) (v : ℤ) (t' : Table)
        → Run start t ups passed
        → (key ≢ j) ⊎ (idx ≢ i)
        → global_var_store max_alloc globals t j i v ≡ done (t', tt)
        → Run start t' ups passed

  -- The count is what it was, plus the UPs, minus the programs that have passed.
  abbrev Balanced : ℕ → Table → ℕ → ℕ → Type 0
  Balanced c₀ t ups passed =
      (c : ℕ) × (element max_alloc globals t key idx ≡ some (pos c)) × (c + passed ≡ c₀ + ups)

  look_passes :
      (c : ℕ) (p q : Program VarTable TokenBuffer) (t t' : Table)
      → p.sem ≡ some key
      → p.blocked_idx ≡ idx
      → p.state ≡ blocked
      → element max_alloc globals t key idx ≡ some (pos c)
      → program_state_blocked max_alloc globals (λ s. s) p t ≡ done (q, t')
      → q.state ≡ instruction_line
      → (d : ℕ) × (c ≡ suc d) × (element max_alloc globals t' key idx ≡ some (pos d))
  look_passes zero p q t t' e n b h l w =
      absurd (ground (arith, blocked_zero max_alloc globals p t key e (rw n h)))
  look_passes (suc d) p q t t' e n b h l w =
      let (u, same, left, _) = taken in (d, refl, ground arith)
    where
      taken :
          (u : Table) × (program_state_blocked max_alloc globals (λ s. s) p t
            ≡ done (wake max_alloc globals p, u))
          × (element max_alloc globals u key idx ≡ some (pos d))
          × Unit {0}
      taken =
          let (u, (same, left)) = blocked_suc max_alloc globals (λ s. s) p t key d e (rw n h) in
          (u, same, rw (← n) left, tt)

  look_stays :
      (c : ℕ) (p q : Program VarTable TokenBuffer) (t t' : Table)
      → p.sem ≡ some key
      → p.blocked_idx ≡ idx
      → element max_alloc globals t key idx ≡ some (pos c)
      → program_state_blocked max_alloc globals (λ s. s) p t ≡ done (q, t')
      → q.state ≡ blocked
      → element max_alloc globals t' key idx ≡ some (pos c)
  look_stays zero p q t t' e n h l w =
      ground (arith, blocked_zero max_alloc globals p t key e (rw n h))
  look_stays (suc d) p q t t' e n h l w =
      let (u, (same, left)) = blocked_suc max_alloc globals (λ s. s) p t key d e (rw n h) in
      ground arith

  -- From a first count that is not negative, however UPs of a semaphore, DOWNs of any, looks of
  -- programs that are blocked on it and STOREs to other elements follow one another, its count is
  -- never below 0, and with the programs that have passed it is the first count plus the UPs.
  pub Run-Balanced :
      {start t : Table} {ups passed : ℕ} (c₀ : ℕ)
      → element max_alloc globals start key idx ≡ some (pos c₀)
      → Run start t ups passed
      → Balanced c₀ t ups passed
  Run-Balanced c₀ h begin = (c₀, h, refl)
  Run-Balanced c₀ h (up {t} t' r e) =
      let (c, k, b) = Run-Balanced c₀ h r in
      (suc c, global_var_up-element max_alloc globals t key idx c k e, omega arith)
  Run-Balanced c₀ h (pass {t} p q t' r s n b l w) =
      let (c, k, bal) = Run-Balanced c₀ h r in
      let (d, same, left) = look_passes c p q t t' s n b k l w in (d, left, omega arith)
  Run-Balanced c₀ h (stay {t} p q t' r s n l w) =
      let (c, k, b) = Run-Balanced c₀ h r in (c, look_stays c p q t t' s n k l w, b)
  Run-Balanced c₀ h (down {t} p q j i t' r e) =
      let (c, k, b) = Run-Balanced c₀ h r in
      (c, (global_var_down-element max_alloc globals p t j key i idx k e).1, b)
  Run-Balanced c₀ h (store {t} j i v t' r ne e) =
      let (c, k, b) = Run-Balanced c₀ h r in
      (c, global_var_store-others max_alloc globals t j key i idx v ne k e, b)
