-- ===== src/System/Ids.antt =====
-- The IDs of the programs of all runtimes: what they are, and how a command changes them.
use simbly.Global.{GlobalVar}
use simbly.Prelude.{
  ℕ, zero, suc, ◌≤◌, ◌<◌, ◌≡◌, refl, sym, ap, ◌∙◌, ◌⊎◌, true, Bool-cases, inl, inr, Option, List,
  arith, ℤ, pos, ◌+ℤ◌, eqb_ℤ,
}
use simbly.Program.{Program, Cell, Token, Instruction}
use simbly.Runtime.Thread.Invariant.{plus_one}
use simbly.Runtime.Thread.{Runtime}
use simbly.Shell.Commands.{Sh}
use simbly.Shell.Kill.{id_of}
use simbly.System.Commands.{AllSound, FewerIn, OneMore}
use simbly.System.Count.{hit, times}
use simbly.Voids.{HashTable, RingBuffer, CircularList}

pub times_cases : (n : ℕ) → (n ≡ 0) ⊎ (0 < n)
times_cases zero = inl refl
times_cases (suc n) = inr (omega arith)

module _ {VarTable TokenBuffer : Type 0} where
  hit_cases :
      (i : ℤ) (p : Program VarTable TokenBuffer) → (hit i p ≡ 0) ⊎ ((hit i p ≡ 1) × (i ≡ id_of p))
  unfolding hit
  hit_cases i p = elim (Bool-cases (eqb_ℤ (id_of p) i)) [
    | inl same ↦ inr (rw same refl, eqb-eq (id_of p) i same)
    | inr other ↦ inl (rw other refl)
  ]
    where
      eqb-eq : (a b : ℤ) → eqb_ℤ a b ≡ true → b ≡ a
      eqb-eq a b h = ground (arith, h)

module _ (max_alloc : ℕ) (instructions : HashTable Instruction) (vars : HashTable Cell)
    (ring : RingBuffer Token) (globals : HashTable (Option GlobalVar)) (table : instructions.Table)
    (list : CircularList (Program vars.Table ring.Buffer)) where
  open list use {Chain, Node, items, items-init}

  abbrev R : Type 0
  R = Runtime Chain Node

  abbrev Sys : Type 0
  Sys = Sh max_alloc vars ring globals list

  -- Every runtime is sound, no two programs have the same ID, and the IDs that programs have are those
  -- from 1 up to the one that is next.
  pub record IsSystem (rts : List R) (id_cnt : ℤ) : Type 0 where
    pub next_id : ℕ
    pub counter : (id_cnt ≡ pos next_id) × (0 < next_id)
    pub sound : AllSound max_alloc instructions vars ring globals table list rts
    pub once : (i : ℤ) → times list i rts ≤ 1
    pub given : (i : ℤ) → 0 < times list i rts → (k : ℕ) × (i ≡ pos k) × (0 < k) × (k < next_id)

  -- Where no ID has more programs than it had.
  pub fewer-IsSystem :
      (rts rts' : List R) (id_cnt : ℤ)
      → IsSystem rts id_cnt
      → FewerIn max_alloc instructions vars ring globals table list rts rts'
      → IsSystem rts' id_cnt
  fewer-IsSystem rts rts' id_cnt h (sound, fewer) = record {
    next_id = h.next_id;
    counter = h.counter;
    sound = sound;
    once = λ i. omega (arith, fewer i, h.once i);
    given = λ i l. h.given i (omega (arith, fewer i, l));
  }

  -- No program has the next ID.
  fresh :
      (rts : List R) (id_cnt i : ℤ) (h : IsSystem rts id_cnt) → i ≡ id_cnt → times list i rts ≤ 0
  fresh rts id_cnt i h same = elim (times_cases (times list i rts)) [
    | inl nobody ↦ omega (arith, nobody)
    | inr somebody ↦
        let (k, at, positive, below) = h.given i somebody in
        let n : pos k ≡ pos h.next_id = sym at ∙ same ∙ h.counter.0 in
        absurd (ground (arith, n, below))
  ]

  -- Where one program has been added, with the next ID.
  pub more-IsSystem :
      (rts rts' : List R) (id_cnt : ℤ) (p : Program vars.Table ring.Buffer)
      → id_of p ≡ id_cnt
      → IsSystem rts id_cnt
      → OneMore max_alloc instructions vars ring globals table list p rts rts'
      → IsSystem rts' (id_cnt +ℤ pos 1)
  more-IsSystem rts rts' id_cnt p e h (sound, more) = record {
    next_id = suc h.next_id;
    counter = (
      ap (λ v. v +ℤ pos 1) h.counter.0
          ∙ plus_one max_alloc instructions vars ring globals table list h.next_id,
      omega arith,
    );
    sound = sound;
    once = λ i. elim (hit_cases i p) [
      | inl other ↦ omega (arith, more i, other, h.once i)
      | inr (one, same) ↦ omega (arith, more i, one, fresh rts id_cnt i h (same ∙ e))
    ];
    given = λ i l. elim (hit_cases i p) [
      | inl other ↦
          let (k, at, positive, below) = h.given i (omega (arith, more i, other, l)) in
          (k, at, positive, omega (arith, below))
      | inr (one, same) ↦ (h.next_id, same ∙ e ∙ h.counter.0, h.counter.1, omega arith)
    ];
  }
