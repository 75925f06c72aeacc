-- ===== src/Runtime/Thread/Attach.antt =====
-- What runtime_attach_program does to a runtime.
use simbly.Prelude.{
  ◌≡◌, ◌≢◌, refl, sym, ◌∙◌, inl, inr, Bool, true, false, Bool-cases, ℤ, pos, ◌+ℤ◌, fits_int, done,
  done_inj,
}
use simbly.Runtime.Thread.{Runtime, runtime_attach_program, attached}
use simbly.Voids.{CircularList}

module _ {P : Type 0} (list : CircularList P) where
  open list use {Chain, Node, items, append, items-append}

  abbrev R : Type 0
  R = Runtime Chain Node

  attached-true :
      (rt : R) (cnt : ℤ) (o : Chain × Bool)
      → o.1 ≡ true
      → attached list rt cnt o ≡ done (record rt { programs = o.0; program_cnt = cnt })
  attached-true rt cnt (c, true) h = refl
  attached-true rt cnt (c, false) h = cc

  attach_fits :
      (rt : R) (p : P)
      → fits_int (rt.program_cnt +ℤ pos 1) ≡ true
      → runtime_attach_program list rt p
        ≡ attached list rt (rt.program_cnt +ℤ pos 1) (append rt.programs p)
  unfolding runtime_attach_program
  attach_fits rt p h = rw h refl

  attach_overflows :
      (rt rt' : R) (p : P)
      → fits_int (rt.program_cnt +ℤ pos 1) ≡ false
      → runtime_attach_program list rt p ≢ done rt'
  unfolding runtime_attach_program
  attach_overflows rt rt' p h = rw h (λ e. cc)

  -- A program that can be counted is attached behind the others.
  pub attach_done :
      (rt : R) (p : P)
      → fits_int (rt.program_cnt +ℤ pos 1) ≡ true
      → runtime_attach_program list rt p
        ≡ done (record rt {
          programs = (append rt.programs p).0;
          program_cnt = rt.program_cnt +ℤ pos 1;
        })
  attach_done rt p fits =
      attach_fits rt p fits
      ∙ attached-true rt (rt.program_cnt +ℤ pos 1) (append rt.programs p)
          (items-append rt.programs p).2

  pub attach_shape :
      (rt rt' : R) (p : P)
      → runtime_attach_program list rt p ≡ done rt'
      → rt'
        ≡ record rt { programs = (append rt.programs p).0; program_cnt = rt.program_cnt +ℤ pos 1 }
  attach_shape rt rt' p e = elim (Bool-cases (fits_int (rt.program_cnt +ℤ pos 1))) [
    | inl fits ↦ done_inj (sym e ∙ attach_done rt p fits)
    | inr over ↦ absurd (attach_overflows rt rt' p over e)
  ]
