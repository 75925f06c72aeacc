-- ===== src/Scanner/Tokens/Append.antt =====
-- What add_new_token of src/scanner.c does: the buffer grows when it is full, if there is memory.
use simbly.Prelude.{
  ◌+◌, ◌≤◌, ◌≡◌, refl, ◌⊎◌, inl, inr, ◌∷◌, [], ◌++◌, arith, length, ltb, true, false, Outcome, done,
  fatal, Bool-cases,
}
use simbly.Program.{Program, Payload, Token}
use simbly.Scanner.Tokens.{default_translated_line_len, new_token, add_new_token}
use simbly.Voids.{RingBuffer}

module _ {VarTable : Type 0} (ring : RingBuffer Token) where
  open ring use {
    Buffer, size, items, write, resize, alloc, write_room, write_full, items-le-size, resize_lem,
  }

  -- The token stands behind the others, and nothing else of the program has changed.
  abbrev pub Appends :
      Program VarTable Buffer → Payload → Outcome (Program VarTable Buffer) → Type 0
  Appends p payload o =
      (b : Buffer) × (o ≡ done (record p { translated_line = b }))
      × (items b ≡ items p.translated_line ++ new_token ring p payload ∷ [])

  -- Memory lacks for the token, or for eight more places in a buffer that is full.
  abbrev pub Lacks : Program VarTable Buffer → Payload → Type 0
  Lacks p payload =
      (alloc (new_token ring p payload) ≡ false)
      ⊎ ((size p.translated_line ≤ length (items p.translated_line))
          × ((resize p.translated_line (size p.translated_line + default_translated_line_len)).1
              ≡ false))

  allocated :
      (p : Program VarTable Buffer) (payload : Payload)
      → alloc (new_token ring p payload) ≡ true
      → Appends p payload (add_new_token ring p payload)
        ⊎ ((add_new_token ring p payload ≡ fatal) × Lacks p payload)
  unfolding add_new_token
  allocated p payload has =
      let tok = new_token ring p payload in
      let old = p.translated_line in
      let n = size old + default_translated_line_len in
      elim (Bool-cases (ltb (length (items old)) (size old))) [
        | inl room ↦ inl (
          (write old tok).0,
          ground (arith, write_room old tok),
          ground (arith, write_room old tok),
        )
        | inr full ↦ elim (Bool-cases (resize old n).1) [
          | inl more ↦ inl (
            (write (resize old n).0 tok).0,
            ground (
              arith,
              write_full old tok,
              write_room (resize old n).0 tok,
              items-le-size old,
              resize_lem old n,
            ),
            ground (arith, write_room (resize old n).0 tok, items-le-size old, resize_lem old n),
          )
          | inr none_left ↦
              inr (ground (arith, write_full old tok), inr (ground (arith, full), none_left))
        ]
      ]

  -- add_new_token, also where the buffer is full, puts the new token behind the others and changes
  -- nothing else of the program, or it ends the process: that is where there is no memory for the
  -- token, or where the buffer is full and there is none for eight more places.
  pub add_new_token-Appends :
      (p : Program VarTable Buffer) (payload : Payload)
      → Appends p payload (add_new_token ring p payload)
        ⊎ ((add_new_token ring p payload ≡ fatal) × Lacks p payload)
  unfolding add_new_token
  add_new_token-Appends p payload = elim (Bool-cases (alloc (new_token ring p payload))) [
    | inl has ↦ allocated p payload has
    | inr fails ↦ inr (rw fails refl, inl fails)
  ]

  -- Where that is not so it returns.
  pub add_new_token_returns :
      (p : Program VarTable Buffer) (payload : Payload)
      → (Lacks p payload → ⊥)
      → Appends p payload (add_new_token ring p payload)
  add_new_token_returns p payload has = elim (add_new_token-Appends p payload) [
    | inl added ↦ added
    | inr (e, lacks) ↦ absurd (has lacks)
  ]
