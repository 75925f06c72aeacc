-- ===== src/Scanner/Tokenize/Table.antt =====
-- The table of instructions that lexer_init of src/scanner.c builds.
use simbly.Prelude.{
  ◌≡◌, refl, ◌≢◌, Bool, true, false, ◌&&◌, Option, none, some, List, [], ◌∷◌, arith, ◌∙◌, sym, ap,
  ◌⊎◌, inl, inr, Bytes, codes, str_eq, str_eq_iff, name_cases, Option-cases, if◌then◌else◌, done,
  done_inj, subst, length, ◌<◌,
}
use simbly.Program.{
  Instruction, load_sym, store_sym, set_sym, add_sym, sub_sym, mul_sym, div_sym, mod_sym, brgt_sym,
  brge_sym, brlt_sym, brle_sym, breq_sym, bra_sym, down_sym, up_sym, sleep_sym, print_sym,
  return_sym,
}
use simbly.Scanner.Tokenize.{instruction_array, insert_all, lexer_init}
use simbly.Voids.{HashTable}

-- The word for an instruction.
abbrev pub mnemonic : Instruction → Bytes
mnemonic load_sym = codes "LOAD"
mnemonic store_sym = codes "STORE"
mnemonic set_sym = codes "SET"
mnemonic add_sym = codes "ADD"
mnemonic sub_sym = codes "SUB"
mnemonic mul_sym = codes "MUL"
mnemonic div_sym = codes "DIV"
mnemonic mod_sym = codes "MOD"
mnemonic brgt_sym = codes "BRGT"
mnemonic brge_sym = codes "BRGE"
mnemonic brlt_sym = codes "BRLT"
mnemonic brle_sym = codes "BRLE"
mnemonic breq_sym = codes "BREQ"
mnemonic bra_sym = codes "BRA"
mnemonic down_sym = codes "DOWN"
mnemonic up_sym = codes "UP"
mnemonic sleep_sym = codes "SLEEP"
mnemonic print_sym = codes "PRINT"
mnemonic return_sym = codes "RETURN"

abbrev lookup : List (Bytes × Instruction) → Bytes → Option Instruction
lookup [] k = none
lookup ((j, c) ∷ l) k = if str_eq j k then some c else lookup l k

abbrev is_none : Option Instruction → Bool
is_none none = true
is_none (some c) = false

-- Each name stands once, and is the mnemonic of its instruction.
abbrev distinct : List (Bytes × Instruction) → Bool
distinct [] = true
distinct ((j, c) ∷ l) = is_none (lookup l j) && distinct l

abbrev named : List (Bytes × Instruction) → Bool
named [] = true
named ((j, c) ∷ l) = str_eq j (mnemonic c) && named l

lookup-named :
    (l : List (Bytes × Instruction)) (k : Bytes) (c : Instruction)
    → named l ≡ true
    → lookup l k ≡ some c
    → k ≡ mnemonic c
lookup-named [] k c h e = cc
lookup-named ((j, d) ∷ l) k c h e =
    ground (arith, str_eq_iff j k, str_eq_iff j (mnemonic d), lookup-named l k c)

all_found : (c : Instruction) → lookup instruction_array (mnemonic c) ≡ some c
unfolding str_eq
all_found load_sym = refl
all_found _ = refl

distinct_head :
    (j : Bytes) (c : Instruction) (l : List (Bytes × Instruction))
    → distinct ((j, c) ∷ l) ≡ true
    → (lookup l j ≡ none) × (distinct l ≡ true)
distinct_head j c l h = ground arith

lookup_self :
    (j : Bytes) (c : Instruction) (l : List (Bytes × Instruction)) → lookup ((j, c) ∷ l) j ≡ some c
lookup_self j c l = ground (arith, str_eq_iff j j)

lookup-ne :
    (j k : Bytes) (c : Instruction) (l : List (Bytes × Instruction))
    → k ≢ j
    → lookup ((j, c) ∷ l) k ≡ lookup l k
lookup-ne j k c l h = ground (arith, str_eq_iff j k)

other_name :
    (j k : Bytes) (c e : Instruction) (l : List (Bytes × Instruction))
    → lookup l j ≡ none
    → lookup l k ≡ some e
    → k ≢ j
other_name j k c e l h f = λ q. cc (ap (lookup l) q, h, f)

module _ (instructions : HashTable Instruction) where
  open instructions use {
    Table, init, find, insert, find-init, insert_new, find-insert_self, find-insert_ne,
  }

  Fresh : Table → List (Bytes × Instruction) → Type 0
  Fresh t l = (k : Bytes) (c : Instruction) → lookup l k ≡ some c → find t k ≡ none

  -- What `t'` has under `k` when the entries of `l` have been added to `t`.
  abbrev Holds : Table → List (Bytes × Instruction) → Table → Bytes → Type 0
  Holds t l t' k =
      ((lookup l k ≡ none) × (find t' k ≡ find t k))
      ⊎ ((is_none (lookup l k) ≡ false) × (find t' k ≡ lookup l k))

  Fresh-rest :
      (j : Bytes) (c : Instruction) (l : List (Bytes × Instruction)) (t : Table)
      → distinct ((j, c) ∷ l) ≡ true
      → Fresh t ((j, c) ∷ l)
      → Fresh (insert t j c).0 l
  unfolding Fresh
  Fresh-rest j c l t d h k e f =
      let ne = other_name j k c e l (distinct_head j c l d).0 f in
      find-insert_ne t j k c ne ∙ h k e (lookup-ne j k c l ne ∙ f)

  Holds-more :
      (j : Bytes) (c : Instruction) (l : List (Bytes × Instruction)) (t t' : Table) (k : Bytes)
      → lookup l j ≡ none
      → find t j ≡ none
      → Holds (insert t j c).0 l t' k
      → Holds t ((j, c) ∷ l) t' k
  Holds-more j c l t t' k e f h = elim (name_cases k j) [
    | inl same ↦ ground (
      arith,
      ap (lookup l) same,
      ap (find t') same,
      ap (find (insert t j c).0) same,
      ap (lookup ((j, c) ∷ l)) same,
      lookup_self j c l,
      find-insert_self t j c f,
    )
    | inr ne ↦ ground (arith, lookup-ne j k c l ne, find-insert_ne t j k c ne)
  ]

  insert_all-Holds :
      (l : List (Bytes × Instruction)) (t : Table)
      → distinct l ≡ true
      → Fresh t l
      → (t' : Table) × (insert_all instructions l t ≡ done t') × ((k : Bytes) → Holds t l t' k)
  unfolding insert_all Fresh
  insert_all-Holds [] t d h = (t, refl, λ k. inl (refl, refl))
  insert_all-Holds ((j, c) ∷ l) t d h =
      let new = h j c (lookup_self j c l) in
      let (t', run, holds) =
        insert_all-Holds l (insert t j c).0 (distinct_head j c l d).1 (Fresh-rest j c l t d h) in
      (
        t',
        ground (arith, insert_new t j c new, run),
        λ k. Holds-more j c l t t' k (distinct_head j c l d).0 new (holds k),
      )

  Holds-at_init :
      (l : List (Bytes × Instruction)) (t' : Table) (k : Bytes)
      → Holds init l t' k
      → find t' k ≡ lookup l k
  Holds-at_init l t' k (inl (e, f)) = f ∙ find-init k ∙ sym e
  Holds-at_init l t' k (inr (e, f)) = f

  found_under :
      (t : Table) (k : Bytes)
      → find t k ≡ lookup instruction_array k
      → (find t k ≡ none) ⊎ ((c : Instruction) × (find t k ≡ some c) × (k ≡ mnemonic c))
  found_under t k e = elim (Option-cases (lookup instruction_array k)) [
    | inl missing ↦ inl (e ∙ missing)
    | inr (c, found) ↦
        inr (c, e ∙ found, lookup-named instruction_array k c (unfold str_eq in refl) found)
  ]

  -- lexer_init succeeds whatever the hash table is, the table it builds finds each instruction
  -- under its own word, and it finds an instruction under no other word.
  pub lexer_init-mnemonics :
      (t : Table) × (lexer_init instructions ≡ done t)
      × ((c : Instruction) → find t (mnemonic c) ≡ some c)
      × ((k : Bytes)
          → (find t k ≡ none) ⊎ ((c : Instruction) × (find t k ≡ some c) × (k ≡ mnemonic c)))
  unfolding lexer_init Fresh
  lexer_init-mnemonics =
      let (t, run, holds) =
        insert_all-Holds instruction_array init (unfold str_eq in refl) (λ k c e. find-init k) in
      (
        t,
        run,
        λ c. Holds-at_init instruction_array t (mnemonic c) (holds (mnemonic c)) ∙ all_found c,
        λ k. found_under t k (Holds-at_init instruction_array t k (holds k)),
      )

  long : (c : Instruction) → 1 < length (mnemonic c)
  long load_sym = omega arith
  long _ = omega arith

  -- The byte that EOF makes names no instruction.
  pub lexer_init-eof : (t : Table) → lexer_init instructions ≡ done t → find t (255 ∷ []) ≡ none
  lexer_init-eof t e =
      let (u, run, found, only) = lexer_init-mnemonics in
      let same : u ≡ t = done_inj (sym run ∙ e) in
      subst (λ v. find v (255 ∷ []) ≡ none) same
        (elim (only (255 ∷ [])) [
          | inl missing ↦ missing
          | inr (c, at, word) ↦ absurd (omega (arith, long c, ap length word))
        ])
