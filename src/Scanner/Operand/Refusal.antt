-- ===== src/Scanner/Operand/Refusal.antt =====
-- What a call of parse_varval_token does to the program when it refuses, and when it accepts.
use simbly.Prelude.{
  ℕ, zero, suc, ◌+◌, ◌<◌, ◌≤◌, [], ◌∷◌, ◌≡◌, refl, ◌⊎◌, inl, inr, Bool, true, false, Bytes, arith,
  Outcome, done, fatal, undefined, ◌==◌, drop, length, Bool-cases, not, if◌then◌else◌,
}
use simbly.Program.{
  Reader, Program, Token, Operand, finished, operand, int_val, int_var, int_arr, unclosed_bracket,
}
use simbly.Scanner.Operand.{
  char_at, NameEnd, at_stop, at_bracket, bad_char, too_long, Scan, scan_name, scan_number, Index,
  index_name, index_number, parse_index, parse_varval_token, atoi, refuse, word_name, word_number,
  word_array, closing_brackets,
}
use simbly.Scanner.Tokens.Append.{Lacks, add_new_token-Appends}
use simbly.Voids.{RingBuffer}

abbrev pub IsStopped : Reader → Type 0
IsStopped r = (r.state ≡ finished) × (r.error_flag ≡ true)

-- An index that is accepted leaves the reader alone; one that is refused stops the program.
abbrev Decides : Reader → Index → Type 0
Decides r i = ((i.success ≡ true) × (i.reader ≡ r)) ⊎ ((i.success ≡ false) × IsStopped i.reader)

scan_name-shorter : (stop k : ℕ) (s : Bytes) → length (scan_name stop k s).1 ≤ length s
unfolding scan_name
scan_name-shorter stop k [] = ground arith
scan_name-shorter stop k (b ∷ s) = ground (arith, scan_name-shorter stop (k + 1) s)

index_name-Decides :
    (nested : Bytes → Index) (first depth : ℕ) (r : Reader) (s : Scan)
    → Decides r (nested (drop 1 s.1))
    → Decides r (index_name nested first depth r s)
index_name-Decides nested first depth r (w, rest, at_stop) h = inl (refl, refl)
index_name-Decides nested first depth r (w, rest, at_bracket) h = h
index_name-Decides nested first depth r (w, rest, bad_char) h = inr (refl, (refl, refl))
index_name-Decides nested first depth r (w, rest, too_long) h = inr (refl, (refl, refl))

length-drop_le : (n : ℕ) (s : Bytes) → length (drop n s) ≤ length s
length-drop_le zero s = omega arith
length-drop_le (suc n) [] = omega arith
length-drop_le (suc n) (b ∷ s) = omega (arith, length-drop_le n s)

-- The rest of the word behind a `[`.
nested-shorter : (s : Bytes) → length (drop 1 (scan_name b']' 0 (drop 1 s)).1) ≤ length s
nested-shorter s = omega (
  arith,
  length-drop_le 1 (scan_name b']' 0 (drop 1 s)).1,
  scan_name-shorter b']' 0 (drop 1 s),
  length-drop_le 1 s,
)

index_number-Decides :
    (s : Bytes) (depth : ℕ) (r : Reader) (e : NameEnd) → Decides r (index_number s depth r e)
index_number-Decides s depth r at_stop = inl (refl, refl)
index_number-Decides s depth r at_bracket = inr (refl, (refl, refl))
index_number-Decides s depth r bad_char = inr (refl, (refl, refl))
index_number-Decides s depth r too_long = inr (refl, (refl, refl))

parse_index-Decides :
    (fuel : ℕ) (s : Bytes) (depth : ℕ) (r : Reader)
    → length s < fuel
    → Decides r (parse_index fuel s depth r)
unfolding parse_index
parse_index-Decides zero s depth r l = elim l [ ]
parse_index-Decides (suc fuel) [] depth r l = inr (refl, (refl, refl))
parse_index-Decides (suc fuel) (b ∷ s) depth r l =
    let scan = scan_name b']' 0 (drop 1 s) in
    ground (
      arith,
      index_name-Decides (λ rest. parse_index fuel rest (depth + 1) r) (char_at s 0) depth r scan
          (parse_index-Decides fuel (drop 1 scan.1) (depth + 1) r
            (omega (arith, nested-shorter s))),
      index_number-Decides (b ∷ s) depth r (scan_number b']' 1 s),
    )

module _ {VarTable : Type 0} (ring : RingBuffer Token) where
  open ring use {Buffer}

  -- A call that returns 1 has left the reader alone, a call that returns 0 has stopped the program
  -- with an error, and the process ends only for want of memory; there is no other outcome.
  abbrev pub Settles : Program VarTable Buffer → Outcome (Program VarTable Buffer × Bool) → Type 0
  Settles p (done (q, true)) = q.reader ≡ p.reader
  Settles p (done (q, false)) = IsStopped q.reader
  Settles p fatal = (o : Operand) × Lacks ring p (operand o)
  Settles p (undefined u) = ⊥

  word_number-Settles :
      (p : Program VarTable Buffer) (e : NameEnd) → Settles p (word_number ring p e)
  word_number-Settles p at_stop =
      let o = int_val (atoi p.input) in
      elim (add_new_token-Appends ring p (operand o)) [
        | inl (b, e, its) ↦ rw e refl
        | inr (e, lacks) ↦ rw e (o, lacks)
      ]
  word_number-Settles p at_bracket = (refl, refl)
  word_number-Settles p bad_char = (refl, refl)
  word_number-Settles p too_long = (refl, refl)

  word_array-Settles :
      (p : Program VarTable Buffer) (w rest : Bytes) (i : Index)
      → Decides p.reader i
      → Settles p (word_array ring p w rest i)
  word_array-Settles p w rest i h =
      let o = int_arr w i.idx in
      elim (add_new_token-Appends ring p (operand o)) [
        | inl (b, e, its) ↦ rw e (settle b h)
        | inr (e, lacks) ↦ rw e (o, lacks)
      ]
    where
      settle :
          (b : Buffer)
          → Decides p.reader i
          → let q = record p { translated_line = b } in
            Settles p (
              if not i.success
              then done (record q { reader = i.reader }, false)
              else if closing_brackets rest == i.depth
              then done (record q { reader = i.reader }, true)
              else refuse ring (record q { reader = i.reader }) unclosed_bracket)
      settle b (inl (good, same)) = rw good (elim (Bool-cases (closing_brackets rest == i.depth)) [
        | inl closed ↦ rw closed same
        | inr left ↦ rw left (refl, refl)
      ])
      settle b (inr (bad, stopped)) = rw bad stopped

  word_name-Settles :
      (p : Program VarTable Buffer) (first : ℕ) (s : Scan) → Settles p (word_name ring p first s)
  word_name-Settles p first (w, rest, at_stop) =
      let o = int_var (first ∷ w) in
      elim (add_new_token-Appends ring p (operand o)) [
        | inl (b, e, its) ↦ rw e refl
        | inr (e, lacks) ↦ rw e (o, lacks)
      ]
  word_name-Settles p first (w, rest, at_bracket) =
      word_array-Settles p (first ∷ w) (drop 1 rest) _ (
        parse_index-Decides (suc (length rest)) (drop 1 rest) 1 p.reader
          (omega (arith, length-drop_le 1 rest)))
  word_name-Settles p first (w, rest, bad_char) = (refl, refl)
  word_name-Settles p first (w, rest, too_long) = (refl, refl)

  -- Whatever the word, parse_varval_token returns, but that it ends the process where there is no
  -- memory for an operand's token, or for eight more places in a buffer that is full. If it returns 1 the position, the state and the messages are as
  -- before; if it returns 0 the program is finished and its error flag is set.
  pub parse_varval_token-Settles :
      (p : Program VarTable Buffer) → Settles p (parse_varval_token ring p)
  unfolding parse_varval_token
  parse_varval_token-Settles p = ground (
    arith,
    word_name-Settles p (char_at p.input 1) (scan_name 0 0 (drop 2 p.input)),
    word_number-Settles p (scan_number 0 1 (drop 1 p.input)),
  )
