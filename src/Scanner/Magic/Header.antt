-- ===== src/Scanner/Magic/Header.antt =====
-- What parse_magic accepts, and what it does with the rest.
use mathlib.Core.List.{append_assoc}
use simbly.Prelude.{
  ℕ, suc, ◌≡◌, refl, true, false, not, some, [], ◌∷◌, ◌++◌, Bytes, str_eq, take, arith, length, ◌∙◌,
  ap, subst,
}
use simbly.Program.Init.{open_file}
use simbly.Program.{Reader, instruction_line}
use simbly.Scanner.Chars.{read_byte, next_char, flush_up_to_char}
use simbly.Scanner.Magic.{
  magic_bytes, read_magic, parse_magic, check_magic, magic_tail, parse_magic_from,
}

-- One round of the loop.
read_magic-step :
    (n b : ℕ) (s : Bytes) (r : Reader) (w : Bytes)
    → r.unread ≡ b ∷ s
    → read_magic (suc n) r w ≡ read_magic n (read_byte (b ∷ s) r) (w ++ b ∷ [])
unfolding read_magic next_char read_byte
read_magic-step n b s r w e = ground arith

read_byte-facts :
    (b : ℕ) (s : Bytes) (r : Reader)
    → let r' = read_byte (b ∷ s) r in
      (r'.unread ≡ s)
      × (r'.c ≡ some b)
      × (r'.state ≡ r.state)
      × (r'.error_flag ≡ r.error_flag)
      × (r'.messages ≡ r.messages)
unfolding read_byte
read_byte-facts b s r = ground arith

-- What the loop gives on `w`, `b` and a rest.
read_magic-reads :
    (w : Bytes) (b : ℕ) (rest : Bytes) (r : Reader) (acc : Bytes)
    → r.unread ≡ w ++ (b ∷ rest)
    → (r' : Reader) × (read_magic (suc (length w)) r acc ≡ (r', acc ++ (w ++ (b ∷ [])), true))
      × (r'.unread ≡ rest)
      × (r'.c ≡ some b)
      × (r'.state ≡ r.state)
      × (r'.error_flag ≡ r.error_flag)
      × (r'.messages ≡ r.messages)
read_magic-reads [] b rest r acc e =
    let f = read_byte-facts b rest r in
    (
      read_byte (b ∷ rest) r,
      read_magic-step 0 b rest r acc e ∙ unfold read_magic in refl,
      f.0,
      f.1,
      f.2,
      f.3,
      f.4,
    )
read_magic-reads (x ∷ w) b rest r acc e =
    let f = read_byte-facts x (w ++ (b ∷ rest)) r in
    let (r', run, u, c, s, g, m) =
      read_magic-reads w b rest (read_byte (x ∷ (w ++ (b ∷ rest))) r) (acc ++ x ∷ []) f.0 in
    (
      r',
      read_magic-step (suc (length w)) x (w ++ (b ∷ rest)) r acc e
          ∙ run
          ∙ ap (λ k. (r', k, true)) (append_assoc acc (x ∷ []) (w ++ (b ∷ []))),
      u,
      c,
      s ∙ f.2,
      g ∙ f.3,
      m ∙ f.4,
    )

take-append_one : (w : Bytes) (b : ℕ) → take (length w) (w ++ b ∷ []) ≡ w
take-append_one [] b = refl
take-append_one (x ∷ w) b = ap (λ v. x ∷ v) (take-append_one w b)

-- The end of parse_magic, where the loop has stopped on the newline.
after_newline :
    (r : Reader) (w : Bytes)
    → r.c ≡ some b'\n'
    → r.error_flag ≡ false
    → let r' = magic_tail (check_magic (record r { input = w })) in
      (r'.state ≡ instruction_line)
      × (r'.unread ≡ r.unread)
      × (r'.error_flag ≡ not (str_eq magic_bytes w))
unfolding flush_up_to_char
after_newline r w e f = ground arith

-- Whatever the eight bytes of the first line of a file are, parse_magic goes on to the lines of
-- instructions right after it; the error flag tells whether they differ from "#PROGRAM".
pub parse_magic-first_line :
    (w rest : Bytes)
    → length w ≡ 8
    → let r = parse_magic (open_file (w ++ (b'\n' ∷ rest))) in
      (r.state ≡ instruction_line) × (r.unread ≡ rest) × (r.error_flag ≡ not (str_eq magic_bytes w))
unfolding parse_magic
parse_magic-first_line w rest h =
    let f = open_file (w ++ (b'\n' ∷ rest)) in
    let (r, run, u, c, s, g, m) = read_magic-reads w b'\n' rest f [] refl in
    let nine = subst (λ n. read_magic (suc n) f [] ≡ (r, w ++ (b'\n' ∷ []), true)) h run in
    let eight = subst (λ n. take n (w ++ (b'\n' ∷ [])) ≡ w) h (take-append_one w b'\n') in
    let whole =
      ap parse_magic_from nine
      ∙ ap (λ v. magic_tail (check_magic (record r { input = v }))) eight in
    let (a, b, d) = after_newline r w c g in
    (
      ap (λ x. x.state) whole ∙ a,
      ap (λ x. x.unread) whole ∙ b ∙ u,
      ap (λ x. x.error_flag) whole ∙ d,
    )
