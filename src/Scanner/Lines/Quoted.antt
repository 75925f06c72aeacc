-- ===== src/Scanner/Lines/Quoted.antt =====
-- The string of PRINT, which print_handler of src/scanner.c reads.
use mathlib.Core.List.{append_assoc, append-nil}
use simbly.Prelude.{
  ℕ, ◌+◌, ◌<◌, ◌≡◌, Bool, true, not, ◌&&◌, some, [], ◌∷◌, ◌++◌, arith, Bytes, is_print, is_space,
  length, length-append, ap, sym, ◌∙◌, ◌==◌,
}
use simbly.Program.{Reader}
use simbly.Scanner.Chars.{read_byte, next_char}
use simbly.Scanner.Lines.{read_string, max_input_str_len}

-- Printable bytes with no quote.
abbrev pub quotable : Bytes → Bool
quotable [] = true
quotable (b ∷ s) = is_print b && not (b == b'"') && quotable s

read_string-next :
    (b : ℕ) (s : Bytes) (r : Reader) (w : Bytes)
    → length w < max_input_str_len
    → is_print b && not (b == b'"') ≡ true
    → read_string (b ∷ s) r w ≡ read_string s (read_byte (b ∷ s) r) (w ++ b ∷ [])
unfolding read_string
read_string-next b s r w h p = ground arith

read_string-end :
    (b : ℕ) (s : Bytes) (r : Reader) (w : Bytes)
    → length w < max_input_str_len
    → is_space b ≡ true
    → let (r', u, ok) = read_string (b'"' ∷ (b ∷ s)) r w in
      (u ≡ w) × (ok ≡ true) × (r'.unread ≡ s) × (r'.c ≡ some b) × (r'.messages ≡ r.messages)
unfolding read_string next_char
read_string-end b s r w h p = ground arith

read_byte-unread :
    (b : ℕ) (s : Bytes) (r : Reader)
    → ((read_byte (b ∷ s) r).unread ≡ s) × ((read_byte (b ∷ s) r).messages ≡ r.messages)
unfolding read_byte
read_byte-unread b s r = ground arith

read_from :
    (u : Bytes) (b : ℕ) (s : Bytes) (r : Reader) (w : Bytes)
    → quotable u ≡ true
    → is_space b ≡ true
    → length w + length u < max_input_str_len
    → let (r', v, ok) = read_string (u ++ (b'"' ∷ (b ∷ s))) r w in
      (v ≡ w ++ u) × (ok ≡ true) × (r'.unread ≡ s) × (r'.c ≡ some b) × (r'.messages ≡ r.messages)
read_from [] b s r w q p h =
    let e = read_string-end b s r w (omega arith) p in
    (e.0 ∙ sym (append-nil w), e.1, e.2, e.3, e.4)
read_from (x ∷ u) b s r w q p h =
    let rest = u ++ (b'"' ∷ (b ∷ s)) in
    let step = read_string-next x rest r w (omega arith) (ground arith) in
    let e =
      read_from u b s (read_byte (x ∷ rest) r) (w ++ x ∷ []) (ground arith) p
        (ground (arith, length-append w (x ∷ []))) in
    (
      ap (λ o. o.1) step ∙ e.0 ∙ append_assoc w (x ∷ []) u,
      ap (λ o. o.2) step ∙ e.1,
      ap (λ o. o.0.unread) step ∙ e.2,
      ap (λ o. o.0.c) step ∙ e.3,
      ap (λ o. o.0.messages) step ∙ e.4 ∙ (read_byte-unread x rest r).1,
    )

-- Behind an opening quote, a string of fewer than 1023 printable characters other than quotes, with
-- its closing quote and one whitespace character, is read back as it was written: the loop of
-- print_handler gives the string, stands behind the whitespace, and reports nothing.
pub read_string-quoted :
    (u : Bytes) (b : ℕ) (s : Bytes) (r : Reader)
    → quotable u ≡ true
    → is_space b ≡ true
    → length u < max_input_str_len
    → let (r', v, ok) = read_string (u ++ (b'"' ∷ (b ∷ s))) r [] in
      (v ≡ u) × (ok ≡ true) × (r'.unread ≡ s) × (r'.c ≡ some b) × (r'.messages ≡ r.messages)
read_string-quoted u b s r q p h = read_from u b s r [] q p (omega arith)
