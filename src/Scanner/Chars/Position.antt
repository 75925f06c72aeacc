-- ===== src/Scanner/Chars/Position.antt =====
-- How the scanner moves through a file: every function of src/scanner.c goes forward over bytes of
-- the file, and `offset` counts them.
use mathlib.Core.List.{append_assoc}
use simbly.Prelude.{
  ℕ, none, ◌+◌, ◌≡◌, refl, sym, ap, ◌∙◌, Bool, true, false, not, ◌&&◌, [], ◌∷◌, ◌++◌, arith, Bytes,
  length, length-append, if◌then◌else◌, is_space, ◌==◌,
}
use simbly.Program.{Reader, last_line}
use simbly.Scanner.Chars.{
  after_newline, after_char, read_byte, flush_chars, flush_up_to_char, flush_line,
  flush_up_to_newline, word_loop, get_next_word, get_next_word_from, word_too_big, is_char,
  is_space_char,
}

-- `r'` stands behind some bytes that `r` had not read. Where `r` has read EOF, so has `r'`.
pub record Advances (r r' : Reader) : Type 0 where
  pub skipped : Bytes
  pub unread_eq : r.unread ≡ skipped ++ r'.unread
  pub offset_eq : r'.offset ≡ r.offset + length skipped
  pub text_eq : r'.text ≡ r.text
  pub ended : r.c ≡ none → r.unread ≡ [] → r'.c ≡ none

-- A reader that differs in what is not the position.
pub same_position :
    (r r' : Reader)
    → r.unread ≡ r'.unread
    → r'.offset ≡ r.offset
    → r'.text ≡ r.text
    → (r.c ≡ none → r'.c ≡ none)
    → Advances r r'
same_position r r' a b c d = record {
  skipped = [];
  unread_eq = a;
  offset_eq = b ∙ omega arith;
  text_eq = c;
  ended = λ e n. d e;
}

pub Advances-refl : (r : Reader) → Advances r r
Advances-refl r = same_position r r refl refl refl (λ e. e)

no_rest : (xs ys : Bytes) → [] ≡ xs ++ ys → ys ≡ []
no_rest [] ys h = sym h
no_rest (x ∷ xs) ys h = cc

pub Advances-trans : {r u v : Reader} → Advances r u → Advances u v → Advances r v
Advances-trans {r = r} {u = u} {v = v} a b = record {
  skipped = a.skipped ++ b.skipped;
  unread_eq =
      a.unread_eq
      ∙ ap (λ w. a.skipped ++ w) b.unread_eq
      ∙ sym (append_assoc a.skipped b.skipped v.unread);
  offset_eq = ground (arith, length-append a.skipped b.skipped, a.offset_eq, b.offset_eq);
  text_eq = b.text_eq ∙ a.text_eq;
  ended = λ e n. b.ended (a.ended e n) (no_rest a.skipped u.unread (sym n ∙ a.unread_eq));
}

-- Either branch of a test that gives a reader and a result.
pub either :
    {X : Type 0} (r : Reader) (b : Bool) (x y : Reader × X)
    → Advances r x.0
    → Advances r y.0
    → Advances r (if b then x else y).0
either r true x y p q = p
either r false x y p q = q

pub read_byte-Advances : (bs : Bytes) (r : Reader) → r.unread ≡ bs → Advances r (read_byte bs r)
unfolding read_byte
read_byte-Advances [] r h = same_position r _ refl refl refl (λ e. refl)
read_byte-Advances (b ∷ bs) r h =
    elim (b == b'\n') as (λ t. Advances r (if t then after_newline b bs r else after_char b bs r)) [
      | true ↦ record {
        skipped = b ∷ [];
        unread_eq = h;
        offset_eq = refl;
        text_eq = refl;
        ended = λ e n. cc;
      }
      | false ↦ record {
        skipped = b ∷ [];
        unread_eq = h;
        offset_eq = refl;
        text_eq = refl;
        ended = λ e n. cc;
      }
    ]

pub read_byte-unread : (b : ℕ) (bs : Bytes) (r : Reader) → (read_byte (b ∷ bs) r).unread ≡ bs
unfolding read_byte
read_byte-unread b bs r = ground arith

flush_chars-Advances : (bs : Bytes) (r : Reader) → r.unread ≡ bs → Advances r (flush_chars bs r).0
unfolding flush_chars
flush_chars-Advances [] r h = read_byte-Advances [] r h
flush_chars-Advances (b ∷ bs) r h =
    let r' = read_byte (b ∷ bs) r in
    let step = read_byte-Advances (b ∷ bs) r h in
    let rest = flush_chars-Advances bs r' (read_byte-unread b bs r) in
    either r (is_space b) _ _ (Advances-trans step rest) step

pub flush_up_to_char-Advances : (r : Reader) → Advances r (flush_up_to_char r).0
unfolding flush_up_to_char
flush_up_to_char-Advances r = flush_chars-Advances r.unread r refl

flush_line-Advances : (bs : Bytes) (r : Reader) → r.unread ≡ bs → Advances r (flush_line bs r).0
unfolding flush_line
flush_line-Advances [] r h =
    either r (is_char b'\n' r.c) _ _ (Advances-refl r) (read_byte-Advances [] r h)
flush_line-Advances (b ∷ bs) r h =
    let r' = read_byte (b ∷ bs) r in
    let step = read_byte-Advances (b ∷ bs) r h in
    let rest = flush_line-Advances bs r' (read_byte-unread b bs r) in
    either r (is_char b'\n' r.c) _ _ (Advances-refl r)
      (either r (not (is_space b)) _ _ step (Advances-trans step rest))

pub flush_up_to_newline-Advances : (r : Reader) → Advances r (flush_up_to_newline r).0
unfolding flush_up_to_newline
flush_up_to_newline-Advances r = flush_line-Advances r.unread r refl

pub word_loop-Advances :
    (max_len : ℕ) (bs : Bytes) (r : Reader) (w : Bytes)
    → r.unread ≡ bs
    → Advances r (word_loop max_len bs r w).0
unfolding word_loop
word_loop-Advances max_len [] r w h =
    either r (length w == max_len) (word_too_big w (read_byte [] r))
      (record (read_byte [] r) { state = last_line; input = w }, length w)
      (same_position r _ refl refl refl (λ e. refl)) (same_position r _ refl refl refl (λ e. refl))
word_loop-Advances max_len (b ∷ bs) r w h =
    let r' = read_byte (b ∷ bs) r in
    let step = read_byte-Advances (b ∷ bs) r h in
    let rest = word_loop-Advances max_len bs r' (w ++ b ∷ []) (read_byte-unread b bs r) in
    either r (length w == max_len) (word_too_big w r')
      (if is_space b
        then (record r' { input = w }, length w)
        else word_loop max_len bs r' (w ++ b ∷ []))
      (Advances-trans step (same_position r' _ refl refl refl (λ e. e)))
      (either r (is_space b) (record r' { input = w }, length w)
        (word_loop max_len bs r' (w ++ b ∷ []))
        (Advances-trans step (same_position r' _ refl refl refl (λ e. e)))
        (Advances-trans step rest))

word_from :
    (max_len : ℕ) (this_line : Bool) (prev_line : ℕ) (r : Reader) (o : Reader × Bool)
    → Advances r o.0
    → Advances r (get_next_word_from max_len this_line prev_line o).0
word_from max_len this_line prev_line r (u, false) a = a
word_from max_len this_line prev_line r (u, true) a =
    either r (this_line && not (prev_line == u.line)) _ _ a
      (Advances-trans a (word_loop-Advances max_len u.unread u _ refl))

pub get_next_word-Advances :
    (max_len : ℕ) (this_line : Bool) (r : Reader) → Advances r (get_next_word max_len this_line r).0
unfolding get_next_word
get_next_word-Advances max_len this_line r =
    either r (this_line && is_char b'\n' r.c) _ _ (Advances-refl r) (
      word_from max_len this_line r.line r
        (if is_space_char r.c then flush_up_to_char r else (r, true))
        (either r (is_space_char r.c) _ _ (flush_up_to_char-Advances r) (Advances-refl r)))
