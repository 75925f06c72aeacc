-- ===== src/Scanner/Chars/Progress.antt =====
-- What get_next_word leaves of a file: how many more words can be read.
use simbly.Prelude.{
  ℕ, suc, ◌≤◌, ◌<◌, ◌≡◌, refl, ap, subst, ◌⊎◌, inl, inr, Bool, true, false, not, ◌&&◌, Option, none,
  some, [], ◌∷◌, ◌++◌, arith, Bytes, length, length-append, ◌==◌, is_space, Bool-cases,
  if◌then◌else◌, if_both,
}
use simbly.Program.{Reader}
use simbly.Scanner.Chars.{
  read_byte, flush_chars, flush_up_to_char, word_loop, get_next_word, get_next_word_from, char_of,
  is_char, is_space_char,
}
use simbly.Scanner.Chars.Position.{Advances, word_loop-Advances, read_byte-unread}

-- How many more words a reader has at most: one for each byte, one more for the character that has been read, and
-- none behind the end of the file.
abbrev pub words_left : Option ℕ → Bytes → ℕ
words_left none [] = 0
words_left (some b) [] = 1
words_left c (b ∷ bs) = suc (suc (length bs))

pub words_left-le : (c : Option ℕ) (bs : Bytes) → words_left c bs ≤ suc (length bs)
words_left-le none [] = omega arith
words_left-le (some b) [] = omega arith
words_left-le none (b ∷ bs) = omega arith
words_left-le (some c) (b ∷ bs) = omega arith

words_left-more :
    (c : Option ℕ) (b : ℕ) (bs : Bytes) → words_left c (b ∷ bs) ≡ suc (suc (length bs))
words_left-more none b bs = refl
words_left-more (some c) b bs = refl

pub Advances-le : (r u : Reader) → Advances r u → length u.unread ≤ length r.unread
Advances-le r u a = omega (arith, ap length a.unread_eq, length-append {0} a.skipped u.unread)

-- A word that starts before the last byte takes at least one.
word_loop-shorter :
    (max_len b : ℕ) (bs : Bytes) (r : Reader) (w : Bytes)
    → length (word_loop max_len (b ∷ bs) r w).0.unread ≤ length bs
unfolding word_loop
word_loop-shorter max_len b bs r w =
    let r' = read_byte (b ∷ bs) r in
    let here : length r'.unread ≤ length bs = omega (arith, ap length (read_byte-unread b bs r)) in
    let rest : length (word_loop max_len bs r' (w ++ b ∷ [])).0.unread ≤ length bs = omega (
      arith,
      here,
      Advances-le r' (word_loop max_len bs r' (w ++ b ∷ [])).0
          (word_loop-Advances max_len bs r' (w ++ b ∷ []) (read_byte-unread b bs r)),
    ) in
    if_both (λ (o : Reader × ℕ). length o.0.unread ≤ length bs) (length w == max_len) here
      (if_both (λ (o : Reader × ℕ). length o.0.unread ≤ length bs) (is_space b) here rest)

-- Whether a word has been read, and what that leaves: the number of words that are left is less, or the
-- file had ended before and the word is EOF.
abbrev pub Progress : ℕ → Reader × ℕ → Type 0
Progress n (r, len) = (len ≡ 0) ⊎ (words_left r.c r.unread < n) ⊎ (r.input ≡ 255 ∷ [])

at_end :
    (max_len : ℕ) (r : Reader)
    → r.unread ≡ []
    → Progress (words_left r.c []) (word_loop max_len [] r (char_of r.c ∷ []))
unfolding word_loop read_byte
at_end max_len r e = elim (Bool-cases (1 == max_len)) [
  | inl over ↦ rw over (inl refl)
  | inr fits ↦ rw (fits, e) (inr (last r.c))
]
  where
    last : (c : Option ℕ) → (0 < words_left c []) ⊎ (char_of c ∷ [] ≡ 255 ∷ [])
    last none = inr refl
    last (some b) = inl (omega arith)

-- A word that is read from the reader's place, with its first character.
from_here :
    (max_len : ℕ) (r : Reader)
    → Progress (words_left r.c r.unread) (word_loop max_len r.unread r (char_of r.c ∷ []))
from_here max_len r = go r.unread refl
  where
    go :
        (bs : Bytes)
        → r.unread ≡ bs
        → Progress (words_left r.c bs) (word_loop max_len bs r (char_of r.c ∷ []))
    go [] e = at_end max_len r e
    go (b ∷ bs) e =
        let o = word_loop max_len (b ∷ bs) r (char_of r.c ∷ []) in
        inr (
          inl (
            omega (
              arith,
              words_left-le o.0.c o.0.unread,
              word_loop-shorter max_len b bs r (char_of r.c ∷ []),
              words_left-more r.c b bs,
            )))

-- flush_up_to_char that finds a character has read one.
flush_chars-shorter :
    (bs : Bytes) (r : Reader)
    → ((flush_chars bs r).1 ≡ false) ⊎ (length (flush_chars bs r).0.unread < length bs)
unfolding flush_chars
flush_chars-shorter [] r = inl refl
flush_chars-shorter (b ∷ bs) r =
    let r' = read_byte (b ∷ bs) r in
    let here : length r'.unread < suc (length bs) =
      omega (arith, ap length (read_byte-unread b bs r)) in
    elim (Bool-cases (is_space b)) [
      | inl space ↦ rw space (elim (flush_chars-shorter bs r') [
        | inl none_found ↦ inl none_found
        | inr shorter ↦ inr (omega (arith, shorter))
      ])
      | inr found ↦ rw found (inr here)
    ]

-- A word that is read from a place with fewer bytes left.
from_shorter :
    (max_len n : ℕ) (r : Reader)
    → length r.unread < n
    → Progress (suc n) (word_loop max_len r.unread r (char_of r.c ∷ []))
from_shorter max_len n r h =
    let o = word_loop max_len r.unread r (char_of r.c ∷ []) in
    inr (
      inl (
        omega (
          arith,
          h,
          words_left-le o.0.c o.0.unread,
          Advances-le r o.0 (word_loop-Advances max_len r.unread r (char_of r.c ∷ []) refl),
        )))

flushed :
    (max_len line n : ℕ) (this_line : Bool) (o : Reader × Bool)
    → (o.1 ≡ false) ⊎ (length o.0.unread < n)
    → Progress (suc n) (get_next_word_from max_len this_line line o)
flushed max_len line n this_line (r, false) h = inl refl
flushed max_len line n this_line (r, true) (inl e) = cc
flushed max_len line n this_line (r, true) (inr h) =
    if_both (Progress (suc n)) (this_line && not (line == r.line)) (inl refl)
      (from_shorter max_len n r h)

words_left-some : (b : ℕ) (bs : Bytes) → words_left (some b) bs ≡ suc (length bs)
words_left-some b [] = refl
words_left-some b (x ∷ bs) = refl

-- A call of get_next_word, for a word of this line or of any.
pub get_next_word-Progress :
    (max_len : ℕ) (this_line : Bool) (r : Reader)
    → Progress (words_left r.c r.unread) (get_next_word max_len this_line r)
unfolding get_next_word flush_up_to_char
get_next_word-Progress max_len this_line r =
    if_both (Progress (words_left r.c r.unread)) (this_line && is_char b'\n' r.c) (inl refl)
      (behind r.c refl)
  where
    stays :
        (c : Option ℕ)
        → r.c ≡ c
        → Progress (words_left c r.unread) (get_next_word_from max_len this_line r.line (r, true))
    stays c e =
        if_both (Progress (words_left c r.unread)) (this_line && not (r.line == r.line)) (inl refl)
          (subst
            (λ k.
              Progress (words_left k r.unread) (word_loop max_len r.unread r (char_of r.c ∷ [])))
            e (from_here max_len r))

    behind :
        (c : Option ℕ)
        → r.c ≡ c
        → Progress (words_left c r.unread) (
            get_next_word_from max_len this_line r.line
              (if is_space_char c then flush_up_to_char r else (r, true)))
    behind none e = stays none e
    behind (some b) e = elim (Bool-cases (is_space b)) [
      | inl space ↦
          rw (space, words_left-some b r.unread)
            (flushed max_len r.line (length r.unread) this_line (flush_up_to_char r)
              (flush_chars-shorter r.unread r))
      | inr other ↦ rw other (stays (some b) e)
    ]
