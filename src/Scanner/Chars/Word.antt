-- ===== src/Scanner/Chars/Word.antt =====
-- What get_next_word reads.
use mathlib.Core.List.{append_assoc, append-nil}
use simbly.Prelude.{
  ℕ, ◌+◌, ◌≤◌, ◌<◌, ◌≡◌, refl, ◌⊎◌, inl, inr, true, false, [], ◌∷◌, ◌++◌, arith, Bytes, is_space,
  length, length-append, ◌∙◌, sym, subst, ◌==◌, Bool-cases, if◌then◌else◌,
}
use simbly.Program.{Reader, finished}
use simbly.Scanner.Chars.{read_byte, word_loop}

-- The bytes up to the first whitespace.
abbrev pub first_word : Bytes → Bytes
first_word [] = []
first_word (b ∷ bs) = if is_space b then [] else b ∷ first_word bs

-- The loop stores all of `u` behind `w`, or it stops the program since the buffer is full.
abbrev pub Reads : ℕ → Bytes → Bytes → Reader × ℕ → Type 0
Reads max_len w u (r, len) =
    ((length w + length u < max_len) × (len ≡ length w + length u) × (r.input ≡ w ++ u))
    ⊎ ((max_len ≤ length w + length u) × (len ≡ 0) × (r.state ≡ finished) × (r.error_flag ≡ true))

word_loop-full :
    (max_len : ℕ) (bs : Bytes) (r : Reader) (w : Bytes)
    → length w ≡ max_len
    → let (r', len) = word_loop max_len bs r w in
      (len ≡ 0) × (r'.state ≡ finished) × (r'.error_flag ≡ true)
unfolding word_loop
word_loop-full max_len [] r w h = ground arith
word_loop-full max_len (b ∷ bs) r w h = ground arith

word_loop-end :
    (max_len : ℕ) (bs : Bytes) (r : Reader) (w : Bytes)
    → length w < max_len
    → first_word bs ≡ []
    → let (r', len) = word_loop max_len bs r w in (len ≡ length w) × (r'.input ≡ w)
unfolding word_loop
word_loop-end max_len [] r w h e = ground arith
word_loop-end max_len (b ∷ bs) r w h e = ground arith

word_loop-next :
    (max_len b : ℕ) (bs : Bytes) (r : Reader) (w : Bytes)
    → length w < max_len
    → is_space b ≡ false
    → word_loop max_len (b ∷ bs) r w ≡ word_loop max_len bs (read_byte (b ∷ bs) r) (w ++ b ∷ [])
unfolding word_loop
word_loop-next max_len b bs r w h e = ground arith

at_full :
    (max_len : ℕ) (bs : Bytes) (r : Reader) (w : Bytes)
    → length w ≡ max_len
    → Reads max_len w (first_word bs) (word_loop max_len bs r w)
at_full max_len bs r w h =
    let f = word_loop-full max_len bs r w h in inr (omega arith, f.0, f.1, f.2)

at_end :
    (max_len : ℕ) (bs : Bytes) (r : Reader) (w : Bytes)
    → length w < max_len
    → first_word bs ≡ []
    → Reads max_len w [] (word_loop max_len bs r w)
at_end max_len bs r w h e =
    let f = word_loop-end max_len bs r w h e in
    inl (omega arith, f.0 ∙ omega arith, f.1 ∙ sym (append-nil w))

prepend :
    (max_len b : ℕ) (w u : Bytes) (o : Reader × ℕ)
    → Reads max_len (w ++ b ∷ []) u o
    → Reads max_len w (b ∷ u) o
prepend max_len b w u o (inl (f, e, i)) = inl (
  ground (arith, length-append w (b ∷ [])),
  ground (arith, length-append w (b ∷ [])),
  i ∙ append_assoc w (b ∷ []) u,
)
prepend max_len b w u o (inr (f, e, s, g)) = inr (ground (arith, length-append w (b ∷ [])), e, s, g)

first_word-space : (b : ℕ) (bs : Bytes) → is_space b ≡ true → first_word (b ∷ bs) ≡ []
first_word-space b bs h = ground arith

first_word-other :
    (b : ℕ) (bs : Bytes) → is_space b ≡ false → first_word (b ∷ bs) ≡ b ∷ first_word bs
first_word-other b bs h = ground arith

-- With `w` read, the loop of get_next_word gives `w` and all that follows up to the first
-- whitespace or the end of the file, if that is shorter than `max_len`; else it stops the program
-- with an error and gives the length 0.
pub word_loop-Reads :
    (max_len : ℕ) (bs : Bytes) (r : Reader) (w : Bytes)
    → length w ≤ max_len
    → Reads max_len w (first_word bs) (word_loop max_len bs r w)
word_loop-Reads max_len [] r w h = elim (Bool-cases (length w == max_len)) [
  | inl full ↦ at_full max_len [] r w (ground arith)
  | inr room ↦ at_end max_len [] r w (ground arith) refl
]
word_loop-Reads max_len (b ∷ bs) r w h = elim (Bool-cases (length w == max_len)) [
  | inl full ↦ at_full max_len (b ∷ bs) r w (ground arith)
  | inr room ↦ elim (Bool-cases (is_space b)) [
    | inl space ↦
        let e = first_word-space b bs space in
        subst (λ u. Reads max_len w u (word_loop max_len (b ∷ bs) r w)) (sym e)
          (at_end max_len (b ∷ bs) r w (ground arith) e)
    | inr other ↦
        let rest =
          word_loop-Reads max_len bs (read_byte (b ∷ bs) r) (w ++ b ∷ [])
            (ground (arith, length-append w (b ∷ []))) in
        subst (λ u. Reads max_len w u (word_loop max_len (b ∷ bs) r w))
          (sym (first_word-other b bs other))
          (subst (λ o. Reads max_len w (b ∷ first_word bs) o)
            (sym (word_loop-next max_len b bs r w (ground arith) other))
            (prepend max_len b w (first_word bs)
              (word_loop max_len bs (read_byte (b ∷ bs) r) (w ++ b ∷ [])) rest))
  ]
]
