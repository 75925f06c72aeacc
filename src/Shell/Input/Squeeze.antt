-- ===== src/Shell/Input/Squeeze.antt =====
-- What read_line returns, described without its buffer.
use simbly.Prelude.{
  ℕ, suc, ◌+◌, ◌^◌, ◌<◌, ◌≡◌, refl, sym, ap, ◌∙◌, Bool, true, false, ◌&&◌, Option, none, some, [],
  ◌∷◌, ◌++◌, Bytes, length, is_space, ◌==◌, if◌then◌else◌, done, ◌>>=◌, arith, Bool-cases, inl, inr,
  length-append,
}
use mathlib.Core.List.{append_assoc, append-nil}
use simbly.Shell.Input.Room.{Fits, put_char-Fits, last_room, terminated_room}
use simbly.Shell.Input.{
  max_alloc_size, is_blank, Buffer, put, Stop, read_chars, Line, finish, skip_space, read_line,
}

abbrev pub before : ℕ → Option (Bytes × Bytes) → Option (Bytes × Bytes)
before x none = none
before x (some (l, rest)) = some (x ∷ l, rest)

-- The first line of a text and what is behind it, or nothing where no newline ends it.
abbrev pub first_line : Bytes → Option (Bytes × Bytes)
first_line [] = none
first_line (x ∷ xs) = if x == b'\n' then some ([], xs) else before x (first_line xs)

-- A text with a space for each run of blanks; `blanks` is whether one is before it.
abbrev pub squeeze : Bool → Bytes → Bytes
squeeze blanks [] = []
squeeze blanks (x ∷ xs) =
    if is_blank x
    then (if blanks then squeeze true xs else 32 ∷ squeeze true xs)
    else x ∷ squeeze false xs

-- The text behind the whitespace in front, and how many newlines are in that.
abbrev pub behind_space : Bytes → Bytes
behind_space [] = []
behind_space (x ∷ xs) = if is_space x then behind_space xs else x ∷ xs

abbrev pub newlines : Bytes → ℕ
newlines [] = 0
newlines (x ∷ xs) =
    if is_space x then (if x == b'\n' then suc (newlines xs) else newlines xs) else 0

-- What read_line is to return for a text whose first character is not whitespace.
abbrev pub line_of : ℕ → Option (Bytes × Bytes) → Line
line_of n none = record { line = none; unread = []; empty_inputs = n }
line_of n (some (l, rest)) = record {
  line = some (squeeze false l);
  unread = rest;
  empty_inputs = n;
}

-- Where the loops are to stop.
abbrev Stops : Bytes → Bool → Stop → Option (Bytes × Bytes) → Type 0
Stops bs blanks s none = (s.c ≡ none) × (s.unread ≡ [])
Stops bs blanks s (some (l, rest)) =
    (s.c ≡ some b'\n')
    × (s.unread ≡ rest)
    × (s.buffer.bytes ≡ bs ++ squeeze blanks l)
    × Fits s.buffer
    × (length s.buffer.bytes < 2 ^ 63)

before-Stops :
    (x : ℕ) (bs bs' : Bytes) (blanks blanks' : Bool) (s : Stop) (o : Option (Bytes × Bytes))
    → ((l : Bytes) → bs' ++ squeeze blanks' l ≡ bs ++ squeeze blanks (x ∷ l))
    → Stops bs' blanks' s o
    → Stops bs blanks s (before x o)
before-Stops x bs bs' blanks blanks' s none h k = k
before-Stops x bs bs' blanks blanks' s (some (l, rest)) h (c, u, b, f, k) = (c, u, b ∙ h l, f, k)

squeeze_next :
    (blanks : Bool) (x : ℕ) (l : Bytes)
    → blanks && is_blank x ≡ false
    → squeeze blanks (x ∷ l) ≡ (if is_blank x then 32 else x) ∷ squeeze (is_blank x) l
squeeze_next true x l h = rw h refl
squeeze_next false x l h = elim (Bool-cases (is_blank x)) [
  | inl blank ↦ rw blank refl
  | inr other ↦ rw other refl
]

squeeze_blank :
    (blanks : Bool) (x : ℕ) (l : Bytes)
    → blanks && is_blank x ≡ true
    → squeeze blanks (x ∷ l) ≡ squeeze (is_blank x) l
squeeze_blank true x l h = rw h refl
squeeze_blank false x l h = cc

-- The loops stop where they are to, and never write outside of the buffer.
read_chars-Stops :
    (blanks : Bool) (text : Bytes) (b : Buffer)
    → Fits b
    → length b.bytes + length text < 2 ^ 63
    → (s : Stop) × (read_chars blanks text b ≡ done s) × Stops b.bytes blanks s (first_line text)
unfolding read_chars
read_chars-Stops blanks [] b f h = (_, refl, (refl, refl))
read_chars-Stops blanks (x ∷ xs) b f h = elim (Bool-cases (x == b'\n')) [
  | inl newline ↦
      let (same, fits) = last_room blanks b f (omega arith) in
      rw newline (
        _,
        refl,
        (
          ap some (ground (arith, newline)),
          refl,
          same ∙ sym (append-nil b.bytes),
          fits,
          omega (arith, ap length same),
        ),
      )
  | inr other ↦ elim (Bool-cases (blanks && is_blank x)) [
    | inl passed ↦
        let (s, e, k) = read_chars-Stops (is_blank x) xs b f (omega arith) in
        rw (other, passed)
          (
            s,
            e,
            before-Stops x b.bytes b.bytes blanks (is_blank x) s (first_line xs)
                (λ l. ap (λ r. b.bytes ++ r) (sym (squeeze_blank blanks x l passed))) k,
          )
    | inr kept ↦
        let (b', put, bytes, fits) = put_char-Fits x b f (omega arith) in
        let c = if is_blank x then 32 else x in
        let (s, e, k) =
          read_chars-Stops (is_blank x) xs b' fits
            (omega (arith, ap length bytes, length-append b.bytes (c ∷ []))) in
        rw (other, kept)
          (
            s,
            ap (λ m. m >>= read_chars (is_blank x) xs) put ∙ e,
            before-Stops x b.bytes b'.bytes blanks (is_blank x) s (first_line xs)
                (λ l.
                  ap (λ r. r ++ squeeze (is_blank x) l) bytes
                  ∙ append_assoc b.bytes (c ∷ []) (squeeze (is_blank x) l)
                  ∙ ap (λ r. b.bytes ++ r) (sym (squeeze_next blanks x l kept)))
                k,
          )
  ]
]

finish-Stops :
    (n : ℕ) (s : Stop) (o : Option (Bytes × Bytes))
    → Stops [] false s o
    → finish n s ≡ done (line_of n o)
finish-Stops n s none (c, u) = rw (c, u) refl
finish-Stops n s (some (l, rest)) (c, u, b, f, h) = rw (c, u, terminated_room s.buffer f h, b) refl

skip_space_lem :
    (n : ℕ) (text : Bytes)
    → length text < 2 ^ 63
    → skip_space n text ≡ done (line_of (newlines text + n) (first_line (behind_space text)))
skip_space_lem n [] h = ap (λ k. done (line_of k none)) (omega arith)
skip_space_lem n (x ∷ xs) h = elim (Bool-cases (is_space x)) [
  | inl space ↦
      let m = if x == b'\n' then suc n else n in
      rw space (
        skip_space_lem m xs (omega arith)
        ∙ ap (λ k. done (line_of k (first_line (behind_space xs)))) (ground arith))
  | inr other ↦
      let (b', put, bytes, fits) =
        put_char-Fits x (record { bytes = []; size = max_alloc_size }) (omega arith, omega arith)
          (omega arith) in
      let (s, e, k) =
        read_chars-Stops (is_blank x) xs b' fits (omega (arith, h, ap length bytes)) in
      let not_newline : (x == b'\n') ≡ false = ground arith in
      rw (other, not_newline)
        (ap (λ m. (m >>= read_chars (is_blank x) xs) >>= finish n) put
          ∙ ap (λ m. m >>= finish n) e
          ∙ finish-Stops n s (before x (first_line xs)) (
              before-Stops x [] b'.bytes false (is_blank x) s (first_line xs)
                (λ l.
                  ap (λ r. r ++ squeeze (is_blank x) l) bytes ∙ sym (squeeze_next false x l refl))
                k)
          ∙ ap (λ k. done (line_of k (before x (first_line xs)))) (omega arith))
]

-- A line of input is read with its buffer always large enough: the whitespace in front of it is passed
-- over, each run of blanks in it is one space, and what is unread is what is behind its newline. Where
-- no newline ends it, nothing is returned and all is read.
pub read_line_lem :
    (input : Bytes)
    → length input < 2 ^ 63
    → read_line input ≡ done (line_of (newlines input) (first_line (behind_space input)))
unfolding read_line
read_line_lem input h =
    skip_space_lem 0 input h
    ∙ ap (λ k. done (line_of k (first_line (behind_space input)))) (omega arith)
